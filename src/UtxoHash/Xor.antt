-- ===== src/UtxoHash/Xor.antt =====
-- stats/src/utxo_hash.rs, `xor_into`: exclusive or of bytes and of hashes.
use bitcoin_data.Base.{
  List, [], ap, arith, bit_xor, bit_xor_step, bytes_keyed, refl, suc, sym, zero, ℕ, ◌%◌, ◌*◌, ◌+◌,
  ◌/◌, ◌<◌, ◌∙◌, ◌∷◌, ◌≡◌, ◌≤◌,
}
use Prim.Native.Nat.{differ, bit_xor-bitwise}
use bitcoin_data.UtxoHash.{xor_bytes}

differ_bits : (x y : ℕ) → x < 2 → y < 2 → (differ x y < 2) × (differ x y ≡ differ y x)
differ_bits zero zero h h' = (omega arith, refl)
differ_bits zero (suc zero) h h' = (omega arith, refl)
differ_bits (suc zero) zero h h' = (omega arith, refl)
differ_bits (suc zero) (suc zero) h h' = (omega arith, refl)
differ_bits (suc (suc x)) y h h' = absurd (omega arith)
differ_bits x (suc (suc y)) h h' = absurd (omega arith)

differ_self : (x : ℕ) → differ x x ≡ 0
differ_self zero = refl
differ_self (suc x) = differ_self x

differ_assoc : (x y z : ℕ) → x < 2 → y < 2 → z < 2 → differ x (differ y z) ≡ differ (differ x y) z
differ_assoc zero y z a b c = refl
differ_assoc (suc zero) zero z a b c = refl
differ_assoc (suc zero) (suc zero) zero a b c = refl
differ_assoc (suc zero) (suc zero) (suc zero) a b c = refl
differ_assoc (suc zero) (suc zero) (suc (suc z)) a b c = absurd (omega arith)
differ_assoc (suc zero) (suc (suc y)) z a b c = absurd (omega arith)
differ_assoc (suc (suc x)) y z a b c = absurd (omega arith)

bit_xor-halves :
    (a b : ℕ)
    → (bit_xor a b / 2 ≡ bit_xor (a / 2) (b / 2)) × (bit_xor a b % 2 ≡ differ (a % 2) (b % 2))
bit_xor-halves a b =
    let (small, _) = differ_bits (a % 2) (b % 2) (omega arith) (omega arith) in
    (omega (arith, bit_xor_step a b, small), omega (arith, bit_xor_step a b, small))

bit_xor_comm_fuel : (n a b : ℕ) → a ≤ n → b ≤ n → bit_xor a b ≡ bit_xor b a
bit_xor_comm_fuel zero a b p q =
    let e : a ≡ 0 = omega arith in let f : b ≡ 0 = omega arith in rw (e, f) refl
bit_xor_comm_fuel (suc n) a b p q =
    let (_, swap) = differ_bits (a % 2) (b % 2) (omega arith) (omega arith) in
    omega (
      arith,
      bit_xor_step a b,
      bit_xor_step b a,
      swap,
      bit_xor_comm_fuel n (a / 2) (b / 2) (omega arith) (omega arith),
    )

pub bit_xor_comm : (a b : ℕ) → bit_xor a b ≡ bit_xor b a
bit_xor_comm a b = bit_xor_comm_fuel (a + b) a b (omega arith) (omega arith)

xor-right :
    (a b c : ℕ)
    → bit_xor a (bit_xor b c)
      ≡ bit_xor (a / 2) (bit_xor (b / 2) (c / 2)) * 2 + differ (a % 2) (differ (b % 2) (c % 2))
xor-right a b c =
    let (half, low) = bit_xor-halves b c in
    bit_xor_step a (bit_xor b c)
    ∙ ap (λ (t : ℕ). bit_xor (a / 2) t * 2 + differ (a % 2) (bit_xor b c % 2)) half
    ∙ ap (λ (t : ℕ). bit_xor (a / 2) (bit_xor (b / 2) (c / 2)) * 2 + differ (a % 2) t) low

xor-left :
    (a b c : ℕ)
    → bit_xor (bit_xor a b) c
      ≡ bit_xor (bit_xor (a / 2) (b / 2)) (c / 2) * 2 + differ (differ (a % 2) (b % 2)) (c % 2)
xor-left a b c =
    let (half, low) = bit_xor-halves a b in
    bit_xor_step (bit_xor a b) c
    ∙ ap (λ (t : ℕ). bit_xor t (c / 2) * 2 + differ (bit_xor a b % 2) (c % 2)) half
    ∙ ap (λ (t : ℕ). bit_xor (bit_xor (a / 2) (b / 2)) (c / 2) * 2 + differ t (c % 2)) low

bit_xor_assoc_fuel :
    (n a b c : ℕ) → a ≤ n → b ≤ n → c ≤ n → bit_xor a (bit_xor b c) ≡ bit_xor (bit_xor a b) c
bit_xor_assoc_fuel zero a b c p q r =
    let e : a ≡ 0 = omega arith in
    let f : b ≡ 0 = omega arith in let g : c ≡ 0 = omega arith in rw (e, f, g) refl
bit_xor_assoc_fuel (suc n) a b c p q r = omega (
  arith,
  xor-right a b c,
  xor-left a b c,
  differ_assoc (a % 2) (b % 2) (c % 2) (omega arith) (omega arith) (omega arith),
  bit_xor_assoc_fuel n (a / 2) (b / 2) (c / 2) (omega arith) (omega arith) (omega arith),
)

pub bit_xor_assoc : (a b c : ℕ) → bit_xor a (bit_xor b c) ≡ bit_xor (bit_xor a b) c
bit_xor_assoc a b c = bit_xor_assoc_fuel (a + b + c) a b c (omega arith) (omega arith) (omega arith)

bit_xor_self_fuel : (n a : ℕ) → a ≤ n → bit_xor a a ≡ 0
bit_xor_self_fuel zero a p = let e : a ≡ 0 = omega arith in rw e refl
bit_xor_self_fuel (suc n) a p =
    omega (arith, bit_xor_step a a, differ_self (a % 2), bit_xor_self_fuel n (a / 2) (omega arith))

xor-zero : (a : ℕ) → bit_xor a 0 ≡ a
xor-zero a = bit_xor_comm a 0 ∙ bit_xor-bitwise 0 a

-- A byte mixed in twice is gone.
cancel : (a x : ℕ) → bit_xor (bit_xor a x) x ≡ a
cancel a x =
    sym (bit_xor_assoc a x x) ∙ ap (bit_xor a) (bit_xor_self_fuel x x (omega arith)) ∙ xor-zero a

exchange : (a x y : ℕ) → bit_xor (bit_xor a x) y ≡ bit_xor (bit_xor a y) x
exchange a x y = sym (bit_xor_assoc a x y) ∙ ap (bit_xor a) (bit_xor_comm x y) ∙ bit_xor_assoc a y x

pub xor_bytes_cancel : (us xs : List ℕ) → xor_bytes (xor_bytes us xs) xs ≡ us
unfolding xor_bytes
xor_bytes_cancel [] xs = refl
xor_bytes_cancel (a ∷ us) [] = refl
xor_bytes_cancel (a ∷ us) (x ∷ xs) = rw (cancel a x, xor_bytes_cancel us xs) refl

pub xor_bytes_exchange :
    (us xs ys : List ℕ) → xor_bytes (xor_bytes us xs) ys ≡ xor_bytes (xor_bytes us ys) xs
unfolding xor_bytes
xor_bytes_exchange [] xs ys = refl
xor_bytes_exchange (a ∷ us) [] [] = refl
xor_bytes_exchange (a ∷ us) [] (y ∷ ys) = refl
xor_bytes_exchange (a ∷ us) (x ∷ xs) [] = refl
xor_bytes_exchange (a ∷ us) (x ∷ xs) (y ∷ ys) =
    rw (exchange a x y, xor_bytes_exchange us xs ys) refl
