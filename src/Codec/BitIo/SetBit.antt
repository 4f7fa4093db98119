-- ===== src/Codec/BitIo/SetBit.antt =====
-- light-server/src/codec/elias_delta.rs: one bit set in packed bytes, and in their stream.
use bitcoin_data.Base.{
  All, Bool, List, Option-cases, [], ap, append_assoc, arith, bit_or, bit_or-lt, bytes_keyed,
  dec_lt, get_elem?, inl, inr, length, ok, refl, set, set-append, suc, sym, true, zero, ℕ, ◌%◌, ◌*◌,
  ◌++◌, ◌+◌, ◌-◌, ◌/◌, ◌<◌, ◌^◌, ◌∙◌, ◌∷◌, ◌≡◌, ◌≤◌,
}
use bitcoin_data.Codec.BitIo.{or_at}
use bitcoin_data.Codec.BitIo.Stream.{byte_bits, unpack, byte_bits-bit_or}

place_bound : (p : ℕ) → 2 ^ (7 - p) < 256
place_bound zero = omega arith
place_bound (suc zero) = omega arith
place_bound (suc (suc zero)) = omega arith
place_bound (suc (suc (suc zero))) = omega arith
place_bound (suc (suc (suc (suc zero)))) = omega arith
place_bound (suc (suc (suc (suc (suc zero))))) = omega arith
place_bound (suc (suc (suc (suc (suc (suc zero)))))) = omega arith
place_bound (suc (suc (suc (suc (suc (suc (suc p))))))) =
    let e : 7 - suc (suc (suc (suc (suc (suc (suc p)))))) ≡ 0 = omega arith in rw e (omega arith)

bit_or-IsByte : (p b : ℕ) → b < 256 → bit_or b (2 ^ (7 - p)) < 256
bit_or-IsByte p b hb = bit_or-lt 8 b (2 ^ (7 - p)) hb (place_bound p)

set-append_left {ℓ} :
    {A : Type ℓ} (xs ys : List A) (p : ℕ) (v : A)
    → p < length xs
    → set (xs ++ ys) p v ≡ set xs p v ++ ys
set-append_left [] ys p v h = absurd (omega arith)
set-append_left (x ∷ xs) ys zero v h = refl
set-append_left (x ∷ xs) ys (suc p) v h = ap (◌∷◌ x) (set-append_left xs ys p v (omega arith))

or_at-cons :
    (b : ℕ) (bytes : List ℕ) (i mask : ℕ) {bytes' : List ℕ}
    → or_at bytes i mask ≡ ok bytes'
    → or_at (b ∷ bytes) (suc i) mask ≡ ok (b ∷ bytes')
unfolding or_at
or_at-cons b bytes i mask e = elim (Option-cases (get_elem? bytes i)) [
  | inl h ↦ ground (arith, h)
  | inr (c, h) ↦ ground (arith, h)
]

set-append_right {ℓ} :
    {A : Type ℓ} (xs ys : List A) (p q : ℕ) (v : A)
    → p ≡ length xs + q
    → set (xs ++ ys) p v ≡ xs ++ set ys q v
set-append_right [] ys p q v e = let e' : p ≡ q = omega arith in rw e'
set-append_right (x ∷ xs) ys zero q v e = absurd (omega arith)
set-append_right (x ∷ xs) ys (suc p) q v e = ap (◌∷◌ x) (set-append_right xs ys p q v (omega arith))

or_at_near :
    (b : ℕ) (bytes : List ℕ) (p : ℕ)
    → p < 8
    → or_at (b ∷ bytes) (p / 8) (2 ^ (7 - p % 8)) ≡ ok (bit_or b (2 ^ (7 - p)) ∷ bytes)
unfolding or_at
or_at_near b bytes p h =
    let q : p / 8 ≡ 0 = omega arith in let m : p % 8 ≡ p = omega arith in rw (q, m)

or_at_far :
    (b : ℕ) (bytes : List ℕ) (p q : ℕ) {bytes' : List ℕ}
    → p ≡ 8 + q
    → or_at bytes (q / 8) (2 ^ (7 - q % 8)) ≡ ok bytes'
    → or_at (b ∷ bytes) (p / 8) (2 ^ (7 - p % 8)) ≡ ok (b ∷ bytes')
or_at_far b bytes p q s e =
    let d : p / 8 ≡ suc (q / 8) = omega arith in
    let m : p % 8 ≡ q % 8 = omega arith in
    rw (d, m) (or_at-cons b bytes (q / 8) (2 ^ (7 - q % 8)) e)

-- The bytes after the bit at stream position `p` has been set.
abbrev pub SetsBit : List ℕ → ℕ → Type 0
SetsBit bytes p =
    (bytes' : List ℕ) × (or_at bytes (p / 8) (2 ^ (7 - p % 8)) ≡ ok bytes')
    × (unpack bytes' ≡ set (unpack bytes) p true)
    × All (λ b. b < 256) bytes'

length-byte_bits : (b p : ℕ) → p < 8 → p < length (byte_bits b)
unfolding byte_bits
length-byte_bits b p h = h

length_is : (b p : ℕ) → 8 ≤ p → p ≡ length (byte_bits b) + (p - 8)
unfolding byte_bits
length_is b p h = omega arith

later :
    (b : ℕ) (bytes : List ℕ) (p : ℕ)
    → 8 ≤ p
    → b < 256
    → SetsBit bytes (p - 8)
    → SetsBit (b ∷ bytes) p
later b bytes p h hb (bytes', e, u, a) = (
  b ∷ bytes',
  or_at_far b bytes p (p - 8) (omega arith) e,
  ap (◌++◌ (byte_bits b)) u
      ∙ sym (set-append_right (byte_bits b) (unpack bytes) p (p - 8) true (length_is b p h)),
  (hb, a),
)

pub or_at-unpack :
    (bytes : List ℕ) (p : ℕ) → p < length bytes * 8 → All (λ b. b < 256) bytes → SetsBit bytes p
or_at-unpack [] p h a = absurd (omega arith)
or_at-unpack (b ∷ bytes) p h a = elim (dec_lt p 8) [
  | yes near ↦ (
    bit_or b (2 ^ (7 - p)) ∷ bytes,
    or_at_near b bytes p near,
    ap (λ (t : List Bool). t ++ unpack bytes) (byte_bits-bit_or p b near a.0)
        ∙ sym (set-append_left (byte_bits b) (unpack bytes) p true (length-byte_bits b p near)),
    (bit_or-IsByte p b a.0, a.1),
  )
  | no far ↦ later b bytes p (omega arith) a.0 (or_at-unpack bytes (p - 8) (omega arith) a.1)
]

pub set_next :
    (all bs : List Bool) (n : ℕ) (x y : Bool) (rest : List Bool)
    → all ≡ bs ++ x ∷ rest
    → n ≡ length bs
    → set all n y ≡ (bs ++ y ∷ []) ++ rest
set_next all bs n x y rest e l = rw (e, l, append_assoc bs (y ∷ []) rest) (set-append bs x y rest)
