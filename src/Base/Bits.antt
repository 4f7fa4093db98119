-- ===== src/Base/Bits.antt =====
-- Machine words as native numbers: the bit operations in plain arithmetic, at every width, and
-- the bit length that Rust's `leading_zeros` counts.
use Prim.Native.Nat.{
  ℕ, zero, suc, ◌+◌, ◌-◌, ◌*◌, ◌/◌, ◌%◌, ◌^◌, ◌≤◌, ◌<◌, min, max, differ, digits, bitwise, bit_and,
  bit_or, bit_xor, bit_and-bitwise, bit_or-bitwise, bit_xor-bitwise,
}
use mathlib.Core.Path.{◌≡◌, refl, sym, ap, ◌∙◌}
use native.Mathlib.Nat.{pow-suc, one-le-pow, div-add-mod}
use native.Mathlib.Omega.{arith}
use bitcoin_data.Base.Tests.{◌==◌, if◌then◌else◌}

-- The recursion that the native operations stand for, one binary digit at a time.
module _ (out : ℕ → ℕ) (op : ℕ → ℕ → ℕ)
    (run_out : (y : ℕ) → out y ≡ out (y / 2) * 2 + op 0 (y % 2)) where
  -- Any fuel that covers the first operand gives the same number.
  digits-fuel : (i j x y : ℕ) → x ≤ i → x ≤ j → digits out op i x y ≡ digits out op j x y
  digits-fuel zero zero x y below below' = refl
  digits-fuel zero (suc j) (suc x) y below below' = absurd (omega arith)
  digits-fuel zero (suc j) zero y below below' = refl
  digits-fuel (suc i) zero (suc x) y below below' = absurd (omega arith)
  digits-fuel (suc i) zero zero y below below' = refl
  digits-fuel (suc i) (suc j) zero y below below' = refl
  digits-fuel (suc i) (suc j) (suc x) y below below' =
      ap (λ (t : ℕ). t * 2 + op (suc x % 2) (y % 2))
        (digits-fuel i j (suc x / 2) (y / 2) (omega arith) (omega arith))

  bitwise_step :
      (x y : ℕ) → bitwise out op x y ≡ bitwise out op (x / 2) (y / 2) * 2 + op (x % 2) (y % 2)
  bitwise_step zero y = run_out y
  bitwise_step (suc x) y =
      ap (λ (t : ℕ). t * 2 + op (suc x % 2) (y % 2))
        (digits-fuel x (suc x / 2) (suc x / 2) (y / 2) (omega arith) (omega arith))

pub bit_and_step : (a b : ℕ) → bit_and a b ≡ bit_and (a / 2) (b / 2) * 2 + min (a % 2) (b % 2)
bit_and_step a b = omega (
  arith,
  bit_and-bitwise a b,
  bit_and-bitwise (a / 2) (b / 2),
  bitwise_step (λ b. zero) min (λ b. omega arith) a b,
)

pub bit_or_step : (a b : ℕ) → bit_or a b ≡ bit_or (a / 2) (b / 2) * 2 + max (a % 2) (b % 2)
bit_or_step a b = omega (
  arith,
  bit_or-bitwise a b,
  bit_or-bitwise (a / 2) (b / 2),
  bitwise_step (λ b. b) max (λ b. omega arith) a b,
)

pub bit_xor_step : (a b : ℕ) → bit_xor a b ≡ bit_xor (a / 2) (b / 2) * 2 + differ (a % 2) (b % 2)
bit_xor_step a b =
    bit_xor-bitwise a b
    ∙ bitwise_step (λ b. b) differ (λ b. omega arith) a b
    ∙ ap (λ (t : ℕ). t * 2 + differ (a % 2) (b % 2)) (sym (bit_xor-bitwise (a / 2) (b / 2)))

pub double : (q k : ℕ) → q * 2 ^ suc k ≡ 2 * (q * 2 ^ k)
double q k = omega (arith, ap (λ (t : ℕ). q * t) (pow-suc 2 k))

zero-bit_or : (b : ℕ) → bit_or 0 b ≡ b
zero-bit_or b = bit_or-bitwise 0 b

or_nothing : (bound x : ℕ) → x ≤ bound → bit_or x 0 ≡ x
or_nothing zero (suc x) within = absurd (omega arith)
or_nothing bound zero within = refl
or_nothing (suc bound) (suc x) within =
    let halved = or_nothing bound (suc x / 2) (omega arith) in
    omega (arith, bit_or_step (suc x) 0, halved)

pub bit_or-zero : (x : ℕ) → bit_or x 0 ≡ x
bit_or-zero x = or_nothing x x (omega arith)

-- `low | (high << k)` is a sum where `low` has at most `k` bits.
pub bit_or_high : (k low high : ℕ) → low < 2 ^ k → bit_or low (high * 2 ^ k) ≡ low + high * 2 ^ k
bit_or_high zero low high h = ground (arith, zero-bit_or high)
bit_or_high (suc k) low high h = ground (
  arith,
  bit_or_step low (high * 2 ^ suc k),
  double high k,
  pow-suc 2 k,
  bit_or_high k (low / 2) high (omega arith),
)

-- The same with the operands exchanged.
pub bit_or_low : (k low high : ℕ) → low < 2 ^ k → bit_or (high * 2 ^ k) low ≡ high * 2 ^ k + low
bit_or_low zero low high h = ground (arith, bit_or-zero high)
bit_or_low (suc k) low high h = ground (
  arith,
  bit_or_step (high * 2 ^ suc k) low,
  double high k,
  pow-suc 2 k,
  bit_or_low k (low / 2) high (omega arith),
)

and_nothing : (bound x : ℕ) → x ≤ bound → bit_and x 0 ≡ 0
and_nothing zero (suc x) within = absurd (omega arith)
and_nothing bound zero within = refl
and_nothing (suc bound) (suc x) within =
    let halved = and_nothing bound (suc x / 2) (omega arith) in
    omega (arith, bit_and_step (suc x) 0, halved)

bit_and-zero : (x : ℕ) → bit_and x 0 ≡ 0
bit_and-zero x = and_nothing x x (omega arith)

-- A mask of `k` ones keeps the lowest `k` digits.
bit_and_ones : (k m q r : ℕ) → m + 1 ≡ 2 ^ k → r < 2 ^ k → bit_and (q * 2 ^ k + r) m ≡ r
bit_and_ones zero m q r h fits =
    let e : m ≡ 0 = omega arith in rw e (omega (arith, bit_and-zero (q * 2 ^ 0 + r)))
bit_and_ones (suc k) m q r h fits = ground (
  arith,
  bit_and_step (q * 2 ^ suc k + r) m,
  double q k,
  pow-suc 2 k,
  one-le-pow k 2,
  bit_and_ones k (m / 2) q (r / 2) (omega (arith, pow-suc 2 k, one-le-pow k 2)),
)

div-add-mod' : (d a : ℕ) → a / d * d + a % d ≡ a
div-add-mod' d a = omega (arith, div-add-mod a d)

pub bit_and_0x7f : (a : ℕ) → bit_and a 0x7f ≡ a % 128
bit_and_0x7f a =
    rw (div-add-mod' 128 a) at (bit_and_ones 7 0x7f (a / 128) (a % 128) (omega arith) (omega arith))

pub bit_and_15 : (a : ℕ) → bit_and a 15 ≡ a % 16
bit_and_15 a =
    rw (div-add-mod' 16 a) at (bit_and_ones 4 15 (a / 16) (a % 16) (omega arith) (omega arith))

pub bit_and_one : (a : ℕ) → bit_and a 1 ≡ a % 2
bit_and_one a =
    rw (div-add-mod' 2 a) at (bit_and_ones 1 1 (a / 2) (a % 2) (omega arith) (omega arith))

differ-zero : (x : ℕ) → differ x 0 ≡ x
differ-zero zero = refl
differ-zero (suc x) = refl

-- Clearing the top bit of a number of `k + 1` bits.
pub bit_xor_top : (k r : ℕ) → r < 2 ^ k → bit_xor (2 ^ k + r) (2 ^ k) ≡ r
bit_xor_top zero r h = let e : r ≡ 0 = omega arith in rw e refl
bit_xor_top (suc k) r h = ground (
  arith,
  bit_xor_step (2 ^ suc k + r) (2 ^ suc k),
  differ-zero (r % 2),
  pow-suc 2 k,
  bit_xor_top k (r / 2) (omega (arith, pow-suc 2 k)),
)

-- The number of binary digits of `v`, for `v` of at most `w` digits.
unfoldable pub bit_length : ℕ → ℕ → ℕ
bit_length zero v = 0
bit_length (suc w) v = if v == 0 then 0 else suc (bit_length w (v / 2))

-- Rust's `leading_zeros` of a `w`-bit unsigned integer.
unfoldable pub leading_zeros : ℕ → ℕ → ℕ
leading_zeros w v = w - bit_length w v

pub bit_length-zero : (w : ℕ) → bit_length w 0 ≡ 0
unfolding bit_length
bit_length-zero zero = refl
bit_length-zero (suc w) = refl

pub bit_length_bounds :
    (w v : ℕ)
    → 0 < v
    → v < 2 ^ w
    → (k : ℕ) × (bit_length w v ≡ suc k) × (2 ^ k ≤ v) × (v < 2 ^ suc k) × (k < w)
unfolding bit_length
bit_length_bounds zero v p h = absurd (omega arith)
bit_length_bounds (suc w) zero p h = absurd (omega arith)
bit_length_bounds (suc w) (suc zero) p h =
    (0, ground (arith, bit_length-zero w), omega arith, omega arith, omega arith)
bit_length_bounds (suc w) (suc (suc v)) p h =
    let (k, e, lo, hi, lt) =
      bit_length_bounds w (suc (suc v) / 2) (omega arith) (omega (arith, pow-suc 2 w)) in
    (
      suc k,
      ground (arith, e),
      omega (arith, lo, pow-suc 2 k),
      omega (arith, hi, pow-suc 2 (suc k)),
      omega (arith, lt),
    )

-- `v` has `k + 1` digits exactly when it lies from `2 ^ k` up to `2 ^ (k + 1)`.
pub bit_length_unique : (w k v : ℕ) → k < w → 2 ^ k ≤ v → v < 2 ^ suc k → bit_length w v ≡ suc k
unfolding bit_length
bit_length_unique zero k v p lo hi = absurd (omega arith)
bit_length_unique (suc w) zero v p lo hi =
    let e : v ≡ 1 = omega arith in rw e (ap suc (bit_length-zero w))
bit_length_unique (suc w) (suc k) v p lo hi = ground (
  arith,
  one-le-pow (suc k) 2,
  bit_length_unique w k (v / 2) (omega arith) (omega (arith, pow-suc 2 k))
      (omega (arith, pow-suc 2 (suc k))),
)

-- The bit of weight `2 ^ k`.
pub bit_and_pow : (k q r : ℕ) → r < 2 ^ k → bit_and (q * 2 ^ k + r) (2 ^ k) ≡ q % 2 * 2 ^ k
bit_and_pow zero q r h = omega (arith, bit_and_one (q * 1 + r))
bit_and_pow (suc k) q r h = ground (
  arith,
  bit_and_step (q * 2 ^ suc k + r) (2 ^ suc k),
  double q k,
  double (q % 2) k,
  pow-suc 2 k,
  bit_and_pow k q (r / 2) (omega (arith, pow-suc 2 k)),
)

-- `|` of two numbers of at most `k` bits has at most `k` bits.
pub bit_or-lt : (k a b : ℕ) → a < 2 ^ k → b < 2 ^ k → bit_or a b < 2 ^ k
bit_or-lt zero a b h h' =
    let p : a ≡ 0 = omega arith in let q : b ≡ 0 = omega arith in rw (p, q) (omega arith)
bit_or-lt (suc k) a b h h' = omega (
  arith,
  pow-suc 2 k,
  bit_or_step a b,
  bit_or-lt k (a / 2) (b / 2) (omega (arith, pow-suc 2 k)) (omega (arith, pow-suc 2 k)),
)

pub sub-leading_zeros : (w v k : ℕ) → bit_length w v ≡ k → k ≤ w → w - leading_zeros w v ≡ k
unfolding leading_zeros
sub-leading_zeros w v k e h = omega (arith, e)

pub bit_or_top : (k low : ℕ) → low < 2 ^ k → bit_or (2 ^ k) low ≡ 2 ^ k + low
bit_or_top k low h = ground (arith, bit_or_low k low 1)
