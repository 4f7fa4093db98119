-- ===== src/Bitmap/Bits.antt =====
-- light-server/src/index.rs: a bit set and read in a byte, checked at every byte.
use bitcoin_data.Base.{
  ==_iff, All, Bool, List, [], arith, bit_and, bit_or, bytes_keyed, get_or, holds_below,
  holds_below_sound, if◌then◌else◌, length, ltb, ltb→lt, lt→ltb, not, refl, set, suc, true, zero, ℕ,
  ◌%◌, ◌&&◌, ◌-◌, ◌/◌, ◌<◌, ◌==◌, ◌^◌, ◌||◌, ◌∷◌, ◌≡◌,
}
use bitcoin_data.Helper.{IsByte}

or_bit_test : ℕ → ℕ → ℕ → Bool
or_bit_test i j x = bit_or x (2 ^ i) / 2 ^ j % 2 == (if i == j then 1 else x / 2 ^ j % 2)

or_bit_tests : ℕ → ℕ → Bool
unfolding or_bit_test
or_bit_tests i j = holds_below (or_bit_test i j) 256

all_or_bit_tests : Bool
unfolding or_bit_tests
all_or_bit_tests = holds_below (λ i. holds_below (or_bit_tests i) 8) 8

all_or_bit_tests-holds : all_or_bit_tests ≡ true
unfolding all_or_bit_tests or_bit_tests or_bit_test holds_below
all_or_bit_tests-holds = refl

abbrev pub padding_mask : ℕ → ℕ
padding_mask used = 255 - (2 ^ used - 1)

-- A bit below the used ones keeps the padding clear.
padding_test : ℕ → ℕ → ℕ → Bool
padding_test used i x =
    not (ltb i used && bit_and x (padding_mask used) == 0)
    || bit_and (bit_or x (2 ^ i)) (padding_mask used) == 0

padding_tests : ℕ → ℕ → Bool
unfolding padding_test
padding_tests used i = holds_below (padding_test used i) 256

all_padding_tests : Bool
unfolding padding_tests
all_padding_tests = holds_below (λ used. holds_below (padding_tests used) 8) 8

all_padding_tests-holds : all_padding_tests ≡ true
unfolding all_padding_tests padding_tests padding_test holds_below
all_padding_tests-holds = refl

pub or_bit :
    (i j x : ℕ)
    → i < 8
    → j < 8
    → x < 256
    → bit_or x (2 ^ i) / 2 ^ j % 2 ≡ (if i == j then 1 else x / 2 ^ j % 2)
unfolding all_or_bit_tests or_bit_tests or_bit_test
or_bit i j x hi hj hx =
    let a =
      holds_below_sound (λ i'. holds_below (or_bit_tests i') 8) 8 i all_or_bit_tests-holds hi in
    let b = holds_below_sound (or_bit_tests i) 8 j a hj in
    let c = holds_below_sound (or_bit_test i j) 256 x b hx in
    (==_iff (bit_or x (2 ^ i) / 2 ^ j % 2) (if i == j then 1 else x / 2 ^ j % 2)).0 c

pub keeps_padding :
    (used i x : ℕ)
    → used < 8
    → i < used
    → x < 256
    → (bit_and x (padding_mask used) == 0) ≡ true
    → (bit_and (bit_or x (2 ^ i)) (padding_mask used) == 0) ≡ true
unfolding all_padding_tests padding_tests padding_test
keeps_padding used i x hu hi hx clear =
    let a =
      holds_below_sound (λ u. holds_below (padding_tests u) 8) 8 used all_padding_tests-holds hu in
    let b = holds_below_sound (padding_tests used) 8 i a (omega arith) in
    let c = holds_below_sound (padding_test used i) 256 x b hx in rw (lt→ltb i used hi, clear) at c

pub get_or-set :
    (xs : List ℕ) (i j v : ℕ)
    → i < length xs
    → get_or (set xs i v) j 0 ≡ (if i == j then v else get_or xs j 0)
get_or-set [] i j v h = absurd (omega arith)
get_or-set (x ∷ xs) zero zero v h = refl
get_or-set (x ∷ xs) zero (suc j) v h = ground arith
get_or-set (x ∷ xs) (suc i) zero v h = ground arith
get_or-set (x ∷ xs) (suc i) (suc j) v h = ground (arith, get_or-set xs i j v (omega arith))

pub get_or-IsByte : (xs : List ℕ) (i : ℕ) → All IsByte xs → get_or xs i 0 < 256
get_or-IsByte [] i h = omega arith
get_or-IsByte (x ∷ xs) zero h = h.0
get_or-IsByte (x ∷ xs) (suc i) h = get_or-IsByte xs i h.1

pub set-IsByte : (xs : List ℕ) (i v : ℕ) → All IsByte xs → v < 256 → All IsByte (set xs i v)
set-IsByte [] i v h p = tt
set-IsByte (x ∷ xs) zero v h p = (p, h.1)
set-IsByte (x ∷ xs) (suc i) v h p = (h.0, set-IsByte xs i v h.1 p)

pub pow_below : (s : ℕ) → s < 8 → 2 ^ s < 256
unfolding holds_below
pow_below s h = ltb→lt (2 ^ s) 256 (holds_below_sound (λ s'. ltb (2 ^ s') 256) 8 s refl h)
