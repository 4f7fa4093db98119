-- ===== src/LightBlock/Indexes.antt =====
-- light-server/src/index.rs: the transactions of the stored tweaks.
use bitcoin_data.Base.{
  ==_iff, Bool, Bool-cases, List, [], ap, arith, bytes_keyed, false, if◌then◌else◌, inl, inr,
  length, lt→ltb, ok, refl, suc, sym, take, true, zero, ℕ, ◌+◌, ◌-◌, ◌<◌, ◌==◌, ◌^◌, ◌∙◌, ◌∷◌, ◌≡◌,
  ◌≤◌,
}
use bitcoin_data.Bitmap.{validate, is_skipped}
use bitcoin_data.Bitmap.Skipped.{is_set, is_skipped-eq}
use bitcoin_data.Bitmap.Count.{ones, opens, length-opens}
use bitcoin_data.LightBlock.{lift_bitmap, open_indexes, derive_indexes}

open_indexes-step :
    (n tx_count : ℕ) (bitmap : List ℕ) (i wanted : ℕ) (b : Bool) (rest : List ℕ)
    → (wanted == 0) ≡ false
    → is_skipped tx_count bitmap i ≡ ok b
    → i + 1 < 2 ^ 16
    → open_indexes n tx_count bitmap (i + 1) (if b then wanted else wanted - 1) ≡ ok rest
    → open_indexes (suc n) tx_count bitmap i wanted ≡ ok (if b then rest else i ∷ rest)
unfolding open_indexes lift_bitmap
open_indexes-step n tx_count bitmap i wanted b rest some_wanted e h e' =
    rw (some_wanted, e, lt→ltb (i + 1) (2 ^ 16) h, e') refl

open_indexes-none :
    (n tx_count : ℕ) (bitmap : List ℕ) (i : ℕ) → open_indexes n tx_count bitmap i 0 ≡ ok []
unfolding open_indexes
open_indexes-none zero tx_count bitmap i = refl
open_indexes-none (suc n) tx_count bitmap i = refl

-- The loop finds exactly the first indexes that are not skipped.
open_indexes-opens :
    (n tx_count : ℕ) (bitmap : List ℕ) (i wanted : ℕ)
    → validate tx_count bitmap ≡ ok tt
    → i + n ≤ tx_count
    → tx_count < 2 ^ 16
    → open_indexes n tx_count bitmap i wanted ≡ ok (take wanted (opens (is_set bitmap) n i))
unfolding open_indexes
open_indexes-opens zero tx_count bitmap i zero valid inside fits = refl
open_indexes-opens zero tx_count bitmap i (suc wanted) valid inside fits = refl
open_indexes-opens (suc n) tx_count bitmap i zero valid inside fits = refl
open_indexes-opens (suc n) tx_count bitmap i (suc wanted) valid inside fits =
    let f = is_set bitmap in
    let here = is_skipped-eq tx_count bitmap i valid (omega arith) in
    let less : suc wanted - 1 ≡ wanted = omega arith in
    elim (Bool-cases (f i)) [
      | inl full ↦ rw full (
          open_indexes-step n tx_count bitmap i (suc wanted) true
            (take (suc wanted) (opens f n (i + 1))) (ground arith) (here ∙ ap ok full) (omega arith)
            (open_indexes-opens n tx_count bitmap (i + 1) (suc wanted) valid (omega arith) fits))
      | inr free ↦ rw free (
          open_indexes-step n tx_count bitmap i (suc wanted) false (take wanted (opens f n (i + 1)))
            (ground arith) (here ∙ ap ok free) (omega arith)
            (ap (open_indexes n tx_count bitmap (i + 1)) less
              ∙ open_indexes-opens n tx_count bitmap (i + 1) wanted valid (omega arith) fits))
    ]

take_all {ℓ} : {A : Type ℓ} (xs : List A) → take (length xs) xs ≡ xs
take_all [] = refl
take_all (x ∷ xs) = ap (◌∷◌ x) (take_all xs)

-- With as many tweaks as there are transactions that are not skipped, these are the indexes.
pub derive_indexes-opens :
    (tx_count : ℕ) (bitmap : List ℕ) (tweak_count : ℕ)
    → validate tx_count bitmap ≡ ok tt
    → tx_count < 2 ^ 16
    → ones (is_set bitmap) tx_count 0 + tweak_count ≡ tx_count
    → derive_indexes tx_count bitmap tweak_count ≡ ok (opens (is_set bitmap) tx_count 0)
unfolding derive_indexes lift_bitmap
derive_indexes-opens tx_count bitmap tweak_count valid fits counts =
    let all = opens (is_set bitmap) tx_count 0 in
    let size : length all ≡ tweak_count =
      omega (arith, length-opens (is_set bitmap) tx_count 0, counts) in
    let found : open_indexes tx_count tx_count bitmap 0 tweak_count ≡ ok all =
      open_indexes-opens tx_count tx_count bitmap 0 tweak_count valid (omega arith) fits
      ∙ ap (λ (k : ℕ). ok (take k all)) (sym size)
      ∙ ap ok (take_all all) in
    rw (valid, found, (==_iff (length all) tweak_count).1 size) refl

-- Ascending indexes of transactions that are not skipped.
abbrev pub AreOpen : (ℕ → Bool) → ℕ → ℕ → List ℕ → Type 0
AreOpen f tx_count from [] = Unit {0}
AreOpen f tx_count from (i ∷ is) =
    (from ≤ i) × (i < tx_count) × (f i ≡ false) × AreOpen f tx_count (i + 1) is

AreOpen-lower :
    (f : ℕ → Bool) (tx_count low high : ℕ) (is : List ℕ)
    → low ≤ high
    → AreOpen f tx_count high is
    → AreOpen f tx_count low is
AreOpen-lower f tx_count low high [] h a = tt
AreOpen-lower f tx_count low high (i ∷ is) h a = (omega (arith, a.0), a.1, a.2, a.3)

pub opens-AreOpen :
    (f : ℕ → Bool) (tx_count n i : ℕ) → i + n ≤ tx_count → AreOpen f tx_count i (opens f n i)
opens-AreOpen f tx_count zero i h = tt
opens-AreOpen f tx_count (suc n) i h = elim (Bool-cases (f i)) [
  | inl full ↦ rw full (
      AreOpen-lower f tx_count i (i + 1) (opens f n (i + 1)) (omega arith)
        (opens-AreOpen f tx_count n (i + 1) (omega arith)))
  | inr free ↦
      rw free (omega arith, omega arith, free, opens-AreOpen f tx_count n (i + 1) (omega arith))
]
