-- ===== src/Bitmap/Count.antt =====
-- light-server/src/index.rs: the number of skipped transactions of a bitmap.
use bitcoin_data.Base.{
  ==_iff, Bool, Bool-cases, List, Result, [], ap, arith, bytes_keyed, false, if◌then◌else◌, inl,
  inr, length, lt→ltb, ok, ok-injective, refl, suc, sym, true, zero, ℕ, ◌+◌, ◌<◌, ◌==◌, ◌^◌, ◌∙◌,
  ◌∷◌, ◌≡◌, ◌≤◌,
}
use bitcoin_data.Bitmap.{Error, validate, set_skipped, is_skipped, count_from, skipped_count}
use bitcoin_data.Bitmap.Skipped.{IsBitmap, is_set, is_skipped-eq, is_skipped-set_skipped}

-- How often a test holds from `i` on, and where it does not.
abbrev pub ones : (ℕ → Bool) → ℕ → ℕ → ℕ
ones f zero i = 0
ones f (suc n) i = if f i then suc (ones f n (i + 1)) else ones f n (i + 1)

abbrev pub opens : (ℕ → Bool) → ℕ → ℕ → List ℕ
opens f zero i = []
opens f (suc n) i = if f i then opens f n (i + 1) else i ∷ opens f n (i + 1)

pub length-opens : (f : ℕ → Bool) (n i : ℕ) → length (opens f n i) + ones f n i ≡ n
length-opens f zero i = omega arith
length-opens f (suc n) i = elim (Bool-cases (f i)) [
  | inl full ↦ rw full (omega (arith, length-opens f n (i + 1)))
  | inr free ↦ rw free (omega (arith, length-opens f n (i + 1)))
]

ones-le : (f : ℕ → Bool) (n i : ℕ) → ones f n i ≤ n
ones-le f n i = omega (arith, length-opens f n i)

count_from-step :
    (n tx_count : ℕ) (bitmap : List ℕ) (i count : ℕ) (b : Bool)
    → is_skipped tx_count bitmap i ≡ ok b
    → count + 1 < 2 ^ 16
    → count_from (suc n) tx_count bitmap i count
      ≡ count_from n tx_count bitmap (i + 1) (if b then count + 1 else count)
unfolding count_from
count_from-step n tx_count bitmap i count true e h = rw (e, lt→ltb (count + 1) (2 ^ 16) h) refl
count_from-step n tx_count bitmap i count false e h = rw e refl

count_from-ones :
    (n tx_count : ℕ) (bitmap : List ℕ) (i count : ℕ)
    → validate tx_count bitmap ≡ ok tt
    → i + n ≤ tx_count
    → count + n < 2 ^ 16
    → count_from n tx_count bitmap i count ≡ ok (count + ones (is_set bitmap) n i)
unfolding count_from
count_from-ones zero tx_count bitmap i count valid inside fits = ap ok (omega arith)
count_from-ones (suc n) tx_count bitmap i count valid inside fits =
    count_from-step n tx_count bitmap i count (is_set bitmap i)
      (is_skipped-eq tx_count bitmap i valid (omega arith)) (omega arith)
    ∙ elim (Bool-cases (is_set bitmap i)) [
      | inl full ↦ rw full (
          count_from-ones n tx_count bitmap (i + 1) (count + 1) valid (omega arith) (omega arith)
          ∙ ap ok (omega arith))
      | inr free ↦
          rw free
            (count_from-ones n tx_count bitmap (i + 1) count valid (omega arith) (omega arith))
    ]

-- On a bitmap that is accepted the count of skipped transactions has a result: the number of bits
-- that are set.
pub skipped_count-ones :
    (tx_count : ℕ) (bitmap : List ℕ)
    → validate tx_count bitmap ≡ ok tt
    → tx_count < 2 ^ 16
    → skipped_count tx_count bitmap ≡ ok (ones (is_set bitmap) tx_count 0)
unfolding skipped_count
skipped_count-ones tx_count bitmap valid fits = rw valid (
    count_from-ones tx_count tx_count bitmap 0 0 valid (omega arith) (omega arith)
    ∙ ap ok (omega arith))

-- Two tests that agree but at one place.
unfoldable pub Differs : (ℕ → Bool) → (ℕ → Bool) → ℕ → ℕ → Type 0
Differs f g i bound = (j : ℕ) → j < bound → g j ≡ (if i == j then true else f j)

apart : (i j : ℕ) → i < j → (i == j) ≡ false
apart i j h = ground arith

apart' : (i j : ℕ) → j < i → (i == j) ≡ false
apart' i j h = ground arith

ones-beyond :
    (f g : ℕ → Bool) (i bound n from : ℕ)
    → Differs f g i bound
    → i < from
    → from + n ≤ bound
    → ones g n from ≡ ones f n from
unfolding Differs
ones-beyond f g i bound zero from d before inside = refl
ones-beyond f g i bound (suc n) from d before inside =
    let here : g from ≡ f from =
      d from (omega arith) ∙ ap (λ (b : Bool). if b then true else f from) (apart i from before) in
    let rest = ones-beyond f g i bound n (from + 1) d (omega arith) (omega arith) in
    ap (λ (b : Bool). if b then suc (ones g n (from + 1)) else ones g n (from + 1)) here
    ∙ ap (λ (k : ℕ). if f from then suc k else k) rest

pub ones-set :
    (f g : ℕ → Bool) (i bound n from : ℕ)
    → Differs f g i bound
    → f i ≡ false
    → from ≤ i
    → i < from + n
    → from + n ≤ bound
    → ones g n from ≡ suc (ones f n from)
unfolding Differs
ones-set f g i bound zero from d free low high inside = absurd (omega arith)
ones-set f g i bound (suc n) from d free low high inside = elim (Bool-cases (i == from)) [
  | inl here ↦
      let e : i ≡ from = (==_iff i from).0 here in
      let set_now : g from ≡ true =
        d from (omega arith) ∙ ap (λ (b : Bool). if b then true else f from) here in
      let was_free : f from ≡ false = ap f (sym e) ∙ free in
      let rest = ones-beyond f g i bound n (from + 1) d (omega (arith, e)) (omega arith) in
      ap (λ (b : Bool). if b then suc (ones g n (from + 1)) else ones g n (from + 1)) set_now
      ∙ ap suc rest
      ∙ sym (
          ap (λ (b : Bool). suc (if b then suc (ones f n (from + 1)) else ones f n (from + 1)))
            was_free)
  | inr other ↦
      let same : g from ≡ f from =
        d from (omega arith) ∙ ap (λ (b : Bool). if b then true else f from) other in
      let rest =
        ones-set f g i bound n (from + 1) d free (ground arith) (omega arith) (omega arith) in
      ap (λ (b : Bool). if b then suc (ones g n (from + 1)) else ones g n (from + 1)) same
      ∙ ap (λ (k : ℕ). if f from then suc k else k) rest
      ∙ elim (Bool-cases (f from)) [ inl full ↦ rw full refl | inr free_here ↦ rw free_here refl ]
]

read_ok :
    (b c : Bool) (x : Bool)
    → ◌≡◌ {A = Result Error Bool} (ok x) (if b then ok true else ok c)
    → x ≡ (if b then true else c)
read_ok true c x e = ok-injective e
read_ok false c x e = ok-injective e

-- Skipping a transaction that was not skipped.
pub record IsMarked (tx_count : ℕ) (bitmap : List ℕ) (i : ℕ) (marked : List ℕ) : Type 0 where
  pub made : set_skipped tx_count bitmap i ≡ ok marked
  pub accepted : IsBitmap tx_count marked
  pub differs : Differs (is_set bitmap) (is_set marked) i tx_count
  pub counted : ones (is_set marked) tx_count 0 ≡ suc (ones (is_set bitmap) tx_count 0)

abbrev Marks : ℕ → List ℕ → ℕ → ℕ → Type 0
Marks tx_count bitmap i j =
    (marked : List ℕ) × (set_skipped tx_count bitmap i ≡ ok marked)
    × IsBitmap tx_count marked
    × (is_skipped tx_count marked j ≡ (if i == j then ok true else is_skipped tx_count bitmap j))

marked_bits :
    (tx_count : ℕ) (bitmap marked : List ℕ) (i : ℕ)
    → IsBitmap tx_count bitmap
    → i < tx_count
    → set_skipped tx_count bitmap i ≡ ok marked
    → IsBitmap tx_count marked
    → Differs (is_set bitmap) (is_set marked) i tx_count
unfolding Differs
marked_bits tx_count bitmap marked i w h e w' j hj =
    let (other, made, _, read) = is_skipped-set_skipped tx_count bitmap i j w h hj in
    let same : marked ≡ other = ok-injective (sym e ∙ made) in
    read_ok (i == j) (is_set bitmap j) (is_set marked j) (
      sym (is_skipped-eq tx_count marked j w'.accepted hj)
      ∙ ap (λ (m : List ℕ). is_skipped tx_count m j) same
      ∙ read
      ∙ ap (λ (r : Result Error Bool). if i == j then ok true else r)
          (is_skipped-eq tx_count bitmap j w.accepted hj))

pub set_skipped-IsMarked :
    (tx_count : ℕ) (bitmap : List ℕ) (i : ℕ)
    → IsBitmap tx_count bitmap
    → i < tx_count
    → is_set bitmap i ≡ false
    → (marked : List ℕ) × IsMarked tx_count bitmap i marked
set_skipped-IsMarked tx_count bitmap i w h free =
    let (marked, made, w', _) = is_skipped-set_skipped tx_count bitmap i i w h h in
    let d = marked_bits tx_count bitmap marked i w h made w' in
    (
      marked,
      record {
        made = made;
        accepted = w';
        differs = d;
        counted =
            ones-set (is_set bitmap) (is_set marked) i tx_count tx_count 0 d free (omega arith)
              (omega arith) (omega arith);
      },
    )
