-- ===== src/Bitmap/Skipped.antt =====
-- light-server/src/index.rs: setting and reading a bit of the bitmap of skipped transactions.
use bitcoin_data.Base.{
  ==_iff, All, Bool, Bool-cases, List, Result, ap, arith, bit_and, bit_and_one, bit_or, bit_or-lt,
  bytes_keyed, ensure, ensure-eq-ok, false, get_or, if◌then◌else◌, inl, inr, length, length-set,
  ltb, ltb→lt, lt→ltb, not, ok, refl, set, true, ℕ, ◌%◌, ◌&&◌, ◌+◌, ◌-◌, ◌/◌, ◌<◌, ◌==◌, ◌^◌, ◌||◌,
  ◌∙◌, ◌≡◌,
}
use bitcoin_data.Helper.{IsByte}
use bitcoin_data.Bitmap.{
  Error, wrong_length, padding_set, validate, set_skipped, is_skipped, bitmap_len,
}
use bitcoin_data.Bitmap.Bits.{
  padding_mask, or_bit, keeps_padding, get_or-set, get_or-IsByte, set-IsByte, pow_below,
}

-- A bitmap of bytes that the checks accept.
pub record IsBitmap (tx_count : ℕ) (bitmap : List ℕ) : Type 0 where
  pub accepted : validate tx_count bitmap ≡ ok tt
  pub bytes : All IsByte bitmap

-- The bit of a transaction.
abbrev pub is_set : List ℕ → ℕ → Bool
is_set bitmap j = not (get_or bitmap (j / 8) 0 / 2 ^ (j % 8) % 2 == 0)

pub is_skipped-eq :
    (n : ℕ) (bitmap : List ℕ) (j : ℕ)
    → validate n bitmap ≡ ok tt
    → j < n
    → is_skipped n bitmap j ≡ ok (not (get_or bitmap (j / 8) 0 / 2 ^ (j % 8) % 2 == 0))
unfolding is_skipped
is_skipped-eq n bitmap j valid h =
    rw (valid, lt→ltb j n h, bit_and_one (get_or bitmap (j / 8) 0 / 2 ^ (j % 8))) refl

set_skipped-eq :
    (n : ℕ) (bitmap : List ℕ) (i : ℕ)
    → validate n bitmap ≡ ok tt
    → i < n
    → set_skipped n bitmap i
      ≡ ok (set bitmap (i / 8) (bit_or (get_or bitmap (i / 8) 0) (2 ^ (i % 8))))
unfolding set_skipped
set_skipped-eq n bitmap i valid h = rw (valid, lt→ltb i n h) refl

ensured : (b : Bool) (e : Error) → ensure b e ≡ ok tt → b ≡ true
ensured true e h = refl
ensured false e h = cc

passes : (a b c : Bool) → (not (a && b) || c) ≡ true → a ≡ true → b ≡ true → c ≡ true
passes a b c h p q = rw (p, q) at h

allows : (a b c : Bool) → (a ≡ true → c ≡ true) → (not (a && b) || c) ≡ true
allows true true c h = h refl
allows true false c h = refl
allows false b c h = refl

abbrev clear_padding : ℕ → List ℕ → Bool
clear_padding n bitmap = bit_and (get_or bitmap (length bitmap - 1) 0) (padding_mask (n % 8)) == 0

validate-eq :
    (n : ℕ) (bitmap : List ℕ)
    → validate n bitmap ≡ ok tt
    → (length bitmap ≡ (n + 7) / 8) × (0 < n % 8 → clear_padding n bitmap ≡ true)
unfolding validate bitmap_len
validate-eq n bitmap e =
    let (sized, rest) =
      ensure-eq-ok (length bitmap == (n + 7) / 8) wrong_length
        (ensure (not (ltb 0 (n % 8) && ltb 0 (length bitmap)) || clear_padding n bitmap)
          padding_set)
        e in
    let size = (==_iff (length bitmap) ((n + 7) / 8)).0 sized in
    (
      size,
      λ used.
          passes (ltb 0 (n % 8)) (ltb 0 (length bitmap)) (clear_padding n bitmap) (ensured _ _ rest)
            (lt→ltb 0 (n % 8) used) (lt→ltb 0 (length bitmap) (omega arith)),
    )

eq-validate :
    (n : ℕ) (bitmap : List ℕ)
    → length bitmap ≡ (n + 7) / 8
    → (0 < n % 8 → clear_padding n bitmap ≡ true)
    → validate n bitmap ≡ ok tt
unfolding validate bitmap_len
eq-validate n bitmap sized clear =
    let first = (==_iff (length bitmap) ((n + 7) / 8)).1 sized in
    let second =
      allows (ltb 0 (n % 8)) (ltb 0 (length bitmap)) (clear_padding n bitmap)
        (λ used. clear (ltb→lt 0 (n % 8) used)) in
    rw (first, second) refl

abbrev set_bit : List ℕ → ℕ → List ℕ
set_bit bitmap i = set bitmap (i / 8) (bit_or (get_or bitmap (i / 8) 0) (2 ^ (i % 8)))

set_bit-clear :
    (n : ℕ) (bitmap : List ℕ) (i : ℕ)
    → All IsByte bitmap
    → i < n
    → 0 < n % 8
    → length bitmap ≡ (n + 7) / 8
    → clear_padding n bitmap ≡ true
    → clear_padding n (set_bit bitmap i) ≡ true
set_bit-clear n bitmap i bytes h used sized clear =
    let v = bit_or (get_or bitmap (i / 8) 0) (2 ^ (i % 8)) in
    rw
      (
        length-set bitmap (i / 8) v,
        get_or-set bitmap (i / 8) (length bitmap - 1) v (omega (arith, sized)),
      )
      (elim (Bool-cases (i / 8 == length bitmap - 1)) [
        | inl here ↦
            let at_last = (==_iff (i / 8) (length bitmap - 1)).0 here in
            rw here (
              keeps_padding (n % 8) (i % 8) (get_or bitmap (i / 8) 0) (omega arith)
                (omega (arith, at_last, sized)) (get_or-IsByte bitmap (i / 8) bytes)
                (rw at_last clear))
        | inr other ↦ rw other clear
      ])

set_bit-IsBitmap :
    (n : ℕ) (bitmap : List ℕ) (i : ℕ) → IsBitmap n bitmap → i < n → IsBitmap n (set_bit bitmap i)
set_bit-IsBitmap n bitmap i w h =
    let (sized, clear) = validate-eq n bitmap w.accepted in
    let low = get_or-IsByte bitmap (i / 8) w.bytes in
    let inside : i / 8 < length bitmap = omega (arith, sized) in
    record {
      accepted =
          eq-validate n (set_bit bitmap i) (length-set bitmap (i / 8) _ ∙ sized)
            (λ used. set_bit-clear n bitmap i w.bytes h used sized (clear used));
      bytes = set-IsByte bitmap (i / 8) _ w.bytes (
          bit_or-lt 8 (get_or bitmap (i / 8) 0) (2 ^ (i % 8)) low
            (pow_below (i % 8) (omega arith)));
    }

same_place : (i j : ℕ) → (i / 8 == j / 8) ≡ true → (i % 8 == j % 8) ≡ (i == j)
same_place i j h = ground arith

other_place : (i j : ℕ) → (i / 8 == j / 8) ≡ false → (i == j) ≡ false
other_place i j h = ground arith

-- The bits after one was set.
bit-set_bit :
    (bitmap : List ℕ) (i j : ℕ)
    → All IsByte bitmap
    → i / 8 < length bitmap
    → get_or (set_bit bitmap i) (j / 8) 0 / 2 ^ (j % 8) % 2
      ≡ (if i == j then 1 else get_or bitmap (j / 8) 0 / 2 ^ (j % 8) % 2)
bit-set_bit bitmap i j bytes inside =
    let v = bit_or (get_or bitmap (i / 8) 0) (2 ^ (i % 8)) in
    rw (get_or-set bitmap (i / 8) (j / 8) v inside) (elim (Bool-cases (i / 8 == j / 8)) [
      | inl here ↦
          let place = (==_iff (i / 8) (j / 8)).0 here in
          rw here (
            or_bit (i % 8) (j % 8) (get_or bitmap (i / 8) 0) (omega arith) (omega arith)
              (get_or-IsByte bitmap (i / 8) bytes)
            ∙ ap (λ (t : Bool). if t then 1 else get_or bitmap (i / 8) 0 / 2 ^ (j % 8) % 2)
                (same_place i j here)
            ∙ ap (λ (t : ℕ). if i == j then 1 else get_or bitmap t 0 / 2 ^ (j % 8) % 2) place)
      | inr other ↦ rw (other, other_place i j other) refl
    ])

set_bit_read :
    (c : Bool) (x : ℕ)
    → ◌≡◌ {A = Result Error Bool}
        (ok (not ((if c then 1 else x) == 0)))
        (if c then ok true else ok (not (x == 0)))
set_bit_read true x = refl
set_bit_read false x = refl

-- Marking a transaction of the block succeeds on every accepted bitmap, the result is accepted, and
-- in it that transaction is skipped and every other one is as it was.
pub is_skipped-set_skipped :
    (n : ℕ) (bitmap : List ℕ) (i j : ℕ)
    → IsBitmap n bitmap
    → i < n
    → j < n
    → (marked : List ℕ) × (set_skipped n bitmap i ≡ ok marked)
      × IsBitmap n marked
      × (is_skipped n marked j ≡ (if i == j then ok true else is_skipped n bitmap j))
is_skipped-set_skipped n bitmap i j w hi hj =
    let marked = set_bit-IsBitmap n bitmap i w hi in
    let sized = (validate-eq n bitmap w.accepted).0 in
    (
      set_bit bitmap i,
      set_skipped-eq n bitmap i w.accepted hi,
      marked,
      rw
          (
            is_skipped-eq n (set_bit bitmap i) j marked.accepted hj,
            is_skipped-eq n bitmap j w.accepted hj,
            bit-set_bit bitmap i j w.bytes (omega (arith, sized)),
          )
          (set_bit_read (i == j) (get_or bitmap (j / 8) 0 / 2 ^ (j % 8) % 2)),
    )
