-- ===== src/SpentIds/RoundTrip.antt =====
-- light-server/src/index.rs: spent ids read back from their packed stream.
use bitcoin_data.Base.{
  All, List, [], ap, arith, bytes_keyed, false, leb, length, le→leb, lt→ltb, none, ok, refl, some,
  subst, suc, true, ℕ, ◌+◌, ◌-◌, ◌<◌, ◌==◌, ◌^◌, ◌∙◌, ◌∷◌, ◌≡◌,
}
use mathlib.Core.List.{Perm}
use bitcoin_data.Codec.EliasDelta.RoundTrip.{IsCodable, decode_elias_delta_values-encode}
use bitcoin_data.SpentIds.Sorting.{
  IsDistinct, Rises, IsAscending, length-sort, All-sort, sort-perm, sort-IsAscending,
}
use bitcoin_data.SpentIds.{
  decode_elias_delta_values, encode_elias_delta_values, lift_codec, sort, next_value, values_from,
  encode_spent_ids, add_deltas, uids_of, decode_spent_ids,
}

-- A spent id whose first value still fits 64 bits.
abbrev pub IsUid : ℕ → Type 0
IsUid uid = uid < 2 ^ 64 - 1

-- What the values of ascending ids are.
record IsCoded (p : ℕ) (xs vs : List ℕ) : Type 0 where
  made : values_from (some p) xs ≡ ok vs
  codable : All IsCodable vs
  size : length vs ≡ length xs
  read : add_deltas p vs ≡ ok xs

next_value-some : (p x : ℕ) → p < x → next_value (some p) x ≡ ok (x - p)
unfolding next_value
next_value-some p x h = let e : leb p x ≡ true = ground arith in rw e refl

values_from-coded :
    (p x v : ℕ) (xs vs : List ℕ)
    → next_value (some p) x ≡ ok v
    → 0 < v
    → values_from (some x) xs ≡ ok vs
    → values_from (some p) (x ∷ xs) ≡ ok (v ∷ vs)
unfolding values_from
values_from-coded p x v xs vs e h e' = rw (e, lt→ltb 0 v h, e') refl

add_deltas-coded :
    (p x : ℕ) (xs vs : List ℕ)
    → p < x
    → x < 2 ^ 64
    → add_deltas x vs ≡ ok xs
    → add_deltas p ((x - p) ∷ vs) ≡ ok (x ∷ xs)
unfolding add_deltas
add_deltas-coded p x xs vs h fits e =
    let sum : p + (x - p) ≡ x = omega arith in rw (sum, lt→ltb x (2 ^ 64) fits, e) refl

coded : (p : ℕ) (xs : List ℕ) → Rises p xs → All IsUid xs → (vs : List ℕ) × IsCoded p xs vs
unfolding values_from add_deltas
coded p [] r h = ([], record { made = refl; codable = tt; size = refl; read = refl })
coded p (x ∷ xs) r h =
    let (vs, c) = coded x xs r.1 h.1 in
    (
      (x - p) ∷ vs,
      record {
        made =
            values_from-coded p x (x - p) xs vs (next_value-some p x r.0) (omega (arith, r.0))
              c.made;
        codable = ((omega (arith, r.0), omega (arith, h.0)), c.codable);
        size = ap suc c.size;
        read = add_deltas-coded p x xs vs r.0 (omega (arith, h.0)) c.read;
      },
    )

values_from-none :
    (x : ℕ) (xs vs : List ℕ)
    → x < 2 ^ 64 - 1
    → values_from (some x) xs ≡ ok vs
    → values_from none (x ∷ xs) ≡ ok ((x + 1) ∷ vs)
unfolding values_from next_value
values_from-none x xs vs h e =
    rw (lt→ltb (x + 1) (2 ^ 64) (omega arith), lt→ltb 0 (x + 1) (omega arith), e) refl

uids_of-coded :
    (x : ℕ) (xs vs : List ℕ) → add_deltas x vs ≡ ok xs → uids_of ((x + 1) ∷ vs) ≡ ok (x ∷ xs)
unfolding uids_of
uids_of-coded x xs vs e =
    let first : x + 1 - 1 ≡ x = omega arith in rw (le→leb 1 (x + 1) (omega arith), first, e) refl

positive : (n : ℕ) → (suc n == 0) ≡ false
positive n = ground arith

encode_spent_ids-coded :
    (ids : List ℕ) (x : ℕ) (xs values bytes : List ℕ)
    → sort ids ≡ x ∷ xs
    → values_from none (x ∷ xs) ≡ ok values
    → length values < 2 ^ 32
    → encode_elias_delta_values values ≡ ok bytes
    → encode_spent_ids ids ≡ ok (length values, bytes)
unfolding encode_spent_ids lift_codec
encode_spent_ids-coded ids x xs values bytes sorted made small packed =
    rw (sorted, positive (length xs), made, lt→ltb (length values) (2 ^ 32) small, packed) refl

decode_spent_ids-coded :
    (n : ℕ) (bytes values ids : List ℕ)
    → decode_elias_delta_values bytes (suc n) ≡ ok values
    → uids_of values ≡ ok ids
    → decode_spent_ids (suc n) bytes ≡ ok ids
unfolding decode_spent_ids lift_codec
decode_spent_ids-coded n bytes values ids e e' = rw (positive n, e, e') refl

-- Sorted distinct ids, packed and read back.
packed_and_read :
    (ids : List ℕ) (x : ℕ) (xs : List ℕ)
    → sort ids ≡ x ∷ xs
    → IsAscending (x ∷ xs)
    → All IsUid (x ∷ xs)
    → length (x ∷ xs) < 2 ^ 32
    → (bytes : List ℕ) × (encode_spent_ids ids ≡ ok (length (x ∷ xs), bytes))
      × (decode_spent_ids (length (x ∷ xs)) bytes ≡ ok (x ∷ xs))
packed_and_read ids x xs sorted rises fits small =
    let (vs, c) = coded x xs rises fits.1 in
    let size : length ((x + 1) ∷ vs) ≡ length (x ∷ xs) = ap suc c.size in
    let (bytes, packed, read) =
      decode_elias_delta_values-encode ((x + 1) ∷ vs)
        ((omega arith, omega (arith, fits.0)), c.codable) (omega (arith, size, small)) in
    let made =
      encode_spent_ids-coded ids x xs ((x + 1) ∷ vs) bytes sorted
        (values_from-none x xs vs fits.0 c.made) (omega (arith, size, small)) packed in
    (
      bytes,
      made ∙ ap (λ (n : ℕ). ok (n, bytes)) size,
      decode_spent_ids-coded (length xs) bytes ((x + 1) ∷ vs) (x ∷ xs)
          (subst (λ (n : ℕ). decode_elias_delta_values bytes n ≡ ok ((x + 1) ∷ vs)) size read)
          (uids_of-coded x xs vs c.read),
    )

encode_spent_ids-empty : (ids : List ℕ) → sort ids ≡ [] → encode_spent_ids ids ≡ ok (0, [])
unfolding encode_spent_ids
encode_spent_ids-empty ids e = rw e refl

decode_spent_ids-empty : decode_spent_ids 0 [] ≡ ok []
unfolding decode_spent_ids
decode_spent_ids-empty = refl

any_sorted :
    (ids sorted : List ℕ)
    → sort ids ≡ sorted
    → IsAscending sorted
    → All IsUid sorted
    → length sorted < 2 ^ 32
    → (bytes : List ℕ) × (encode_spent_ids ids ≡ ok (length sorted, bytes))
      × (decode_spent_ids (length sorted) bytes ≡ ok sorted)
any_sorted ids [] e rises fits small = ([], encode_spent_ids-empty ids e, decode_spent_ids-empty)
any_sorted ids (x ∷ xs) e rises fits small = packed_and_read ids x xs e rises fits small

-- Distinct ids below 2 ^ 64 - 1, fewer than 2 ^ 32 of them, are packed in any order, with their
-- number, and the stream is read back as the same ids in ascending order.
pub decode_spent_ids-encode :
    (ids : List ℕ)
    → IsDistinct ids
    → All IsUid ids
    → length ids < 2 ^ 32
    → (bytes : List ℕ) × (encode_spent_ids ids ≡ ok (length ids, bytes))
      × (decode_spent_ids (length ids) bytes ≡ ok (sort ids))
      × Perm (sort ids) ids
      × IsAscending (sort ids)
decode_spent_ids-encode ids distinct fits small =
    let rises = sort-IsAscending ids distinct in
    let (bytes, packed, read) =
      any_sorted ids (sort ids) refl rises (All-sort IsUid ids fits)
        (omega (arith, length-sort ids, small)) in
    let size = length-sort ids in
    (
      bytes,
      packed ∙ ap (λ (n : ℕ). ok (n, bytes)) size,
      subst (λ (n : ℕ). decode_spent_ids n bytes ≡ ok (sort ids)) size read,
      sort-perm ids,
      rises,
    )
