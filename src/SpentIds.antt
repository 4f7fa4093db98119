-- ===== src/SpentIds.antt =====
-- light-server/src/index.rs: the ids of spent outputs, sorted and packed by Elias delta. An id is a
-- `u64`, and the count a `u32`.
pub mod Sorting
pub mod RoundTrip
use bitcoin_data.Base.{
  List, Option, Result, [], bytes_keyed, ensure, err, if◌then◌else◌, leb, length, ltb, none, ok,
  some, ℕ, ◌+◌, ◌-◌, ◌==◌, ◌>>=◌, ◌>>◌, ◌^◌, ◌∷◌,
}
use bitcoin_data.Codec.BitIo
use bitcoin_data.Codec.EliasDelta.{encode_elias_delta_values, decode_elias_delta_values}

pub data Error : Type 0 where
  uid_overflow not_ascending duplicate_uid too_many_uids : Error
  stream_not_empty no_values invalid_first delta_overflow : Error
  codec_error : BitIo.Error → Error

unfoldable pub lift_codec {ℓ} : {A : Type ℓ} → Result BitIo.Error A → Result Error A
lift_codec (ok a) = ok a
lift_codec (err e) = err (codec_error e)

-- `sort_unstable`.
unfoldable pub insert_sorted : ℕ → List ℕ → List ℕ
insert_sorted x [] = x ∷ []
insert_sorted x (y ∷ ys) = if leb x y then x ∷ y ∷ ys else y ∷ insert_sorted x ys

unfoldable pub sort : List ℕ → List ℕ
unfolding insert_sorted
sort [] = []
sort (x ∷ xs) = insert_sorted x (sort xs)

-- The first id plus one, then the differences.
unfoldable pub next_value : Option ℕ → ℕ → Result Error ℕ
next_value none uid = do ensure (ltb (uid + 1) (2 ^ 64)) uid_overflow; ok (uid + 1)
next_value (some prev_uid) uid = do ensure (leb prev_uid uid) not_ascending; ok (uid - prev_uid)

unfoldable pub values_from : Option ℕ → List ℕ → Result Error (List ℕ)
unfolding next_value
values_from prev [] = ok []
values_from prev (uid ∷ ids) = do
  value ← next_value prev uid
  ensure (ltb 0 value) duplicate_uid
  values ← values_from (some uid) ids
  ok (value ∷ values)

unfoldable pub encode_spent_ids : List ℕ → Result Error (ℕ × List ℕ)
unfolding sort values_from lift_codec
encode_spent_ids spent_ids =
    let ids = sort spent_ids in
    if length ids == 0 then ok (0, []) else do
      values ← values_from none ids
      ensure (ltb (length values) (2 ^ 32)) too_many_uids
      bytes ← lift_codec (encode_elias_delta_values values)
      ok (length values, bytes)

unfoldable pub add_deltas : ℕ → List ℕ → Result Error (List ℕ)
add_deltas uid [] = ok []
add_deltas uid (delta ∷ deltas) = do
  ensure (ltb (uid + delta) (2 ^ 64)) delta_overflow
  rest ← add_deltas (uid + delta) deltas
  ok ((uid + delta) ∷ rest)

-- The ids of the decoded values; `values[0]` panics where there are none.
unfoldable pub uids_of : List ℕ → Result Error (List ℕ)
unfolding add_deltas
uids_of [] = err no_values
uids_of (value ∷ deltas) = do
  ensure (leb 1 value) invalid_first
  rest ← add_deltas (value - 1) deltas
  ok ((value - 1) ∷ rest)

unfoldable pub decode_spent_ids : ℕ → List ℕ → Result Error (List ℕ)
unfolding lift_codec uids_of
decode_spent_ids spent_count spent_ids =
    if spent_count == 0
    then (do ensure (length spent_ids == 0) stream_not_empty; ok [])
    else (do values ← lift_codec (decode_elias_delta_values spent_ids spent_count); uids_of values)
