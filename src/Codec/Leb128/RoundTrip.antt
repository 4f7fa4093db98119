-- ===== src/Codec/Leb128/RoundTrip.antt =====
-- light-server/src/codec/leb128.rs: whole streams.
use bitcoin_data.Base.{
  All, IsU64, List, [], ap, append-nil, append_assoc, bytes_keyed, length, lt→ltb, ok, some, sym, ℕ,
  ◌*◌, ◌++◌, ◌<◌, ◌^◌, ◌∙◌, ◌∷◌, ◌≡◌,
}
use bitcoin_data.Codec.Leb128.{
  encode_values_from, encode_leb128_values, decode_values_from, decode_leb128_values, with_capacity,
}
use bitcoin_data.Codec.Leb128.Encode.{groups, encode_one-groups}
use bitcoin_data.Codec.Leb128.Decode.{decode_value-encoded}

abbrev stream : List ℕ → List ℕ
stream [] = []
stream (v ∷ vs) = groups 9 v ++ stream vs

encode_values_from-stream :
    (vs out : List ℕ) → All IsU64 vs → encode_values_from vs out ≡ some (out ++ stream vs)
unfolding encode_values_from
encode_values_from-stream [] out h = ap some (sym (append-nil out))
encode_values_from-stream (v ∷ vs) out (hv, hvs) =
    rw (encode_one-groups v out hv, encode_values_from)
      (encode_values_from-stream vs (out ++ groups 9 v) hvs
        ∙ ap some (append_assoc out (groups 9 v) (stream vs)))

decode_values_from-stream :
    (vs rest out : List ℕ)
    → All IsU64 vs
    → decode_values_from (length vs) (stream vs ++ rest) out ≡ ok (out ++ vs)
unfolding decode_values_from
decode_values_from-stream [] rest out h = ap ok (sym (append-nil out))
decode_values_from-stream (v ∷ vs) rest out (hv, hvs) =
    rw
      (
        append_assoc (groups 9 v) (stream vs) rest,
        decode_value-encoded v (stream vs ++ rest) hv,
        decode_values_from,
      )
      (decode_values_from-stream vs rest (out ++ v ∷ []) hvs ∙ ap ok (append_assoc out (v ∷ []) vs))

-- On a list of 64-bit values whose elements fit a buffer, as those of every Rust vector do, the
-- encoder ends with some bytes, and the decoder, told how many values there are, reads exactly
-- those values back from these bytes, whatever follows them.
pub decode_leb128_values-encode :
    (vs rest : List ℕ)
    → All IsU64 vs
    → 8 * length vs < 2 ^ 63
    → (bytes : List ℕ) × (encode_leb128_values vs ≡ some bytes)
      × (decode_leb128_values (bytes ++ rest) (length vs) ≡ ok vs)
unfolding encode_leb128_values decode_leb128_values with_capacity
decode_leb128_values-encode vs rest h fits = (
  stream vs,
  encode_values_from-stream vs [] h,
  rw (lt→ltb (8 * length vs) (2 ^ 63) fits) (decode_values_from-stream vs rest [] h),
)
