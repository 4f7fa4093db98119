-- ===== src/Codec/EliasDelta/RoundTrip.antt =====
-- light-server/src/codec/elias_delta.rs: whole streams of values.
use bitcoin_data.Base.{
  All, Bool, List, [], ap, append-nil, append_assoc, bytes_keyed, err, false, length, lt→ltb, ok,
  refl, replicate, subst, sym, ℕ, ◌*◌, ◌++◌, ◌<◌, ◌^◌, ◌∙◌, ◌∷◌, ◌≡◌,
}
use bitcoin_data.Codec.BitIo.{BitWriter, BitReader, new_writer, new_reader, not_positive}
use bitcoin_data.Codec.BitIo.Write.{Holds, new_writer-Holds}
use bitcoin_data.Codec.BitIo.Read.{ahead}
use bitcoin_data.Codec.EliasDelta.{
  encode_one, encode_values_from, encode_elias_delta_values, decode_values_from,
  decode_elias_delta_values, with_capacity,
}
use bitcoin_data.Codec.EliasDelta.Code.{shape, code_word, encode_one-Holds}
use bitcoin_data.Codec.EliasDelta.Decode.{decode_one-code_word}

-- A positive 64-bit integer.
abbrev pub IsCodable : ℕ → Type 0
IsCodable v = (0 < v) × (v < 2 ^ 64)

stream : (vs : List ℕ) → All IsCodable vs → List Bool
stream [] h = []
stream (v ∷ vs) h = code_word (shape v h.0.0 h.0.1) ++ stream vs h.1

encode_values_from-stream :
    (vs : List ℕ) (h : All IsCodable vs) (w : BitWriter) (bs : List Bool)
    → Holds w bs
    → (w' : BitWriter) × (encode_values_from vs w ≡ ok w'.bytes) × Holds w' (bs ++ stream vs h)
unfolding encode_values_from stream
encode_values_from-stream [] h w bs held = (w, refl, rw append-nil held)
encode_values_from-stream (v ∷ vs) h w bs held =
    let word = code_word (shape v h.0.0 h.0.1) in
    let (w', e, held') = encode_one-Holds v (shape v h.0.0 h.0.1) w bs h.0.0 held in
    let (w'', e', held'') = encode_values_from-stream vs h.1 w' (bs ++ word) held' in
    (
      w'',
      rw (e, encode_values_from) e',
      subst (Holds w'') (append_assoc bs word (stream vs h.1)) held'',
    )

decode_values_from-stream :
    (vs : List ℕ) (h : All IsCodable vs) (r : BitReader) (rest : List Bool) (out : List ℕ)
    → ahead r ≡ stream vs h ++ rest
    → decode_values_from (length vs) r out ≡ ok (out ++ vs)
unfolding decode_values_from stream
decode_values_from-stream [] h r rest out e = ap ok (sym (append-nil out))
decode_values_from-stream (v ∷ vs) h r rest out e =
    let word = code_word (shape v h.0.0 h.0.1) in
    let (r', d, e') =
      decode_one-code_word v (shape v h.0.0 h.0.1) r (stream vs h.1 ++ rest) h.0.1
        (e ∙ append_assoc word (stream vs h.1) rest) in
    rw (d, decode_values_from)
      (decode_values_from-stream vs h.1 r' rest (out ++ v ∷ []) e'
        ∙ ap ok (append_assoc out (v ∷ []) vs))

-- On a list of positive 64-bit integers whose 8-byte elements fit a buffer, as those of every Rust
-- vector do, the encoder returns some bytes, with no error and no panic, and the decoder, told how
-- many values there are, reads exactly those values back.
pub decode_elias_delta_values-encode :
    (vs : List ℕ)
    → All IsCodable vs
    → 8 * length vs < 2 ^ 63
    → (bytes : List ℕ) × (encode_elias_delta_values vs ≡ ok bytes)
      × (decode_elias_delta_values bytes (length vs) ≡ ok vs)
unfolding encode_elias_delta_values decode_elias_delta_values with_capacity
decode_elias_delta_values-encode vs h fits =
    let (w, e, held) = encode_values_from-stream vs h new_writer [] new_writer-Holds in
    (
      w.bytes,
      e,
      rw (lt→ltb (8 * length vs) (2 ^ 63) fits) (
          decode_values_from-stream vs h (new_reader w.bytes) (replicate held.pad false) []
            held.stream),
    )

encode_one-zero : (w : BitWriter) → encode_one 0 w ≡ err not_positive
unfolding encode_one
encode_one-zero w = refl

encode_values_from-zero :
    (vs ws : List ℕ) (h : All IsCodable vs) (w : BitWriter) (bs : List Bool)
    → Holds w bs
    → encode_values_from (vs ++ 0 ∷ ws) w ≡ err not_positive
unfolding encode_values_from
encode_values_from-zero [] ws h w bs held = rw (encode_one-zero w, encode_values_from)
encode_values_from-zero (v ∷ vs) ws h w bs held =
    let (w', e, held') = encode_one-Holds v (shape v h.0.0 h.0.1) w bs h.0.0 held in
    rw (e, encode_values_from) (encode_values_from-zero vs ws h.1 w' _ held')

-- A list with a zero in it, behind any positive 64-bit integers, is refused as a whole.
pub encode-zero :
    (vs ws : List ℕ)
    → All IsCodable vs
    → encode_elias_delta_values (vs ++ 0 ∷ ws) ≡ err not_positive
unfolding encode_elias_delta_values
encode-zero vs ws h = encode_values_from-zero vs ws h new_writer [] new_writer-Holds
