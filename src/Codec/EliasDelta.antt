-- ===== src/Codec/EliasDelta.antt =====
-- light-server/src/codec/elias_delta.rs: the Elias delta code of positive 64-bit integers.
pub mod Code
pub mod Decode
pub mod RoundTrip
pub mod Total
use bitcoin_data.Base.{
  List, Result, [], bit_or, bit_xor, bytes_keyed, ensure, err, false, if◌then◌else◌, leading_zeros,
  leb, ltb, none, ok, ok_or, some, suc, zero, ℕ, ◌&&◌, ◌*◌, ◌++◌, ◌+◌, ◌-◌, ◌==◌, ◌>>=◌, ◌>>◌, ◌^◌,
  ◌∷◌,
}
use bitcoin_data.Codec.BitIo.{
  BitWriter, BitReader, new_writer, new_reader, push_bit, push_bits, read_bit, read_bits, Error,
  not_positive, invalid_prefix, truncated_prefix, truncated_length, invalid_length, truncated_value,
  out_of_fuel, capacity_overflow,
}

-- `for _ in 0..n { w.push_bit(false) }`.
unfoldable pub push_zeros : BitWriter → ℕ → Result Error BitWriter
push_zeros w zero = ok w
push_zeros w (suc n) = do w' ← push_bit w false; push_zeros w' n

unfoldable pub encode_one : ℕ → BitWriter → Result Error BitWriter
encode_one value w = do
  ensure (leb 1 value) not_positive
  let n_bits = 64 - leading_zeros 64 value
  let len_bits = 32 - leading_zeros 32 n_bits
  w₁ ← push_zeros w (len_bits - 1)
  w₂ ← push_bits w₁ n_bits len_bits
  if ltb 1 n_bits then push_bits w₂ (bit_xor value (2 ^ (n_bits - 1))) (n_bits - 1) else ok w₂

encode_values_from : List ℕ → BitWriter → Result Error (List ℕ)
encode_values_from [] w = ok w.bytes
encode_values_from (value ∷ values) w = do w' ← encode_one value w; encode_values_from values w'

unfoldable pub encode_elias_delta_values : List ℕ → Result Error (List ℕ)
unfolding encode_values_from
encode_elias_delta_values values = encode_values_from values new_writer

-- The loop over the zeros of the prefix, on fuel.
unfoldable pub read_prefix : ℕ → ℕ → BitReader → Result Error (ℕ × BitReader)
read_prefix zero _ r = err out_of_fuel
read_prefix (suc fuel) zeros r = do
  got ← read_bit r
  elim got [
    | none ↦ err truncated_prefix
    | some (bit, r') ↦
        let more = read_prefix fuel (zeros + 1) r' in
        if bit then ok (zeros, r') else if leb (zeros + 1) 63 then more else err invalid_prefix
  ]

unfoldable pub read_length : ℕ → BitReader → Result Error (ℕ × BitReader)
read_length zeros r =
    if ltb 0 zeros
    then (do
      got ← read_bits r zeros
      (x, r') ← ok_or got truncated_length
      ok (bit_or (2 ^ zeros) x, r'))
    else ok (2 ^ zeros, r)

unfoldable pub read_tail : ℕ → BitReader → Result Error (ℕ × BitReader)
read_tail tail_bits r =
    if tail_bits == 0
    then ok (0, r)
    else (do got ← read_bits r tail_bits; ok_or got truncated_value)

-- The prefix loop ends within 64 rounds, since 64 zeros are refused.
unfoldable pub decode_one : BitReader → Result Error (ℕ × BitReader)
unfolding read_prefix read_length read_tail
decode_one r = do
  (zeros, r₁) ← read_prefix 64 0 r
  (n_bits, r₂) ← read_length zeros r₁
  ensure (leb 1 n_bits && leb n_bits 64) invalid_length
  let tail_bits = n_bits - 1
  (tail, r₃) ← read_tail tail_bits r₂
  ok (bit_or (2 ^ tail_bits) tail, r₃)

decode_values_from : ℕ → BitReader → List ℕ → Result Error (List ℕ)
decode_values_from zero r out = ok out
decode_values_from (suc count) r out = do
  (value, r') ← decode_one r
  decode_values_from count r' (out ++ value ∷ [])

-- `Vec::with_capacity(count)` for 8-byte elements: a buffer of more than `isize::MAX` bytes panics.
unfoldable pub with_capacity : ℕ → Result Error (List ℕ)
with_capacity count = if ltb (8 * count) (2 ^ 63) then ok [] else err capacity_overflow

unfoldable pub decode_elias_delta_values : List ℕ → ℕ → Result Error (List ℕ)
unfolding decode_values_from with_capacity
decode_elias_delta_values bytes count = do
  out ← with_capacity count
  decode_values_from count (new_reader bytes) out
