-- ===== src/Codec/Leb128.antt =====
-- light-server/src/codec/leb128.rs: unsigned 64-bit integers in groups of seven bits, lowest group
-- first, the top bit set on every byte but the last. A byte slice is a list of numbers below 256,
-- and the reader's index is the list of the bytes that it has not reached.
pub mod Encode
pub mod Decode
pub mod RoundTrip
pub mod Bounds
pub mod Wraps
use bitcoin_data.Base.{
  List, Option, Result, [], bit_and, bit_or, bytes_keyed, err, if◌then◌else◌, ltb, none, ok, some,
  suc, zero, ℕ, ◌%◌, ◌*◌, ◌++◌, ◌+◌, ◌/◌, ◌<◌, ◌==◌, ◌>>=◌, ◌>>◌, ◌^◌, ◌∷◌,
}

-- The errors of the file, and the panic of a buffer that is too large.
pub data Error : Type 0 where
  truncated_stream value_too_large capacity_overflow : Error

abbrev pub IsByte : ℕ → Type 0
IsByte b = b < 256

-- The loop of `encode_one` on fuel; `none` means that the fuel ran out.
encode_loop : ℕ → ℕ → List ℕ → Option (List ℕ)
encode_loop zero value out = none
encode_loop (suc fuel) value out =
    let group = bit_and value 0x7f % 256 in
    let value' = value / 2 ^ 7 in
    let byte = if value' == 0 then group else bit_or group 0x80 in
    let rest = encode_loop fuel value' (out ++ byte ∷ []) in
    if value' == 0 then some (out ++ byte ∷ []) else rest

-- Ten groups of seven bits hold any 64-bit value.
unfoldable pub encode_one : ℕ → List ℕ → Option (List ℕ)
unfolding encode_loop
encode_one value out = encode_loop 10 value out

encode_values_from : List ℕ → List ℕ → Option (List ℕ)
encode_values_from [] out = some out
encode_values_from (v ∷ vs) out = elim (encode_one v out) [
  | none ↦ none
  | some out' ↦ encode_values_from vs out'
]

unfoldable pub encode_leb128_values : List ℕ → Option (List ℕ)
unfolding encode_values_from encode_one
encode_leb128_values values = encode_values_from values []

-- One round of the inner loop reads a byte, adds its group at `shift`, and goes on while the top
-- bit is set. The shift is by less than 64; what it pushes past bit 63 is lost.
unfoldable pub decode_value : List ℕ → ℕ → ℕ → Result Error (ℕ × List ℕ)
decode_value [] shift value = err truncated_stream
decode_value (byte ∷ rest) shift value =
    let value' = bit_or value (bit_and byte 0x7f * 2 ^ shift % 2 ^ 64) in
    let more = decode_value rest (shift + 7) value' in
    if bit_and byte 0x80 == 0
    then ok (value', rest)
    else if ltb (shift + 7) 64
    then more
    else err value_too_large

decode_values_from : ℕ → List ℕ → List ℕ → Result Error (List ℕ)
decode_values_from zero bytes out = ok out
decode_values_from (suc count) bytes out = do
  (value, rest) ← decode_value bytes 0 0
  decode_values_from count rest (out ++ value ∷ [])

-- `Vec::with_capacity(count)` for 8-byte elements: a buffer of more than `isize::MAX` bytes panics.
unfoldable pub with_capacity : ℕ → Result Error (List ℕ)
with_capacity count = if ltb (8 * count) (2 ^ 63) then ok [] else err capacity_overflow

unfoldable pub decode_leb128_values : List ℕ → ℕ → Result Error (List ℕ)
unfolding decode_values_from decode_value with_capacity
decode_leb128_values bytes count = do out ← with_capacity count; decode_values_from count bytes out
