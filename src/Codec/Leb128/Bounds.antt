-- ===== src/Codec/Leb128/Bounds.antt =====
-- light-server/src/codec/leb128.rs, `decode_leb128_values` on any bytes.
use bitcoin_data.Base.{
  IsU64, List, [], arith, bit_and, bit_or, bit_or-lt, bytes_keyed, length, ok, refl, ℕ, ◌%◌, ◌*◌,
  ◌+◌, ◌<◌, ◌^◌, ◌∷◌, ◌≡◌, ◌≤◌,
}
use bitcoin_data.Codec.Leb128.{decode_value}

-- After `j` bytes the shift is 7 * j, and the loop is left before it passes 63.
decode_value_takes_from :
    (bytes : List ℕ) (shift value j v : ℕ) (rest : List ℕ)
    → shift ≡ 7 * j
    → j ≤ 9
    → IsU64 value
    → decode_value bytes shift value ≡ ok (v, rest)
    → IsU64 v × (length rest < length bytes) × (length bytes + j ≤ length rest + 10)
unfolding decode_value
decode_value_takes_from [] shift value j v rest hs hj hv e = cc
decode_value_takes_from (b ∷ bytes) shift value j v rest hs hj hv e = ground (
  arith,
  bit_or-lt 64 value (bit_and b 0x7f * 2 ^ shift % 2 ^ 64),
  decode_value_takes_from bytes (shift + 7) (bit_or value (bit_and b 0x7f * 2 ^ shift % 2 ^ 64))
      (j + 1) v rest,
)

-- A value that is decoded from any bytes fits 64 bits, and took 1 to 10 bytes.
pub decode_value_takes :
    (bytes : List ℕ) (v : ℕ) (rest : List ℕ)
    → decode_value bytes 0 0 ≡ ok (v, rest)
    → IsU64 v × (length rest < length bytes) × (length bytes ≤ length rest + 10)
decode_value_takes bytes v rest e =
    ground (arith, decode_value_takes_from bytes 0 0 0 v rest refl (omega arith) (omega arith) e)
