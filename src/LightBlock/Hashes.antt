-- ===== src/LightBlock/Hashes.antt =====
-- light-server/src/index.rs: the packed truncated hashes of output keys. The tagged hash of
-- light-server/src/tagged_hash.rs stands on SHA-256, which is a parameter.
pub mod Filling
pub mod Packed
use bitcoin_data.Base.{
  List, Option, Result, [], bit_and, bit_length, bytes_keyed, get_elem?, if◌then◌else◌, leb, length,
  map, max, min, none, ok, ok_or, replicate, some, suc, zero, ℕ, ◌%◌, ◌*◌, ◌++◌, ◌+◌, ◌-◌, ◌/◌,
  ◌==◌, ◌>>=◌, ◌^◌, ◌||◌, ◌∷◌,
}
use bitcoin_data.Codec.BitIo.{Error, or_at, index_out_of_bounds}

abbrev pub budget_two : ℕ
budget_two = 2

abbrev pub budget_hundred : ℕ
budget_hundred = 100

unfoldable pub label_budget : Option ℕ → ℕ
label_budget none = budget_hundred
label_budget (some labels) = if leb labels budget_two then budget_two else budget_hundred

-- The least `k` with `v ≤ 2 ^ k`, for `v` positive and below 2 ^ 64.
unfoldable pub ceil_log2 : ℕ → ℕ
unfolding bit_length
ceil_log2 v = bit_length 64 (v - 1)

-- The value is an exact `f64`, and its logarithm is far enough from a whole number.
unfoldable pub choose_hash_bits : ℕ → ℕ → ℕ → ℕ
unfolding ceil_log2
choose_hash_bits output_count raw_block_bytes budget =
    if output_count == 0 || raw_block_bytes == 0
    then 0
    else min 255 (max 1 (ceil_log2 (4 * raw_block_bytes * max 1 budget)))

unfoldable pub packed_len : ℕ → ℕ → ℕ
packed_len output_count bits =
    if output_count == 0 || bits == 0 then 0 else (output_count * bits + 7) / 8

-- `TRUNCATED_OUTPUT_HASH_TAG_HASH`.
abbrev pub tag_hash : List ℕ
tag_hash =
    0x0a ∷ 0xe7 ∷ 0x69 ∷ 0xd7 ∷ 0x41 ∷ 0xe9 ∷ 0xb4 ∷ 0xdf ∷ 0xfe ∷ 0x7e ∷ 0x0a ∷ 0x6b ∷ 0x9e ∷ 0xa0
    ∷ 0x08 ∷ 0x10 ∷ 0xcf ∷ 0x50 ∷ 0x56 ∷ 0x74 ∷ 0xeb ∷ 0x7b ∷ 0xe1 ∷ 0x70 ∷ 0x1f ∷ 0xc2 ∷ 0x5e
    ∷ 0xa9 ∷ 0xfc ∷ 0x29 ∷ 0x8c ∷ 0xd9 ∷ []

-- `digest_32` of a hasher that was fed the tag's hash twice.
unfoldable pub digest_32 : (List ℕ → List ℕ) → List ℕ → List ℕ → List ℕ
digest_32 sha256 tag bytes = sha256 (tag ++ (tag ++ bytes))

-- `for bit in 0..bits`, from the bit `bit` on.
unfoldable pub pack_bits : List ℕ → ℕ → ℕ → ℕ → List ℕ → Result Error (List ℕ)
unfolding or_at
pack_bits digest zero bit out_bit out = ok out
pack_bits digest (suc n) bit out_bit out = do
  byte ← ok_or (get_elem? digest (bit / 8)) index_out_of_bounds
  let src = bit_and (byte / 2 ^ (7 - bit % 8)) 1
  out' ← if src == 0 then ok out else or_at out (out_bit / 8) (2 ^ (7 - out_bit % 8))
  pack_bits digest n (bit + 1) (out_bit + 1) out'

unfoldable pub pack_digests : List (List ℕ) → ℕ → ℕ → List ℕ → Result Error (List ℕ)
unfolding pack_bits
pack_digests [] bits out_bit out = ok out
pack_digests (digest ∷ digests) bits out_bit out = do
  out' ← pack_bits digest bits 0 out_bit out
  pack_digests digests bits (out_bit + bits) out'

unfoldable pub pack_hashes : (List ℕ → List ℕ) → List (List ℕ) → ℕ → Result Error (List ℕ)
unfolding packed_len digest_32 pack_digests
pack_hashes sha256 keys bits =
    if bits == 0
    then ok []
    else pack_digests (map (digest_32 sha256 tag_hash) keys) bits 0
        (replicate (packed_len (length keys) bits) 0)
