-- ===== src/Codec/Leb128/Encode.antt =====
-- light-server/src/codec/leb128.rs, `encode_one`: what the loop writes, in plain arithmetic.
use bitcoin_data.Base.{
  All, IsU64, List, [], append_assoc, arith, bit_and_0x7f, bit_or, bit_or_high, bytes_keyed,
  if◌then◌else◌, length, some, suc, zero, ℕ, ◌%◌, ◌++◌, ◌+◌, ◌/◌, ◌<◌, ◌==◌, ◌^◌, ◌∷◌, ◌≡◌, ◌≤◌,
}
use bitcoin_data.Codec.Leb128.{IsByte, encode_loop, encode_one}

-- The groups of `v`, lowest first, for `v` below 128 ^ (k + 1).
unfoldable pub groups : ℕ → ℕ → List ℕ
groups zero v = v ∷ []
groups (suc k) v =
    let rest = groups k (v / 128) in if v / 128 == 0 then v ∷ [] else (v % 128 + 128) ∷ rest

continued : (g : ℕ) → g < 128 → bit_or g 0x80 ≡ g + 128
continued g h = bit_or_high 7 g 1 h

encode_loop-groups :
    (k v : ℕ) (out : List ℕ)
    → v < 128 ^ suc k
    → encode_loop (suc k) v out ≡ some (out ++ groups k v)
unfolding encode_loop groups
encode_loop-groups zero v out h = ground (arith, bit_and_0x7f v)
encode_loop-groups (suc k) v out h = ground (
  arith,
  bit_and_0x7f v,
  continued (v % 128),
  encode_loop-groups k (v / 128) (out ++ (v % 128 + 128) ∷ []) (omega arith),
  append_assoc out ((v % 128 + 128) ∷ []) (groups k (v / 128)),
)

-- The fuel is enough for every 64-bit value, and `out` is kept in front.
pub encode_one-groups :
    (v : ℕ) (out : List ℕ) → IsU64 v → encode_one v out ≡ some (out ++ groups 9 v)
unfolding encode_one
encode_one-groups v out h = encode_loop-groups 9 v out (omega arith)

pub groups-IsByte : (k v : ℕ) → v < 128 ^ suc k → All IsByte (groups k v)
unfolding groups
groups-IsByte zero v h = omega arith
groups-IsByte (suc k) v h = ground (arith, groups-IsByte k (v / 128) (omega arith))

pub length-groups : (k v : ℕ) → (1 ≤ length (groups k v)) × (length (groups k v) ≤ k + 1)
unfolding groups
length-groups zero v = omega arith
length-groups (suc k) v = ground (arith, length-groups k (v / 128))
