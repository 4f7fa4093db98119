-- ===== src/Codec/Leb128/Decode.antt =====
-- light-server/src/codec/leb128.rs, `decode_leb128_values`: round trip, and behaviour on any input.
use bitcoin_data.Base.{
  IsU64, List, ap, arith, bit_and, bit_and_0x7f, bit_and_pow, bit_or_high, bytes_keyed, ok, refl,
  suc, zero, ℕ, ◌%◌, ◌*◌, ◌++◌, ◌+◌, ◌/◌, ◌<◌, ◌^◌, ◌∷◌, ◌≡◌,
}
use bitcoin_data.Codec.Leb128.{decode_value}
use bitcoin_data.Codec.Leb128.Encode.{groups}
use native.Mathlib.Nat.{div-add-mod}
use native.Mathlib.Numerals.{towards_suc}

pub low_byte : (g : ℕ) → g < 128 → bit_and g 0x80 ≡ 0
low_byte g h = ground (arith, bit_and_pow 7 0 g h)

high_byte : (g : ℕ) → g < 128 → bit_and (g + 128) 0x80 ≡ 128
high_byte g h = let e : g + 128 ≡ 1 * 128 + g = omega arith in rw e (bit_and_pow 7 1 g h)

-- A round on a last byte `g`.
pub last_round :
    (g acc shift : ℕ) (rest : List ℕ)
    → g < 128
    → acc < 2 ^ shift
    → IsU64 (acc + g * 2 ^ shift)
    → decode_value (g ∷ rest) shift acc ≡ ok (acc + g * 2 ^ shift, rest)
unfolding decode_value
last_round g acc shift rest h low fits =
    ground (arith, low_byte g, bit_and_0x7f g, bit_or_high shift acc g)

-- A round on a byte with the top bit set over the group `g`.
pub inner_round :
    (g acc shift : ℕ) (rest : List ℕ)
    → g < 128
    → acc < 2 ^ shift
    → shift + 7 < 64
    → IsU64 (acc + g * 2 ^ shift)
    → decode_value ((g + 128) ∷ rest) shift acc
      ≡ decode_value rest (shift + 7) (acc + g * 2 ^ shift)
unfolding decode_value
inner_round g acc shift rest h low hs fits =
    ground (arith, high_byte g, bit_and_0x7f (g + 128), bit_or_high shift acc g)

pub pow_seven : (s : ℕ) → 2 ^ (s + 7) ≡ 128 * 2 ^ s
pow_seven s = simp towards_suc (omega arith)

-- The lowest group of `w` and the rest, both at bit `s`.
low_and_rest : (w s : ℕ) → w * 2 ^ s ≡ w % 128 * 2 ^ s + w / 128 * 2 ^ (s + 7)
low_and_rest w s = omega (
  arith,
  ap (λ (t : ℕ). t * 2 ^ s) (div-add-mod w 128),
  ap (λ (t : ℕ). w / 128 * t) (pow_seven s),
)

pub group_bound : (acc g s : ℕ) → acc < 2 ^ s → g < 128 → acc + g * 2 ^ s < 2 ^ (s + 7)
group_bound acc g s h k = rw (pow_seven s) (grind arith)

-- `w` is what is still to be read, `acc` what has been read, and k + 1 groups are left at most.
decode_value-groups :
    (k w acc shift : ℕ) (rest : List ℕ)
    → shift + 7 * k ≡ 63
    → w < 128 ^ suc k
    → acc < 2 ^ shift
    → IsU64 (acc + w * 2 ^ shift)
    → decode_value (groups k w ++ rest) shift acc ≡ ok (acc + w * 2 ^ shift, rest)
unfolding groups
decode_value-groups zero w acc shift rest hs hw low fits = last_round w acc shift rest hw low fits
decode_value-groups (suc k) w acc shift rest hs hw low fits = ground (
  arith,
  last_round w acc shift rest,
  low_and_rest w shift,
  group_bound acc (w % 128) shift,
  inner_round (w % 128) acc shift (groups k (w / 128) ++ rest),
  decode_value-groups k (w / 128) (acc + w % 128 * 2 ^ shift) (shift + 7) rest (omega arith)
      (omega arith),
)

-- A decoder started at the front of what `encode_one` wrote gives the value and what follows.
pub decode_value-encoded :
    (v : ℕ) (rest : List ℕ) → IsU64 v → decode_value (groups 9 v ++ rest) 0 0 ≡ ok (v, rest)
decode_value-encoded v rest h = ground (arith, decode_value-groups 9 v 0 0 rest refl (omega arith))
