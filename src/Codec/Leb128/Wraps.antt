-- ===== src/Codec/Leb128/Wraps.antt =====
-- light-server/src/codec/leb128.rs, `decode_leb128_values`: numbers of up to ten groups, also those
-- that do not fit 64 bits.
use bitcoin_data.Base.{
  All, List, [], ap, arith, bit_and_0x7f, bit_or_high, bytes_keyed, dec_lt, length, ok, subst, ℕ,
  ◌%◌, ◌*◌, ◌++◌, ◌+◌, ◌-◌, ◌<◌, ◌^◌, ◌∙◌, ◌∷◌, ◌≡◌, ◌≤◌,
}
use native.Mathlib.Nat.{pow-le-pow_right}
use bitcoin_data.Codec.Leb128.{decode_value}
use bitcoin_data.Codec.Leb128.Decode.{inner_round, last_round, low_byte, pow_seven, group_bound}

-- A byte that says that another one follows.
abbrev pub IsContinued : ℕ → Type 0
IsContinued b = (128 ≤ b) × (b < 256)

-- The number that groups of seven bits spell, the lowest first, with no bound on it.
abbrev pub number_of : List ℕ → ℕ
number_of [] = 0
number_of (b ∷ bytes) = b % 128 + 128 * number_of bytes

-- The round at shift 63, where only the lowest bit of the group is kept.
tenth_round :
    (b acc : ℕ) (rest : List ℕ)
    → b < 128
    → acc < 2 ^ 63
    → decode_value (b ∷ rest) 63 acc ≡ ok ((acc + b * 2 ^ 63) % 2 ^ 64, rest)
unfolding decode_value
tenth_round b acc rest h low =
    ground (arith, low_byte b, bit_and_0x7f b, bit_or_high 63 acc (b % 2))

pow_bound : (k : ℕ) → k ≤ 8 → 2 ^ (7 * k + 7) ≤ 2 ^ 63
pow_bound k h =
    let small : 7 * k + 7 ≤ 63 = omega (arith, h) in pow-le-pow_right (omega arith) small

last_round_wraps :
    (k b acc : ℕ) (rest : List ℕ)
    → k ≤ 9
    → b < 128
    → acc < 2 ^ (7 * k)
    → decode_value (b ∷ rest) (7 * k) acc ≡ ok ((acc + b * 2 ^ (7 * k)) % 2 ^ 64, rest)
last_round_wraps k b acc rest hk h low = elim (dec_lt k 9) [
  | yes inner ↦
      ground
        (arith, pow_bound k, group_bound acc b (7 * k) low h, last_round b acc (7 * k) rest h low)
  | no last ↦
      let nine : 9 ≡ k = omega arith in
      subst
        (λ (j : ℕ).
          acc < 2 ^ (7 * j)
          → decode_value (b ∷ rest) (7 * j) acc ≡ ok ((acc + b * 2 ^ (7 * j)) % 2 ^ 64, rest))
        nine (tenth_round b acc rest h) low
]

-- The same result with the shift and the weight after one more byte written out.
decode_value_wraps_step :
    (bs : List ℕ) (k b acc : ℕ) (rest : List ℕ)
    → decode_value (bs ++ b ∷ rest) (7 * (k + 1)) acc
      ≡ ok ((acc + number_of (bs ++ b ∷ []) * 2 ^ (7 * (k + 1))) % 2 ^ 64, rest)
    → decode_value (bs ++ b ∷ rest) (7 * k + 7) acc
      ≡ ok ((acc + number_of (bs ++ b ∷ []) * (128 * 2 ^ (7 * k))) % 2 ^ 64, rest)
decode_value_wraps_step bs k b acc rest e =
    let next : 7 * (k + 1) ≡ 7 * k + 7 = omega arith in rw (next, pow_seven (7 * k)) at e

regroup :
    (acc c k n : ℕ)
    → IsContinued c
    → acc + (c - 128) * 2 ^ (7 * k) + n * (128 * 2 ^ (7 * k))
      ≡ acc + (c % 128 + 128 * n) * 2 ^ (7 * k)
regroup acc c k n h = let g : c % 128 ≡ c - 128 = omega (arith, h) in rw g (grind arith)

decode_value_wraps_from :
    (bs : List ℕ) (k b acc : ℕ) (rest : List ℕ)
    → All IsContinued bs
    → length bs + k ≤ 9
    → b < 128
    → acc < 2 ^ (7 * k)
    → decode_value (bs ++ b ∷ rest) (7 * k) acc
      ≡ ok ((acc + number_of (bs ++ b ∷ []) * 2 ^ (7 * k)) % 2 ^ 64, rest)
decode_value_wraps_from [] k b acc rest h hk hb low =
    let whole : b % 128 + 0 ≡ b = omega arith in
    rw whole (last_round_wraps k b acc rest (omega (arith, hk)) hb low)
decode_value_wraps_from (c ∷ bs) k b acc rest h hk hb low =
    let g = c - 128 in
    let p = 2 ^ (7 * k) in
    let n = number_of (bs ++ b ∷ []) in
    let byte : g + 128 ≡ c = omega (arith, h.0) in
    let small : g < 128 = omega (arith, h.0) in
    let grown : acc + g * p < 2 ^ (7 * k + 7) = group_bound acc g (7 * k) low small in
    let fits : acc + g * p < 2 ^ 64 = omega (arith, grown, pow_bound k (omega (arith, hk))) in
    let next : 7 * (k + 1) ≡ 7 * k + 7 = omega arith in
    let round : decode_value (c ∷ (bs ++ b ∷ rest)) (7 * k) acc
        ≡ decode_value (bs ++ b ∷ rest) (7 * k + 7) (acc + g * p) =
      subst
        (λ (x : ℕ).
          decode_value (x ∷ (bs ++ b ∷ rest)) (7 * k) acc
          ≡ decode_value (bs ++ b ∷ rest) (7 * k + 7) (acc + g * p))
        byte (inner_round g acc (7 * k) (bs ++ b ∷ rest) small low (omega (arith, hk)) fits) in
    round
    ∙ decode_value_wraps_step bs k b (acc + g * p) rest (
        decode_value_wraps_from bs (k + 1) b (acc + g * p) rest h.1 (omega (arith, hk)) hb
          (rw next grown))
    ∙ ap (λ (x : ℕ). ok (x % 2 ^ 64, rest)) (regroup acc c k n h.0)

-- On up to nine bytes with the top bit set and one without it, the decoder returns the number that
-- their groups of seven bits spell, modulo 2 ^ 64, and stops behind them: a ten-byte number that
-- does not fit 64 bits is not refused.
pub decode_value_wraps :
    (bs : List ℕ) (b : ℕ) (rest : List ℕ)
    → All IsContinued bs
    → length bs ≤ 9
    → b < 128
    → decode_value (bs ++ b ∷ rest) 0 0 ≡ ok (number_of (bs ++ b ∷ []) % 2 ^ 64, rest)
decode_value_wraps bs b rest h hk hb =
    ground (arith, decode_value_wraps_from bs 0 b 0 rest h (omega arith) hb (omega arith))
