-- ===== src/Codec/BitIo/Read.antt =====
-- light-server/src/codec/elias_delta.rs, `BitReader`: the reader takes the bits of its bytes in
-- order, and fails at their end only.
use bitcoin_data.Base.{
  Bool, List, Option, Result, [], ap, arith, bit_and_one, bit_or, bit_or_low, bytes_keyed, dec_lt,
  double, drop, drop-cons_iff, false, get_or, length, length-drop, none, ok, some, subst, suc, true,
  zero, ℕ, ◌%◌, ◌*◌, ◌++◌, ◌+◌, ◌-◌, ◌/◌, ◌<◌, ◌^◌, ◌∷◌, ◌≡◌, ◌≤◌,
}
use native.Mathlib.Numerals.{add-one}
use native.Mathlib.Nat.{pow-suc, one-le-pow}
use bitcoin_data.Codec.BitIo.{
  Error, BitReader, byte_at, read_bit, read_bits_from, read_bits, bit_value,
}
use bitcoin_data.Codec.BitIo.Stream.{
  bit_at, bits_of, unpack, length-unpack, get_elem?-unpack, get_elem?-get_or,
}

-- What the reader has not reached.
abbrev pub ahead : BitReader → List Bool
ahead r = drop r.bit_pos (unpack r.bytes)

abbrev pub advance : BitReader → ℕ → BitReader
advance r n = record r { bit_pos = r.bit_pos + n }

-- With a bit ahead, `read_bit` returns it and moves one bit on.
pub read_bit-cons :
    (r : BitReader) (x : Bool) (xs : List Bool)
    → ahead r ≡ x ∷ xs
    → (read_bit r ≡ ok (some (x, advance r 1))) × (ahead (advance r 1) ≡ xs)
unfolding read_bit byte_at
read_bit-cons r x xs e =
    let (got, rest, h) = drop-cons_iff (unpack r.bytes) r.bit_pos e in
    let lt : r.bit_pos < length r.bytes * 8 = omega (arith, length-unpack r.bytes) in
    (
      ground (
        arith,
        get_elem?-unpack r.bytes r.bit_pos lt,
        get_elem?-get_or r.bytes (r.bit_pos / 8),
        bit_and_one (get_or r.bytes (r.bit_pos / 8) 0 / 2 ^ (7 - r.bit_pos % 8)),
      ),
      rw add-one rest,
    )

-- With none ahead it returns `None`.
pub read_bit-nil : (r : BitReader) → ahead r ≡ [] → read_bit r ≡ ok none
unfolding read_bit byte_at
read_bit-nil r e =
    ground (arith, length-unpack r.bytes, ap length e, length-drop r.bit_pos (unpack r.bytes))

pub quotient : (q d t : ℕ) → t < d → (q * d + t) / d ≡ q
quotient q d t h = grind arith

shifted_in :
    (acc : ℕ) (bit : Bool)
    → acc * 2 < 2 ^ 64
    → bit_or (acc * 2 % 2 ^ 64) (bit_value bit) ≡ acc * 2 + bit_value bit
shifted_in acc false h = ground (arith, bit_or_low 1 0 acc)
shifted_in acc true h = ground (arith, bit_or_low 1 1 acc)

-- One more bit of `q * 2 ^ suc i + t`, and the number seen from the bit below.
record SplitBit (v i t : ℕ) : Type 0 where
  bit : Bool
  high : ℕ
  low : ℕ
  is_bit : bit_at v i ≡ bit
  whole : v ≡ high * 2 ^ i + low
  smaller : low < 2 ^ i
  value : t ≡ bit_value bit * 2 ^ i + low

split_bit : (v q i t : ℕ) → v ≡ q * 2 ^ suc i + t → t < 2 ^ suc i → SplitBit v i t
split_bit v q i t e h = elim (dec_lt t (2 ^ i)) [
  | yes low ↦ record {
    bit = false;
    high = 2 * q;
    low = t;
    is_bit =
        ground (arith, quotient (2 * q) (2 ^ i) t low, ap (λ (n : ℕ). n / 2 ^ i) (whole_low low));
    whole = whole_low low;
    smaller = low;
    value = omega arith;
  }
  | no high ↦ record {
    bit = true;
    high = 2 * q + 1;
    low = t - 2 ^ i;
    is_bit = ground (
      arith,
      quotient (2 * q + 1) (2 ^ i) (t - 2 ^ i),
      ap (λ (n : ℕ). n / 2 ^ i) (whole_high (omega arith)),
      pow-suc 2 i,
    );
    whole = whole_high (omega arith);
    smaller = omega (arith, pow-suc 2 i);
    value = omega arith;
  }
]
  where
    whole_low : t < 2 ^ i → v ≡ 2 * q * 2 ^ i + t
    whole_low low = omega (arith, e, double q i)

    whole_high : 2 ^ i ≤ t → v ≡ (2 * q + 1) * 2 ^ i + (t - 2 ^ i)
    whole_high high = omega (arith, e, double q i)

-- The outcome `a`, with `rest` still ahead.
abbrev pub Reads : Result Error (Option (ℕ × BitReader)) → ℕ → List Bool → Type 0
Reads o a rest = (r : BitReader) × (o ≡ ok (some (a, r))) × (ahead r ≡ rest)

no_smaller : (a p : ℕ) → 1 ≤ p → a ≤ a * p
no_smaller a p h = grind arith

no_overflow : (acc n t : ℕ) → acc * 2 ^ suc n + t < 2 ^ 64 → acc * 2 < 2 ^ 64
no_overflow acc n t h =
    let p : 1 ≤ 2 ^ n = one-le-pow n 2 (omega arith) in
    omega (arith, double acc n, no_smaller acc (2 ^ n) p)

read_bits_from_step :
    (n : ℕ) (r r' : BitReader) (acc : ℕ) (x : Bool) (next : ℕ) (rest : List Bool)
    → read_bit r ≡ ok (some (x, r'))
    → acc * 2 < 2 ^ 64
    → Reads (read_bits_from r' n (acc * 2 + bit_value x)) next rest
    → Reads (read_bits_from r (suc n) acc) next rest
unfolding read_bits_from
read_bits_from_step n r r' acc x next rest e h done =
    rw (e, read_bits_from, shifted_in acc x h) done

read_bits_from-bits_of :
    (n : ℕ) (r : BitReader) (acc v q t : ℕ) (rest : List Bool)
    → ahead r ≡ bits_of n v ++ rest
    → v ≡ q * 2 ^ n + t
    → t < 2 ^ n
    → acc * 2 ^ n + t < 2 ^ 64
    → Reads (read_bits_from r n acc) (acc * 2 ^ n + t) rest
unfolding read_bits_from
read_bits_from-bits_of zero r acc v q t rest e w small fits = (r, ground arith, e)
read_bits_from-bits_of (suc n) r acc v q t rest e w small fits =
    let s = split_bit v q n t w small in
    let (got, left) = read_bit-cons r (bit_at v n) (bits_of n v ++ rest) e in
    let sum : (acc * 2 + bit_value s.bit) * 2 ^ n + s.low ≡ acc * 2 ^ suc n + t =
      omega (arith, s.value, double acc n) in
    read_bits_from_step n r (advance r 1) acc s.bit (acc * 2 ^ suc n + t) rest (rw s.is_bit at got)
      (no_overflow acc n t fits)
      (subst (λ (x : ℕ). Reads (read_bits_from (advance r 1) n (acc * 2 + bit_value s.bit)) x rest)
        sum
        (read_bits_from-bits_of n (advance r 1) (acc * 2 + bit_value s.bit) v s.high s.low rest left
          s.whole s.smaller (rw sum fits)))

-- `read_bits` of `n` bits returns the lowest `n` bits of the number whose bits are ahead.
pub read_bits-bits_of :
    (n : ℕ) (r : BitReader) (v q t : ℕ) (rest : List Bool)
    → ahead r ≡ bits_of n v ++ rest
    → v ≡ q * 2 ^ n + t
    → t < 2 ^ n
    → t < 2 ^ 64
    → Reads (read_bits r n) t rest
unfolding read_bits
read_bits-bits_of n r v q t rest e w h fits =
    let z : 0 * 2 ^ n + t ≡ t = omega arith in
    subst (λ (x : ℕ). Reads (read_bits_from r n 0) x rest) z
      (read_bits_from-bits_of n r 0 v q t rest e w h (rw z fits))
