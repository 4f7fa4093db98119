-- ===== src/Codec/EliasDelta/Total.antt =====
-- light-server/src/codec/elias_delta.rs: the decoder on any bytes.
use bitcoin_data.Base.{
  Bool, Bool-cases, List, Option, Result, [], arith, bit_and, bit_or, bytes_keyed, ensure, err,
  false, get_or, inl, inr, leb, leb→le, length, length-append, lt→ltb, none, ok, ok_or, refl, some,
  subst, suc, true, zero, ℕ, ◌%◌, ◌&&◌, ◌*◌, ◌++◌, ◌+◌, ◌-◌, ◌/◌, ◌<◌, ◌==◌, ◌>>=◌, ◌^◌, ◌∷◌, ◌≡◌,
  ◌≢◌, ◌≤◌, ◌⊎◌,
}
use bitcoin_data.Codec.BitIo.{
  byte_at, read_bits_from, bit_value, capacity_overflow, invalid_length, truncated_value,
  truncated_length, BitReader, new_reader, read_bit, read_bits, Error, index_out_of_bounds,
  out_of_fuel,
}
use bitcoin_data.Codec.EliasDelta.{
  read_prefix, read_length, read_tail, decode_one, decode_values_from, decode_elias_delta_values,
  with_capacity,
}
use bitcoin_data.Codec.BitIo.Stream.{get_elem?-get_or}

-- An outcome that is a Rust value: neither a panic nor a loop cut short.
abbrev pub IsProper {ℓ} : {A : Type ℓ} → Result Error A → Type 0
IsProper (ok a) = Unit {0}
IsProper (err e) = (e ≢ index_out_of_bounds) × (e ≢ capacity_overflow) × (e ≢ out_of_fuel)

-- A read of one bit returns: the test before it keeps the index within the bytes.
read_bit-cases :
    (r : BitReader)
    → (read_bit r ≡ ok none) ⊎ ((got : Bool × BitReader) × (read_bit r ≡ ok (some got)))
unfolding read_bit byte_at
read_bit-cases r = elim (Bool-cases (leb (length r.bytes * 8) r.bit_pos)) [
  | inl past ↦ inl (rw past refl)
  | inr inside ↦
      let within : r.bit_pos / 8 < length r.bytes = ground arith in
      let here = get_elem?-get_or r.bytes (r.bit_pos / 8) within in
      inr (
        (
          bit_and (get_or r.bytes (r.bit_pos / 8) 0 / 2 ^ (7 - r.bit_pos % 8)) 1 == 1,
          record r { bit_pos = r.bit_pos + 1 },
        ),
        rw (inside, byte_at, here) refl,
      )
]

read_bits_from-IsProper : (r : BitReader) (n v : ℕ) → IsProper (read_bits_from r n v)
unfolding read_bits_from
read_bits_from-IsProper r zero v = tt
read_bits_from-IsProper r (suc n) v = elim (read_bit-cases r) [
  | inl e ↦ rw (e, read_bits_from) tt
  | inr (got, e) ↦
      rw (e, read_bits_from)
        (read_bits_from-IsProper got.1 n (bit_or (v * 2 % 2 ^ 64) (bit_value got.0)))
]

read_bits-IsProper : (r : BitReader) (n : ℕ) → IsProper (read_bits r n)
unfolding read_bits
read_bits-IsProper r n = read_bits_from-IsProper r n 0

read_prefix-IsProper :
    (fuel n : ℕ) (r : BitReader) → n ≤ 63 → 64 ≤ n + fuel → IsProper (read_prefix fuel n r)
unfolding read_prefix
read_prefix-IsProper zero n r b h = absurd (omega arith)
read_prefix-IsProper (suc fuel) n r b h = elim (read_bit-cases r) [
  | inl e ↦ rw (e, read_prefix) (cc, cc, cc)
  | inr ((true, r'), e) ↦ rw (e, read_prefix) tt
  | inr ((false, r'), e) ↦
      rw (e, read_prefix)
        (elim (Bool-cases (leb (n + 1) 63)) [
          | inl more ↦
              rw more (read_prefix-IsProper fuel (n + 1) r' (leb→le (n + 1) 63 more) (omega arith))
          | inr stop ↦ rw stop (cc, cc, cc)
        ])
]

>>=-IsProper {ℓ κ} :
    {A : Type ℓ} {B : Type κ} (m : Result Error A) (f : A → Result Error B)
    → IsProper m
    → ((a : A) → m ≡ ok a → IsProper (f a))
    → IsProper (m >>= f)
>>=-IsProper (ok a) f h k = k a refl
>>=-IsProper (err e) f h k = h

ok_or-IsProper {ℓ} :
    {A : Type ℓ} (o : Option A) (e : Error) → IsProper {A = A} (err e) → IsProper (ok_or o e)
ok_or-IsProper none e h = h
ok_or-IsProper (some a) e h = tt

read_length-IsProper : (j : ℕ) (r : BitReader) → IsProper (read_length j r)
unfolding read_length
read_length-IsProper zero r = tt
read_length-IsProper (suc j) r = rw (lt→ltb 0 (suc j) (omega arith)) (
    >>=-IsProper (read_bits r (suc j)) _ (read_bits-IsProper r (suc j)) λ got _.
      >>=-IsProper (ok_or got truncated_length) _ (ok_or-IsProper got _ (cc, cc, cc)) (λ _ _. tt))

read_tail-IsProper : (k : ℕ) (r : BitReader) → IsProper (read_tail k r)
unfolding read_tail
read_tail-IsProper k r = elim (Bool-cases (k == 0)) [
  | inl no_tail ↦ rw no_tail tt
  | inr more ↦ rw more (
      >>=-IsProper (read_bits r k) _ (read_bits-IsProper r k)
        (λ got _. ok_or-IsProper got truncated_value (cc, cc, cc)))
]

ensure-IsProper : (b : Bool) (e : Error) → IsProper {A = Unit {0}} (err e) → IsProper (ensure b e)
ensure-IsProper true e h = tt
ensure-IsProper false e h = h

decode_one-IsProper : (r : BitReader) → IsProper (decode_one r)
unfolding decode_one
decode_one-IsProper r =
    >>=-IsProper (read_prefix 64 0 r) _ (read_prefix-IsProper 64 0 r (omega arith) (omega arith))
      λ a _. >>=-IsProper (read_length a.0 a.1) _ (read_length-IsProper a.0 a.1) λ b _.
        >>=-IsProper (ensure (leb 1 b.0 && leb b.0 64) invalid_length) _
          (ensure-IsProper (leb 1 b.0 && leb b.0 64) invalid_length (cc, cc, cc))
          λ _ _.
            >>=-IsProper (read_tail (b.0 - 1) b.1) _ (read_tail-IsProper (b.0 - 1) b.1) (λ _ _. tt)

-- A list of so many values, or an error that is a Rust value.
abbrev pub IsDecoded : ℕ → Result Error (List ℕ) → Type 0
IsDecoded n (ok values) = length values ≡ n
IsDecoded n (err e) = IsProper {A = List ℕ} (err e)

>>=-IsDecoded {ℓ} :
    {A : Type ℓ} (n : ℕ) (m : Result Error A) (f : A → Result Error (List ℕ))
    → IsProper m
    → ((a : A) → IsDecoded n (f a))
    → IsDecoded n (m >>= f)
>>=-IsDecoded n (ok a) f h k = k a
>>=-IsDecoded n (err e) f h k = h

decode_values_from-IsDecoded :
    (count : ℕ) (r : BitReader) (out : List ℕ)
    → IsDecoded (length out + count) (decode_values_from count r out)
unfolding decode_values_from
decode_values_from-IsDecoded zero r out = omega arith
decode_values_from-IsDecoded (suc count) r out =
    >>=-IsDecoded (length out + suc count) (decode_one r) _ (decode_one-IsProper r) λ a.
      let size : length (out ++ a.0 ∷ []) + count ≡ length out + suc count =
        omega (arith, length-append out (a.0 ∷ [])) in
      subst (λ (n : ℕ). IsDecoded n (decode_values_from count a.1 (out ++ a.0 ∷ []))) size
        (decode_values_from-IsDecoded count a.1 (out ++ a.0 ∷ []))

-- On any bytes, and any count whose 8-byte elements fit a buffer, the decoder returns a list of
-- that many values or one of its own errors: no index is out of bounds, no buffer is too large, and
-- its prefix loop ends within the 64 rounds that it is given.
pub decode-IsDecoded :
    (bytes : List ℕ) (count : ℕ)
    → 8 * count < 2 ^ 63
    → IsDecoded count (decode_elias_delta_values bytes count)
unfolding decode_elias_delta_values with_capacity
decode-IsDecoded bytes count h =
    let size : 0 + count ≡ count = omega arith in
    rw (lt→ltb (8 * count) (2 ^ 63) h) (
      subst (λ (n : ℕ). IsDecoded n (decode_values_from count (new_reader bytes) [])) size
        (decode_values_from-IsDecoded count (new_reader bytes) []))
