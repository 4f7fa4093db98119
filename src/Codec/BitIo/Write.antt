-- ===== src/Codec/BitIo/Write.antt =====
-- light-server/src/codec/elias_delta.rs, `BitWriter`: the bytes hold the bits that were pushed,
-- in order, and zeros up to the next byte.
use bitcoin_data.Base.{
  All, All-append, Bool, Bool-cases, List, [], ap, append-nil, append_assoc, arith, bit_and_one,
  bytes_keyed, false, inl, inr, length, length-append, length-replicate, ok, refl, replicate, suc,
  sym, true, zero, ℕ, ◌%◌, ◌*◌, ◌++◌, ◌+◌, ◌-◌, ◌/◌, ◌<◌, ◌==◌, ◌^◌, ◌∙◌, ◌∷◌, ◌≡◌,
}
use bitcoin_data.Codec.BitIo.{next_bytes, new_writer, next_bytes, BitWriter, push_bit, push_bits}
use bitcoin_data.Codec.BitIo.SetBit.{or_at-unpack, set_next}
use bitcoin_data.Codec.BitIo.Stream.{
  byte_bits, bit_at, bits_of, unpack, length-unpack, unpack-append,
}

-- The writer holds the bits `bs`.
pub record Holds (w : BitWriter) (bs : List Bool) : Type 0 where
  pub pad : ℕ
  pub stream : unpack w.bytes ≡ bs ++ replicate pad false
  pub counted : w.bit_len ≡ length bs
  pub padding : pad < 8
  pub are_bytes : All (λ b. b < 256) w.bytes

zeros_byte : byte_bits 0 ≡ replicate 8 false
unfolding byte_bits
zeros_byte = refl

pad_counts :
    (bytes : List ℕ) (bs : List Bool) (pad : ℕ)
    → unpack bytes ≡ bs ++ replicate pad false
    → length bytes * 8 ≡ length bs + pad
pad_counts bytes bs pad e = omega (
  arith,
  length-unpack bytes,
  ap length e,
  length-append bs (replicate pad false),
  length-replicate pad false,
)

-- There is always room for one more bit.
record HasRoom (bytes : List ℕ) (bs : List Bool) : Type 0 where
  pad : ℕ
  stream : unpack bytes ≡ bs ++ false ∷ replicate pad false
  padding : pad < 8
  are_bytes : All (λ b. b < 256) bytes

full_byte :
    (bytes : List ℕ) (bs : List Bool) (pad : ℕ)
    → pad ≡ 0
    → unpack bytes ≡ bs ++ replicate pad false
    → unpack (bytes ++ 0 ∷ []) ≡ bs ++ false ∷ replicate 7 false
full_byte bytes bs pad z e =
    unpack-append bytes 0 ∙ rw (e, z, zeros_byte) (append_assoc bs [] (replicate 8 false))

next_bytes-HasRoom : (w : BitWriter) (bs : List Bool) → Holds w bs → HasRoom (next_bytes w) bs
unfolding next_bytes
next_bytes-HasRoom w bs h = elim (Bool-cases (w.bit_len % 8 == 0)) [
  | inl full ↦ rw full (record {
    pad = 7;
    stream =
        full_byte w.bytes bs h.pad (ground (arith, pad_counts w.bytes bs h.pad h.stream)) h.stream;
    padding = omega arith;
    are_bytes = All-append (λ b. b < 256) w.bytes (0 ∷ []) h.are_bytes (omega arith, tt);
  })
  | inr part ↦
      let e : h.pad ≡ suc (h.pad - 1) = ground (arith, pad_counts w.bytes bs h.pad h.stream) in
      rw part (record {
        pad = h.pad - 1;
        stream = h.stream ∙ ap (λ (n : ℕ). bs ++ replicate n false) e;
        padding = omega arith;
        are_bytes = h.are_bytes;
      })
]

room_counts : (bytes : List ℕ) (bs : List Bool) → HasRoom bytes bs → length bs < length bytes * 8
room_counts bytes bs r = omega (
  arith,
  length-unpack bytes,
  ap length r.stream,
  length-append bs (false ∷ replicate r.pad false),
)

push_bit_set :
    (w : BitWriter) (bs : List Bool)
    → Holds w bs
    → HasRoom (next_bytes w) bs
    → (w' : BitWriter) × (push_bit w true ≡ ok w') × Holds w' (bs ++ true ∷ [])
unfolding push_bit
push_bit_set w bs h r =
    let (bytes', e, u, a) =
      or_at-unpack (next_bytes w) w.bit_len (omega (arith, room_counts (next_bytes w) bs r))
        r.are_bytes in
    (
      record { bytes = bytes'; bit_len = w.bit_len + 1 },
      rw e,
      record {
        pad = r.pad;
        stream = u ∙ set_next _ bs w.bit_len false true (replicate r.pad false) r.stream h.counted;
        counted = omega (arith, length-append bs (true ∷ []));
        padding = r.padding;
        are_bytes = a;
      },
    )

-- `push_bit` never panics and appends the bit.
pub push_bit-Holds :
    (w : BitWriter) (bs : List Bool) (bit : Bool)
    → Holds w bs
    → (w' : BitWriter) × (push_bit w bit ≡ ok w') × Holds w' (bs ++ bit ∷ [])
unfolding push_bit
push_bit-Holds w bs false h =
    let r = next_bytes-HasRoom w bs h in
    (
      record { bytes = next_bytes w; bit_len = w.bit_len + 1 },
      refl,
      record {
        pad = r.pad;
        stream = r.stream ∙ sym (append_assoc bs (false ∷ []) (replicate r.pad false));
        counted = omega (arith, length-append bs (false ∷ []));
        padding = r.padding;
        are_bytes = r.are_bytes;
      },
    )
push_bit-Holds w bs true h = push_bit_set w bs h (next_bytes-HasRoom w bs h)

-- `push_bits` never panics and appends the lowest bits of the value, the highest of them first.
pub push_bits-Holds :
    (w : BitWriter) (bs : List Bool) (value bits : ℕ)
    → Holds w bs
    → (w' : BitWriter) × (push_bits w value bits ≡ ok w') × Holds w' (bs ++ bits_of bits value)
unfolding push_bits
push_bits-Holds w bs value zero h = (w, refl, rw append-nil h)
push_bits-Holds w bs value (suc i) h =
    let (w', e, h') = push_bit-Holds w bs (bit_at value i) h in
    let (w'', e', h'') = push_bits-Holds w' (bs ++ bit_at value i ∷ []) value i h' in
    (
      w'',
      rw (bit_and_one (value / 2 ^ i), e) e',
      rw (append_assoc bs (bit_at value i ∷ []) (bits_of i value)) at h'',
    )

pub new_writer-Holds : Holds new_writer []
new_writer-Holds = record {
  pad = 0;
  stream = refl;
  counted = refl;
  padding = omega arith;
  are_bytes = tt;
}
