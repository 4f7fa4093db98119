-- ===== src/Codec/BitIo.antt =====
-- light-server/src/codec/elias_delta.rs, `BitWriter` and `BitReader`: a bit stream in bytes, the
-- highest bit of a byte first.
pub mod Stream
pub mod SetBit
pub mod Write
pub mod Read
use bitcoin_data.Base.{
  Bool, List, Option, Result, [], bit_and, bit_or, bytes_keyed, err, false, get_elem?,
  if◌then◌else◌, leb, length, none, ok, set, some, suc, true, zero, ℕ, ◌%◌, ◌*◌, ◌++◌, ◌+◌, ◌-◌,
  ◌/◌, ◌==◌, ◌>>=◌, ◌>>◌, ◌^◌, ◌∷◌,
}

-- The errors of the file, the panics of an index and of a buffer's size, and a loop out of fuel.
pub data Error : Type 0 where
  not_positive : Error
  invalid_prefix truncated_prefix : Error
  truncated_length invalid_length truncated_value : Error
  index_out_of_bounds capacity_overflow out_of_fuel : Error

pub record BitWriter : Type 0 where
  pub bytes : List ℕ
  pub bit_len : ℕ

abbrev pub new_writer : BitWriter
new_writer = record { bytes = []; bit_len = 0 }

-- `bytes[i] |= mask`.
unfoldable pub or_at : List ℕ → ℕ → ℕ → Result Error (List ℕ)
or_at bytes i mask = elim (get_elem? bytes i) [
  | none ↦ err index_out_of_bounds
  | some b ↦ ok (set bytes i (bit_or b mask))
]

-- A byte is added where the last one is full.
unfoldable pub next_bytes : BitWriter → List ℕ
next_bytes w = if w.bit_len % 8 == 0 then w.bytes ++ 0 ∷ [] else w.bytes

unfoldable pub push_bit : BitWriter → Bool → Result Error BitWriter
push_bit w bit = do
  let shift = 7 - w.bit_len % 8
  bytes ← if bit then or_at (next_bytes w) (w.bit_len / 8) (2 ^ shift) else ok (next_bytes w)
  ok (record { bytes = bytes; bit_len = w.bit_len + 1 })

-- `for i in (0..bits).rev()`.
unfoldable pub push_bits : BitWriter → ℕ → ℕ → Result Error BitWriter
push_bits w value zero = ok w
push_bits w value (suc i) = do
  w' ← push_bit w (bit_and (value / 2 ^ i) 1 == 1)
  push_bits w' value i

pub record BitReader : Type 0 where
  pub bytes : List ℕ
  pub bit_pos : ℕ

abbrev pub new_reader : List ℕ → BitReader
new_reader bytes = record { bytes = bytes; bit_pos = 0 }

-- `bytes[i]`.
unfoldable pub byte_at : List ℕ → ℕ → Result Error ℕ
byte_at bytes i = elim (get_elem? bytes i) [ none ↦ err index_out_of_bounds | some b ↦ ok b ]

unfoldable pub read_bit : BitReader → Result Error (Option (Bool × BitReader))
unfolding byte_at
read_bit r = if leb (length r.bytes * 8) r.bit_pos then ok none else (do
  byte ← byte_at r.bytes (r.bit_pos / 8)
  let bit = bit_and (byte / 2 ^ (7 - r.bit_pos % 8)) 1 == 1
  ok (some (bit, record r { bit_pos = r.bit_pos + 1 })))

abbrev pub bit_value : Bool → ℕ
bit_value true = 1
bit_value false = 0

-- The loop of `read_bits`: `v = (v << 1) | bit`, on 64 bits.
unfoldable pub read_bits_from : BitReader → ℕ → ℕ → Result Error (Option (ℕ × BitReader))
unfolding read_bit
read_bits_from r zero v = ok (some (v, r))
read_bits_from r (suc bits) v = do
  got ← read_bit r
  elim got [
    | none ↦ ok none
    | some (bit, r') ↦ read_bits_from r' bits (bit_or (v * 2 % 2 ^ 64) (bit_value bit))
  ]

unfoldable pub read_bits : BitReader → ℕ → Result Error (Option (ℕ × BitReader))
unfolding read_bits_from
read_bits r bits = read_bits_from r bits 0
