-- ===== src/Helper.antt =====
-- light-server/src/helper.rs: fixed-width integers in byte slices. The labels of the errors are
-- texts for a reader and are left out; `to_le_bytes` and the like are Rust's own.
pub mod Endian
use bitcoin_data.Base.{
  List, Result, [], bytes_keyed, drop, ensure, length, ok, suc, take, zero, ℕ, ◌%◌, ◌*◌, ◌+◌, ◌-◌,
  ◌/◌, ◌<◌, ◌==◌, ◌>>=◌, ◌>>◌, ◌∷◌,
}
use mathlib.Core.List.{reverse}

pub data LengthError : Type 0 where
  invalid_length : ℕ → LengthError

abbrev pub IsByte : ℕ → Type 0
IsByte b = b < 256

-- Rust's `from_le_bytes`, `to_le_bytes`, `from_be_bytes` and `to_be_bytes`.
abbrev pub from_le_bytes : List ℕ → ℕ
from_le_bytes [] = 0
from_le_bytes (b ∷ bytes) = b + 256 * from_le_bytes bytes

abbrev pub to_le_bytes : ℕ → ℕ → List ℕ
to_le_bytes zero v = []
to_le_bytes (suc n) v = v % 256 ∷ to_le_bytes n (v / 256)

abbrev pub from_be_bytes : List ℕ → ℕ
from_be_bytes bytes = from_le_bytes (reverse bytes)

abbrev pub to_be_bytes : ℕ → ℕ → List ℕ
to_be_bytes n v = reverse (to_le_bytes n v)

-- `&bytes[from..to]`, within the slice.
abbrev pub slice {ℓ} : {A : Type ℓ} → List A → ℕ → ℕ → List A
slice bytes from to = take (to - from) (drop from bytes)

unfoldable pub read_32 : List ℕ → Result LengthError (List ℕ)
read_32 bytes = do ensure (length bytes == 32) (invalid_length (length bytes)); ok bytes

unfoldable pub read_u16_le : List ℕ → Result LengthError ℕ
read_u16_le bytes = do
  ensure (length bytes == 2) (invalid_length (length bytes))
  ok (from_le_bytes bytes)

unfoldable pub read_u32_le : List ℕ → Result LengthError ℕ
read_u32_le bytes = do
  ensure (length bytes == 4) (invalid_length (length bytes))
  ok (from_le_bytes bytes)

unfoldable pub read_u32_be : List ℕ → Result LengthError ℕ
read_u32_be bytes = do
  ensure (length bytes == 4) (invalid_length (length bytes))
  ok (from_be_bytes bytes)

unfoldable pub read_u64_be : List ℕ → Result LengthError ℕ
read_u64_be bytes = do
  ensure (length bytes == 8) (invalid_length (length bytes))
  ok (from_be_bytes bytes)
