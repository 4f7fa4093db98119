-- ===== src/Range.antt =====
-- light-server/src/range.rs: a list of messages in one frame, each behind its length.
pub mod Frame
pub mod Inverse
use bitcoin_data.Base.{
  List, Result, [], bytes_keyed, ensure, err, if◌then◌else◌, leb, length, ltb, ok, same_bytes, suc,
  zero, ℕ, ◌++◌, ◌+◌, ◌==◌, ◌>>=◌, ◌>>◌, ◌^◌, ◌∷◌,
}
use bitcoin_data.Helper.{LengthError, to_le_bytes, slice, read_u16_le, read_u32_le}

-- `not_u32` is the failed conversion of a length to `u32`.
pub data Error : Type 0 where
  not_u32 : Error
  too_short bad_magic : Error
  unsupported_version : ℕ → Error
  truncated_item_length truncated_item_body trailing_bytes : Error
  helper : LengthError → Error

-- `b"BDSR"`.
abbrev pub range_magic : List ℕ
range_magic = b'B' ∷ b'D' ∷ b'S' ∷ b'R' ∷ []

abbrev pub range_version : ℕ
range_version = 1

abbrev pub to_u32 : ℕ → Result Error ℕ
to_u32 n = if ltb n (2 ^ 32) then ok n else err not_u32

abbrev pub lift {ℓ} : {A : Type ℓ} → Result LengthError A → Result Error A
lift (ok a) = ok a
lift (err e) = err (helper e)

unfoldable pub frame_items : List (List ℕ) → List ℕ → Result Error (List ℕ)
frame_items [] out = ok out
frame_items (msg ∷ messages) out = do
  len ← to_u32 (length msg)
  frame_items messages ((out ++ to_le_bytes 4 len) ++ msg)

unfoldable pub frame_range : List (List ℕ) → Result Error (List ℕ)
unfolding frame_items
frame_range messages = do
  count ← to_u32 (length messages)
  frame_items messages ((range_magic ++ to_le_bytes 2 range_version) ++ to_le_bytes 4 count)

-- The loop over the items, from `pos` on.
unfoldable pub parse_items : List ℕ → ℕ → ℕ → List (List ℕ) → Result Error (ℕ × List (List ℕ))
parse_items bytes zero pos out = ok (pos, out)
parse_items bytes (suc count) pos out = do
  ensure (leb (pos + 4) (length bytes)) truncated_item_length
  len ← lift (read_u32_le (slice bytes pos (pos + 4)))
  ensure (leb (pos + 4 + len) (length bytes)) truncated_item_body
  parse_items bytes count (pos + 4 + len) (out ++ slice bytes (pos + 4) (pos + 4 + len) ∷ [])

unfoldable pub parse_range : List ℕ → Result Error (List (List ℕ))
unfolding parse_items
parse_range bytes = do
  ensure (leb 10 (length bytes)) too_short
  ensure (same_bytes (slice bytes 0 4) range_magic) bad_magic
  version ← lift (read_u16_le (slice bytes 4 6))
  ensure (version == range_version) (unsupported_version version)
  count ← lift (read_u32_le (slice bytes 6 10))
  (pos, out) ← parse_items bytes count 10 []
  ensure (pos == length bytes) trailing_bytes
  ok out
