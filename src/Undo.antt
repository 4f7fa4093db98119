-- ===== src/Undo.antt =====
-- core/src/block.rs: the spent outputs of a block, decoded from Bitcoin Core's undo payload. A
-- cursor is a byte slice with a position. `usize` has 64 bits. `Vec::with_capacity` panics where the
-- buffer would exceed `isize::MAX` bytes; whether the allocator has the memory is not modelled.
pub mod Reading
pub mod RoundTrip
use bitcoin_data.Base.{
  Bool, List, Result, [], bytes_keyed, ensure, err, get_elem?, if◌then◌else◌, leb, length, ltb,
  none, ok, some, suc, zero, ℕ, ◌*◌, ◌++◌, ◌+◌, ◌-◌, ◌==◌, ◌>>=◌, ◌>>◌, ◌^◌, ◌∷◌,
}
use bitcoin_data.Helper.{from_le_bytes, slice}

pub data Error : Type 0 where
  unexpected_eof non_canonical negative_value : Error
  trailing_bytes : ℕ → Error
  capacity_overflow : Error

pub record SpentTxOut : Type 0 where
  pub value_sat : ℕ
  pub script_pubkey : List ℕ

-- The undo data of a block: for each transaction, the outputs that its inputs spend.
pub record BlockSpentTxOuts : Type 0 where
  pub txs : List (List SpentTxOut)

pub record Cursor : Type 0 where
  pub bytes : List ℕ
  pub pos : ℕ

unfoldable pub remaining : Cursor → ℕ
remaining c = length c.bytes - c.pos

unfoldable pub is_empty : Cursor → Bool
is_empty c = c.pos == length c.bytes

unfoldable pub read_u8 : Cursor → Result Error (ℕ × Cursor)
read_u8 c = elim (get_elem? c.bytes c.pos) [
  | none ↦ err unexpected_eof
  | some byte ↦ ok (byte, record c { pos = c.pos + 1 })
]

unfoldable pub read_exact : ℕ → Cursor → Result Error (List ℕ × Cursor)
unfolding remaining
read_exact len c = do
  ensure (leb len (remaining c)) unexpected_eof
  ok (slice c.bytes c.pos (c.pos + len), record c { pos = c.pos + len })

-- A wide integer of `n` bytes that does not fit the next shorter form.
unfoldable pub read_wide : ℕ → ℕ → Cursor → Result Error (ℕ × Cursor)
read_wide n limit c = do
  (b, c') ← read_exact n c
  let value = from_le_bytes b
  ensure (ltb limit value) non_canonical
  ok (value, c')

unfoldable pub read_compact_size : Cursor → Result Error (ℕ × Cursor)
unfolding read_wide
read_compact_size c = do
  (first, c') ← read_u8 c
  if leb first 0xfc
      then ok (first, c')
      else (if first == 0xfd
          then read_wide 2 0xfc c'
          else (if first == 0xfe then read_wide 4 0xffff c' else read_wide 8 0xffff_ffff c'))

-- `i64::from_le_bytes`: the value is negative where bit 63 is set.
unfoldable pub read_txout_value : Cursor → Result Error (ℕ × Cursor)
read_txout_value c = do
  (b, c') ← read_exact 8 c
  ensure (ltb (from_le_bytes b) (2 ^ 63)) negative_value
  ok (from_le_bytes b, c')

unfoldable pub read_raw_script : Cursor → Result Error (List ℕ × Cursor)
read_raw_script c = do (len, c') ← read_compact_size c; read_exact len c'

-- `Vec::with_capacity(count)` of elements of `size` bytes: 24 for a `Vec`, 32 for a `SpentTxOut`.
abbrev pub with_capacity : ℕ → ℕ → Result Error (Unit {0})
with_capacity size count = ensure (ltb (size * count) (2 ^ 63)) capacity_overflow

unfoldable pub read_inputs : ℕ → List SpentTxOut → Cursor → Result Error (List SpentTxOut × Cursor)
read_inputs zero inputs c = ok (inputs, c)
read_inputs (suc n) inputs c = do
  (value, c₁) ← read_txout_value c
  (script, c₂) ← read_raw_script c₁
  read_inputs n (inputs ++ record { value_sat = value; script_pubkey = script } ∷ []) c₂

unfoldable pub read_txs :
    ℕ → List (List SpentTxOut) → Cursor → Result Error (List (List SpentTxOut) × Cursor)
read_txs zero txs c = ok (txs, c)
read_txs (suc n) txs c = do
  (input_count, c₁) ← read_compact_size c
  with_capacity 32 input_count
  (inputs, c₂) ← read_inputs input_count [] c₁
  read_txs n (txs ++ inputs ∷ []) c₂

unfoldable pub decode_spent_txouts_payload : List ℕ → Result Error BlockSpentTxOuts
decode_spent_txouts_payload bytes = do
  (tx_count, c) ← read_compact_size (record { bytes = bytes; pos = 0 })
  with_capacity 24 tx_count
  (txs, c') ← read_txs tx_count [] c
  ensure (is_empty c') (trailing_bytes (remaining c'))
  ok (record { txs = txs })
