-- ===== src/Bitmap.antt =====
-- light-server/src/index.rs: the bitmap with a bit for each transaction of a block, set for those
-- without a tweak. The lowest bit of a byte comes first.
pub mod Bits
pub mod Skipped
pub mod Count
use bitcoin_data.Base.{
  Bool, List, Result, [], bit_and, bit_or, bytes_keyed, ensure, get_or, if◌then◌else◌, length, ltb,
  not, ok, replicate, set, suc, zero, ℕ, ◌%◌, ◌&&◌, ◌++◌, ◌+◌, ◌-◌, ◌/◌, ◌==◌, ◌>>=◌, ◌>>◌, ◌^◌,
  ◌||◌, ◌∷◌,
}

pub data Error : Type 0 where
  wrong_length padding_set index_outside count_overflow : Error

unfoldable pub bitmap_len : ℕ → ℕ
bitmap_len tx_count = (tx_count + 7) / 8

unfoldable pub empty_bitmap : ℕ → List ℕ
unfolding bitmap_len
empty_bitmap tx_count = replicate (bitmap_len tx_count) 0

-- The mask of the padding bits is the complement of the used bits in a byte.
unfoldable pub validate : ℕ → List ℕ → Result Error (Unit {0})
unfolding bitmap_len
validate tx_count bitmap = do
  ensure (length bitmap == bitmap_len tx_count) wrong_length
  let used_bits = tx_count % 8
  let padding_mask = 255 - (2 ^ used_bits - 1)
  ensure
      (not (ltb 0 used_bits && ltb 0 (length bitmap))
        || bit_and (get_or bitmap (length bitmap - 1) 0) padding_mask == 0)
      padding_set

unfoldable pub set_skipped : ℕ → List ℕ → ℕ → Result Error (List ℕ)
unfolding validate
set_skipped tx_count bitmap tx_index = do
  validate tx_count bitmap
  ensure (ltb tx_index tx_count) index_outside
  let byte = tx_index / 8
  let shift = tx_index % 8
  ok (set bitmap byte (bit_or (get_or bitmap byte 0) (2 ^ shift)))

unfoldable pub is_skipped : ℕ → List ℕ → ℕ → Result Error Bool
unfolding validate
is_skipped tx_count bitmap tx_index = do
  validate tx_count bitmap
  ensure (ltb tx_index tx_count) index_outside
  let byte = tx_index / 8
  let shift = tx_index % 8
  ok (not (bit_and (get_or bitmap byte 0 / 2 ^ shift) 1 == 0))

-- The loop of `skipped_txs_for_tweaks_count` over the indexes from `tx_index` on.
unfoldable pub count_from : ℕ → ℕ → List ℕ → ℕ → ℕ → Result Error ℕ
unfolding is_skipped
count_from zero tx_count bitmap tx_index count = ok count
count_from (suc n) tx_count bitmap tx_index count = do
  skipped ← is_skipped tx_count bitmap tx_index
  ensure (not skipped || ltb (count + 1) (2 ^ 16)) count_overflow
  count_from n tx_count bitmap (tx_index + 1) (if skipped then count + 1 else count)

unfoldable pub skipped_count : ℕ → List ℕ → Result Error ℕ
unfolding count_from
skipped_count tx_count bitmap = do validate tx_count bitmap; count_from tx_count tx_count bitmap 0 0

-- The loop of `skipped_txs_for_tweaks_indexes`.
unfoldable pub indexes_from : ℕ → ℕ → List ℕ → ℕ → List ℕ → Result Error (List ℕ)
unfolding is_skipped
indexes_from zero tx_count bitmap tx_index out = ok out
indexes_from (suc n) tx_count bitmap tx_index out = do
  skipped ← is_skipped tx_count bitmap tx_index
  indexes_from n tx_count bitmap (tx_index + 1) (if skipped then out ++ tx_index ∷ [] else out)

unfoldable pub skipped_indexes : ℕ → List ℕ → Result Error (List ℕ)
unfolding indexes_from
skipped_indexes tx_count bitmap = do
  validate tx_count bitmap
  indexes_from tx_count tx_count bitmap 0 []
