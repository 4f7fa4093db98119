-- ===== src/LightBlock.antt =====
-- light-server/src/index.rs: stored and served light blocks, and what a request filters. Cap'n Proto
-- reading and writing are generated code.
pub mod Hashes
pub mod Tweaks
pub mod Validate
pub mod Response
pub mod Indexes
pub mod Groups
pub mod Filtering
pub mod Loop
pub mod Valid
pub mod Spends
pub mod Served
pub mod Flat
use bitcoin_data.Base.{
  Bool, List, Option, Result, [], bit_and, bytes_keyed, ensure, err, false, if◌then◌else◌, leb,
  length, ltb, none, not, ok, some, suc, true, zero, ℕ, ◌&&◌, ◌+◌, ◌-◌, ◌==◌, ◌>>=◌, ◌>>◌, ◌^◌, ◌∷◌,
}
use bitcoin_data.Bitmap
use bitcoin_data.SpentIds
use bitcoin_data.Codec.BitIo

pub data Error : Type 0 where
  bitmap_error : Bitmap.Error → Error
  spent_error : SpentIds.Error → Error
  hash_error : BitIo.Error → Error
  index_overflow not_enough_transactions : Error
  group_outside group_overflow outputs_left : Error
  too_many_entries tx_count_mismatch : Error
  hash_length_mismatch hash_bits_not_zero hash_bits_zero : Error
  payload_length spent_count_mismatch : Error
  count_bytes_mismatch tweak_bytes_mismatch : Error
  height_too_large slots_not_ascending too_many_slots slot_outside : Error
  created_after_spent : Error

unfoldable pub lift_bitmap {ℓ} : {A : Type ℓ} → Result Bitmap.Error A → Result Error A
lift_bitmap (ok a) = ok a
lift_bitmap (err e) = err (bitmap_error e)

unfoldable pub lift_spent {ℓ} : {A : Type ℓ} → Result SpentIds.Error A → Result Error A
lift_spent (ok a) = ok a
lift_spent (err e) = err (spent_error e)

unfoldable pub lift_hash {ℓ} : {A : Type ℓ} → Result BitIo.Error A → Result Error A
lift_hash (ok a) = ok a
lift_hash (err e) = err (hash_error e)

-- A tweak is a compressed point of 33 bytes.
pub record TweakEntry : Type 0 where
  pub output_count : ℕ
  pub tweak : List ℕ

-- The one codec of spent ids is `EliasDeltaAscendingAbsolute`.
pub record LightBlockInput : Type 0 where
  pub height : ℕ
  pub block_hash : List ℕ
  pub previous_block_hash : List ℕ
  pub first_uid : ℕ
  pub tx_count : ℕ
  pub skipped_txs : List ℕ
  pub tweaks : List TweakEntry
  pub hash_bits : ℕ
  pub hashes : List ℕ
  pub spent_count : ℕ
  pub spent_ids : List ℕ

pub record StoredOutput : Type 0 where
  pub key : List ℕ
  pub spent_height : ℕ
  pub flags : ℕ

pub record StoredSpend : Type 0 where
  pub spent_uid : ℕ
  pub creation_height : ℕ

pub record StoredBlock : Type 0 where
  pub height : ℕ
  pub block_hash : List ℕ
  pub previous_block_hash : List ℕ
  pub first_uid : ℕ
  pub tx_count : ℕ
  pub skipped_txs : List ℕ
  pub tweaks : List TweakEntry
  pub skipped_outputs : List ℕ
  pub outputs : List StoredOutput
  pub spends : List StoredSpend
  pub raw_block_bytes : ℕ
  pub hashes_two_labels : List ℕ
  pub hashes_hundred_labels : List ℕ

pub record ResponseFilter : Type 0 where
  pub cutthrough_start : Option ℕ
  pub cutthrough_tip : Option ℕ
  pub filter_reuse : Bool
  pub labels : Option ℕ

abbrev pub flag_reused : ℕ
flag_reused = 1

-- `STORAGE_SPENT_HEIGHT_UNSPENT`, which is `u32::MAX`.
abbrev pub unspent : ℕ
unspent = 2 ^ 32 - 1

abbrev pub unwrap_or {ℓ} : {A : Type ℓ} → Option A → A → A
unwrap_or none a = a
unwrap_or (some b) a = b

-- Whether cut-through from `start` drops an output of a block at `height`.
unfoldable pub cuts_output : Option ℕ → ℕ → ℕ → ℕ → Bool
cuts_output none tip height spent_height = false
cuts_output (some start) tip height spent_height =
    leb start height && (not (spent_height == unspent) && leb spent_height tip)

unfoldable pub should_omit_output : ℕ → StoredOutput → ResponseFilter → Bool
unfolding cuts_output
should_omit_output block_height output filter =
    if filter.filter_reuse && not (bit_and output.flags flag_reused == 0)
    then true
    else cuts_output filter.cutthrough_start (unwrap_or filter.cutthrough_tip (2 ^ 64 - 1))
        block_height output.spent_height

unfoldable pub cuts_spend : Option ℕ → ℕ → ℕ → ℕ → Bool
cuts_spend none tip height creation_height = false
cuts_spend (some start) tip height creation_height = leb height tip && leb start creation_height

unfoldable pub should_omit_spend : ℕ → StoredSpend → ResponseFilter → Bool
unfolding cuts_spend
should_omit_spend block_height spend filter =
    cuts_spend filter.cutthrough_start (unwrap_or filter.cutthrough_tip (2 ^ 64 - 1)) block_height
      spend.creation_height

-- The loop of `derive_stored_tweak_tx_indexes`: `n` transactions are left from `tx_index` on, and
-- `wanted` indexes are still to be found. An index stays below the 16 bits of `tx_count`.
unfoldable pub open_indexes : ℕ → ℕ → List ℕ → ℕ → ℕ → Result Error (List ℕ)
unfolding Bitmap.is_skipped lift_bitmap
open_indexes zero tx_count skipped_txs tx_index wanted = ok []
open_indexes (suc n) tx_count skipped_txs tx_index wanted =
    let found = (do
      skipped ← lift_bitmap (Bitmap.is_skipped tx_count skipped_txs tx_index)
      ensure (ltb (tx_index + 1) (2 ^ 16)) index_overflow
      let wanted' = if skipped then wanted else wanted - 1
      rest ← open_indexes n tx_count skipped_txs (tx_index + 1) wanted'
      ok (if skipped then rest else tx_index ∷ rest)) in
    if wanted == 0 then ok [] else found

unfoldable pub derive_indexes : ℕ → List ℕ → ℕ → Result Error (List ℕ)
unfolding open_indexes lift_bitmap
derive_indexes tx_count skipped_txs tweak_count = do
  lift_bitmap (Bitmap.validate tx_count skipped_txs)
  indexes ← open_indexes tx_count tx_count skipped_txs 0 tweak_count
  ensure (length indexes == tweak_count) not_enough_transactions
  ok indexes
