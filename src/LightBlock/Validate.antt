-- ===== src/LightBlock/Validate.antt =====
-- light-server/src/index.rs: the checks of a served light block.
use bitcoin_data.Base.{
  List, Result, [], bytes_keyed, ensure, if◌then◌else◌, leb, length, ltb, ok, ℕ, ◌+◌, ◌-◌, ◌==◌,
  ◌>>=◌, ◌>>◌, ◌^◌, ◌∷◌,
}
use bitcoin_data.Bitmap
use bitcoin_data.SpentIds.{decode_spent_ids}
use bitcoin_data.LightBlock.{
  Error, TweakEntry, LightBlockInput, lift_bitmap, lift_spent, too_many_entries, tx_count_mismatch,
  hash_length_mismatch, hash_bits_not_zero, hash_bits_zero, payload_length, spent_count_mismatch,
  slots_not_ascending, too_many_slots, slot_outside,
}
use bitcoin_data.LightBlock.Hashes.{packed_len}
use bitcoin_data.LightBlock.Tweaks.{tweak_payload}

unfoldable pub ensure_u16_len : ℕ → Result Error (Unit {0})
ensure_u16_len len = ensure (leb len (2 ^ 16 - 1)) too_many_entries

-- A sum of 16-bit counts of a list in memory does not overflow a `usize`.
unfoldable pub output_total : List TweakEntry → ℕ
output_total [] = 0
output_total (entry ∷ tweaks) = entry.output_count + output_total tweaks

unfoldable pub check_payloads : List TweakEntry → Result Error (Unit {0})
unfolding tweak_payload
check_payloads [] = ok tt
check_payloads (entry ∷ tweaks) = do
  ensure (length (tweak_payload entry.tweak) == 32) payload_length
  check_payloads tweaks

unfoldable pub decode_block_spent_ids : LightBlockInput → Result Error (List ℕ)
unfolding lift_spent
decode_block_spent_ids input = lift_spent (decode_spent_ids input.spent_count input.spent_ids)

unfoldable pub validate_light_block : LightBlockInput → Result Error (Unit {0})
unfolding lift_bitmap ensure_u16_len output_total packed_len check_payloads decode_block_spent_ids
validate_light_block input = do
  lift_bitmap (Bitmap.validate input.tx_count input.skipped_txs)
  skipped_tx_count ← lift_bitmap (Bitmap.skipped_count input.tx_count input.skipped_txs)
  ensure_u16_len (length input.tweaks)
  ensure (input.tx_count == skipped_tx_count + length input.tweaks) tx_count_mismatch
  let declared_outputs = output_total input.tweaks
  ensure (packed_len declared_outputs input.hash_bits == length input.hashes) hash_length_mismatch
  if declared_outputs == 0
      then ensure (input.hash_bits == 0) hash_bits_not_zero
      else ensure (ltb 0 input.hash_bits) hash_bits_zero
  check_payloads input.tweaks
  decoded_spends ← decode_block_spent_ids input
  ensure (length decoded_spends == input.spent_count) spent_count_mismatch

-- The loop over `values.windows(2)`.
unfoldable pub validate_ascending : List ℕ → Result Error (Unit {0})
validate_ascending [] = ok tt
validate_ascending (a ∷ []) = ok tt
validate_ascending (a ∷ b ∷ values) = do
  ensure (ltb a b) slots_not_ascending
  validate_ascending (b ∷ values)

unfoldable pub check_slots : ℕ → List ℕ → Result Error (Unit {0})
check_slots p2tr_output_count [] = ok tt
check_slots p2tr_output_count (slot ∷ slots) = do
  ensure (ltb slot p2tr_output_count) slot_outside
  check_slots p2tr_output_count slots

unfoldable pub validate_uid_domain : ℕ → List ℕ → Result Error (Unit {0})
unfolding check_slots
validate_uid_domain output_count skipped_outputs = do
  let p2tr_output_count = output_count + length skipped_outputs
  ensure (leb p2tr_output_count (2 ^ 16)) too_many_slots
  check_slots p2tr_output_count skipped_outputs
