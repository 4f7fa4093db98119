-- ===== src/LightBlock/Response.antt =====
-- light-server/src/index.rs: a stored block as a response, whole or filtered, and its checks.
use bitcoin_data.Base.{
  Bool, List, Option, Result, [], bytes_keyed, ensure, false, if◌then◌else◌, leb, length, ltb, map,
  none, not, ok, some, true, ℕ, ◌&&◌, ◌++◌, ◌+◌, ◌-◌, ◌==◌, ◌>>=◌, ◌>>◌, ◌^◌, ◌||◌, ◌∷◌,
}
use bitcoin_data.Bitmap
use bitcoin_data.Helper.{slice}
use bitcoin_data.SpentIds.{encode_spent_ids}
use bitcoin_data.LightBlock.{
  Error, TweakEntry, LightBlockInput, StoredOutput, StoredSpend, StoredBlock, ResponseFilter,
  lift_bitmap, lift_spent, lift_hash, should_omit_output, should_omit_spend, derive_indexes,
  group_outside, group_overflow, outputs_left, tx_count_mismatch, hash_length_mismatch,
  height_too_large, created_after_spent,
}
use bitcoin_data.LightBlock.Hashes.{
  label_budget, budget_two, budget_hundred, choose_hash_bits, pack_hashes, packed_len,
}
use bitcoin_data.LightBlock.Validate.{
  validate_light_block, ensure_u16_len, validate_ascending, validate_uid_domain,
}

-- The response with the fields that a filter does not touch.
unfoldable pub respond :
    StoredBlock → List ℕ → List TweakEntry → ℕ → List ℕ → ℕ × List ℕ → LightBlockInput
respond block skipped_txs tweaks hash_bits hashes spent = record {
  height = block.height;
  block_hash = block.block_hash;
  previous_block_hash = block.previous_block_hash;
  first_uid = block.first_uid;
  tx_count = block.tx_count;
  skipped_txs = skipped_txs;
  tweaks = tweaks;
  hash_bits = hash_bits;
  hashes = hashes;
  spent_count = spent.0;
  spent_ids = spent.1;
}

unfoldable pub to_response : StoredBlock → Option ℕ → Result Error LightBlockInput
unfolding label_budget choose_hash_bits respond lift_spent
to_response block labels = do
  let budget = label_budget labels
  let bits = choose_hash_bits (length block.outputs) block.raw_block_bytes budget
  let hashes = if budget == budget_two then block.hashes_two_labels else block.hashes_hundred_labels
  spent ← lift_spent (encode_spent_ids (map (λ (s : StoredSpend). s.spent_uid) block.spends))
  let response = respond block block.skipped_txs block.tweaks bits hashes spent
  validate_light_block response
  ok response

-- The loop over the outputs of one tweak: how many were kept, and the keys with theirs.
unfoldable pub keep_group :
    ℕ → ResponseFilter → List StoredOutput → ℕ → List (List ℕ) → Result Error (ℕ × List (List ℕ))
unfolding should_omit_output
keep_group height filter [] kept_count keys = ok (kept_count, keys)
keep_group height filter (output ∷ outputs) kept_count keys = do
  let omit = should_omit_output height output filter
  ensure (omit || ltb (kept_count + 1) (2 ^ 16)) group_overflow
  keep_group height filter outputs (if omit then kept_count else kept_count + 1)
      (if omit then keys else keys ++ output.key ∷ [])

-- The variables of the loop over the tweaks.
pub record Filtered : Type 0 where
  pub cursor : ℕ
  pub keys : List (List ℕ)
  pub tweaks : List TweakEntry
  pub skipped_txs : List ℕ

unfoldable pub filter_tweak :
    StoredBlock → ResponseFilter → TweakEntry → ℕ → Filtered → Result Error Filtered
unfolding keep_group lift_bitmap
filter_tweak block filter tweak tx_index s = do
  let group_end = s.cursor + tweak.output_count
  ensure (leb group_end (length block.outputs)) group_outside
  (kept_count, keys) ←
      keep_group block.height filter (slice block.outputs s.cursor group_end) 0 s.keys
  if ltb 0 kept_count
      then ok (record s {
        cursor = group_end;
        keys = keys;
        tweaks = s.tweaks ++ record { output_count = kept_count; tweak = tweak.tweak } ∷ [];
      })
      else (do
        marked ← lift_bitmap (Bitmap.set_skipped block.tx_count s.skipped_txs tx_index)
        ok (record s { cursor = group_end; keys = keys; skipped_txs = marked }))

-- The loop over the tweaks and the indexes of their transactions.
unfoldable pub filter_tweaks :
    StoredBlock → ResponseFilter → List TweakEntry → List ℕ → Filtered → Result Error Filtered
unfolding filter_tweak
filter_tweaks block filter [] indexes s = ok s
filter_tweaks block filter (tweak ∷ tweaks) [] s = ok s
filter_tweaks block filter (tweak ∷ tweaks) (tx_index ∷ indexes) s = do
  s' ← filter_tweak block filter tweak tx_index s
  filter_tweaks block filter tweaks indexes s'

unfoldable pub kept_uids : ℕ → ResponseFilter → List StoredSpend → List ℕ
unfolding should_omit_spend
kept_uids height filter [] = []
kept_uids height filter (spend ∷ spends) =
    let rest = kept_uids height filter spends in
    if should_omit_spend height spend filter then rest else spend.spent_uid ∷ rest

abbrev pub is_unfiltered : ResponseFilter → Bool
is_unfiltered filter =
    not filter.filter_reuse && elim filter.cutthrough_start [ none ↦ true | some _ ↦ false ]

-- SHA-256 is a parameter.
module _ (sha256 : List ℕ → List ℕ) where
  unfoldable pub filtered_response : StoredBlock → ResponseFilter → Result Error LightBlockInput
  unfolding derive_indexes filter_tweaks kept_uids lift_spent lift_hash label_budget
      choose_hash_bits pack_hashes respond
  filtered_response block filter = do
    indexes ← derive_indexes block.tx_count block.skipped_txs (length block.tweaks)
    s ←
        filter_tweaks block filter block.tweaks indexes
          (record { cursor = 0; keys = []; tweaks = []; skipped_txs = block.skipped_txs })
    ensure (s.cursor == length block.outputs) outputs_left
    spent ← lift_spent (encode_spent_ids (kept_uids block.height filter block.spends))
    let bits = choose_hash_bits (length s.keys) block.raw_block_bytes (label_budget filter.labels)
    hashes ← lift_hash (pack_hashes sha256 s.keys bits)
    let response = respond block s.skipped_txs s.tweaks bits hashes spent
    validate_light_block response
    ok response

  unfoldable pub to_filtered_response : StoredBlock → ResponseFilter → Result Error LightBlockInput
  unfolding filtered_response to_response
  to_filtered_response block filter =
      if is_unfiltered filter
      then to_response block filter.labels
      else filtered_response block filter

unfoldable pub check_spends : ℕ → List StoredSpend → Result Error (Unit {0})
check_spends height [] = ok tt
check_spends height (spend ∷ spends) = do
  ensure (leb spend.creation_height height) created_after_spent
  check_spends height spends

unfoldable pub check_stored_hashes : StoredBlock → ℕ → List ℕ → Result Error (Unit {0})
unfolding choose_hash_bits packed_len
check_stored_hashes block budget hashes = do
  let bits = choose_hash_bits (length block.outputs) block.raw_block_bytes budget
  ensure (length hashes == packed_len (length block.outputs) bits) hash_length_mismatch

unfoldable pub validate_stored_block : StoredBlock → Result Error (Unit {0})
unfolding ensure_u16_len validate_ascending validate_uid_domain check_stored_hashes to_response
    check_spends lift_bitmap
validate_stored_block input = do
  ensure (leb input.height (2 ^ 32 - 1)) height_too_large
  lift_bitmap (Bitmap.validate input.tx_count input.skipped_txs)
  skipped_tx_count ← lift_bitmap (Bitmap.skipped_count input.tx_count input.skipped_txs)
  ensure_u16_len (length input.tweaks)
  ensure (input.tx_count == skipped_tx_count + length input.tweaks) tx_count_mismatch
  ensure_u16_len (length input.skipped_outputs)
  ensure_u16_len (length input.outputs)
  validate_ascending input.skipped_outputs
  validate_uid_domain (length input.outputs) input.skipped_outputs
  check_stored_hashes input budget_two input.hashes_two_labels
  check_stored_hashes input budget_hundred input.hashes_hundred_labels
  response ← to_response input none
  validate_light_block response
  check_spends input.height input.spends
