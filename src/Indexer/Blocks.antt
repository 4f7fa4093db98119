-- ===== src/Indexer/Blocks.antt =====
-- light-server/src/p2tr_indexer.rs, `apply_block_with_stats`: a transaction, and a block; and the
-- lookup-only entries that a chunk of blocks adds to the map and drops again.
use bitcoin_data.Base.{
  Bool, List, Result, [], bytes_keyed, ensure, err, false, get, if◌then◌else◌, insert, length, ltb,
  none, ok, remove, saturating_add_u64, some, ℕ, ◌++◌, ◌+◌, ◌-◌, ◌>>=◌, ◌>>◌, ◌^◌, ◌||◌, ◌∷◌,
}
use bitcoin_data.OutPoint.{OutPoint, outpoint_keyed}
use bitcoin_data.Bitmap
use bitcoin_data.Bitmap.{empty_bitmap, set_skipped}
use bitcoin_data.Indexer.{
  Error, too_many_txs, uid_overflow, bitmap, SpendLookup, TxOutput, Tx, Block, Stats, State,
  Progress,
}
use bitcoin_data.Indexer.Outputs.{incr, spend_inputs, scan_outputs}

unfoldable pub is_p2tr_tx : List TxOutput → Bool
is_p2tr_tx [] = false
is_p2tr_tx (output ∷ outputs) = output.is_p2tr || is_p2tr_tx outputs

unfoldable pub lift_bitmap : Result bitcoin_data.Bitmap.Error (List ℕ) → Result Error (List ℕ)
lift_bitmap (ok bits) = ok bits
lift_bitmap (err e) = err (bitmap e)

unfoldable pub count_p2tr_tx : Tx → Progress → Progress
unfolding is_p2tr_tx incr
count_p2tr_tx tx acc =
    if is_p2tr_tx tx.outputs
    then record acc {
      stats = record acc.stats {
        tx_with_p2tr_output_count = incr acc.stats.tx_with_p2tr_output_count;
      };
    }
    else acc

unfoldable pub count_indexed_tx : Progress → Progress
unfolding incr
count_indexed_tx acc = record acc {
  stats = record acc.stats {
    tx_with_indexed_output_count = incr acc.stats.tx_with_indexed_output_count;
  };
}

unfoldable pub push_tweak : ℕ → List ℕ → Progress → Progress
unfolding incr
push_tweak indexed tweak acc = record acc {
  stats = record acc.stats { tweak_count = incr acc.stats.tweak_count };
  tweaks = acc.tweaks ++ (indexed, tweak) ∷ [];
}

-- The end of a transaction, with the number of its indexed outputs: its tweak, or its bit.
unfoldable pub close_tx : ℕ → Tx → Progress × ℕ → Result Error Progress
unfolding count_p2tr_tx count_indexed_tx push_tweak lift_bitmap set_skipped
close_tx tx_count tx (acc, indexed) =
    let acc' = count_p2tr_tx tx acc in
    if ltb 0 indexed
    then elim tx.silent_payment_tweak [
      | none ↦ ok (count_indexed_tx acc')
      | some tweak ↦ ok (push_tweak indexed tweak (count_indexed_tx acc'))
    ]
    else (do
      bits ← lift_bitmap (set_skipped tx_count acc'.skipped_txs tx.tx_index)
      ok (record acc' { skipped_txs = bits }))

-- One transaction: its inputs before its outputs.
unfoldable pub apply_tx : ℕ → ℕ → ℕ → Progress → Tx → Result Error Progress
unfolding spend_inputs scan_outputs close_tx
apply_tx first_uid tx_count height acc tx = do
  acc₁ ← spend_inputs tx.tx_index acc tx.inputs
  acc₂ ← scan_outputs first_uid height tx (acc₁, 0) tx.outputs
  close_tx tx_count tx acc₂

unfoldable pub apply_txs : ℕ → ℕ → ℕ → Progress → List Tx → Result Error Progress
unfolding apply_tx
apply_txs first_uid tx_count height acc [] = ok acc
apply_txs first_uid tx_count height acc (tx ∷ txs) = do
  acc' ← apply_tx first_uid tx_count height acc tx
  apply_txs first_uid tx_count height acc' txs

abbrev pub no_stats : Stats
no_stats = record {
  output_count_total = 0;
  p2tr_output_count = 0;
  p2tr_count = 0;
  p2tr_nums_count = 0;
  p2tr_reused_count = 0;
  p2tr_excluded_by_scope_count = 0;
  indexed_output_count = 0;
  indexed_spent_count = 0;
  tx_with_p2tr_output_count = 0;
  tx_with_indexed_output_count = 0;
  tweak_count = 0;
}

unfoldable pub started : State → ℕ → Progress
unfolding empty_bitmap
started state tx_count = record {
  state = state;
  stats = no_stats;
  created = [];
  spent = [];
  skipped_outputs = [];
  tweaks = [];
  skipped_txs = empty_bitmap tx_count;
}

-- The uid counter after the block: past every slot, also the omitted ones.
unfoldable pub advance_uid : ℕ → Progress → Result Error Progress
advance_uid first_uid acc =
    if ltb 0 acc.stats.p2tr_output_count
    then (do
      let next_after_block = first_uid + acc.stats.p2tr_output_count
      ensure (ltb next_after_block (2 ^ 64)) uid_overflow
      ok (record acc { state = record acc.state { next_uid = next_after_block - 1 } }))
    else ok acc

unfoldable pub apply_block_with_stats : State → Block → Result Error Progress
unfolding started apply_txs advance_uid
apply_block_with_stats state block = do
  let first_uid = saturating_add_u64 state.next_uid 1
  let tx_count = length block.txs
  ensure (ltb tx_count (2 ^ 16)) too_many_txs
  acc ← apply_txs first_uid tx_count block.height (started state tx_count) block.txs
  advance_uid first_uid acc

-- `P2trIndexerState::new`.
abbrev pub new_state : State
new_state = record {
  next_uid = 0;
  outpoint_to_spend = [];
  live_uid_count = 0;
  seen_p2tr_keys = some [];
}

-- `restore_counts_only` and, with no live outputs, `restore_at_uid`.
unfoldable pub restore_counts_only : ℕ → ℕ → State
restore_counts_only last_uid live_uid_count = record {
  next_uid = last_uid;
  outpoint_to_spend = [];
  live_uid_count = live_uid_count;
  seen_p2tr_keys = none;
}

-- `cache_spend_uid_candidates`: the map, and the outpoints that were added to it.
unfoldable pub cache_candidates :
    List (OutPoint × SpendLookup)
    → List OutPoint
    → List (OutPoint × SpendLookup)
    → List (OutPoint × SpendLookup) × List OutPoint
unfolding get insert
cache_candidates m cached [] = (m, cached)
cache_candidates m cached (candidate ∷ candidates) = elim (get m candidate.0) [
  | some _ ↦ cache_candidates m cached candidates
  | none ↦
      cache_candidates (insert m candidate.0 candidate.1) (cached ++ candidate.0 ∷ []) candidates
]

-- `evict_spend_uid_candidates`: the map, and how many entries were dropped.
unfoldable pub evict_candidates :
    List (OutPoint × SpendLookup) → ℕ → List OutPoint → List (OutPoint × SpendLookup) × ℕ
unfolding get remove
evict_candidates m evicted [] = (m, evicted)
evict_candidates m evicted (outpoint ∷ cached) = elim (get m outpoint) [
  | some _ ↦ evict_candidates (remove m outpoint) (evicted + 1) cached
  | none ↦ evict_candidates (remove m outpoint) evicted cached
]
