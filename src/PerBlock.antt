-- ===== src/PerBlock.antt =====
-- stats/src/block.rs: the counters of a run, those of a block, and the row they are drained into.
-- The typed copies of the row's fields, `local` and `chain`, are a record of the same values.
use bitcoin_data.Base.{
  Bool, List, Result, [], add_u64, bytes_keyed, if◌then◌else◌, ok, ℕ, ◌&&◌, ◌++◌, ◌>>=◌, ◌∷◌,
}
use bitcoin_data.ScriptTypes.{TypeCounts, no_counts}
use bitcoin_data.Spend.{
  SpendPath, key, script_non_nums, script_nums, SpendClass, Stats, is_nums_path,
}
use bitcoin_data.SpentIds.{sort}
use bitcoin_data.SortedUids.{Error, CodecStats, BlockEstimate, no_stats, measure_stream}

-- `Stats`, with the counters of spends together.
pub record RunStats : Type 0 where
  pub spend : Stats
  pub outputs : ℕ
  pub p2tr_outputs : ℕ
  pub p2tr_reused : ℕ
  pub nonsp_txs : ℕ
  pub nonsp_tx_outputs : ℕ
  pub script_outputs : TypeCounts
  pub script_inputs : TypeCounts
  pub sorted_spent_ids : CodecStats
  pub sorted_p2tr_spent_ids : CodecStats

abbrev pub new_run : RunStats
new_run = record {
  spend = record {
    spends = 0;
    p2tr_spends = 0;
    p2tr_keypath_spends = 0;
    p2tr_scriptpath_spends = 0;
    p2tr_nums_spends = 0;
    p2tr_sp_eligible_spends = 0;
    p2tr_inscription_spends = 0;
    p2tr_nums_and_inscription_spends = 0;
    same_tx_spends = 0;
    p2tr_same_tx_spends = 0;
    same_block_spends = 0;
    p2tr_same_block_spends = 0;
  };
  outputs = 0;
  p2tr_outputs = 0;
  p2tr_reused = 0;
  nonsp_txs = 0;
  nonsp_tx_outputs = 0;
  script_outputs = no_counts;
  script_inputs = no_counts;
  sorted_spent_ids = no_stats;
  sorted_p2tr_spent_ids = no_stats;
}

pub record PerBlock : Type 0 where
  pub spends : ℕ
  pub output_count : ℕ
  pub p2tr_output_count : ℕ
  pub p2tr_reused_count : ℕ
  pub p2tr_spends : ℕ
  pub p2tr_keypath_spends : ℕ
  pub p2tr_scriptpath_spends : ℕ
  pub p2tr_nums_spends : ℕ
  pub p2tr_sp_eligible_spends : ℕ
  pub p2tr_inscription_spends : ℕ
  pub p2tr_nums_and_inscription_spends : ℕ
  pub nonsp_txs : ℕ
  pub nonsp_tx_outputs : ℕ
  pub script_outputs : TypeCounts
  pub script_inputs : TypeCounts
  pub spent_uids : List ℕ
  pub p2tr_spent_uids : List ℕ

abbrev pub new_block : PerBlock
new_block = record {
  spends = 0;
  output_count = 0;
  p2tr_output_count = 0;
  p2tr_reused_count = 0;
  p2tr_spends = 0;
  p2tr_keypath_spends = 0;
  p2tr_scriptpath_spends = 0;
  p2tr_nums_spends = 0;
  p2tr_sp_eligible_spends = 0;
  p2tr_inscription_spends = 0;
  p2tr_nums_and_inscription_spends = 0;
  nonsp_txs = 0;
  nonsp_tx_outputs = 0;
  script_outputs = no_counts;
  script_inputs = no_counts;
  spent_uids = [];
  p2tr_spent_uids = [];
}

unfoldable pub record_spend_uid : PerBlock → ℕ → Bool → PerBlock
record_spend_uid p uid is_p2tr = record p {
  spends = add_u64 p.spends 1;
  spent_uids = p.spent_uids ++ uid ∷ [];
  p2tr_spent_uids = if is_p2tr then p.p2tr_spent_uids ++ uid ∷ [] else p.p2tr_spent_uids;
}

unfoldable pub block_path : PerBlock → SpendPath → PerBlock
block_path p key = record p {
  p2tr_keypath_spends = add_u64 p.p2tr_keypath_spends 1;
  p2tr_sp_eligible_spends = add_u64 p.p2tr_sp_eligible_spends 1;
}
block_path p script_non_nums = record p {
  p2tr_scriptpath_spends = add_u64 p.p2tr_scriptpath_spends 1;
  p2tr_sp_eligible_spends = add_u64 p.p2tr_sp_eligible_spends 1;
}
block_path p script_nums = record p {
  p2tr_scriptpath_spends = add_u64 p.p2tr_scriptpath_spends 1;
  p2tr_nums_spends = add_u64 p.p2tr_nums_spends 1;
}

unfoldable pub block_inscription : PerBlock → SpendClass → PerBlock
unfolding is_nums_path
block_inscription p class =
    if class.inscription
    then record p {
      p2tr_inscription_spends = add_u64 p.p2tr_inscription_spends 1;
      p2tr_nums_and_inscription_spends =
          if is_nums_path class.path
          then add_u64 p.p2tr_nums_and_inscription_spends 1
          else p.p2tr_nums_and_inscription_spends;
    }
    else p

-- `PerBlock::record_p2tr_spend`.
unfoldable pub block_p2tr_spend : PerBlock → SpendClass → PerBlock
unfolding block_path block_inscription
block_p2tr_spend p class =
    block_inscription (block_path (record p { p2tr_spends = add_u64 p.p2tr_spends 1 }) class.path)
      class

unfoldable pub record_output : PerBlock → Bool → Bool → PerBlock
record_output p is_p2tr reused = record p {
  output_count = add_u64 p.output_count 1;
  p2tr_output_count = if is_p2tr then add_u64 p.p2tr_output_count 1 else p.p2tr_output_count;
  p2tr_reused_count =
      if is_p2tr && reused then add_u64 p.p2tr_reused_count 1 else p.p2tr_reused_count;
}

-- The counters of a row, which are the fields of `BlockStats` that a block's counters fill.
pub record Row : Type 0 where
  pub spends : ℕ
  pub output_count : ℕ
  pub p2tr_output_count : ℕ
  pub p2tr_reused_count : ℕ
  pub p2tr_spends : ℕ
  pub p2tr_keypath_spends : ℕ
  pub p2tr_scriptpath_spends : ℕ
  pub p2tr_nums_spends : ℕ
  pub p2tr_sp_eligible_spends : ℕ
  pub p2tr_inscription_spends : ℕ
  pub p2tr_nums_and_inscription_spends : ℕ
  pub nonsp_txs : ℕ
  pub nonsp_tx_outputs : ℕ
  pub script_outputs : TypeCounts
  pub script_inputs : TypeCounts

-- The counters of the block, and the block's counters emptied for the next block.
unfoldable pub drain_into : PerBlock → Row × PerBlock
drain_into p = (
  record {
    spends = p.spends;
    output_count = p.output_count;
    p2tr_output_count = p.p2tr_output_count;
    p2tr_reused_count = p.p2tr_reused_count;
    p2tr_spends = p.p2tr_spends;
    p2tr_keypath_spends = p.p2tr_keypath_spends;
    p2tr_scriptpath_spends = p.p2tr_scriptpath_spends;
    p2tr_nums_spends = p.p2tr_nums_spends;
    p2tr_sp_eligible_spends = p.p2tr_sp_eligible_spends;
    p2tr_inscription_spends = p.p2tr_inscription_spends;
    p2tr_nums_and_inscription_spends = p.p2tr_nums_and_inscription_spends;
    nonsp_txs = p.nonsp_txs;
    nonsp_tx_outputs = p.nonsp_tx_outputs;
    script_outputs = p.script_outputs;
    script_inputs = p.script_inputs;
  },
  new_block,
)

-- The estimates of all spends and of taproot spends; the lists of ids are left sorted.
unfoldable pub measure_sorted_uid_encoding :
    PerBlock → ℕ → RunStats → Result Error (PerBlock × RunStats × BlockEstimate × BlockEstimate)
unfolding measure_stream sort
measure_sorted_uid_encoding p block_anchor_last_uid run_stats = do
  (all, spent) ← measure_stream p.spent_uids block_anchor_last_uid run_stats.sorted_spent_ids
  (p2tr, p2tr_spent) ←
      measure_stream p.p2tr_spent_uids block_anchor_last_uid run_stats.sorted_p2tr_spent_ids
  ok (
    record p { spent_uids = sort p.spent_uids; p2tr_spent_uids = sort p.p2tr_spent_uids },
    record run_stats { sorted_spent_ids = spent; sorted_p2tr_spent_ids = p2tr_spent },
    all,
    p2tr,
  )
