-- ===== src/Scanner/RowSums.antt =====
-- stats/src/scan.rs, `scan`: the row of a block is what the block adds to the counters of the run.
use bitcoin_data.Base.{List, arith, bytes_keyed, ok, ℕ, ◌+◌, ◌<◌, ◌^◌, ◌≡◌}
use bitcoin_data.OutPoint.{outpoint_keyed}
use bitcoin_data.ScriptTypes.{TypeCounts, no_counts, merge_counts}
use bitcoin_data.SortedUids.{BlockEstimate}
use bitcoin_data.PerBlock.{RunStats, Row, new_block, drain_into}
use bitcoin_data.Scanner.{State, PreparedTx}
use bitcoin_data.Scanner.Blocks.{start_block, scan_block}
use bitcoin_data.Scanner.Steps.{outputs_in}
use bitcoin_data.Scanner.Whole.{IsReady, scan_of, result_of, scan_block-result}
use bitcoin_data.Scanner.Sums.{
  SpendCounts, SpendSums, run_counts, OtherCounts, RunSums, OtherSums, run_others,
}
use bitcoin_data.Scanner.Rows.{scan_txs-Adds}

-- Counters by type that fit 64 bits: merged with nothing they stay.
abbrev pub AreWords : TypeCounts → Type 0
AreWords c = c ≡ merge_counts c no_counts

abbrev pub row_counts : Row → SpendCounts
row_counts row = record {
  spends = row.spends;
  p2tr = row.p2tr_spends;
  keypath = row.p2tr_keypath_spends;
  scriptpath = row.p2tr_scriptpath_spends;
  nums = row.p2tr_nums_spends;
  eligible = row.p2tr_sp_eligible_spends;
  inscription = row.p2tr_inscription_spends;
  both = row.p2tr_nums_and_inscription_spends;
}

abbrev pub row_others : Row → OtherCounts
row_others row = record {
  outputs = row.output_count;
  p2tr_outputs = row.p2tr_output_count;
  p2tr_reused = row.p2tr_reused_count;
  nonsp_txs = row.nonsp_txs;
  nonsp_tx_outputs = row.nonsp_tx_outputs;
  script_outputs = row.script_outputs;
  script_inputs = row.script_inputs;
}

-- The counters of the run after a block are those before, plus the row's.
abbrev pub RowSums : RunStats → RunStats → Row → Type 0
RowSums before total row =
    SpendSums (run_counts before.spend) (run_counts total.spend) (row_counts row)
    × OtherSums (run_others before) (run_others total) (row_others row)

nothing_yet :
    (stats : RunStats)
    → AreWords stats.script_outputs
    → AreWords stats.script_inputs
    → RunSums stats stats new_block
nothing_yet stats outputs inputs = (
  record {
    sum_spends = omega arith;
    sum_p2tr = omega arith;
    sum_keypath = omega arith;
    sum_scriptpath = omega arith;
    sum_nums = omega arith;
    sum_eligible = omega arith;
    sum_inscription = omega arith;
    sum_both = omega arith;
  },
  record {
    sum_outputs = omega arith;
    sum_p2tr_outputs = omega arith;
    sum_p2tr_reused = omega arith;
    sum_nonsp_txs = omega arith;
    sum_nonsp_tx_outputs = omega arith;
    sum_script_outputs = outputs;
    sum_script_inputs = inputs;
  },
)

module _ (sha256 : List ℕ → List ℕ) where
  -- From a state whose ids are in order, and while the ids fit 60 bits, a block is scanned and each
  -- counter of the run, wrapping at 64 bits, grows by what the row of the block says, the number of
  -- outputs included, which the row takes from the ids; the counters by type have to fit 64 bits.
  pub scan_block-RowSums :
      (state : State) (txs : List PreparedTx)
      → state.last_id + outputs_in txs < 2 ^ 60
      → IsReady state
      → AreWords state.stats.script_outputs
      → AreWords state.stats.script_inputs
      → (r : State × Row × BlockEstimate × BlockEstimate) × (scan_block sha256 state txs ≡ ok r)
        × RowSums state.stats r.0.stats r.1
  unfolding result_of drain_into
  scan_block-RowSums state txs few w outputs inputs =
      let (good, (a, b, e, _)) = scan_block-result sha256 state txs few w in
      let sums =
        scan_txs-Adds sha256 state.stats state.last_id txs (start_block state)
          (nothing_yet state.stats outputs inputs) in
      (
        result_of sha256 state (scan_of sha256 state txs) a b,
        e,
        (
          sums.0,
          record {
            sum_outputs = omega (arith, good.1, good.0.counted, w.counted, few);
            sum_p2tr_outputs = sums.1.sum_p2tr_outputs;
            sum_p2tr_reused = sums.1.sum_p2tr_reused;
            sum_nonsp_txs = sums.1.sum_nonsp_txs;
            sum_nonsp_tx_outputs = sums.1.sum_nonsp_tx_outputs;
            sum_script_outputs = sums.1.sum_script_outputs;
            sum_script_inputs = sums.1.sum_script_inputs;
          },
        ),
      )
