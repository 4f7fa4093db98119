-- ===== src/Scanner/Blocks.antt =====
-- stats/src/scan.rs, `scan`: the loop over the transactions of a block, and the end of the block.
use bitcoin_data.Base.{
  Bool, List, Option, Result, [], add_u64, bytes_keyed, false, get, if◌then◌else◌, insert, ltb,
  none, not, ok, remove, some, true, ℕ, ◌%◌, ◌&&◌, ◌+◌, ◌-◌, ◌>>=◌, ◌^◌, ◌||◌, ◌∷◌,
}
use bitcoin_data.OutPoint.{OutPoint, outpoint_keyed}
use bitcoin_data.ScriptTypes.{ScriptType, record_type}
use bitcoin_data.Spend.{
  SpendContext, same_tx, same_block, earlier, SpendClass, is_nums_path, record_spend,
  record_p2tr_spend,
}
use bitcoin_data.UtxoHash.{add_output, remove_output, finalize_block}
use bitcoin_data.SortedUids.{Error, BlockEstimate}
use bitcoin_data.PerBlock.{
  RunStats, PerBlock, new_block, record_spend_uid, block_p2tr_spend, record_output, Row, drain_into,
  measure_sorted_uid_encoding,
}
use bitcoin_data.Scanner.{
  UtxoEntry, new_entry, id_of, script_type_of, State, PreparedInput, PreparedTx, is_p2tr_type,
}

-- The state, the counters of the block, and the three flags of a transaction.
pub record Scan : Type 0 where
  pub state : State
  pub per_block : PerBlock
  pub any_eligible : Bool
  pub has_non_p2tr : Bool
  pub p2tr_seen : Bool

-- Ids are given out in order.
unfoldable pub spend_context : ℕ → ℕ → ℕ → SpendContext
spend_context last_id_at_block_start last_id_at_tx_start prev_id =
    if ltb last_id_at_tx_start prev_id
    then same_tx
    else if ltb last_id_at_block_start prev_id
    then same_block
    else earlier

-- Whether the key was seen, and the keys with it.
unfoldable pub see_key :
    List (List ℕ × Unit {0}) → Option (List ℕ) → Bool × List (List ℕ × Unit {0})
see_key seen_keys none = (false, seen_keys)
see_key seen_keys (some k) = elim (get seen_keys k) [
  | none ↦ (false, insert seen_keys k tt)
  | some _ ↦ (true, seen_keys)
]

unfoldable pub count_output : RunStats → ScriptType → Bool → Bool → RunStats
unfolding record_type
count_output stats script_type reused tx_is_nonsp = record stats {
  outputs = add_u64 stats.outputs 1;
  script_outputs = record_type stats.script_outputs script_type;
  p2tr_outputs =
      if is_p2tr_type script_type then add_u64 stats.p2tr_outputs 1 else stats.p2tr_outputs;
  p2tr_reused =
      if is_p2tr_type script_type && reused then add_u64 stats.p2tr_reused 1 else stats.p2tr_reused;
  nonsp_tx_outputs =
      if tx_is_nonsp then add_u64 stats.nonsp_tx_outputs 1 else stats.nonsp_tx_outputs;
}

unfoldable pub block_output : PerBlock → ScriptType → Bool → Bool → PerBlock
unfolding record_type record_output
block_output p script_type reused tx_is_nonsp =
    let p' =
      record_output (record p { script_outputs = record_type p.script_outputs script_type })
        (is_p2tr_type script_type) reused in
    record p' {
      nonsp_tx_outputs = if tx_is_nonsp then add_u64 p'.nonsp_tx_outputs 1 else p'.nonsp_tx_outputs;
    }

-- `nonsp_txs += 1` in the run and in the block.
unfoldable pub count_nonsp : Bool → Scan → Scan
count_nonsp tx_is_nonsp s =
    if tx_is_nonsp
    then record s {
      state = record (s.state) {
        stats = record (s.state.stats) { nonsp_txs = add_u64 s.state.stats.nonsp_txs 1 };
      };
      per_block = record (s.per_block) { nonsp_txs = add_u64 s.per_block.nonsp_txs 1 };
    }
    else s

abbrev pub start_block : State → Scan
start_block state = record {
  state = state;
  per_block = new_block;
  any_eligible = false;
  has_non_p2tr = false;
  p2tr_seen = false;
}

module _ (sha256 : List ℕ → List ℕ) where
  -- What every spend of a known output changes.
  unfoldable pub count_spend : Scan → UtxoEntry → SpendContext → Scan
  unfolding id_of script_type_of record_spend record_spend_uid record_type remove_output
  count_spend s entry ctx =
      let script_type = script_type_of entry in
      let stats = s.state.stats in
      let p = record_spend_uid s.per_block (id_of entry) (is_p2tr_type script_type) in
      record s {
        state = record (s.state) {
          stats = record stats {
            spend = record_spend stats.spend ctx;
            script_inputs = record_type stats.script_inputs script_type;
          };
          utxo_hash = remove_output sha256 s.state.utxo_hash (id_of entry);
        };
        per_block = record p { script_inputs = record_type p.script_inputs script_type };
      }

  -- What a taproot spend changes besides.
  unfoldable pub count_p2tr : Scan → SpendClass → SpendContext → Scan
  unfolding is_nums_path record_p2tr_spend block_p2tr_spend
  count_p2tr s class ctx = record s {
    state = record (s.state) {
      stats = record (s.state.stats) { spend = record_p2tr_spend s.state.stats.spend class ctx };
    };
    per_block = block_p2tr_spend s.per_block class;
    any_eligible = s.any_eligible || not (is_nums_path class.path);
    p2tr_seen = true;
  }

  unfoldable pub spend_entry : ℕ → ℕ → PreparedInput → UtxoEntry → Scan → Scan
  unfolding spend_context count_spend count_p2tr id_of script_type_of
  spend_entry block_start tx_start input entry s =
      let ctx = spend_context block_start tx_start (id_of entry) in
      let counted = count_spend s entry ctx in
      if is_p2tr_type (script_type_of entry)
      then count_p2tr counted input.p2tr_spend_class ctx
      else record counted { has_non_p2tr = true }

  unfoldable pub scan_input : ℕ → ℕ → PreparedInput → Scan → Scan
  unfolding spend_entry outpoint_keyed
  scan_input block_start tx_start input s = elim (get s.state.utxo input.previous_output) [
    | none ↦ record s {
      state = record (s.state) { missing = add_u64 s.state.missing 1 };
      has_non_p2tr = true;
    }
    | some entry ↦
        let removed = remove s.state.utxo input.previous_output in
        spend_entry block_start tx_start input entry
          (record s { state = record (s.state) { utxo = removed } })
  ]

  unfoldable pub scan_inputs : ℕ → ℕ → List PreparedInput → Scan → Scan
  unfolding scan_input
  scan_inputs block_start tx_start [] s = s
  scan_inputs block_start tx_start (input ∷ inputs) s =
      scan_inputs block_start tx_start inputs (scan_input block_start tx_start input s)

  unfoldable pub scan_output : List ℕ → Bool → ℕ → ScriptType → Option (List ℕ) → Scan → Scan
  unfolding see_key count_output block_output new_entry add_output outpoint_keyed
  scan_output txid tx_is_nonsp vout_idx script_type xonly_key s =
      let id = add_u64 s.state.last_id 1 in
      let seen = see_key s.state.seen_keys xonly_key in
      let op : OutPoint = record { txid = txid; vout = vout_idx % 2 ^ 32 } in
      record s {
        state = record (s.state) {
          last_id = id;
          utxo = insert s.state.utxo op (new_entry id script_type);
          seen_keys = seen.1;
          stats = count_output s.state.stats script_type seen.0 tx_is_nonsp;
          utxo_hash = add_output sha256 s.state.utxo_hash id;
        };
        per_block = block_output s.per_block script_type seen.0 tx_is_nonsp;
      }

  -- The two lists side by side, from the index `vout_idx` on.
  unfoldable pub scan_outputs :
      List ℕ → Bool → ℕ → List ScriptType → List (Option (List ℕ)) → Scan → Scan
  unfolding scan_output
  scan_outputs txid tx_is_nonsp vout_idx [] keys s = s
  scan_outputs txid tx_is_nonsp vout_idx (script_type ∷ types) [] s = s
  scan_outputs txid tx_is_nonsp vout_idx (script_type ∷ types) (xonly_key ∷ keys) s =
      scan_outputs txid tx_is_nonsp (vout_idx + 1) types keys
        (scan_output txid tx_is_nonsp vout_idx script_type xonly_key s)

  -- A coinbase has no inputs to scan.
  unfoldable pub scan_tx : ℕ → PreparedTx → Scan → Scan
  unfolding scan_inputs scan_outputs count_nonsp
  scan_tx block_start tx s =
      let start = record s { any_eligible = false; has_non_p2tr = false; p2tr_seen = false } in
      let spent =
        scan_inputs block_start s.state.last_id (if tx.is_coinbase then [] else tx.inputs) start in
      let tx_is_nonsp =
        not tx.is_coinbase
        && (spent.p2tr_seen && (not spent.any_eligible && not spent.has_non_p2tr)) in
      scan_outputs tx.txid tx_is_nonsp 0 tx.output_script_types tx.output_xonly_keys
        (count_nonsp tx_is_nonsp spent)

  unfoldable pub scan_txs : ℕ → List PreparedTx → Scan → Scan
  unfolding scan_tx
  scan_txs block_start [] s = s
  scan_txs block_start (tx ∷ txs) s = scan_txs block_start txs (scan_tx block_start tx s)

  -- The state after a block, its row, and the estimates of its spent ids.
  unfoldable pub scan_block :
      State → List PreparedTx → Result Error (State × Row × BlockEstimate × BlockEstimate)
  unfolding scan_txs finalize_block measure_sorted_uid_encoding drain_into
  scan_block state txs = do
    let scanned = scan_txs state.last_id txs (start_block state)
    let hashed = finalize_block scanned.state.utxo_hash
    (per_block, stats, all, p2tr) ←
        measure_sorted_uid_encoding scanned.per_block scanned.state.last_id scanned.state.stats
    let row = record ((drain_into per_block).0) {
      output_count = (scanned.state.last_id + 2 ^ 64 - state.last_id) % 2 ^ 64;
    }
    ok (record (scanned.state) { stats = stats; utxo_hash = hashed }, row, all, p2tr)
