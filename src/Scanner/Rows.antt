-- ===== src/Scanner/Rows.antt =====
-- stats/src/scan.rs, `scan`: every step counts alike in the run and in the block.
use bitcoin_data.Base.{
  Bool, List, Option, Option-cases, [], bytes_keyed, false, get, if◌then◌else◌, inl, inr, not,
  remove, subst, sym, true, ℕ, ◌&&◌, ◌+◌, ◌∷◌,
}
use bitcoin_data.OutPoint.{outpoint_keyed}
use bitcoin_data.ScriptTypes.{ScriptType}
use bitcoin_data.Spend.{SpendContext, SpendClass}
use bitcoin_data.PerBlock.{RunStats, record_spend_uid, record_output}
use bitcoin_data.Scanner.{UtxoEntry, id_of, script_type_of, PreparedInput, PreparedTx, is_p2tr_type}
use bitcoin_data.Scanner.Blocks.{
  Scan, spend_context, count_spend, count_p2tr, spend_entry, scan_input, scan_inputs, see_key,
  count_output, block_output, scan_output, scan_outputs, count_nonsp, scan_tx, scan_txs,
}
use bitcoin_data.Scanner.Sums.{
  IsSum-one, IsSum-if, RunSums, OtherSums, run_others, record_type-TypeSums,
}
use bitcoin_data.Scanner.SpendSums.{
  record_spend-SpendSums, record_p2tr_spend-SpendSums, block_p2tr_spend-others,
}

module _ (sha256 : List ℕ → List ℕ) (before : RunStats) where
  abbrev pub Adds : Scan → Type 0
  Adds s = RunSums before s.state.stats s.per_block

  count_spend-Adds :
      (s : Scan) (entry : UtxoEntry) (ctx : SpendContext)
      → Adds s
      → Adds (count_spend sha256 s entry ctx)
  unfolding count_spend record_spend_uid
  count_spend-Adds s entry ctx w = (
    record_spend-SpendSums _ s.state.stats.spend s.per_block ctx (id_of entry)
        (is_p2tr_type (script_type_of entry)) w.0,
    record {
      sum_outputs = w.1.sum_outputs;
      sum_p2tr_outputs = w.1.sum_p2tr_outputs;
      sum_p2tr_reused = w.1.sum_p2tr_reused;
      sum_nonsp_txs = w.1.sum_nonsp_txs;
      sum_nonsp_tx_outputs = w.1.sum_nonsp_tx_outputs;
      sum_script_outputs = w.1.sum_script_outputs;
      sum_script_inputs =
          record_type-TypeSums before.script_inputs s.state.stats.script_inputs
            s.per_block.script_inputs (script_type_of entry) w.1.sum_script_inputs;
    },
  )

  count_p2tr-Adds :
      (s : Scan) (class : SpendClass) (ctx : SpendContext)
      → Adds s
      → Adds (count_p2tr sha256 s class ctx)
  unfolding count_p2tr
  count_p2tr-Adds s class ctx w = (
    record_p2tr_spend-SpendSums _ s.state.stats.spend s.per_block class ctx w.0,
    subst (OtherSums (run_others before) (run_others s.state.stats))
        (sym (block_p2tr_spend-others s.per_block class)) w.1,
  )

  either-Adds : (b : Bool) (x y : Scan) → Adds x → Adds y → Adds (if b then x else y)
  either-Adds true x y w v = w
  either-Adds false x y w v = v

  spend_entry-Adds :
      (block_start tx_start : ℕ) (input : PreparedInput) (entry : UtxoEntry) (s : Scan)
      → Adds s
      → Adds (spend_entry sha256 block_start tx_start input entry s)
  unfolding spend_entry
  spend_entry-Adds block_start tx_start input entry s w =
      let ctx = spend_context block_start tx_start (id_of entry) in
      let counted = count_spend-Adds s entry ctx w in
      either-Adds (is_p2tr_type (script_type_of entry)) _ _
        (count_p2tr-Adds (count_spend sha256 s entry ctx) input.p2tr_spend_class ctx counted)
        counted

  scan_input-Adds :
      (block_start tx_start : ℕ) (input : PreparedInput) (s : Scan)
      → Adds s
      → Adds (scan_input sha256 block_start tx_start input s)
  unfolding scan_input
  scan_input-Adds block_start tx_start input s w =
      elim (Option-cases (get s.state.utxo input.previous_output)) [
        | inl missing ↦ rw (missing, scan_input) w
        | inr (entry, found) ↦
            rw (found, scan_input)
              (spend_entry-Adds block_start tx_start input entry
                (record s {
                  state = record (s.state) { utxo = remove s.state.utxo input.previous_output };
                })
                w)
      ]

  scan_inputs-Adds :
      (block_start tx_start : ℕ) (inputs : List PreparedInput) (s : Scan)
      → Adds s
      → Adds (scan_inputs sha256 block_start tx_start inputs s)
  unfolding scan_inputs
  scan_inputs-Adds block_start tx_start [] s w = w
  scan_inputs-Adds block_start tx_start (i ∷ is) s w =
      scan_inputs-Adds block_start tx_start is (scan_input sha256 block_start tx_start i s)
        (scan_input-Adds block_start tx_start i s w)

  scan_output-Adds :
      (txid : List ℕ) (nonsp : Bool) (vout : ℕ) (t : ScriptType) (k : Option (List ℕ)) (s : Scan)
      → Adds s
      → Adds (scan_output sha256 txid nonsp vout t k s)
  unfolding scan_output count_output block_output record_output
  scan_output-Adds txid nonsp vout t k s w =
      let reused = (see_key s.state.seen_keys k).0 in
      (
        w.0,
        record {
          sum_outputs = IsSum-one _ _ _ w.1.sum_outputs;
          sum_p2tr_outputs = IsSum-if (is_p2tr_type t) _ _ _ w.1.sum_p2tr_outputs;
          sum_p2tr_reused = IsSum-if (is_p2tr_type t && reused) _ _ _ w.1.sum_p2tr_reused;
          sum_nonsp_txs = w.1.sum_nonsp_txs;
          sum_nonsp_tx_outputs = IsSum-if nonsp _ _ _ w.1.sum_nonsp_tx_outputs;
          sum_script_outputs =
              record_type-TypeSums before.script_outputs s.state.stats.script_outputs
                s.per_block.script_outputs t w.1.sum_script_outputs;
          sum_script_inputs = w.1.sum_script_inputs;
        },
      )

  scan_outputs-Adds :
      (txid : List ℕ) (nonsp : Bool) (vout : ℕ) (ts : List ScriptType) (ks : List (Option (List ℕ)))
      (s : Scan)
      → Adds s
      → Adds (scan_outputs sha256 txid nonsp vout ts ks s)
  unfolding scan_outputs
  scan_outputs-Adds txid nonsp vout [] ks s w = w
  scan_outputs-Adds txid nonsp vout (t ∷ ts) [] s w = w
  scan_outputs-Adds txid nonsp vout (t ∷ ts) (k ∷ ks) s w =
      scan_outputs-Adds txid nonsp (vout + 1) ts ks (scan_output sha256 txid nonsp vout t k s)
        (scan_output-Adds txid nonsp vout t k s w)

  count_nonsp-Adds : (nonsp : Bool) (s : Scan) → Adds s → Adds (count_nonsp nonsp s)
  unfolding count_nonsp
  count_nonsp-Adds true s w = (
    w.0,
    record {
      sum_outputs = w.1.sum_outputs;
      sum_p2tr_outputs = w.1.sum_p2tr_outputs;
      sum_p2tr_reused = w.1.sum_p2tr_reused;
      sum_nonsp_txs = IsSum-one _ _ _ w.1.sum_nonsp_txs;
      sum_nonsp_tx_outputs = w.1.sum_nonsp_tx_outputs;
      sum_script_outputs = w.1.sum_script_outputs;
      sum_script_inputs = w.1.sum_script_inputs;
    },
  )
  count_nonsp-Adds false s w = w

  pub scan_txs-Adds :
      (block_start : ℕ) (txs : List PreparedTx) (s : Scan)
      → Adds s
      → Adds (scan_txs sha256 block_start txs s)
  unfolding scan_txs scan_tx
  scan_txs-Adds block_start [] s w = w
  scan_txs-Adds block_start (tx ∷ txs) s w =
      let start = record s { any_eligible = false; has_non_p2tr = false; p2tr_seen = false } in
      let inputs = if tx.is_coinbase then [] else tx.inputs in
      let spent = scan_inputs sha256 block_start s.state.last_id inputs start in
      let nonsp =
        not tx.is_coinbase
        && (spent.p2tr_seen && (not spent.any_eligible && not spent.has_non_p2tr)) in
      scan_txs-Adds block_start txs (scan_tx sha256 block_start tx s) (
        scan_outputs-Adds tx.txid nonsp 0 tx.output_script_types tx.output_xonly_keys
          (count_nonsp nonsp spent)
          (count_nonsp-Adds nonsp spent
            (scan_inputs-Adds block_start s.state.last_id inputs start w)))
