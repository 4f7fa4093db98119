-- ===== src/Scanner/Steps.antt =====
-- stats/src/scan.rs, `scan`: every step over a transaction keeps the invariant.
use bitcoin_data.Base.{
  Bool, List, Option, Option-cases, [], ap, arith, bytes_keyed, false, get, if◌then◌else◌, inl, inr,
  not, subst, sym, true, ℕ, ◌%◌, ◌&&◌, ◌+◌, ◌<◌, ◌^◌, ◌∙◌, ◌∷◌, ◌≡◌,
}
use bitcoin_data.OutPoint.{outpoint_keyed}
use bitcoin_data.ScriptTypes.{ScriptType}
use bitcoin_data.PerBlock.{record_output}
use bitcoin_data.Scanner.{script_type_of, PreparedInput, PreparedTx, is_p2tr_type}
use bitcoin_data.Scanner.Blocks.{
  Scan, scan_input, scan_inputs, scan_output, scan_outputs, block_output, count_output, count_nonsp,
  scan_tx, scan_txs,
}
use bitcoin_data.Scanner.Sound.{
  View, IsSound, spend_view, spend_view-IsSound, output_view, output_view-IsSound,
}
use bitcoin_data.Scanner.Views.{view_of, spend_entry-view}

abbrev pub IsGood : ℕ → Scan → Type 0
IsGood last s = IsSound (view_of s) × (s.state.last_id ≡ last)

-- How many outputs the two lists stand for.
abbrev pub pairs : List ScriptType → List (Option (List ℕ)) → ℕ
pairs [] ks = 0
pairs (t ∷ ts) [] = 0
pairs (t ∷ ts) (k ∷ ks) = 1 + pairs ts ks

-- The outputs of a block.
abbrev pub outputs_in : List PreparedTx → ℕ
outputs_in [] = 0
outputs_in (tx ∷ txs) = pairs tx.output_script_types tx.output_xonly_keys + outputs_in txs

module _ (sha256 : List ℕ → List ℕ) where
  scan_input-IsGood :
      (block_start tx_start last : ℕ) (input : PreparedInput) (s : Scan)
      → last < 2 ^ 60
      → IsGood last s
      → IsGood last (scan_input sha256 block_start tx_start input s)
  unfolding scan_input spend_view
  scan_input-IsGood block_start tx_start last input s few w =
      elim (Option-cases (get s.state.utxo input.previous_output)) [
        | inl missing ↦ rw (missing, scan_input) w
        | inr (entry, found) ↦
            rw (found, scan_input)
              (let same =
                  spend_entry-view sha256 block_start tx_start input s input.previous_output
                    entry in
                (
                  subst IsSound (sym same) (
                      spend_view-IsSound (view_of s) input.previous_output entry
                        (is_p2tr_type (script_type_of entry)) (omega (arith, few, w.1)) found w.0),
                  ap (λ (v : View). v.last_id) same ∙ w.1,
                ))
      ]

  scan_inputs-IsGood :
      (block_start tx_start last : ℕ) (inputs : List PreparedInput) (s : Scan)
      → last < 2 ^ 60
      → IsGood last s
      → IsGood last (scan_inputs sha256 block_start tx_start inputs s)
  unfolding scan_inputs
  scan_inputs-IsGood block_start tx_start last [] s few w = w
  scan_inputs-IsGood block_start tx_start last (i ∷ is) s few w =
      scan_inputs-IsGood block_start tx_start last is (scan_input sha256 block_start tx_start i s)
        few (scan_input-IsGood block_start tx_start last i s few w)

  scan_output-IsGood :
      (txid : List ℕ) (nonsp : Bool) (vout last : ℕ) (t : ScriptType) (k : Option (List ℕ))
      (s : Scan)
      → last + 1 < 2 ^ 60
      → IsGood last s
      → IsGood (last + 1) (scan_output sha256 txid nonsp vout t k s)
  unfolding scan_output block_output count_output record_output output_view
  scan_output-IsGood txid nonsp vout last t k s few w = (
    output_view-IsSound (view_of s) (record { txid = txid; vout = vout % 2 ^ 32 }) t
        (omega (arith, few, w.1)) w.0,
    omega (arith, w.1),
  )

  scan_outputs-IsGood :
      (txid : List ℕ) (nonsp : Bool) (vout last : ℕ) (ts : List ScriptType)
      (ks : List (Option (List ℕ))) (s : Scan)
      → last + pairs ts ks < 2 ^ 60
      → IsGood last s
      → IsGood (last + pairs ts ks) (scan_outputs sha256 txid nonsp vout ts ks s)
  unfolding scan_outputs
  scan_outputs-IsGood txid nonsp vout last [] ks s few w = (w.0, omega (arith, w.1))
  scan_outputs-IsGood txid nonsp vout last (t ∷ ts) [] s few w = (w.0, omega (arith, w.1))
  scan_outputs-IsGood txid nonsp vout last (t ∷ ts) (k ∷ ks) s few w =
      let (good, at) =
        scan_outputs-IsGood txid nonsp (vout + 1) (last + 1) ts ks
          (scan_output sha256 txid nonsp vout t k s) (omega arith)
          (scan_output-IsGood txid nonsp vout last t k s (omega arith) w) in
      (good, at ∙ omega arith)

  count_nonsp-IsGood :
      (nonsp : Bool) (last : ℕ) (s : Scan) → IsGood last s → IsGood last (count_nonsp nonsp s)
  unfolding count_nonsp
  count_nonsp-IsGood true last s w = w
  count_nonsp-IsGood false last s w = w

  scan_tx-IsGood :
      (block_start last : ℕ) (tx : PreparedTx) (s : Scan)
      → last + pairs tx.output_script_types tx.output_xonly_keys < 2 ^ 60
      → IsGood last s
      → IsGood
          (last + pairs tx.output_script_types tx.output_xonly_keys)
          (scan_tx sha256 block_start tx s)
  unfolding scan_tx
  scan_tx-IsGood block_start last tx s few w =
      let start = record s { any_eligible = false; has_non_p2tr = false; p2tr_seen = false } in
      let spent =
        scan_inputs sha256 block_start s.state.last_id (if tx.is_coinbase then [] else tx.inputs)
          start in
      let nonsp =
        not tx.is_coinbase
        && (spent.p2tr_seen && (not spent.any_eligible && not spent.has_non_p2tr)) in
      scan_outputs-IsGood tx.txid nonsp 0 last tx.output_script_types tx.output_xonly_keys
        (count_nonsp nonsp spent) few
        (count_nonsp-IsGood nonsp last spent (
          scan_inputs-IsGood block_start s.state.last_id last
            (if tx.is_coinbase then [] else tx.inputs) start (omega arith) w))

  pub scan_txs-IsGood :
      (block_start last : ℕ) (txs : List PreparedTx) (s : Scan)
      → last + outputs_in txs < 2 ^ 60
      → IsGood last s
      → IsGood (last + outputs_in txs) (scan_txs sha256 block_start txs s)
  unfolding scan_txs
  scan_txs-IsGood block_start last [] s few w = (w.0, omega (arith, w.1))
  scan_txs-IsGood block_start last (tx ∷ txs) s few w =
      let n = pairs tx.output_script_types tx.output_xonly_keys in
      let (good, at) =
        scan_txs-IsGood block_start (last + n) txs (scan_tx sha256 block_start tx s) (omega arith)
          (scan_tx-IsGood block_start last tx s (omega arith) w) in
      (good, at ∙ omega arith)
