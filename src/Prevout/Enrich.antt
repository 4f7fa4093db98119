-- ===== src/Prevout/Enrich.antt =====
-- light-server/src/prevout_store.rs, `enrich_block_scan_points`: the scan points of a block, and the
-- pending writes of its inputs and outputs. Of a transaction, the fields that this code reads.
use bitcoin_data.Base.{
  Bool, List, Option, Result, [], bytes_keyed, err, false, if◌then◌else◌, leb, none, not, ok, some,
  suc, ℕ, ◌+◌, ◌>>=◌, ◌||◌, ◌∷◌,
}
use bitcoin_data.OutPoint.{OutPoint, is_coinbase}
use bitcoin_data.ScriptKinds.{ScriptKind, classify_script}
use bitcoin_data.ScanPoint
use bitcoin_data.ScanPoint.Compute.{compute_tx_scan_point}
use bitcoin_data.Prevout.{
  Curve, Script, pay_pubkey_hash, pay_script_hash, pay_witness_pubkey_hash, pay_taproot,
  skipped_input, later_witness,
}
use bitcoin_data.Prevout
use bitcoin_data.Prevout.Pending.{Db, Pending, put, delete, lookup_prevout}

pub data Error : Type 0 where
  store_error : Prevout.Error → Error
  scan_error : ScanPoint.Error → Error

unfoldable pub lift_store {ℓ} : {A : Type ℓ} → Result Prevout.Error A → Result Error A
lift_store (ok a) = ok a
lift_store (err e) = err (store_error e)

unfoldable pub lift_scan {ℓ} : {A : Type ℓ} → Result ScanPoint.Error A → Result Error A
lift_scan (ok a) = ok a
lift_scan (err e) = err (scan_error e)

pub record TxInput : Type 0 where
  pub previous_output : OutPoint
  pub script_sig : List ℕ
  pub witness : List (List ℕ)

pub record TxOutput : Type 0 where
  pub vout : ℕ
  pub script_pubkey : List ℕ
  pub is_p2tr : Bool

pub record Tx : Type 0 where
  pub txid : List ℕ
  pub inputs : List TxInput
  pub outputs : List TxOutput
  pub silent_payment_tweak : Option (List ℕ)

pub record MutationStats : Type 0 where
  pub contexts_created : ℕ
  pub delete_attempts : ℕ
  pub scan_point_prevout_lookups : ℕ

-- A taproot key that is no point is not stored.
unfoldable pub script_of_kind : Curve → ScriptKind → Option Script
script_of_kind curve (ScriptKind.p2pkh hash) = some (pay_pubkey_hash hash)
script_of_kind curve (ScriptKind.p2sh hash) = some (pay_script_hash hash)
script_of_kind curve (ScriptKind.p2wpkh hash) = some (pay_witness_pubkey_hash hash)
script_of_kind curve (ScriptKind.p2wsh hash) = some skipped_input
script_of_kind curve (ScriptKind.p2tr key) =
    if curve.is_xonly_key key then some (pay_taproot key) else none
script_of_kind curve (ScriptKind.witness_unknown version len) =
    if leb 2 version then some (later_witness version) else some skipped_input
script_of_kind curve ScriptKind.op_return = none
script_of_kind curve ScriptKind.other = some skipped_input

unfoldable pub prevout_info : Script → ScanPoint.PrevoutScript
prevout_info (pay_pubkey_hash hash) = ScanPoint.PrevoutScript.p2pkh hash
prevout_info (pay_script_hash hash) = ScanPoint.PrevoutScript.p2sh hash
prevout_info (pay_witness_pubkey_hash hash) = ScanPoint.PrevoutScript.p2wpkh hash
prevout_info (pay_taproot key) = ScanPoint.PrevoutScript.p2tr key
prevout_info skipped_input = ScanPoint.PrevoutScript.other
prevout_info (later_witness version) = ScanPoint.PrevoutScript.witness_unknown version

abbrev info_of : Option Script → Option ScanPoint.PrevoutScript
unfolding prevout_info
info_of none = none
info_of (some script) = some (prevout_info script)

-- What a lookup of an outpoint gives.
abbrev pub Lookups : Type 0
Lookups = OutPoint → Result Prevout.Error (Option Script)

unfoldable pub input_contexts : Lookups → List TxInput → Result Error (List ScanPoint.Input)
unfolding lift_store prevout_info
input_contexts find [] = ok []
input_contexts find (input ∷ inputs) = do
  entry ← lift_store (find input.previous_output)
  contexts ← input_contexts find inputs
  let prevout = info_of entry
  ok (
      record {
        previous_output = input.previous_output;
        script_sig = input.script_sig;
        witness = input.witness;
        prevout = prevout;
      }
      ∷ contexts)

unfoldable pub count_inputs : List TxInput → ℕ
unfolding is_coinbase
count_inputs [] = 0
count_inputs (input ∷ inputs) =
    if is_coinbase input.previous_output then count_inputs inputs else suc (count_inputs inputs)

unfoldable pub has_p2tr : List TxOutput → Bool
has_p2tr [] = false
has_p2tr (output ∷ outputs) = output.is_p2tr || has_p2tr outputs

abbrev pub tweak_of : ScanPoint.Status → Option (List ℕ)
tweak_of (ScanPoint.Status.computed tweak) = some tweak
tweak_of (ScanPoint.Status.ineligible reason) = none
tweak_of (ScanPoint.Status.missing_prevout missing_count) = none

unfoldable pub apply_spends : Pending → List TxInput → Pending
unfolding delete is_coinbase
apply_spends pending [] = pending
apply_spends pending (input ∷ inputs) =
    apply_spends
      (if is_coinbase input.previous_output then pending else delete pending input.previous_output)
      inputs

unfoldable pub count_tx : MutationStats → Tx → ℕ → ℕ → MutationStats
unfolding count_inputs
count_tx stats tx lookups created = record {
  contexts_created = stats.contexts_created + created;
  delete_attempts = stats.delete_attempts + count_inputs tx.inputs;
  scan_point_prevout_lookups = stats.scan_point_prevout_lookups + lookups;
}

module _ (lib : ScanPoint.Library) (curve : Curve) where
  unfoldable pub compact_script : List ℕ → Option Script
  unfolding script_of_kind classify_script
  compact_script script_pubkey = script_of_kind curve (classify_script lib.templates script_pubkey)

  -- The transaction with its tweak, and the number of lookups.
  unfoldable pub enrich_tx : Lookups → Tx → Result Error (Tx × ℕ)
  unfolding input_contexts count_inputs has_p2tr lift_scan
  enrich_tx find tx =
      let computed_now = (do
        contexts ← input_contexts find tx.inputs
        status ← lift_scan (compute_tx_scan_point lib contexts)
        ok (record tx { silent_payment_tweak = tweak_of status }, count_inputs tx.inputs)) in
      if not (has_p2tr tx.outputs)
      then ok (record tx { silent_payment_tweak = none }, 0)
      else elim tx.silent_payment_tweak [ some _ ↦ ok (tx, 0) | none ↦ computed_now ]

  -- The pending writes, and how many contexts were created.
  unfoldable pub apply_outputs : Pending → List ℕ → List TxOutput → Pending × ℕ
  unfolding put compact_script
  apply_outputs pending txid [] = (pending, 0)
  apply_outputs pending txid (output ∷ outputs) = elim (compact_script output.script_pubkey) [
    | none ↦ apply_outputs pending txid outputs
    | some script ↦
        let rest =
          apply_outputs (put pending (record { txid = txid; vout = output.vout }) script) txid
            outputs in
        (rest.0, suc rest.1)
  ]

  unfoldable pub enrich_block :
      Db → Pending → MutationStats → List Tx → Result Error (List Tx × Pending × MutationStats)
  unfolding enrich_tx apply_spends apply_outputs count_tx
  enrich_block db pending stats [] = ok ([], pending, stats)
  enrich_block db pending stats (tx ∷ txs) = do
    (enriched, lookups) ← enrich_tx (lookup_prevout curve db pending) tx
    let written = apply_outputs (apply_spends pending tx.inputs) tx.txid tx.outputs
    (rest, pending', stats') ← enrich_block db written.0 (count_tx stats tx lookups written.1) txs
    ok (enriched ∷ rest, pending', stats')
