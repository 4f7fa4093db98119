-- ===== src/Tests/Scan.antt =====
-- Runs of light-server/src/sp_tweak.rs and prevout_store.rs: scan points and enriched blocks.
use bitcoin_data.Base.{
  List, [], ap, arith, bytes_keyed, false, get, inr, length, none, ok, refl, replicate, some, true,
  ℕ, ◌++◌, ◌+◌, ◌-◌, ◌==◌, ◌^◌, ◌∷◌, ◌≡◌, ◌≤◌,
}
use mathlib.Core.List.{Permᴰ}
use bitcoin_data.OutPoint.{OutPoint}
use bitcoin_data.Spend.{
  script_nums, is_taproot_annex, is_taproot_control_block, classify_p2tr_spend,
}
use bitcoin_data.ScriptKinds.{Templates}
use bitcoin_data.ScanPoint.{Library, Input, PrevoutScript, nums_key}
use bitcoin_data.ScanPoint.Pushes.{pushes_from}
use bitcoin_data.ScanPoint.Compute.{extract_p2tr, compute_tx_scan_point}
use bitcoin_data.ScanPoint.Ends.{total, parse_script_pushes_ends}
use bitcoin_data.ScanPoint.Annex.{annex_hides_unspendable_key}
use bitcoin_data.ScanPoint.AnyOrder.{Agree, length-perm, compute_tx_scan_point-perm}
use bitcoin_data.Prevout.{Curve}
use bitcoin_data.Prevout.Pending.{Pending, no_pending, lookup_prevout}
use bitcoin_data.Prevout.Overlay.{IsFresh}
use bitcoin_data.Prevout.Enrich.{TxOutput, Tx, MutationStats, enrich_block}
use bitcoin_data.Prevout.View.{enrich_over, after_all}
use bitcoin_data.Prevout.Refines.{txs_of, enrich_block-refines}

-- Script templates told apart by length, and a stand-in for the curve and the hashes.
abbrev some_templates : Templates
some_templates = record {
  is_p2pkh = λ s. length s == 25;
  is_p2sh = λ s. length s == 23;
  is_p2wpkh = λ s. length s == 22;
  is_p2wsh = λ s. false;
  is_p2tr = λ s. length s == 34;
  is_witness_program = λ s. false;
  is_op_return = λ s. false;
}

abbrev a_library : Library
a_library = record {
  templates = some_templates;
  sha256 = λ bytes. bytes;
  hash160 = λ bytes. bytes;
  is_public_key = λ bytes. length bytes == 33;
  even_key = λ key. 2 ∷ key;
  combine_keys = λ keys. some (length keys ∷ []);
  is_scalar = λ bytes. true;
  mul_tweak = λ point scalar. some (point ++ scalar);
}

parse_script_pushes_ends_example :
    (pushes : List (List ℕ)) × (pushes_from 6 (0 ∷ 2 ∷ 7 ∷ 8 ∷ 76 ∷ []) 0 ≡ some pushes)
    × (total pushes + length pushes ≤ 5)
parse_script_pushes_ends_example = parse_script_pushes_ends (0 ∷ 2 ∷ 7 ∷ 8 ∷ 76 ∷ [])

abbrev an_input : ℕ → Input
an_input vout = record {
  previous_output = record { txid = replicate 32 4; vout = vout };
  script_sig = [];
  witness = (1 ∷ 2 ∷ []) ∷ [];
  prevout = some (PrevoutScript.p2tr (replicate 32 vout));
}

abbrev control : List ℕ
control = 0xc0 ∷ nums_key

abbrev annex : List ℕ
annex = 0x50 ∷ 1 ∷ []

annex_hides_unspendable_key_example :
    ((classify_p2tr_spend ((9 ∷ []) ∷ control ∷ annex ∷ [])).path ≡ script_nums)
    × (extract_p2tr a_library
          (record (an_input 0) { witness = (9 ∷ []) ∷ control ∷ [] })
          (replicate 32 8)
        ≡ ok none)
    × (extract_p2tr a_library
          (record (an_input 0) { witness = (9 ∷ []) ∷ control ∷ annex ∷ [] })
          (replicate 32 8)
        ≡ ok (some (2 ∷ replicate 32 8)))
unfolding is_taproot_control_block is_taproot_annex
annex_hides_unspendable_key_example =
    annex_hides_unspendable_key a_library (an_input 0) (replicate 32 8) ((9 ∷ []) ∷ []) control
      annex (omega arith) refl refl refl refl refl

counts_only :
    (ks ls : List (List ℕ)) → Permᴰ ks ls → a_library.combine_keys ks ≡ a_library.combine_keys ls
counts_only ks ls p = ap (λ (n : ℕ). some (n ∷ [])) (length-perm ks ls p)

compute_tx_scan_point-perm_example :
    Agree
      (compute_tx_scan_point a_library (an_input 3 ∷ an_input 1 ∷ []))
      (compute_tx_scan_point a_library (an_input 1 ∷ an_input 3 ∷ []))
compute_tx_scan_point-perm_example =
    compute_tx_scan_point-perm a_library counts_only (an_input 3 ∷ an_input 1 ∷ [])
      (an_input 1 ∷ an_input 3 ∷ []) (Permᴰ.swap refl refl)

abbrev any_key : Curve
any_key = record { is_xonly_key = λ bytes. length bytes == 32 }

abbrev an_output : ℕ → TxOutput
an_output vout = record {
  vout = vout;
  script_pubkey = 0x51 ∷ 0x20 ∷ replicate 32 6;
  is_p2tr = true;
}

abbrev first_tx : Tx
first_tx = record {
  txid = replicate 32 5;
  inputs =
      record {
        previous_output = record { txid = replicate 32 0; vout = 2 ^ 32 - 1 };
        script_sig = [];
        witness = [];
      }
      ∷ [];
  outputs = an_output 0 ∷ an_output 1 ∷ [];
  silent_payment_tweak = none;
}

-- Spends an output of the first transaction.
abbrev second_tx : Tx
second_tx = record {
  txid = replicate 32 7;
  inputs =
      record {
        previous_output = record { txid = replicate 32 5; vout = 1 };
        script_sig = [];
        witness = [];
      }
      ∷ [];
  outputs = an_output 0 ∷ [];
  silent_payment_tweak = none;
}

abbrev no_counts : MutationStats
no_counts = record { contexts_created = 0; delete_attempts = 0; scan_point_prevout_lookups = 0 }

no_pending-IsFresh : IsFresh [] no_pending
unfolding IsFresh get
no_pending-IsFresh o = inr refl

enrich_block-refines_example :
    (txs_of (enrich_block a_library any_key [] no_pending no_counts (first_tx ∷ second_tx ∷ []))
      ≡ enrich_over a_library any_key
          (lookup_prevout any_key [] no_pending)
          (first_tx ∷ second_tx ∷ []))
    × ((r : List Tx × Pending × MutationStats)
        → enrich_block a_library any_key [] no_pending no_counts (first_tx ∷ second_tx ∷ []) ≡ ok r
        → (o : OutPoint)
        → lookup_prevout any_key [] r.1 o
          ≡ after_all a_library any_key
              (lookup_prevout any_key [] no_pending)
              (first_tx ∷ second_tx ∷ [])
              o)
unfolding get
enrich_block-refines_example =
    enrich_block-refines a_library any_key [] (first_tx ∷ second_tx ∷ []) no_pending no_counts
      ((refl, (refl, tt)), ((refl, tt), tt)) no_pending-IsFresh
