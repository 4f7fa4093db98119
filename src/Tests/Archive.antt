-- ===== src/Tests/Archive.antt =====
-- Runs of light-server/src: the prevout store, the bitmap and the indexer.
use bitcoin_data.Base.{
  Bool, List, Result, Unique, [], arith, bytes_keyed, err, false, get, if◌then◌else◌, inr, length,
  none, ok, refl, replicate, same_bytes, some, true, ℕ, ◌==◌, ◌∷◌, ◌≡◌,
}
use bitcoin_data.OutPoint.{OutPoint, outpoint_keyed, same_outpoint}
use bitcoin_data.Prevout.{Curve, Script, pay_pubkey_hash}
use bitcoin_data.Prevout.RoundTrip.{IsStored}
use bitcoin_data.Prevout.Pending.{Pending, no_pending, delete, lookup_prevout, apply_pending}
use bitcoin_data.Prevout.Overlay.{IsFresh, lookup_prevout-delete}
use bitcoin_data.Prevout.Flush.{IsOutPoint, IsWritable, lookup_prevout-apply_pending}
use bitcoin_data.Bitmap.{validate, set_skipped, is_skipped}
use bitcoin_data.Bitmap.Skipped.{IsBitmap, is_skipped-set_skipped}
use bitcoin_data.Indexer.{Block, TxOutput, State, Progress}
use bitcoin_data.Indexer.Uids.{IsLive}
use bitcoin_data.Indexer.Blocks.{apply_block_with_stats, started}
use bitcoin_data.Indexer.Invariant.Whole.{IsApplied, apply_block_with_stats-IsApplied}

abbrev any_key : Curve
any_key = record { is_xonly_key = λ bytes. length bytes == 32 }

abbrev first_output : OutPoint
first_output = record { txid = replicate 32 1; vout = 0 }

abbrev second_output : OutPoint
second_output = record { txid = replicate 32 1; vout = 1 }

abbrev a_script : Script
a_script = pay_pubkey_hash (replicate 20 7)

abbrev one_put : Pending
one_put = record { puts = (first_output, a_script) ∷ []; deletes = [] }

one_put-IsFresh : IsFresh [] one_put
unfolding IsFresh get
one_put-IsFresh o = inr refl

lookup_prevout-delete_example :
    lookup_prevout any_key [] (delete one_put first_output) second_output ≡ (
      if same_outpoint first_output second_output
      then ok none
      else lookup_prevout any_key [] one_put second_output)
lookup_prevout-delete_example =
    lookup_prevout-delete any_key [] one_put first_output second_output one_put-IsFresh

first_output-IsOutPoint : IsOutPoint first_output
first_output-IsOutPoint = record { sized = refl; fits = omega arith }

one_put-IsWritable : IsWritable any_key one_put
unfolding IsStored Unique get
one_put-IsWritable = record {
  put_keys = (first_output-IsOutPoint, tt);
  delete_keys = tt;
  entries = (refl, tt);
  unique = (refl, tt);
}

lookup_prevout-apply_pending_example :
    lookup_prevout any_key (apply_pending [] one_put 5 (replicate 32 9)) no_pending first_output
    ≡ lookup_prevout any_key [] one_put first_output
lookup_prevout-apply_pending_example =
    lookup_prevout-apply_pending any_key [] one_put 5 (replicate 32 9) first_output
      first_output-IsOutPoint one_put-IsWritable

is_skipped-set_skipped_example :
    (marked : List ℕ) × (set_skipped 10 (1 ∷ 0 ∷ []) 9 ≡ ok marked)
    × IsBitmap 10 marked
    × (is_skipped 10 marked 0 ≡ is_skipped 10 (1 ∷ 0 ∷ []) 0)
unfolding validate
is_skipped-set_skipped_example =
    is_skipped-set_skipped 10 (1 ∷ 0 ∷ []) 9 0
      (record { accepted = refl; bytes = (omega arith, (omega arith, tt)) }) (omega arith)
      (omega arith)

abbrev an_output : ℕ → Bool → TxOutput
an_output vout is_nums = record {
  vout = vout;
  value_sat = 1000;
  p2tr_xonly_key = some (replicate 32 vout);
  is_p2tr = true;
  is_nums = is_nums;
}

abbrev a_block : Block
a_block = record {
  height = 3;
  txs =
      record {
        txid = replicate 32 1;
        tx_index = 0;
        inputs = [];
        outputs = an_output 0 false ∷ an_output 1 true ∷ an_output 2 false ∷ [];
        silent_payment_tweak = some (replicate 33 2);
      }
      ∷ record {
        txid = replicate 32 2;
        tx_index = 1;
        inputs = first_output ∷ [];
        outputs = [];
        silent_payment_tweak = none;
      }
      ∷ [];
}

abbrev a_state : State
a_state = record {
  next_uid = 40;
  outpoint_to_spend =
      (first_output, record { uid = 7; creation_height = 2; output_index = 0; flags = 0 }) ∷ [];
  live_uid_count = 1;
  seen_p2tr_keys = none;
}

a_state-IsLive : IsLive 41 a_state.outpoint_to_spend
unfolding Unique get
a_state-IsLive = record { unique = (refl, tt); below = (omega arith, tt); distinct = (tt, tt) }

abbrev result_or {ℓ} : {E : Type 0} {A : Type ℓ} → Result E A → A → A
result_or (ok a) d = a
result_or (err e) d = d

abbrev applied : Progress
applied = result_or (apply_block_with_stats a_state a_block) (started a_state 0)

apply_block_with_stats-IsApplied_example : IsApplied a_state a_block applied
unfolding apply_block_with_stats outpoint_keyed same_outpoint same_bytes
apply_block_with_stats-IsApplied_example =
    apply_block_with_stats-IsApplied a_state a_block applied a_state-IsLive (omega arith) refl
