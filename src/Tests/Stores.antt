-- ===== src/Tests/Stores.antt =====
-- Runs of the index store, the rolling hash, the checkpoints, the spend classes and the script types.
use bitcoin_data.Base.{
  Bool-cases, List, [], arith, bytes_keyed, false, get, if◌then◌else◌, inl, inr, ok, refl,
  replicate, same_bytes, some, take, true, ℕ, ◌*◌, ◌++◌, ◌+◌, ◌<◌, ◌∷◌, ◌≡◌,
}
use mathlib.Core.List.{Permᴰ}
use bitcoin_data.Helper.{to_be_bytes}
use bitcoin_data.Indexer.{Created}
use bitcoin_data.IndexStore.{Db, Applied, commit_applied_blocks, seen_key}
use bitcoin_data.IndexStore.SeenCount.{Counts, commit_applied_blocks_seen_once}
use bitcoin_data.UtxoHash.{new_hash}
use bitcoin_data.UtxoHash.Window.{IsRolling, roll_all, roll_all_window}
use bitcoin_data.UtxoHash.Events.{added, removed, apply_events, apply_events-Perm}
use bitcoin_data.ScriptTypes.{p2a, p2tr, merge_counts, no_counts}
use bitcoin_data.ScriptTypes.Merge.{record_types, merge_counts-append}
use bitcoin_data.Checkpoint.{CheckpointConfig, new_writer}
use bitcoin_data.Checkpoint.Schedule.{commit_blocks, commit_blocks-new}
use bitcoin_data.Spend.{is_taproot_annex, classify_p2tr_spend, same_tx, Stats, record_p2tr_spend}
use bitcoin_data.Spend.Annex.{classify_p2tr_spend-annex}
use bitcoin_data.Spend.Counters.{IsBalanced, record_p2tr_spend-IsBalanced}

abbrev a_key : List ℕ
a_key = replicate 32 9

abbrev created_at : ℕ → Created
created_at n = record {
  outpoint = record { txid = replicate 32 n; vout = 0 };
  uid = n;
  output_index = 0;
  key = a_key;
  is_reused = false;
}

abbrev b_key : List ℕ
b_key = replicate 32 8

-- One key was seen three times before, and no other.
abbrev a_db : Db
a_db = (seen_key a_key, to_be_bytes 8 3) ∷ []

abbrev a_count : List ℕ → ℕ
a_count key = if same_bytes a_key key then 3 else 0

a_db-Counts : (key : List ℕ) → Counts a_db key (a_count key)
unfolding get bytes_keyed seen_key same_bytes
a_db-Counts key = elim (Bool-cases (same_bytes a_key key)) [
  | inl same ↦ rw same (omega arith, inr refl)
  | inr differ ↦ rw differ (omega arith, inl (refl, refl))
]

abbrev two_blocks : List Applied
two_blocks =
    record { height = 7; created = created_at 0 ∷ created_at 1 ∷ []; spent = [] }
    ∷ record { height = 8; created = created_at 2 ∷ []; spent = [] }
    ∷ []

commit_applied_blocks_seen_once_example :
    (db : Db) × (commit_applied_blocks a_db two_blocks 8 b_key 2 ≡ ok db)
    × (get db (seen_key a_key) ≡ some (to_be_bytes 8 4))
unfolding get bytes_keyed seen_key same_bytes
commit_applied_blocks_seen_once_example =
    commit_applied_blocks_seen_once a_db a_count two_blocks 8 b_key 2 a_key a_db-Counts

roll_all_window_example :
    IsRolling
      (roll_all (new_hash 2) (replicate 32 1 ∷ replicate 32 2 ∷ replicate 32 4 ∷ []))
      2
      (replicate 32 1 ∷ replicate 32 2 ∷ replicate 32 4 ∷ [])
roll_all_window_example =
    roll_all_window 2 (replicate 32 1 ∷ replicate 32 2 ∷ replicate 32 4 ∷ []) (omega arith)

abbrev first_bytes : List ℕ → List ℕ
first_bytes bytes = take 32 (bytes ++ replicate 32 0)

apply_events-Perm_example :
    apply_events first_bytes (new_hash 2) (added 1 ∷ removed 2 ∷ [])
    ≡ apply_events first_bytes (new_hash 2) (removed 2 ∷ added 1 ∷ [])
apply_events-Perm_example =
    apply_events-Perm first_bytes (new_hash 2) (added 1 ∷ removed 2 ∷ []) (removed 2 ∷ added 1 ∷ [])
      (Permᴰ.swap refl refl)

abbrev every_third : CheckpointConfig
every_third = record { every = 3; keep = 2; enabled = true }

commit_blocks-new_example :
    let r = commit_blocks 8 (new_writer every_third) in
    (r.0 * 3 + r.1.processed_since_checkpoint ≡ 8) × (r.1.processed_since_checkpoint < 3)
commit_blocks-new_example = commit_blocks-new 8 every_third refl (omega arith) (omega arith)

abbrev script_witness : List (List ℕ)
script_witness = (0x51 ∷ []) ∷ replicate 33 0xc0 ∷ []

classify_p2tr_spend-annex_example :
    classify_p2tr_spend (script_witness ++ (0x50 ∷ 1 ∷ []) ∷ [])
    ≡ classify_p2tr_spend script_witness
unfolding is_taproot_annex
classify_p2tr_spend-annex_example =
    classify_p2tr_spend-annex script_witness (0x50 ∷ 1 ∷ []) (replicate 33 0xc0) refl refl refl

abbrev no_spends : Stats
no_spends = record {
  spends = 0;
  p2tr_spends = 0;
  p2tr_keypath_spends = 0;
  p2tr_scriptpath_spends = 0;
  p2tr_nums_spends = 0;
  p2tr_sp_eligible_spends = 0;
  p2tr_inscription_spends = 0;
  p2tr_nums_and_inscription_spends = 0;
  same_tx_spends = 0;
  p2tr_same_tx_spends = 0;
  same_block_spends = 0;
  p2tr_same_block_spends = 0;
}

record_p2tr_spend-IsBalanced_example :
    IsBalanced (record_p2tr_spend no_spends (classify_p2tr_spend script_witness) same_tx)
record_p2tr_spend-IsBalanced_example =
    record_p2tr_spend-IsBalanced no_spends script_witness same_tx (omega arith) (record {
      paths = refl;
      eligible = refl;
      both_nums = omega arith;
      both_inscription = omega arith;
      inscriptions = omega arith;
    })

merge_counts-append_example :
    merge_counts (record_types no_counts (p2tr ∷ p2a ∷ [])) (record_types no_counts (p2tr ∷ []))
    ≡ record_types no_counts (p2tr ∷ p2a ∷ p2tr ∷ [])
merge_counts-append_example = merge_counts-append (p2tr ∷ p2a ∷ []) (p2tr ∷ [])
