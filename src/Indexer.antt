-- ===== src/Indexer.antt =====
-- light-server/src/p2tr_indexer.rs: blocks applied to the taproot output ids. Transactions and
-- blocks carry what the step reads; a hash map is a keyed list, and its keys are a list of bytes or
-- an outpoint. What the archive stores of an output's hash and the served response, which are
-- computed from the lists below after the transactions, are left out.
pub mod Outputs
pub mod Blocks
pub mod Uids
pub mod Invariant
use bitcoin_data.Base.{Bool, List, Option, bytes_keyed, ℕ}
use bitcoin_data.OutPoint.{OutPoint}
use bitcoin_data.Bitmap

pub data Error : Type 0 where
  too_many_txs height_too_large too_many_outputs missing_key uid_overflow : Error
  bitmap : bitcoin_data.Bitmap.Error → Error

pub record SpendLookup : Type 0 where
  pub uid : ℕ
  pub creation_height : ℕ
  pub output_index : ℕ
  pub flags : ℕ

pub record TxOutput : Type 0 where
  pub vout : ℕ
  pub value_sat : ℕ
  pub p2tr_xonly_key : Option (List ℕ)
  pub is_p2tr : Bool
  pub is_nums : Bool

pub record Tx : Type 0 where
  pub txid : List ℕ
  pub tx_index : ℕ
  pub inputs : List OutPoint
  pub outputs : List TxOutput
  pub silent_payment_tweak : Option (List ℕ)

pub record Block : Type 0 where
  pub height : ℕ
  pub txs : List Tx

pub record Stats : Type 0 where
  pub output_count_total : ℕ
  pub p2tr_output_count : ℕ
  pub p2tr_count : ℕ
  pub p2tr_nums_count : ℕ
  pub p2tr_reused_count : ℕ
  pub p2tr_excluded_by_scope_count : ℕ
  pub indexed_output_count : ℕ
  pub indexed_spent_count : ℕ
  pub tx_with_p2tr_output_count : ℕ
  pub tx_with_indexed_output_count : ℕ
  pub tweak_count : ℕ

pub record State : Type 0 where
  pub next_uid : ℕ
  pub outpoint_to_spend : List (OutPoint × SpendLookup)
  pub live_uid_count : ℕ
  pub seen_p2tr_keys : Option (List (List ℕ × Unit {0}))

-- A created output: its outpoint, uid, dense index, key, and whether the key was seen before.
pub record Created : Type 0 where
  pub outpoint : OutPoint
  pub uid : ℕ
  pub output_index : ℕ
  pub key : List ℕ
  pub is_reused : Bool

pub record Spent : Type 0 where
  pub outpoint : OutPoint
  pub uid : ℕ
  pub creation_height : ℕ
  pub spend_tx_index : ℕ

-- The state and the lists that the loop over the transactions fills.
pub record Progress : Type 0 where
  pub state : State
  pub stats : Stats
  pub created : List Created
  pub spent : List Spent
  pub skipped_outputs : List ℕ
  pub tweaks : List (ℕ × List ℕ)
  pub skipped_txs : List ℕ
