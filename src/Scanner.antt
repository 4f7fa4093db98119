-- ===== src/Scanner.antt =====
-- stats/src/scan.rs: what a scan keeps, and blocks prepared for it. Times and their printing are left
-- out.
pub mod Blocks
pub mod Packing
pub mod Sound
pub mod Views
pub mod Steps
pub mod Sums
pub mod SpendSums
pub mod Rows
pub mod RowSums
pub mod Whole
use bitcoin_data.Base.{
  Bool, List, Option, [], bit_and, bit_or, bytes_keyed, false, get_or, if◌then◌else◌, length, map,
  none, some, true, ℕ, ◌%◌, ◌&&◌, ◌*◌, ◌/◌, ◌==◌, ◌^◌,
}
use bitcoin_data.Helper.{slice}
use bitcoin_data.OutPoint.{OutPoint}
use bitcoin_data.ScriptTypes.{ScriptType, p2tr, Templates, classify_script, to_u8, from_u8}
use bitcoin_data.Spend.{SpendClass, classify_p2tr_spend}
use bitcoin_data.UtxoHash.{RollingUtxoHash, new_hash}
use bitcoin_data.PerBlock.{RunStats, new_run}

-- The id in the upper 60 bits and the script type in the lower four.
pub record UtxoEntry : Type 0 where
  pub packed : ℕ

unfoldable pub new_entry : ℕ → ScriptType → UtxoEntry
unfolding to_u8
new_entry id script_type = record { packed = bit_or (id * 2 ^ 4 % 2 ^ 64) (to_u8 script_type) }

unfoldable pub id_of : UtxoEntry → ℕ
id_of entry = entry.packed / 2 ^ 4

unfoldable pub script_type_of : UtxoEntry → ScriptType
unfolding from_u8
script_type_of entry = from_u8 (bit_and entry.packed 15)

abbrev pub Utxo : Type 0
Utxo = List (OutPoint × UtxoEntry)

pub record State : Type 0 where
  pub last_id : ℕ
  pub utxo : Utxo
  pub seen_keys : List (List ℕ × Unit {0})
  pub stats : RunStats
  pub utxo_hash : RollingUtxoHash
  pub missing : ℕ

unfoldable pub new_state : ℕ → State
new_state utxo_hash_window = record {
  last_id = 0;
  utxo = [];
  seen_keys = [];
  stats = new_run;
  utxo_hash = new_hash utxo_hash_window;
  missing = 0;
}

pub record PreparedInput : Type 0 where
  pub previous_output : OutPoint
  pub p2tr_spend_class : SpendClass

pub record PreparedTx : Type 0 where
  pub txid : List ℕ
  pub is_coinbase : Bool
  pub inputs : List PreparedInput
  pub output_script_types : List ScriptType
  pub output_xonly_keys : List (Option (List ℕ))

-- A transaction as rust-bitcoin decodes it: its inputs with their witnesses, and its scripts.
pub record DecodedTx : Type 0 where
  pub txid : List ℕ
  pub is_coinbase : Bool
  pub inputs : List (OutPoint × List (List ℕ))
  pub outputs : List (List ℕ)

unfoldable pub extract_xonly_script : List ℕ → Option (List ℕ)
extract_xonly_script bytes =
    if length bytes == 34 && (get_or bytes 0 0 == 0x51 && get_or bytes 1 0 == 0x20)
    then some (slice bytes 2 34)
    else none

abbrev pub is_p2tr_type : ScriptType → Bool
is_p2tr_type p2tr = true
is_p2tr_type _ = false

unfoldable pub prepare_input : OutPoint × List (List ℕ) → PreparedInput
unfolding classify_p2tr_spend
prepare_input vin = record { previous_output = vin.0; p2tr_spend_class = classify_p2tr_spend vin.1 }

-- The key of an output of a type.
unfoldable pub xonly_key : ScriptType → List ℕ → Option (List ℕ)
unfolding extract_xonly_script
xonly_key script_type script =
    if is_p2tr_type script_type then extract_xonly_script script else none

-- `prepare_decoded_block`, for one transaction.
unfoldable pub prepare_tx : Templates → DecodedTx → PreparedTx
unfolding prepare_input xonly_key classify_script
prepare_tx bitcoin tx = record {
  txid = tx.txid;
  is_coinbase = tx.is_coinbase;
  inputs = if tx.is_coinbase then [] else map prepare_input tx.inputs;
  output_script_types = map (classify_script bitcoin) tx.outputs;
  output_xonly_keys =
      map (λ (script : List ℕ). xonly_key (classify_script bitcoin script) script) tx.outputs;
}
