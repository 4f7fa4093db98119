-- ===== src/ScriptKinds.antt =====
-- light-server/src/script_classify.rs: the kind of an output script. The templates that rust-bitcoin
-- recognises are a parameter.
use bitcoin_data.Base.{Bool, List, bytes_keyed, get_or, if◌then◌else◌, leb, ℕ, ◌&&◌, ◌-◌, ◌==◌}
use bitcoin_data.Helper.{slice}

-- The predicates of rust-bitcoin on a script's bytes.
pub record Templates : Type 0 where
  pub is_p2pkh : List ℕ → Bool
  pub is_p2sh : List ℕ → Bool
  pub is_p2wpkh : List ℕ → Bool
  pub is_p2wsh : List ℕ → Bool
  pub is_p2tr : List ℕ → Bool
  pub is_witness_program : List ℕ → Bool
  pub is_op_return : List ℕ → Bool

pub data ScriptKind : Type 0 where
  p2pkh p2sh p2wpkh p2wsh p2tr : List ℕ → ScriptKind
  witness_unknown : ℕ → ℕ → ScriptKind
  op_return other : ScriptKind

-- A witness program that is none of the earlier templates.
unfoldable pub witness_kind : List ℕ → ScriptKind
witness_kind script =
    let op = get_or script 0 0 in
    let program_len = get_or script 1 0 in
    if op == 0x00
    then witness_unknown 0 program_len
    else if leb 0x51 op && leb op 0x60
    then witness_unknown (op - 0x50) program_len
    else other

unfoldable pub classify_script : Templates → List ℕ → ScriptKind
unfolding witness_kind
classify_script bitcoin script =
    if bitcoin.is_p2pkh script
    then p2pkh (slice script 3 23)
    else if bitcoin.is_p2sh script
    then p2sh (slice script 2 22)
    else if bitcoin.is_p2wpkh script
    then p2wpkh (slice script 2 22)
    else if bitcoin.is_p2wsh script
    then p2wsh (slice script 2 34)
    else if bitcoin.is_p2tr script
    then p2tr (slice script 2 34)
    else if bitcoin.is_witness_program script
    then witness_kind script
    else if bitcoin.is_op_return script
    then op_return
    else other
