-- ===== src/ScriptTypes.antt =====
-- stats/src/script.rs: the type of an output script and the counters by type. The script templates
-- that rust-bitcoin recognises are a parameter.
pub mod Merge
pub mod Numbers
use bitcoin_data.Base.{
  Bool, List, add_u64, bytes_keyed, get_or, if◌then◌else◌, length, ℕ, ◌&&◌, ◌==◌,
}

pub data ScriptType : Type 0 where
  p2pk p2pkh p2sh p2wpkh p2wsh p2tr p2a op_return unknown : ScriptType

unfoldable pub to_u8 : ScriptType → ℕ
to_u8 p2pk = 0
to_u8 p2pkh = 1
to_u8 p2sh = 2
to_u8 p2wpkh = 3
to_u8 p2wsh = 4
to_u8 p2tr = 5
to_u8 p2a = 6
to_u8 op_return = 7
to_u8 unknown = 8

unfoldable pub from_u8 : ℕ → ScriptType
from_u8 value =
    if value == 0
    then p2pk
    else if value == 1
    then p2pkh
    else if value == 2
    then p2sh
    else if value == 3
    then p2wpkh
    else if value == 4
    then p2wsh
    else if value == 5
    then p2tr
    else if value == 6
    then p2a
    else if value == 7
    then op_return
    else unknown

-- The predicates of rust-bitcoin on a script's bytes.
pub record Templates : Type 0 where
  pub is_p2tr : List ℕ → Bool
  pub is_p2wpkh : List ℕ → Bool
  pub is_p2wsh : List ℕ → Bool
  pub is_p2sh : List ℕ → Bool
  pub is_p2pkh : List ℕ → Bool
  pub is_p2pk : List ℕ → Bool
  pub is_op_return : List ℕ → Bool

unfoldable pub is_p2a : List ℕ → Bool
is_p2a b =
    length b == 4
    && (get_or b 0 0 == 0x51
        && (get_or b 1 0 == 0x02 && (get_or b 2 0 == 0x4e && get_or b 3 0 == 0x73)))

unfoldable pub classify_script : Templates → List ℕ → ScriptType
unfolding is_p2a
classify_script bitcoin script =
    if is_p2a script
    then p2a
    else if bitcoin.is_p2tr script
    then p2tr
    else if bitcoin.is_p2wpkh script
    then p2wpkh
    else if bitcoin.is_p2wsh script
    then p2wsh
    else if bitcoin.is_p2sh script
    then p2sh
    else if bitcoin.is_p2pkh script
    then p2pkh
    else if bitcoin.is_p2pk script
    then p2pk
    else if bitcoin.is_op_return script
    then op_return
    else unknown

pub record TypeCounts : Type 0 where
  pub p2pk_count : ℕ
  pub p2pkh_count : ℕ
  pub p2sh_count : ℕ
  pub p2wpkh_count : ℕ
  pub p2wsh_count : ℕ
  pub p2tr_count : ℕ
  pub p2a_count : ℕ
  pub op_return_count : ℕ
  pub unknown_count : ℕ

abbrev pub no_counts : TypeCounts
no_counts = record {
  p2pk_count = 0;
  p2pkh_count = 0;
  p2sh_count = 0;
  p2wpkh_count = 0;
  p2wsh_count = 0;
  p2tr_count = 0;
  p2a_count = 0;
  op_return_count = 0;
  unknown_count = 0;
}

unfoldable pub record_type : TypeCounts → ScriptType → TypeCounts
record_type c p2pk = record c { p2pk_count = add_u64 c.p2pk_count 1 }
record_type c p2pkh = record c { p2pkh_count = add_u64 c.p2pkh_count 1 }
record_type c p2sh = record c { p2sh_count = add_u64 c.p2sh_count 1 }
record_type c p2wpkh = record c { p2wpkh_count = add_u64 c.p2wpkh_count 1 }
record_type c p2wsh = record c { p2wsh_count = add_u64 c.p2wsh_count 1 }
record_type c p2tr = record c { p2tr_count = add_u64 c.p2tr_count 1 }
record_type c p2a = record c { p2a_count = add_u64 c.p2a_count 1 }
record_type c op_return = record c { op_return_count = add_u64 c.op_return_count 1 }
record_type c unknown = record c { unknown_count = add_u64 c.unknown_count 1 }

unfoldable pub merge_counts : TypeCounts → TypeCounts → TypeCounts
merge_counts c other = record {
  p2pk_count = add_u64 c.p2pk_count other.p2pk_count;
  p2pkh_count = add_u64 c.p2pkh_count other.p2pkh_count;
  p2sh_count = add_u64 c.p2sh_count other.p2sh_count;
  p2wpkh_count = add_u64 c.p2wpkh_count other.p2wpkh_count;
  p2wsh_count = add_u64 c.p2wsh_count other.p2wsh_count;
  p2tr_count = add_u64 c.p2tr_count other.p2tr_count;
  p2a_count = add_u64 c.p2a_count other.p2a_count;
  op_return_count = add_u64 c.op_return_count other.op_return_count;
  unknown_count = add_u64 c.unknown_count other.unknown_count;
}
