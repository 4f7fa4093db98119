-- ===== src/Spend.antt =====
-- stats/src/transaction.rs: the class of a taproot spend from its witness, and the counters of
-- stats/src/block.rs that it feeds. A witness is a list of byte strings.
pub mod Annex
pub mod Proper
pub mod Counters
use bitcoin_data.Base.{
  Bool, List, [], add_u64, bytes_keyed, false, get_elem?, get_or, if◌then◌else◌, leb, length, ltb,
  none, same_bytes, some, take, true, ℕ, ◌%◌, ◌&&◌, ◌-◌, ◌==◌, ◌||◌, ◌∷◌,
}
use bitcoin_data.Helper.{slice}

pub data SpendPath : Type 0 where
  key script_non_nums script_nums : SpendPath

pub record SpendClass : Type 0 where
  pub path : SpendPath
  pub inscription : Bool

-- `NUMS_H_XONLY`.
abbrev pub nums_h_xonly : List ℕ
nums_h_xonly =
    0x50 ∷ 0x92 ∷ 0x9b ∷ 0x74 ∷ 0xc1 ∷ 0xa0 ∷ 0x49 ∷ 0x54 ∷ 0xb7 ∷ 0x8b ∷ 0x4b ∷ 0x60 ∷ 0x35 ∷ 0xe9
    ∷ 0x7a ∷ 0x5e ∷ 0x07 ∷ 0x8a ∷ 0x5a ∷ 0x0f ∷ 0x28 ∷ 0xec ∷ 0x96 ∷ 0xd5 ∷ 0x47 ∷ 0xbf ∷ 0xee
    ∷ 0x9a ∷ 0xce ∷ 0x80 ∷ 0x3a ∷ 0xc0 ∷ []

unfoldable pub is_taproot_annex : List ℕ → Bool
is_taproot_annex item = elim (get_elem? item 0) [ none ↦ false | some first ↦ first == 0x50 ]

unfoldable pub is_taproot_control_block : List ℕ → Bool
is_taproot_control_block item = leb 33 (length item) && (length item - 33) % 32 == 0

abbrev pub needle : List ℕ
needle = 0x00 ∷ 0x63 ∷ 0x03 ∷ b'o' ∷ b'r' ∷ b'd' ∷ []

-- Whether a window of the script is the prefix of an envelope.
unfoldable pub is_inscription_envelope : List ℕ → Bool
is_inscription_envelope [] = false
is_inscription_envelope (x ∷ script) =
    same_bytes (take 6 (x ∷ script)) needle || is_inscription_envelope script

-- The number of items without the annex.
unfoldable pub stripped_len : List (List ℕ) → ℕ
unfolding is_taproot_annex
stripped_len witness = elim (get_elem? witness (length witness - 1)) [
  | none ↦ length witness
  | some last ↦ if is_taproot_annex last then length witness - 1 else length witness
]

abbrev pub key_spend : SpendClass
key_spend = record { path = key; inscription = false }

-- A control block and the script before it.
unfoldable pub classify_control : List ℕ → List ℕ → SpendClass
unfolding is_taproot_control_block is_inscription_envelope
classify_control control script =
    if is_taproot_control_block control
    then record {
      path = if same_bytes (slice control 1 33) nums_h_xonly then script_nums else script_non_nums;
      inscription = is_inscription_envelope script;
    }
    else key_spend

unfoldable pub classify_at : List (List ℕ) → ℕ → SpendClass
unfolding classify_control
classify_at witness len = if ltb len 2 then key_spend else elim (get_elem? witness (len - 1)) [
  | none ↦ key_spend
  | some control ↦ classify_control control (get_or witness (len - 2) [])
]

unfoldable pub classify_p2tr_spend : List (List ℕ) → SpendClass
unfolding stripped_len classify_at
classify_p2tr_spend witness =
    if length witness == 0 then key_spend else classify_at witness (stripped_len witness)

pub data SpendContext : Type 0 where
  same_tx same_block earlier : SpendContext

-- The counters of `Stats` that spends feed.
pub record Stats : Type 0 where
  pub spends : ℕ
  pub p2tr_spends : ℕ
  pub p2tr_keypath_spends : ℕ
  pub p2tr_scriptpath_spends : ℕ
  pub p2tr_nums_spends : ℕ
  pub p2tr_sp_eligible_spends : ℕ
  pub p2tr_inscription_spends : ℕ
  pub p2tr_nums_and_inscription_spends : ℕ
  pub same_tx_spends : ℕ
  pub p2tr_same_tx_spends : ℕ
  pub same_block_spends : ℕ
  pub p2tr_same_block_spends : ℕ

unfoldable pub record_spend : Stats → SpendContext → Stats
record_spend s same_tx = record s {
  spends = add_u64 s.spends 1;
  same_tx_spends = add_u64 s.same_tx_spends 1;
}
record_spend s same_block = record s {
  spends = add_u64 s.spends 1;
  same_block_spends = add_u64 s.same_block_spends 1;
}
record_spend s earlier = record s { spends = add_u64 s.spends 1 }

unfoldable pub count_context : Stats → SpendContext → Stats
count_context s same_tx = record s { p2tr_same_tx_spends = add_u64 s.p2tr_same_tx_spends 1 }
count_context s same_block = record s {
  p2tr_same_block_spends = add_u64 s.p2tr_same_block_spends 1;
}
count_context s earlier = s

unfoldable pub count_path : Stats → SpendPath → Stats
count_path s key = record s {
  p2tr_keypath_spends = add_u64 s.p2tr_keypath_spends 1;
  p2tr_sp_eligible_spends = add_u64 s.p2tr_sp_eligible_spends 1;
}
count_path s script_non_nums = record s {
  p2tr_scriptpath_spends = add_u64 s.p2tr_scriptpath_spends 1;
  p2tr_sp_eligible_spends = add_u64 s.p2tr_sp_eligible_spends 1;
}
count_path s script_nums = record s {
  p2tr_scriptpath_spends = add_u64 s.p2tr_scriptpath_spends 1;
  p2tr_nums_spends = add_u64 s.p2tr_nums_spends 1;
}

unfoldable pub is_nums_path : SpendPath → Bool
is_nums_path script_nums = true
is_nums_path _ = false

unfoldable pub count_inscription : Stats → SpendClass → Stats
unfolding is_nums_path
count_inscription s class =
    if class.inscription
    then record s {
      p2tr_inscription_spends = add_u64 s.p2tr_inscription_spends 1;
      p2tr_nums_and_inscription_spends =
          if is_nums_path class.path
          then add_u64 s.p2tr_nums_and_inscription_spends 1
          else s.p2tr_nums_and_inscription_spends;
    }
    else s

unfoldable pub record_p2tr_spend : Stats → SpendClass → SpendContext → Stats
unfolding count_context count_path count_inscription
record_p2tr_spend s class ctx =
    let s₁ = record s { p2tr_spends = add_u64 s.p2tr_spends 1 } in
    count_inscription (count_path (count_context s₁ ctx) class.path) class
