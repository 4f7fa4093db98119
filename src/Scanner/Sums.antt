-- ===== src/Scanner/Sums.antt =====
-- stats/src/scan.rs and block.rs: the counters of the run and of the block count the same events.
use bitcoin_data.Base.{
  Bool, add_u64, ap, arith, bytes_keyed, false, if◌then◌else◌, sym, true, ℕ, ◌%◌, ◌+◌, ◌^◌, ◌∙◌,
  ◌≡◌,
}
use bitcoin_data.OutPoint.{outpoint_keyed}
use bitcoin_data.ScriptTypes.{ScriptType, TypeCounts, record_type, merge_counts}
use bitcoin_data.ScriptTypes.Merge.{merge-record_right}
use bitcoin_data.Spend.{Stats}
use bitcoin_data.PerBlock.{RunStats, PerBlock}

-- `total` is the sum of `before` and `block`, wrapping at 64 bits.
abbrev pub IsSum : ℕ → ℕ → ℕ → Type 0
IsSum total before block = total % 2 ^ 64 ≡ (before + block) % 2 ^ 64

-- The counters of spends that the run and the block both keep.
pub record SpendCounts : Type 0 where
  pub spends : ℕ
  pub p2tr : ℕ
  pub keypath : ℕ
  pub scriptpath : ℕ
  pub nums : ℕ
  pub eligible : ℕ
  pub inscription : ℕ
  pub both : ℕ

abbrev pub run_counts : Stats → SpendCounts
run_counts s = record {
  spends = s.spends;
  p2tr = s.p2tr_spends;
  keypath = s.p2tr_keypath_spends;
  scriptpath = s.p2tr_scriptpath_spends;
  nums = s.p2tr_nums_spends;
  eligible = s.p2tr_sp_eligible_spends;
  inscription = s.p2tr_inscription_spends;
  both = s.p2tr_nums_and_inscription_spends;
}

abbrev pub block_counts : PerBlock → SpendCounts
block_counts s = record {
  spends = s.spends;
  p2tr = s.p2tr_spends;
  keypath = s.p2tr_keypath_spends;
  scriptpath = s.p2tr_scriptpath_spends;
  nums = s.p2tr_nums_spends;
  eligible = s.p2tr_sp_eligible_spends;
  inscription = s.p2tr_inscription_spends;
  both = s.p2tr_nums_and_inscription_spends;
}

pub record SpendSums (before total block : SpendCounts) : Type 0 where
  pub sum_spends : IsSum total.spends before.spends block.spends
  pub sum_p2tr : IsSum total.p2tr before.p2tr block.p2tr
  pub sum_keypath : IsSum total.keypath before.keypath block.keypath
  pub sum_scriptpath : IsSum total.scriptpath before.scriptpath block.scriptpath
  pub sum_nums : IsSum total.nums before.nums block.nums
  pub sum_eligible : IsSum total.eligible before.eligible block.eligible
  pub sum_inscription : IsSum total.inscription before.inscription block.inscription
  pub sum_both : IsSum total.both before.both block.both

-- The counters by type are those before, merged with those of the block.
abbrev pub TypeSums : TypeCounts → TypeCounts → TypeCounts → Type 0
TypeSums before total block = total ≡ merge_counts before block

-- The other counters that both keep.
pub record OtherCounts : Type 0 where
  pub outputs : ℕ
  pub p2tr_outputs : ℕ
  pub p2tr_reused : ℕ
  pub nonsp_txs : ℕ
  pub nonsp_tx_outputs : ℕ
  pub script_outputs : TypeCounts
  pub script_inputs : TypeCounts

abbrev pub run_others : RunStats → OtherCounts
run_others s = record {
  outputs = s.outputs;
  p2tr_outputs = s.p2tr_outputs;
  p2tr_reused = s.p2tr_reused;
  nonsp_txs = s.nonsp_txs;
  nonsp_tx_outputs = s.nonsp_tx_outputs;
  script_outputs = s.script_outputs;
  script_inputs = s.script_inputs;
}

abbrev pub block_others : PerBlock → OtherCounts
block_others p = record {
  outputs = p.output_count;
  p2tr_outputs = p.p2tr_output_count;
  p2tr_reused = p.p2tr_reused_count;
  nonsp_txs = p.nonsp_txs;
  nonsp_tx_outputs = p.nonsp_tx_outputs;
  script_outputs = p.script_outputs;
  script_inputs = p.script_inputs;
}

pub record OtherSums (before total block : OtherCounts) : Type 0 where
  pub sum_outputs : IsSum total.outputs before.outputs block.outputs
  pub sum_p2tr_outputs : IsSum total.p2tr_outputs before.p2tr_outputs block.p2tr_outputs
  pub sum_p2tr_reused : IsSum total.p2tr_reused before.p2tr_reused block.p2tr_reused
  pub sum_nonsp_txs : IsSum total.nonsp_txs before.nonsp_txs block.nonsp_txs
  pub sum_nonsp_tx_outputs :
      IsSum total.nonsp_tx_outputs before.nonsp_tx_outputs block.nonsp_tx_outputs
  pub sum_script_outputs : TypeSums before.script_outputs total.script_outputs block.script_outputs
  pub sum_script_inputs : TypeSums before.script_inputs total.script_inputs block.script_inputs

-- The counters of the run are those before, plus those of the block.
abbrev pub RunSums : RunStats → RunStats → PerBlock → Type 0
RunSums before total p =
    SpendSums (run_counts before.spend) (run_counts total.spend) (block_counts p)
    × OtherSums (run_others before) (run_others total) (block_others p)

-- Both count one more.
pub IsSum-one :
    (total before block : ℕ)
    → IsSum total before block
    → IsSum (add_u64 total 1) before (add_u64 block 1)
IsSum-one total before block h = omega (arith, h)

-- Both count one more, or none does.
pub IsSum-if :
    (b : Bool) (total before block : ℕ)
    → IsSum total before block
    → IsSum (if b then add_u64 total 1 else total) before (if b then add_u64 block 1 else block)
IsSum-if true total before block h = IsSum-one total before block h
IsSum-if false total before block h = h

pub record_type-TypeSums :
    (before total block : TypeCounts) (type : ScriptType)
    → TypeSums before total block
    → TypeSums before (record_type total type) (record_type block type)
record_type-TypeSums before total block type w =
    ap (λ (c : TypeCounts). record_type c type) w ∙ sym (merge-record_right before block type)
