-- ===== src/Scanner/SpendSums.antt =====
-- stats/src/block.rs: a spend is counted alike in the run and in the block.
use bitcoin_data.Base.{
  Bool, add_u64, bytes_keyed, false, if◌then◌else◌, refl, subst, sym, true, ℕ, ◌&&◌, ◌≡◌,
}
use bitcoin_data.OutPoint.{outpoint_keyed}
use bitcoin_data.Spend.{
  Stats, SpendContext, same_tx, same_block, earlier, SpendPath, key, script_non_nums, script_nums,
  SpendClass, is_nums_path, record_spend, record_p2tr_spend, count_context, count_path,
  count_inscription,
}
use bitcoin_data.PerBlock.{
  PerBlock, record_spend_uid, block_path, block_inscription, block_p2tr_spend,
}
use bitcoin_data.Scanner.Sums.{
  IsSum-one, IsSum-if, SpendCounts, run_counts, block_counts, block_others, SpendSums,
}

-- One more spend.
abbrev one_spend : SpendCounts → SpendCounts
one_spend c = record c { spends = add_u64 c.spends 1 }

one_spend-SpendSums :
    (b t p : SpendCounts) → SpendSums b t p → SpendSums b (one_spend t) (one_spend p)
one_spend-SpendSums b t p w = record {
  sum_spends = IsSum-one _ _ _ w.sum_spends;
  sum_p2tr = w.sum_p2tr;
  sum_keypath = w.sum_keypath;
  sum_scriptpath = w.sum_scriptpath;
  sum_nums = w.sum_nums;
  sum_eligible = w.sum_eligible;
  sum_inscription = w.sum_inscription;
  sum_both = w.sum_both;
}

pub record_spend-SpendSums :
    (b : SpendCounts) (t : Stats) (p : PerBlock) (ctx : SpendContext) (uid : ℕ) (is_p2tr : Bool)
    → SpendSums b (run_counts t) (block_counts p)
    → SpendSums b (run_counts (record_spend t ctx)) (block_counts (record_spend_uid p uid is_p2tr))
unfolding record_spend record_spend_uid
record_spend-SpendSums b t p same_tx uid is_p2tr w =
    one_spend-SpendSums b (run_counts t) (block_counts p) w
record_spend-SpendSums b t p same_block uid is_p2tr w =
    one_spend-SpendSums b (run_counts t) (block_counts p) w
record_spend-SpendSums b t p earlier uid is_p2tr w =
    one_spend-SpendSums b (run_counts t) (block_counts p) w

-- One more taproot spend, by its path.
abbrev one_p2tr : SpendPath → SpendCounts → SpendCounts
one_p2tr key c = record c {
  p2tr = add_u64 c.p2tr 1;
  keypath = add_u64 c.keypath 1;
  eligible = add_u64 c.eligible 1;
}
one_p2tr script_non_nums c = record c {
  p2tr = add_u64 c.p2tr 1;
  scriptpath = add_u64 c.scriptpath 1;
  eligible = add_u64 c.eligible 1;
}
one_p2tr script_nums c = record c {
  p2tr = add_u64 c.p2tr 1;
  scriptpath = add_u64 c.scriptpath 1;
  nums = add_u64 c.nums 1;
}

one_p2tr-SpendSums :
    (b t p : SpendCounts) (path : SpendPath)
    → SpendSums b t p
    → SpendSums b (one_p2tr path t) (one_p2tr path p)
one_p2tr-SpendSums b t p key w = record {
  sum_spends = w.sum_spends;
  sum_p2tr = IsSum-one _ _ _ w.sum_p2tr;
  sum_keypath = IsSum-one _ _ _ w.sum_keypath;
  sum_scriptpath = w.sum_scriptpath;
  sum_nums = w.sum_nums;
  sum_eligible = IsSum-one _ _ _ w.sum_eligible;
  sum_inscription = w.sum_inscription;
  sum_both = w.sum_both;
}
one_p2tr-SpendSums b t p script_non_nums w = record {
  sum_spends = w.sum_spends;
  sum_p2tr = IsSum-one _ _ _ w.sum_p2tr;
  sum_keypath = w.sum_keypath;
  sum_scriptpath = IsSum-one _ _ _ w.sum_scriptpath;
  sum_nums = w.sum_nums;
  sum_eligible = IsSum-one _ _ _ w.sum_eligible;
  sum_inscription = w.sum_inscription;
  sum_both = w.sum_both;
}
one_p2tr-SpendSums b t p script_nums w = record {
  sum_spends = w.sum_spends;
  sum_p2tr = IsSum-one _ _ _ w.sum_p2tr;
  sum_keypath = w.sum_keypath;
  sum_scriptpath = IsSum-one _ _ _ w.sum_scriptpath;
  sum_nums = IsSum-one _ _ _ w.sum_nums;
  sum_eligible = w.sum_eligible;
  sum_inscription = w.sum_inscription;
  sum_both = w.sum_both;
}

-- One more inscription, where there is one.
abbrev one_inscription : Bool → Bool → SpendCounts → SpendCounts
one_inscription inscription is_nums c = record c {
  inscription = if inscription then add_u64 c.inscription 1 else c.inscription;
  both = if inscription && is_nums then add_u64 c.both 1 else c.both;
}

one_inscription-SpendSums :
    (b t p : SpendCounts) (inscription is_nums : Bool)
    → SpendSums b t p
    → SpendSums b (one_inscription inscription is_nums t) (one_inscription inscription is_nums p)
one_inscription-SpendSums b t p inscription is_nums w = record {
  sum_spends = w.sum_spends;
  sum_p2tr = w.sum_p2tr;
  sum_keypath = w.sum_keypath;
  sum_scriptpath = w.sum_scriptpath;
  sum_nums = w.sum_nums;
  sum_eligible = w.sum_eligible;
  sum_inscription = IsSum-if inscription _ _ _ w.sum_inscription;
  sum_both = IsSum-if (inscription && is_nums) _ _ _ w.sum_both;
}

abbrev counted_p2tr : SpendClass → SpendCounts → SpendCounts
unfolding is_nums_path
counted_p2tr class c =
    one_inscription class.inscription (is_nums_path class.path) (one_p2tr class.path c)

run_p2tr :
    (t : Stats) (path : SpendPath) (inscription : Bool) (ctx : SpendContext)
    → let class : SpendClass = record { path = path; inscription = inscription } in
      run_counts (record_p2tr_spend t class ctx) ≡ counted_p2tr class (run_counts t)
unfolding record_p2tr_spend count_context count_path count_inscription is_nums_path
run_p2tr t key true same_tx = refl
run_p2tr t key true same_block = refl
run_p2tr t key true earlier = refl
run_p2tr t key false same_tx = refl
run_p2tr t key false same_block = refl
run_p2tr t key false earlier = refl
run_p2tr t script_non_nums true same_tx = refl
run_p2tr t script_non_nums true same_block = refl
run_p2tr t script_non_nums true earlier = refl
run_p2tr t script_non_nums false same_tx = refl
run_p2tr t script_non_nums false same_block = refl
run_p2tr t script_non_nums false earlier = refl
run_p2tr t script_nums true same_tx = refl
run_p2tr t script_nums true same_block = refl
run_p2tr t script_nums true earlier = refl
run_p2tr t script_nums false same_tx = refl
run_p2tr t script_nums false same_block = refl
run_p2tr t script_nums false earlier = refl

block_p2tr :
    (p : PerBlock) (path : SpendPath) (inscription : Bool)
    → let class : SpendClass = record { path = path; inscription = inscription } in
      block_counts (block_p2tr_spend p class) ≡ counted_p2tr class (block_counts p)
unfolding block_p2tr_spend block_path block_inscription is_nums_path
block_p2tr p key true = refl
block_p2tr p key false = refl
block_p2tr p script_non_nums true = refl
block_p2tr p script_non_nums false = refl
block_p2tr p script_nums true = refl
block_p2tr p script_nums false = refl

pub record_p2tr_spend-SpendSums :
    (b : SpendCounts) (t : Stats) (p : PerBlock) (class : SpendClass) (ctx : SpendContext)
    → SpendSums b (run_counts t) (block_counts p)
    → SpendSums b
        (run_counts (record_p2tr_spend t class ctx))
        (block_counts (block_p2tr_spend p class))
unfolding counted_p2tr
record_p2tr_spend-SpendSums b t p class ctx w =
    subst (λ (c : SpendCounts). SpendSums b c (block_counts (block_p2tr_spend p class)))
      (sym (run_p2tr t class.path class.inscription ctx))
      (subst (SpendSums b (counted_p2tr class (run_counts t)))
        (sym (block_p2tr p class.path class.inscription))
        (one_inscription-SpendSums b (one_p2tr class.path (run_counts t))
          (one_p2tr class.path (block_counts p)) class.inscription (is_nums_path class.path)
          (one_p2tr-SpendSums b (run_counts t) (block_counts p) class.path w)))

-- A taproot spend leaves the other counters of the block.
block_p2tr-others :
    (p : PerBlock) (path : SpendPath) (inscription : Bool)
    → let class : SpendClass = record { path = path; inscription = inscription } in
      block_others (block_p2tr_spend p class) ≡ block_others p
unfolding block_p2tr_spend block_path block_inscription
block_p2tr-others p key true = refl
block_p2tr-others p key false = refl
block_p2tr-others p script_non_nums true = refl
block_p2tr-others p script_non_nums false = refl
block_p2tr-others p script_nums true = refl
block_p2tr-others p script_nums false = refl

pub block_p2tr_spend-others :
    (p : PerBlock) (class : SpendClass) → block_others (block_p2tr_spend p class) ≡ block_others p
block_p2tr_spend-others p class = block_p2tr-others p class.path class.inscription
