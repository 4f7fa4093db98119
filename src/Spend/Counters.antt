-- ===== src/Spend/Counters.antt =====
-- stats/src/block.rs, `record_p2tr_spend`: how the counters of taproot spends hang together.
use bitcoin_data.Base.{
  Bool, List, arith, bytes_keyed, false, refl, subst, sym, true, ℕ, ◌+◌, ◌-◌, ◌<◌, ◌^◌, ◌≡◌, ◌≤◌,
}
use mathlib.Core.Bool.{true≢false}
use bitcoin_data.Spend.Proper.{IsClass, classify_p2tr_spend-IsClass}
use bitcoin_data.Spend.{
  SpendPath, SpendContext, is_nums_path, count_inscription, count_path, count_context,
  record_p2tr_spend, Stats, SpendClass, key, classify_p2tr_spend, script_nums, script_non_nums,
  same_tx, same_block, earlier,
}

-- Every taproot spend has a path, those by script path with the unspendable key are the ones that
-- are not eligible, and the counts of inscriptions stay within those they are counted in.
pub record IsBalanced (s : Stats) : Type 0 where
  pub paths : s.p2tr_spends ≡ s.p2tr_keypath_spends + s.p2tr_scriptpath_spends
  pub eligible : s.p2tr_spends ≡ s.p2tr_sp_eligible_spends + s.p2tr_nums_spends
  pub both_nums : s.p2tr_nums_and_inscription_spends ≤ s.p2tr_nums_spends
  pub both_inscription : s.p2tr_nums_and_inscription_spends ≤ s.p2tr_inscription_spends
  pub inscriptions : s.p2tr_inscription_spends ≤ s.p2tr_scriptpath_spends

count_context-IsBalanced :
    (s : Stats) (ctx : SpendContext) → IsBalanced s → IsBalanced (count_context s ctx)
unfolding count_context
count_context-IsBalanced s same_tx w = record {
  paths = w.paths;
  eligible = w.eligible;
  both_nums = w.both_nums;
  both_inscription = w.both_inscription;
  inscriptions = w.inscriptions;
}
count_context-IsBalanced s same_block w = record {
  paths = w.paths;
  eligible = w.eligible;
  both_nums = w.both_nums;
  both_inscription = w.both_inscription;
  inscriptions = w.inscriptions;
}
count_context-IsBalanced s earlier w = w

-- The context only matters for counters that stand apart.
context_first :
    (s : Stats) (class : SpendClass) (ctx : SpendContext)
    → record_p2tr_spend s class ctx ≡ record_p2tr_spend (count_context s ctx) class earlier
unfolding record_p2tr_spend count_context
context_first s class same_tx = refl
context_first s class same_block = refl
context_first s class earlier = refl

count_context-fits :
    (s : Stats) (ctx : SpendContext) → (count_context s ctx).p2tr_spends ≡ s.p2tr_spends
unfolding count_context
count_context-fits s same_tx = refl
count_context-fits s same_block = refl
count_context-fits s earlier = refl

balanced :
    (s : Stats) (path : SpendPath) (inscription : Bool)
    → (path ≡ key → inscription ≡ false)
    → s.p2tr_spends < 2 ^ 64 - 1
    → IsBalanced s
    → IsBalanced (record_p2tr_spend s (record { path = path; inscription = inscription }) earlier)
unfolding record_p2tr_spend count_context count_path count_inscription is_nums_path
balanced s key false proper fits w = record {
  paths = omega (arith, w.paths, w.eligible, w.both_nums, w.both_inscription, w.inscriptions);
  eligible = omega (arith, w.paths, w.eligible, w.both_nums, w.both_inscription, w.inscriptions);
  both_nums = omega (arith, w.paths, w.eligible, w.both_nums, w.both_inscription, w.inscriptions);
  both_inscription =
      omega (arith, w.paths, w.eligible, w.both_nums, w.both_inscription, w.inscriptions);
  inscriptions =
      omega (arith, w.paths, w.eligible, w.both_nums, w.both_inscription, w.inscriptions);
}
balanced s key true proper fits w = absurd (true≢false (proper refl))
balanced s script_non_nums false proper fits w = record {
  paths = omega (arith, w.paths, w.eligible, w.both_nums, w.both_inscription, w.inscriptions);
  eligible = omega (arith, w.paths, w.eligible, w.both_nums, w.both_inscription, w.inscriptions);
  both_nums = omega (arith, w.paths, w.eligible, w.both_nums, w.both_inscription, w.inscriptions);
  both_inscription =
      omega (arith, w.paths, w.eligible, w.both_nums, w.both_inscription, w.inscriptions);
  inscriptions =
      omega (arith, w.paths, w.eligible, w.both_nums, w.both_inscription, w.inscriptions);
}
balanced s script_non_nums true proper fits w = record {
  paths = omega (arith, w.paths, w.eligible, w.both_nums, w.both_inscription, w.inscriptions);
  eligible = omega (arith, w.paths, w.eligible, w.both_nums, w.both_inscription, w.inscriptions);
  both_nums = omega (arith, w.paths, w.eligible, w.both_nums, w.both_inscription, w.inscriptions);
  both_inscription =
      omega (arith, w.paths, w.eligible, w.both_nums, w.both_inscription, w.inscriptions);
  inscriptions =
      omega (arith, w.paths, w.eligible, w.both_nums, w.both_inscription, w.inscriptions);
}
balanced s script_nums false proper fits w = record {
  paths = omega (arith, w.paths, w.eligible, w.both_nums, w.both_inscription, w.inscriptions);
  eligible = omega (arith, w.paths, w.eligible, w.both_nums, w.both_inscription, w.inscriptions);
  both_nums = omega (arith, w.paths, w.eligible, w.both_nums, w.both_inscription, w.inscriptions);
  both_inscription =
      omega (arith, w.paths, w.eligible, w.both_nums, w.both_inscription, w.inscriptions);
  inscriptions =
      omega (arith, w.paths, w.eligible, w.both_nums, w.both_inscription, w.inscriptions);
}
balanced s script_nums true proper fits w = record {
  paths = omega (arith, w.paths, w.eligible, w.both_nums, w.both_inscription, w.inscriptions);
  eligible = omega (arith, w.paths, w.eligible, w.both_nums, w.both_inscription, w.inscriptions);
  both_nums = omega (arith, w.paths, w.eligible, w.both_nums, w.both_inscription, w.inscriptions);
  both_inscription =
      omega (arith, w.paths, w.eligible, w.both_nums, w.both_inscription, w.inscriptions);
  inscriptions =
      omega (arith, w.paths, w.eligible, w.both_nums, w.both_inscription, w.inscriptions);
}

-- Counting a spend of a proper class keeps the counters balanced, in every context.
count-IsBalanced :
    (s : Stats) (class : SpendClass) (ctx : SpendContext)
    → IsClass class
    → s.p2tr_spends < 2 ^ 64 - 1
    → IsBalanced s
    → IsBalanced (record_p2tr_spend s class ctx)
unfolding IsClass
count-IsBalanced s class ctx proper fits w = subst IsBalanced (sym (context_first s class ctx)) (
    balanced (count_context s ctx) class.path class.inscription proper
      (subst (λ (n : ℕ). n < 2 ^ 64 - 1) (sym (count_context-fits s ctx)) fits)
      (count_context-IsBalanced s ctx w))

-- Counting a taproot spend with the class of any witness keeps the counters balanced, in every
-- context, while the number of taproot spends fits 64 bits.
pub record_p2tr_spend-IsBalanced :
    (s : Stats) (witness : List (List ℕ)) (ctx : SpendContext)
    → s.p2tr_spends < 2 ^ 64 - 1
    → IsBalanced s
    → IsBalanced (record_p2tr_spend s (classify_p2tr_spend witness) ctx)
record_p2tr_spend-IsBalanced s witness ctx fits w =
    count-IsBalanced s (classify_p2tr_spend witness) ctx (classify_p2tr_spend-IsClass witness) fits
      w
