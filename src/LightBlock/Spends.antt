-- ===== src/LightBlock/Spends.antt =====
-- light-server/src/index.rs: the spends that a filter leaves.
use bitcoin_data.Base.{
  All, Bool-cases, List, [], arith, bytes_keyed, inl, inr, length, map, ℕ, ◌∷◌, ◌≢◌, ◌≤◌,
}
use bitcoin_data.SpentIds.Sorting.{IsDistinct}
use bitcoin_data.LightBlock.{StoredSpend, ResponseFilter, should_omit_spend}
use bitcoin_data.LightBlock.Response.{kept_uids}

abbrev pub uids_of : List StoredSpend → List ℕ
uids_of spends = map (λ (s : StoredSpend). s.spent_uid) spends

module _ (height : ℕ) (filter : ResponseFilter) where
  pub kept_uids-All {ℓ} :
      (P : ℕ → Type ℓ) (spends : List StoredSpend)
      → All P (uids_of spends)
      → All P (kept_uids height filter spends)
  unfolding kept_uids
  kept_uids-All P [] h = h
  kept_uids-All P (s ∷ spends) h = elim (Bool-cases (should_omit_spend height s filter)) [
    | inl omit ↦ rw omit (kept_uids-All P spends h.1)
    | inr keep ↦ rw keep (h.0, kept_uids-All P spends h.1)
  ]

  pub kept_uids-IsDistinct :
      (spends : List StoredSpend)
      → IsDistinct (uids_of spends)
      → IsDistinct (kept_uids height filter spends)
  unfolding kept_uids
  kept_uids-IsDistinct [] h = h
  kept_uids-IsDistinct (s ∷ spends) h = elim (Bool-cases (should_omit_spend height s filter)) [
    | inl omit ↦ rw omit (kept_uids-IsDistinct spends h.1)
    | inr keep ↦
        rw keep
          (kept_uids-All (λ (y : ℕ). s.spent_uid ≢ y) spends h.0, kept_uids-IsDistinct spends h.1)
  ]

  pub length-kept_uids :
      (spends : List StoredSpend) → length (kept_uids height filter spends) ≤ length spends
  unfolding kept_uids
  length-kept_uids [] = omega arith
  length-kept_uids (s ∷ spends) = elim (Bool-cases (should_omit_spend height s filter)) [
    | inl omit ↦ rw omit (omega (arith, length-kept_uids spends))
    | inr keep ↦ rw keep (omega (arith, length-kept_uids spends))
  ]
