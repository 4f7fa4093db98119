-- ===== src/SortedUids/Measuring.antt =====
-- stats/src/block.rs, `measure_sorted_uid_stream`: different ids are measured without a panic.
use bitcoin_data.Base.{
  All, List, [], arith, bytes_keyed, false, leb, length, ok, refl, true, ℕ, ◌+◌, ◌-◌, ◌<◌, ◌==◌,
  ◌^◌, ◌∙◌, ◌∷◌, ◌≡◌, ◌≤◌,
}
use bitcoin_data.Costs.{add_costs_no_hist}
use bitcoin_data.SpentIds.{sort}
use bitcoin_data.SpentIds.Sorting.{
  IsDistinct, Rises, IsAscending, sort-IsAscending, All-sort, length-sort,
}
use bitcoin_data.SortedUids.{
  CodecStats, BlockEstimate, Measured, check_duplicates, measure_first, measure_delta,
  measure_deltas, close_measure, measure_sorted, measure_stream,
}

check_duplicates-rising : (x : ℕ) (xs : List ℕ) → Rises x xs → check_duplicates (x ∷ xs) ≡ ok tt
unfolding check_duplicates
check_duplicates-rising x [] r = refl
check_duplicates-rising x (y ∷ xs) r =
    let apart : (x == y) ≡ false = ground (arith, r.0) in
    rw apart (check_duplicates-rising y xs r.1)

measure_deltas-values :
    (prev n : ℕ) (uids : List ℕ) (m : Measured)
    → m.block_combined.values ≡ n
    → n + length uids < 2 ^ 64
    → (measure_deltas prev uids m).block_combined.values ≡ n + length uids
unfolding measure_deltas measure_delta add_costs_no_hist
measure_deltas-values prev n [] m e h = omega (arith, e)
measure_deltas-values prev n (uid ∷ uids) m e h =
    measure_deltas-values uid (n + 1) uids (measure_delta (uid - prev) m) (omega (arith, e, h))
      (omega (arith, h))
    ∙ omega arith

pub measure_sorted-measures :
    (uids : List ℕ) (anchor : ℕ) (stats : CodecStats)
    → IsAscending uids
    → All (λ (uid : ℕ). uid ≤ anchor) uids
    → length uids < 2 ^ 64
    → (r : BlockEstimate × CodecStats) × (measure_sorted uids anchor stats ≡ ok r)
      × (r.0.values ≡ length uids)
unfolding measure_sorted close_measure measure_first add_costs_no_hist
measure_sorted-measures [] anchor stats r h few = (_, refl, refl)
measure_sorted-measures (uid ∷ uids) anchor stats r h few =
    let inside : leb uid anchor ≡ true = ground (arith, h.0) in
    (
      close_measure uid uids (measure_deltas uid uids (measure_first (anchor - uid) stats)),
      rw (check_duplicates-rising uid uids r, inside) refl,
      measure_deltas-values uid 1 uids (measure_first (anchor - uid) stats) refl
            (omega (arith, few))
          ∙ omega arith,
    )

-- Different ids up to the anchor are measured without a panic, each as one value.
pub measure_stream-measures :
    (uids : List ℕ) (anchor : ℕ) (stats : CodecStats)
    → IsDistinct uids
    → All (λ (uid : ℕ). uid ≤ anchor) uids
    → length uids < 2 ^ 64
    → (r : BlockEstimate × CodecStats) × (measure_stream uids anchor stats ≡ ok r)
      × (r.0.values ≡ length uids)
unfolding measure_stream
measure_stream-measures uids anchor stats distinct below few =
    let (r, e, v) =
      measure_sorted-measures (sort uids) anchor stats (sort-IsAscending uids distinct)
        (All-sort (λ (uid : ℕ). uid ≤ anchor) uids below) (omega (arith, length-sort uids, few)) in
    (r, e, v ∙ length-sort uids)
