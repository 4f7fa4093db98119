-- ===== src/SortedUids.antt =====
-- stats/src/block.rs: the codec estimates of the sorted ids that a block spends.
pub mod Measuring
use bitcoin_data.Base.{
  List, Result, [], add_u128, add_u64, bytes_keyed, ensure, false, if◌then◌else◌, leb, length, ltb,
  not, ok, suc, true, ℕ, ◌-◌, ◌==◌, ◌>>◌, ◌∷◌,
}
use bitcoin_data.Costs.{
  CodecEstimate, default_estimate, new_costs, add_costs, add_costs_no_hist, best_rice,
  elias_fano_bits,
}
use bitcoin_data.SpentIds.{sort}

-- The two panics of the measure.
pub data Error : Type 0 where
  duplicate_uid uid_above_anchor : Error

pub record CodecStats : Type 0 where
  pub blocks_with_spends : ℕ
  pub ef_bits_with_64bit_base : ℕ
  pub delta_rice_best_bits : ℕ
  pub combined_rice_best_bits : ℕ
  pub first_offsets : CodecEstimate
  pub deltas : CodecEstimate
  pub combined : CodecEstimate

abbrev pub no_stats : CodecStats
no_stats = record {
  blocks_with_spends = 0;
  ef_bits_with_64bit_base = 0;
  delta_rice_best_bits = 0;
  combined_rice_best_bits = 0;
  first_offsets = default_estimate;
  deltas = default_estimate;
  combined = default_estimate;
}

pub record BlockEstimate : Type 0 where
  pub values : ℕ
  pub leb128_bytes : ℕ
  pub rice_best_k : ℕ
  pub rice_best_bits : ℕ
  pub elias_delta_bits : ℕ
  pub ef_bits_with_64bit_base : ℕ

abbrev pub no_estimate : BlockEstimate
no_estimate = record {
  values = 0;
  leb128_bytes = 0;
  rice_best_k = 0;
  rice_best_bits = 0;
  elias_delta_bits = 0;
  ef_bits_with_64bit_base = 0;
}

abbrev pub per_block_rice_k_overhead_bits : ℕ
per_block_rice_k_overhead_bits = 5

-- The loop over `uids.windows(2)`.
unfoldable pub check_duplicates : List ℕ → Result Error (Unit {0})
check_duplicates [] = ok tt
check_duplicates (a ∷ []) = ok tt
check_duplicates (a ∷ b ∷ uids) = do
  ensure (not (a == b)) duplicate_uid
  check_duplicates (b ∷ uids)

-- What the loop over the differences changes.
pub record Measured : Type 0 where
  pub block_combined : CodecEstimate
  pub block_deltas : CodecEstimate
  pub stats : CodecStats

-- The ids are sorted, so the difference does not wrap.
unfoldable pub measure_delta : ℕ → Measured → Measured
unfolding new_costs add_costs add_costs_no_hist
measure_delta delta m =
    let costs = new_costs delta false in
    record {
      block_combined = add_costs_no_hist m.block_combined costs;
      block_deltas = add_costs_no_hist m.block_deltas costs;
      stats = record (m.stats) {
        deltas = add_costs m.stats.deltas delta costs;
        combined = add_costs m.stats.combined delta costs;
      };
    }

unfoldable pub measure_deltas : ℕ → List ℕ → Measured → Measured
unfolding measure_delta
measure_deltas prev [] m = m
measure_deltas prev (uid ∷ uids) m = measure_deltas uid uids (measure_delta (uid - prev) m)

-- The first id, as its distance from the last one that was given out.
unfoldable pub measure_first : ℕ → CodecStats → Measured
unfolding new_costs add_costs add_costs_no_hist
measure_first first_offset stats =
    let costs = new_costs first_offset true in
    record {
      block_combined = add_costs_no_hist default_estimate costs;
      block_deltas = default_estimate;
      stats = record stats {
        blocks_with_spends = add_u64 stats.blocks_with_spends 1;
        first_offsets = add_costs stats.first_offsets first_offset costs;
        combined = add_costs stats.combined first_offset costs;
      };
    }

abbrev pub last_of : ℕ → List ℕ → ℕ
last_of uid [] = uid
last_of uid (uid' ∷ uids) = last_of uid' uids

abbrev pub with_overhead : CodecEstimate → ℕ → ℕ
unfolding best_rice
with_overhead estimate bits =
    add_u128 bits (add_u128 (best_rice estimate).bits per_block_rice_k_overhead_bits)

-- The totals of the block, from the first id on.
unfoldable pub close_measure : ℕ → List ℕ → Measured → BlockEstimate × CodecStats
unfolding best_rice elias_fano_bits
close_measure first_uid uids m =
    let universe = add_u64 (last_of first_uid uids - first_uid) 1 in
    let ef_bits = add_u128 64 (elias_fano_bits universe (suc (length uids))) in
    let best = best_rice m.block_combined in
    (
      record {
        values = m.block_combined.values;
        leb128_bytes = m.block_combined.leb128_bytes;
        rice_best_k = best.k;
        rice_best_bits = best.bits;
        elias_delta_bits = m.block_combined.elias_delta_bits;
        ef_bits_with_64bit_base = ef_bits;
      },
      record (m.stats) {
        delta_rice_best_bits =
            if ltb 0 m.block_deltas.values
            then with_overhead m.block_deltas m.stats.delta_rice_best_bits
            else m.stats.delta_rice_best_bits;
        combined_rice_best_bits = with_overhead m.block_combined m.stats.combined_rice_best_bits;
        ef_bits_with_64bit_base = add_u128 m.stats.ef_bits_with_64bit_base ef_bits;
      },
    )

unfoldable pub measure_sorted : List ℕ → ℕ → CodecStats → Result Error (BlockEstimate × CodecStats)
unfolding check_duplicates measure_first measure_deltas close_measure
measure_sorted [] block_anchor_last_uid stats = ok (no_estimate, stats)
measure_sorted (first_uid ∷ uids) block_anchor_last_uid stats = do
  check_duplicates (first_uid ∷ uids)
  ensure (leb first_uid block_anchor_last_uid) uid_above_anchor
  ok (
      close_measure first_uid uids
        (measure_deltas first_uid uids (measure_first (block_anchor_last_uid - first_uid) stats)))

unfoldable pub measure_stream : List ℕ → ℕ → CodecStats → Result Error (BlockEstimate × CodecStats)
unfolding sort measure_sorted
measure_stream uids block_anchor_last_uid stats =
    measure_sorted (sort uids) block_anchor_last_uid stats
