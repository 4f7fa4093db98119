-- ===== src/Tests/Stats.antt =====
-- Runs of stats/src/histogram.rs and stats/src/block.rs.
use bitcoin_data.Base.{List, [], arith, bytes_keyed, false, length, some, suc, true, ℕ, ◌∷◌, ◌≡◌}
use bitcoin_data.Codec.Leb128.{encode_one}
use bitcoin_data.Codec.EliasDelta.Code.{shape, code_word}
use bitcoin_data.Histogram.{default, record_all, merge}
use bitcoin_data.Histogram.Merge.{merge-recorded}
use bitcoin_data.Costs.{
  CodecEstimate, default_estimate, merge_estimate, best_rice, leb128_len_u64, elias_delta_bits,
}
use bitcoin_data.Costs.Sizes.{encode_one-leb128_len_u64, elias_delta_bits_one_over}
use bitcoin_data.Costs.Best.{IsLeast, best_rice-IsFirstLeast}
use bitcoin_data.Costs.Merge.{add_values, merge-add_values, default_estimate-IsShaped}

merge-recorded_example :
    merge (record_all default (0 ∷ 5 ∷ [])) (record_all default (9 ∷ []))
    ≡ record_all default (0 ∷ 5 ∷ 9 ∷ [])
merge-recorded_example = merge-recorded (0 ∷ 5 ∷ []) (9 ∷ [])

encode_one-leb128_len_u64_example :
    (bytes : List ℕ) × (encode_one 300 (7 ∷ []) ≡ some (7 ∷ bytes))
    × (leb128_len_u64 300 ≡ length bytes)
encode_one-leb128_len_u64_example = encode_one-leb128_len_u64 300 (7 ∷ []) (omega arith)

elias_delta_bits_one_over_example :
    elias_delta_bits 1 ≡ suc (length (code_word (shape 1 (omega arith) (omega arith))))
elias_delta_bits_one_over_example = elias_delta_bits_one_over 1 (omega arith) (omega arith)

abbrev three_charges : CodecEstimate
three_charges = record default_estimate { values = 1; rice_bits_by_k = 9 ∷ 4 ∷ 4 ∷ [] }

best_rice-IsFirstLeast_example : IsLeast (9 ∷ 4 ∷ 4 ∷ []) (best_rice three_charges)
best_rice-IsFirstLeast_example =
    best_rice-IsFirstLeast three_charges (omega arith) (omega arith)
      (omega arith, (omega arith, (omega arith, tt)))

merge-add_values_example :
    merge_estimate default_estimate (add_values default_estimate ((0, true) ∷ (3, false) ∷ []))
    ≡ add_values (merge_estimate default_estimate default_estimate) ((0, true) ∷ (3, false) ∷ [])
merge-add_values_example =
    merge-add_values default_estimate default_estimate ((0, true) ∷ (3, false) ∷ [])
      default_estimate-IsShaped default_estimate-IsShaped
