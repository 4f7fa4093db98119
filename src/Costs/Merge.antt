-- ===== src/Costs/Merge.antt =====
-- stats/src/block.rs: merging two estimates against adding all their values to one.
use bitcoin_data.Base.{
  All, Bool, List, [], add_u128, add_u64, ap, arith, bytes_keyed, false, if◌then◌else◌, length,
  refl, suc, sym, true, ℕ, ◌∙◌, ◌∷◌, ◌≡◌,
}
use bitcoin_data.Histogram.Merge.{
  IsValid, merge-record_value, record_value-IsValid, default-IsValid,
}
use bitcoin_data.Costs.{
  CodecEstimate, CodecValueCosts, new_costs, add_costs, add_costs_no_hist, add_row, add_rows,
  merge_estimate, add_zeroable, add_nonzero, default_estimate,
}

-- The arrays have the lengths that the source gives them.
pub record IsShaped (e : CodecEstimate) : Type 0 where
  pub rice_sized : length e.rice_bits_by_k ≡ 33
  pub rows_sized : length e.escaped_rice_bits ≡ 4
  pub row_sized : All (λ (row : List ℕ). length row ≡ 17) e.escaped_rice_bits
  pub hist_valid : IsValid e.hist

length-add_row : (xs ys : List ℕ) → length (add_row xs ys) ≡ length xs
unfolding add_row
length-add_row [] ys = refl
length-add_row (x ∷ xs) [] = refl
length-add_row (x ∷ xs) (y ∷ ys) = ap suc (length-add_row xs ys)

length-add_rows : (xs ys : List (List ℕ)) → length (add_rows xs ys) ≡ length xs
unfolding add_rows
length-add_rows [] ys = refl
length-add_rows (x ∷ xs) [] = refl
length-add_rows (x ∷ xs) (y ∷ ys) = ap suc (length-add_rows xs ys)

add_rows-sized :
    (n : ℕ) (xs ys : List (List ℕ))
    → All (λ (row : List ℕ). length row ≡ n) xs
    → All (λ (row : List ℕ). length row ≡ n) (add_rows xs ys)
unfolding add_rows
add_rows-sized n [] ys h = tt
add_rows-sized n (x ∷ xs) [] h = h
add_rows-sized n (x ∷ xs) (y ∷ ys) h = (length-add_row x y ∙ h.0, add_rows-sized n xs ys h.1)

add_row_assoc :
    (xs ys zs : List ℕ)
    → length xs ≡ length ys
    → add_row xs (add_row ys zs) ≡ add_row (add_row xs ys) zs
unfolding add_row
add_row_assoc [] ys zs e = refl
add_row_assoc (x ∷ xs) [] zs e = absurd (omega arith)
add_row_assoc (x ∷ xs) (y ∷ ys) [] e = refl
add_row_assoc (x ∷ xs) (y ∷ ys) (z ∷ zs) e =
    let head : add_u128 x (add_u128 y z) ≡ add_u128 (add_u128 x y) z = omega arith in
    rw (head, add_row_assoc xs ys zs (omega arith)) refl

add_rows_assoc :
    (n : ℕ) (xs ys zs : List (List ℕ))
    → length xs ≡ length ys
    → All (λ (row : List ℕ). length row ≡ n) xs
    → All (λ (row : List ℕ). length row ≡ n) ys
    → add_rows xs (add_rows ys zs) ≡ add_rows (add_rows xs ys) zs
unfolding add_rows
add_rows_assoc n [] ys zs e p q = refl
add_rows_assoc n (x ∷ xs) [] zs e p q = absurd (omega arith)
add_rows_assoc n (x ∷ xs) (y ∷ ys) [] e p q = refl
add_rows_assoc n (x ∷ xs) (y ∷ ys) (z ∷ zs) e p q =
    rw (add_row_assoc x y z (p.0 ∙ sym q.0), add_rows_assoc n xs ys zs (omega arith) p.1 q.1) refl

-- An estimate is `e` with every one of the values added, each charged as zeroable or not.
unfoldable pub add_values : CodecEstimate → List (ℕ × Bool) → CodecEstimate
unfolding add_zeroable add_nonzero
add_values e [] = e
add_values e ((value, zeroable) ∷ vs) =
    add_values (if zeroable then add_zeroable e value else add_nonzero e value) vs

add_costs-IsShaped :
    (e : CodecEstimate) (v : ℕ) (c : CodecValueCosts) → IsShaped e → IsShaped (add_costs e v c)
unfolding add_costs add_costs_no_hist
add_costs-IsShaped e v c w = record {
  rice_sized = length-add_row e.rice_bits_by_k c.rice_bits_by_k ∙ w.rice_sized;
  rows_sized = length-add_rows e.escaped_rice_bits c.escaped_rice_bits ∙ w.rows_sized;
  row_sized = add_rows-sized 17 e.escaped_rice_bits c.escaped_rice_bits w.row_sized;
  hist_valid = record_value-IsValid e.hist v w.hist_valid;
}

merge-add_costs :
    (e g : CodecEstimate) (v : ℕ) (c : CodecValueCosts)
    → IsShaped e
    → IsShaped g
    → merge_estimate e (add_costs g v c) ≡ add_costs (merge_estimate e g) v c
unfolding merge_estimate add_costs add_costs_no_hist
merge-add_costs e g v c w u =
    let values : add_u64 e.values (add_u64 g.values 1) ≡ add_u64 (add_u64 e.values g.values) 1 =
      omega arith in
    let bytes : add_u128 e.leb128_bytes (add_u128 g.leb128_bytes c.leb128_bytes)
        ≡ add_u128 (add_u128 e.leb128_bytes g.leb128_bytes) c.leb128_bytes =
      omega arith in
    let bits : add_u128 e.elias_delta_bits (add_u128 g.elias_delta_bits c.elias_delta_bits)
        ≡ add_u128 (add_u128 e.elias_delta_bits g.elias_delta_bits) c.elias_delta_bits =
      omega arith in
    rw
      (
        values,
        bytes,
        bits,
        add_row_assoc e.rice_bits_by_k g.rice_bits_by_k c.rice_bits_by_k
            (w.rice_sized ∙ sym u.rice_sized),
        add_rows_assoc 17 e.escaped_rice_bits g.escaped_rice_bits c.escaped_rice_bits
            (w.rows_sized ∙ sym u.rows_sized) w.row_sized u.row_sized,
        merge-record_value e.hist g.hist v (w.hist_valid.sized ∙ sym u.hist_valid.sized),
      )
      refl

pub default_estimate-IsShaped : IsShaped default_estimate
default_estimate-IsShaped = record {
  rice_sized = refl;
  rows_sized = refl;
  row_sized = (refl, (refl, (refl, (refl, tt))));
  hist_valid = default-IsValid;
}

-- Merging an estimate to which some values were added is adding the values to the merged estimate,
-- in every charge, counter and histogram bucket, also where a sum wraps, provided that the arrays
-- of both have the lengths of the source.
pub merge-add_values :
    (e g : CodecEstimate) (vs : List (ℕ × Bool))
    → IsShaped e
    → IsShaped g
    → merge_estimate e (add_values g vs) ≡ add_values (merge_estimate e g) vs
unfolding add_values add_zeroable add_nonzero
merge-add_values e g [] w u = refl
merge-add_values e g ((v, true) ∷ vs) w u =
    let c = new_costs v true in
    merge-add_values e (add_costs g v c) vs w (add_costs-IsShaped g v c u)
    ∙ ap (λ (t : CodecEstimate). add_values t vs) (merge-add_costs e g v c w u)
merge-add_values e g ((v, false) ∷ vs) w u =
    let c = new_costs v false in
    merge-add_values e (add_costs g v c) vs w (add_costs-IsShaped g v c u)
    ∙ ap (λ (t : CodecEstimate). add_values t vs) (merge-add_costs e g v c w u)
