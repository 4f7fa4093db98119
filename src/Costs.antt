-- ===== src/Costs.antt =====
-- stats/src/block.rs: what each codec would charge for a value, and the estimates that add the
-- charges up. Sums of 128 bits wrap as in a release build. Printing and serialisation are left out.
pub mod Sizes
pub mod Best
pub mod Merge
use bitcoin_data.Base.{
  Bool, List, [], add_u128, add_u64, bit_length, bytes_keyed, false, if◌then◌else◌, leading_zeros,
  leb, ltb, map, replicate, saturating_add_u64, suc, true, zero, ℕ, ◌%◌, ◌*◌, ◌+◌, ◌-◌, ◌/◌, ◌==◌,
  ◌^◌, ◌∷◌,
}
use bitcoin_data.Histogram.{Log2Hist, default, record_value, merge}

abbrev pub rice_k_count : ℕ
rice_k_count = 33

abbrev pub escaped_rice_thresholds : List ℕ
escaped_rice_thresholds = 128 ∷ 2048 ∷ 16384 ∷ 65536 ∷ []

abbrev pub escaped_rice_k_count : ℕ
escaped_rice_k_count = 17

-- `while value >= 0x80 { value >>= 7; bytes += 1; }`, on fuel.
unfoldable pub leb128_len_loop : ℕ → ℕ → ℕ → ℕ
leb128_len_loop zero bytes value = bytes
leb128_len_loop (suc fuel) bytes value =
    let rest = leb128_len_loop fuel (bytes + 1) (value / 128) in
    if leb 128 value then rest else bytes

-- Ten rounds are enough for 64 bits.
unfoldable pub leb128_len_u64 : ℕ → ℕ
unfolding leb128_len_loop
leb128_len_u64 value = leb128_len_loop 10 1 value

unfoldable pub rice_bits : ℕ → ℕ → ℕ
rice_bits value k = add_u64 (add_u64 (value / 2 ^ k) 1) k

-- The subtraction of 1 wraps, as it does for the value 0.
unfoldable pub elias_delta_bits : ℕ → ℕ
elias_delta_bits value =
    let len = 64 - leading_zeros 64 value in
    let len_len = 64 - leading_zeros 64 len in (len + 2 * len_len + (2 ^ 64 - 1)) % 2 ^ 64

-- `ilog2` of a positive 64-bit integer.
unfoldable pub ilog2 : ℕ → ℕ
ilog2 v = bit_length 64 v - 1

-- The quotient is taken only where `n < universe` and `n` is positive.
unfoldable pub elias_fano_bits : ℕ → ℕ → ℕ
unfolding ilog2
elias_fano_bits universe n =
    if n == 0
    then 0
    else (let lower_bits = if leb universe n then 0 else ilog2 (universe / n) in
        let lower = n * lower_bits in
        let upper = n + universe / 2 ^ lower_bits + 1 in add_u128 lower upper)

pub record CodecValueCosts : Type 0 where
  pub leb128_bytes : ℕ
  pub elias_delta_bits : ℕ
  pub rice_bits_by_k : List ℕ
  pub escaped_rice_bits : List (List ℕ)

-- `f k`, `f (k + 1)`, ... , `n` of them: an array filled by its index.
unfoldable pub tabulate : {A : Type 0} → ℕ → ℕ → (ℕ → A) → List A
tabulate zero k f = []
tabulate (suc n) k f = f k ∷ tabulate n (k + 1) f

unfoldable pub escaped_bits : ℕ → ℕ → ℕ → ℕ
escaped_bits value threshold k =
    if ltb value threshold then 1 + rice_bits value k else 1 + 8 * leb128_len_u64 value

-- `CodecValueCosts::new`.
unfoldable pub new_costs : ℕ → Bool → CodecValueCosts
unfolding tabulate escaped_bits
new_costs value zeroable =
    let elias_value = if zeroable then saturating_add_u64 value 1 else value in
    record {
      leb128_bytes = leb128_len_u64 value;
      elias_delta_bits = elias_delta_bits elias_value;
      rice_bits_by_k = tabulate rice_k_count 0 (rice_bits value);
      escaped_rice_bits =
          map (λ (threshold : ℕ). tabulate escaped_rice_k_count 0 (escaped_bits value threshold))
            escaped_rice_thresholds;
    }

pub record CodecEstimate : Type 0 where
  pub values : ℕ
  pub leb128_bytes : ℕ
  pub elias_delta_bits : ℕ
  pub rice_bits_by_k : List ℕ
  pub escaped_rice_bits : List (List ℕ)
  pub hist : Log2Hist

abbrev pub default_estimate : CodecEstimate
default_estimate = record {
  values = 0;
  leb128_bytes = 0;
  elias_delta_bits = 0;
  rice_bits_by_k = replicate 33 0;
  escaped_rice_bits = replicate 4 (replicate 17 0);
  hist = default;
}

-- `for (dst, src) in dst.iter_mut().zip(src) { *dst += *src }`.
unfoldable pub add_row : List ℕ → List ℕ → List ℕ
add_row [] ys = []
add_row (x ∷ xs) [] = x ∷ xs
add_row (x ∷ xs) (y ∷ ys) = add_u128 x y ∷ add_row xs ys

unfoldable pub add_rows : List (List ℕ) → List (List ℕ) → List (List ℕ)
unfolding add_row
add_rows [] ys = []
add_rows (x ∷ xs) [] = x ∷ xs
add_rows (x ∷ xs) (y ∷ ys) = add_row x y ∷ add_rows xs ys

unfoldable pub add_costs_no_hist : CodecEstimate → CodecValueCosts → CodecEstimate
unfolding add_rows
add_costs_no_hist e costs = record {
  values = add_u64 e.values 1;
  leb128_bytes = add_u128 e.leb128_bytes costs.leb128_bytes;
  elias_delta_bits = add_u128 e.elias_delta_bits costs.elias_delta_bits;
  rice_bits_by_k = add_row e.rice_bits_by_k costs.rice_bits_by_k;
  escaped_rice_bits = add_rows e.escaped_rice_bits costs.escaped_rice_bits;
  hist = e.hist;
}

unfoldable pub add_costs : CodecEstimate → ℕ → CodecValueCosts → CodecEstimate
unfolding add_costs_no_hist
add_costs e value costs =
    let e' = add_costs_no_hist e costs in
    record {
      values = e'.values;
      leb128_bytes = e'.leb128_bytes;
      elias_delta_bits = e'.elias_delta_bits;
      rice_bits_by_k = e'.rice_bits_by_k;
      escaped_rice_bits = e'.escaped_rice_bits;
      hist = record_value e'.hist value;
    }

unfoldable pub add_zeroable : CodecEstimate → ℕ → CodecEstimate
unfolding add_costs new_costs
add_zeroable e value = add_costs e value (new_costs value true)

unfoldable pub add_nonzero : CodecEstimate → ℕ → CodecEstimate
unfolding add_costs new_costs
add_nonzero e value = add_costs e value (new_costs value false)

-- `CodecEstimate::merge`.
unfoldable pub merge_estimate : CodecEstimate → CodecEstimate → CodecEstimate
unfolding add_rows
merge_estimate e other = record {
  values = add_u64 e.values other.values;
  leb128_bytes = add_u128 e.leb128_bytes other.leb128_bytes;
  elias_delta_bits = add_u128 e.elias_delta_bits other.elias_delta_bits;
  rice_bits_by_k = add_row e.rice_bits_by_k other.rice_bits_by_k;
  escaped_rice_bits = add_rows e.escaped_rice_bits other.escaped_rice_bits;
  hist = merge e.hist other.hist;
}

pub record RiceChoice : Type 0 where
  pub k : ℕ
  pub bits : ℕ

-- The loop of `best_rice` over the charges from index `k` on.
unfoldable pub best_rice_loop : ℕ → RiceChoice → List ℕ → RiceChoice
best_rice_loop k best [] = best
best_rice_loop k best (bits ∷ rest) =
    best_rice_loop (k + 1) (if ltb bits best.bits then record { k = k; bits = bits } else best) rest

unfoldable pub best_rice : CodecEstimate → RiceChoice
unfolding best_rice_loop
best_rice e =
    if e.values == 0
    then record { k = 0; bits = 0 }
    else best_rice_loop 0 (record { k = 0; bits = 2 ^ 128 - 1 }) e.rice_bits_by_k
