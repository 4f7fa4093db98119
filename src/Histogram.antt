-- ===== src/Histogram.antt =====
-- stats/src/histogram.rs: the log2 histogram. Counters are 64-bit words and the sum has 128 bits;
-- both wrap as in a release build. Printing, serialisation and the floating-point mean are left out.
pub mod Merge
use bitcoin_data.Base.{
  List, Option, [], add_u128, add_u64, bytes_keyed, if◌then◌else◌, leading_zeros, leb, ltb, max,
  none, replicate, saturating_mul_u64, some, suc, zero, ℕ, ◌+◌, ◌-◌, ◌==◌, ◌^◌, ◌∷◌,
}

pub record Log2Hist : Type 0 where
  pub zeros : ℕ
  pub buckets : List ℕ
  pub sum : ℕ
  pub max : ℕ

abbrev pub default : Log2Hist
default = record { zeros = 0; buckets = replicate 64 0; sum = 0; max = 0 }

-- `buckets[k] += 1`.
unfoldable pub bump : ℕ → List ℕ → List ℕ
bump k [] = []
bump zero (c ∷ cs) = add_u64 c 1 ∷ cs
bump (suc k) (c ∷ cs) = c ∷ bump k cs

unfoldable pub record_value : Log2Hist → ℕ → Log2Hist
unfolding bump
record_value h v =
    let sum = add_u128 h.sum v in
    let max = if ltb h.max v then v else h.max in
    if v == 0
    then record { zeros = add_u64 h.zeros 1; buckets = h.buckets; sum = sum; max = max }
    else record {
      zeros = h.zeros;
      buckets = bump (63 - leading_zeros 64 v) h.buckets;
      sum = sum;
      max = max;
    }

-- The sum of the buckets from an accumulator on.
unfoldable pub total_from : ℕ → List ℕ → ℕ
total_from acc [] = acc
total_from acc (c ∷ cs) = total_from (add_u64 acc c) cs

unfoldable pub count : Log2Hist → ℕ
unfolding total_from
count h = add_u64 h.zeros (total_from 0 h.buckets)

-- The loop of `percentile` over the buckets from `k` on; `none` where no bucket reaches the rank.
unfoldable pub percentile_loop : ℕ → ℕ → ℕ → List ℕ → Option ℕ
percentile_loop target acc k [] = none
percentile_loop target acc k (c ∷ cs) =
    let acc' = add_u64 acc c in
    let rest = percentile_loop target acc' (k + 1) cs in
    if leb target acc' then some (saturating_mul_u64 (2 ^ k) 2 - 1) else rest

-- `percentile` at a rank: the source computes `target` from a fraction in floating point.
unfoldable pub percentile : Log2Hist → ℕ → ℕ
unfolding count percentile_loop
percentile h target =
    if count h == 0
    then 0
    else (if leb target h.zeros then 0 else elim (percentile_loop target h.zeros 0 h.buckets) [
      | some bound ↦ bound
      | none ↦ h.max
    ])

-- `self.buckets[i] += other.buckets[i]` for each index.
unfoldable pub add_each : List ℕ → List ℕ → List ℕ
add_each [] ys = []
add_each (x ∷ xs) [] = x ∷ xs
add_each (x ∷ xs) (y ∷ ys) = add_u64 x y ∷ add_each xs ys

unfoldable pub merge : Log2Hist → Log2Hist → Log2Hist
unfolding add_each
merge h other = record {
  zeros = add_u64 h.zeros other.zeros;
  buckets = add_each h.buckets other.buckets;
  sum = add_u128 h.sum other.sum;
  max = if ltb h.max other.max then other.max else h.max;
}

-- A histogram of a list of values, recorded one after the other.
unfoldable pub record_all : Log2Hist → List ℕ → Log2Hist
record_all h [] = h
record_all h (v ∷ vs) = record_all (record_value h v) vs
