-- ===== src/Histogram/Merge.antt =====
-- stats/src/histogram.rs: `merge` against recording everything in one histogram.
use bitcoin_data.Base.{
  All, Bool-cases, IsU64, List, [], add_u64, ap, arith, bytes_keyed, inl, inr, leading_zeros,
  length, refl, replicate, suc, sym, zero, ℕ, ◌++◌, ◌-◌, ◌<◌, ◌==◌, ◌^◌, ◌∙◌, ◌∷◌, ◌≡◌,
}
use bitcoin_data.Histogram.{Log2Hist, bump, record_value, add_each, merge, default, record_all}

-- Every counter is a machine word and there are 64 buckets.
pub record IsValid (h : Log2Hist) : Type 0 where
  pub zeros_fit : h.zeros < 2 ^ 64
  pub sized : length h.buckets ≡ 64
  pub buckets_fit : All IsU64 h.buckets
  pub sum_fits : h.sum < 2 ^ 128

length-bump : (k : ℕ) (cs : List ℕ) → length (bump k cs) ≡ length cs
unfolding bump
length-bump k [] = refl
length-bump zero (c ∷ cs) = refl
length-bump (suc k) (c ∷ cs) = ap suc (length-bump k cs)

bump-IsU64 : (k : ℕ) (cs : List ℕ) → All IsU64 cs → All IsU64 (bump k cs)
unfolding bump
bump-IsU64 k [] h = tt
bump-IsU64 zero (c ∷ cs) h = (omega arith, h.1)
bump-IsU64 (suc k) (c ∷ cs) h = (h.0, bump-IsU64 k cs h.1)

pub record_value-IsValid : (h : Log2Hist) (v : ℕ) → IsValid h → IsValid (record_value h v)
unfolding record_value
record_value-IsValid h v w = elim (Bool-cases (v == 0)) [
  | inl is_zero ↦ rw is_zero (record {
    zeros_fit = omega arith;
    sized = w.sized;
    buckets_fit = w.buckets_fit;
    sum_fits = omega arith;
  })
  | inr other ↦ rw other (record {
    zeros_fit = w.zeros_fit;
    sized = length-bump (63 - leading_zeros 64 v) h.buckets ∙ w.sized;
    buckets_fit = bump-IsU64 (63 - leading_zeros 64 v) h.buckets w.buckets_fit;
    sum_fits = omega arith;
  })
]

add_each-bump :
    (xs ys : List ℕ) (k : ℕ)
    → length xs ≡ length ys
    → add_each xs (bump k ys) ≡ bump k (add_each xs ys)
unfolding add_each bump
add_each-bump [] [] k e = refl
add_each-bump [] (y ∷ ys) k e = absurd (omega arith)
add_each-bump (x ∷ xs) [] k e = absurd (omega arith)
add_each-bump (x ∷ xs) (y ∷ ys) zero e = ap (λ (t : ℕ). t ∷ add_each xs ys) (omega arith)
add_each-bump (x ∷ xs) (y ∷ ys) (suc k) e =
    ap (◌∷◌ (add_u64 x y)) (add_each-bump xs ys k (omega arith))

-- Recording into the second histogram, or into the merged one.
pub merge-record_value :
    (h g : Log2Hist) (v : ℕ)
    → length h.buckets ≡ length g.buckets
    → merge h (record_value g v) ≡ record_value (merge h g) v
unfolding merge record_value
merge-record_value h g v e =
    ground (arith, add_each-bump h.buckets g.buckets (63 - leading_zeros 64 v))

record_all-IsValid : (h : Log2Hist) (vs : List ℕ) → IsValid h → IsValid (record_all h vs)
unfolding record_all
record_all-IsValid h [] w = w
record_all-IsValid h (v ∷ vs) w =
    record_all-IsValid (record_value h v) vs (record_value-IsValid h v w)

merge-record_all :
    (h g : Log2Hist) (vs : List ℕ)
    → IsValid h
    → IsValid g
    → merge h (record_all g vs) ≡ record_all (merge h g) vs
unfolding record_all
merge-record_all h g [] w u = refl
merge-record_all h g (v ∷ vs) w u =
    merge-record_all h (record_value g v) vs w (record_value-IsValid g v u)
    ∙ ap (λ (t : Log2Hist). record_all t vs) (merge-record_value h g v (w.sized ∙ sym u.sized))

add_each-zeros :
    (xs : List ℕ) (n : ℕ) → length xs ≡ n → All IsU64 xs → add_each xs (replicate n 0) ≡ xs
unfolding add_each
add_each-zeros [] n e fit = refl
add_each-zeros (x ∷ xs) zero e fit = absurd (omega arith)
add_each-zeros (x ∷ xs) (suc n) e fit = ground (arith, add_each-zeros xs n (omega arith) fit.1)

merge-default : (h : Log2Hist) → IsValid h → merge h default ≡ h
unfolding merge
merge-default h w =
    let zeros_fit = w.zeros_fit in
    let sum_fits = w.sum_fits in ground (arith, add_each-zeros h.buckets 64 w.sized w.buckets_fit)

zeros-IsU64 : (n : ℕ) → All IsU64 (replicate n 0)
zeros-IsU64 zero = tt
zeros-IsU64 (suc n) = (omega arith, zeros-IsU64 n)

pub default-IsValid : IsValid default
default-IsValid = record {
  zeros_fit = omega arith;
  sized = refl;
  buckets_fit = zeros-IsU64 64;
  sum_fits = omega arith;
}

record_all-append :
    (h : Log2Hist) (xs ys : List ℕ) → record_all h (xs ++ ys) ≡ record_all (record_all h xs) ys
unfolding record_all
record_all-append h [] ys = refl
record_all-append h (x ∷ xs) ys = record_all-append (record_value h x) xs ys

-- Recording two lists of values in two histograms and merging them gives exactly the histogram
-- of the values recorded one after the other in one: zeros, buckets, sum and maximum agree, also
-- where a counter wraps.
pub merge-recorded :
    (xs ys : List ℕ)
    → merge (record_all default xs) (record_all default ys) ≡ record_all default (xs ++ ys)
merge-recorded xs ys =
    let valid = record_all-IsValid default xs default-IsValid in
    merge-record_all (record_all default xs) default ys valid default-IsValid
    ∙ ap (λ (t : Log2Hist). record_all t ys) (merge-default (record_all default xs) valid)
    ∙ sym (record_all-append default xs ys)
