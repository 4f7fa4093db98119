-- ===== src/ScanPoint/AnyOrder.antt =====
-- light-server/src/sp_tweak.rs: the scan point of a transaction does not depend on the order of its
-- inputs.
use bitcoin_data.Base.{
  Bool, Bool-cases, List, Option, Result, [], ap, bytes_keyed, false, if◌then◌else◌, inl, inr,
  length, ltb, none, not, ok, refl, some, subst, suc, sym, true, ℕ, ◌&&◌, ◌==◌, ◌>>=◌, ◌||◌, ◌∙◌,
  ◌∷◌, ◌≡◌, ◌⊎◌,
}
use mathlib.Core.Path.{fun_ext}
use mathlib.Core.List.{Permᴰ}
use bitcoin_data.OutPoint.{is_coinbase}
use bitcoin_data.ScanPoint.{
  Library, Error, Input, Status, ineligible, no_eligible_inputs, sum_infinity, missing_prevout,
  witness_version_too_high,
}
use bitcoin_data.ScanPoint.Folds.{fold, fold-perm}
use bitcoin_data.ScanPoint.Compute.{
  is_none, input_key, eligible_keys, all_coinbase, count_missing, spends_later_version,
  is_later_version, scan_point, combine_and_compute, compute_tx_scan_point,
}
use bitcoin_data.ScanPoint.Keys.{
  KeyResult, IsErr, SameKeys, join, join-cons, join-swap, SameKeys-trans,
}
use bitcoin_data.ScanPoint.Order.{smallest_outpoint-perm}

-- The tests over all inputs.
and_left_comm : (a b c : Bool) → (a && (b && c)) ≡ (b && (a && c))
and_left_comm true b c = refl
and_left_comm false true c = refl
and_left_comm false false c = refl

or_left_comm : (a b c : Bool) → (a || (b || c)) ≡ (b || (a || c))
or_left_comm false b c = refl
or_left_comm true true c = refl
or_left_comm true false c = refl

abbrev count_if : Bool → ℕ → ℕ
count_if b n = if b then suc n else n

count_left_comm : (a b : Bool) (n : ℕ) → count_if a (count_if b n) ≡ count_if b (count_if a n)
count_left_comm true true n = refl
count_left_comm true false n = refl
count_left_comm false b n = refl

abbrev coinbase_step : Input → Bool → Bool
coinbase_step i r = is_coinbase i.previous_output && r

abbrev missing_step : Input → ℕ → ℕ
missing_step i r = count_if (not (is_coinbase i.previous_output) && is_none i.prevout) r

abbrev version_step : Input → Bool → Bool
version_step i r = is_later_version i.prevout || r

all_coinbase-fold : (xs : List Input) → all_coinbase xs ≡ fold coinbase_step true xs
unfolding all_coinbase
all_coinbase-fold [] = refl
all_coinbase-fold (x ∷ xs) = ap (coinbase_step x) (all_coinbase-fold xs)

all_coinbase-perm : (xs ys : List Input) → Permᴰ xs ys → all_coinbase xs ≡ all_coinbase ys
all_coinbase-perm xs ys p =
    all_coinbase-fold xs
    ∙ fold-perm coinbase_step true (λ a b r. and_left_comm _ _ r) xs ys p
    ∙ sym (all_coinbase-fold ys)

count_missing-fold : (xs : List Input) → count_missing xs ≡ fold missing_step 0 xs
unfolding count_missing
count_missing-fold [] = refl
count_missing-fold (x ∷ xs) = ap (missing_step x) (count_missing-fold xs)

count_missing-perm : (xs ys : List Input) → Permᴰ xs ys → count_missing xs ≡ count_missing ys
count_missing-perm xs ys p =
    count_missing-fold xs
    ∙ fold-perm missing_step 0 (λ a b r. count_left_comm _ _ r) xs ys p
    ∙ sym (count_missing-fold ys)

spends_later_version-fold : (xs : List Input) → spends_later_version xs ≡ fold version_step false xs
unfolding spends_later_version
spends_later_version-fold [] = refl
spends_later_version-fold (x ∷ xs) = ap (version_step x) (spends_later_version-fold xs)

spends_later_version-perm :
    (xs ys : List Input) → Permᴰ xs ys → spends_later_version xs ≡ spends_later_version ys
spends_later_version-perm xs ys p =
    spends_later_version-fold xs
    ∙ fold-perm version_step false (λ a b r. or_left_comm _ _ r) xs ys p
    ∙ sym (spends_later_version-fold ys)

pub length-perm {ℓ} : {A : Type ℓ} (xs ys : List A) → Permᴰ xs ys → length xs ≡ length ys
length-perm xs ys Permᴰ.nil = refl
length-perm (x ∷ xs) (y ∷ ys) (Permᴰ.cons e p) = ap suc (length-perm xs ys p)
length-perm (a ∷ b ∷ xs) (b' ∷ a' ∷ ys) (Permᴰ.swap p q) = refl
length-perm xs ys (Permᴰ.trans p q) = length-perm xs _ p ∙ length-perm _ ys q

-- What stands after the keys are known, over what it reads of them and of the inputs.
abbrev finish : ℕ → Option (List ℕ) → (List ℕ → Result Error Status) → Result Error Status
finish n sum scan =
    if n == 0
    then ok (ineligible no_eligible_inputs)
    else elim sum [ none ↦ ok (ineligible sum_infinity) | some point ↦ scan point ]

-- The whole function over the same.
abbrev decide : Bool → ℕ → Bool → Result Error Status → Result Error Status
decide coinbase missing later keyed =
    if coinbase
    then ok (ineligible no_eligible_inputs)
    else if ltb 0 missing
    then ok (missing_prevout missing)
    else if later
    then ok (ineligible witness_version_too_high)
    else keyed

-- The same result, or an error in both.
abbrev pub Agree : Result Error Status → Result Error Status → Type 0
Agree r s = (r ≡ s) ⊎ (IsErr r × IsErr s)

decide-Agree :
    (coinbase later : Bool) (missing : ℕ) (r s : Result Error Status)
    → Agree r s
    → Agree (decide coinbase missing later r) (decide coinbase missing later s)
decide-Agree true later missing r s h = inl refl
decide-Agree false later missing r s h = elim (Bool-cases (ltb 0 missing)) [
  | inl some_missing ↦ rw some_missing (inl refl)
  | inr none_missing ↦ rw none_missing (by_version later)
]
  where
    by_version :
        (b : Bool)
        → Agree
            (if b then ok (ineligible witness_version_too_high) else r)
            (if b then ok (ineligible witness_version_too_high) else s)
    by_version true = inl refl
    by_version false = h

module _ (lib : Library)
    (commutes : (ks ls : List (List ℕ))
      → Permᴰ ks ls
      → lib.combine_keys ks ≡ lib.combine_keys ls) where
  abbrev keys_of : List Input → KeyResult
  keys_of xs = fold (λ (i : Input). join (input_key lib i)) (ok []) xs

  eligible_keys-fold : (xs : List Input) → eligible_keys lib xs ≡ keys_of xs
  unfolding eligible_keys
  eligible_keys-fold [] = refl
  eligible_keys-fold (x ∷ xs) = ap (join (input_key lib x)) (eligible_keys-fold xs)

  keys_of-perm : (xs ys : List Input) → Permᴰ xs ys → SameKeys (keys_of xs) (keys_of ys)
  keys_of-perm xs ys Permᴰ.nil = inl ([], [], refl, refl, Permᴰ.nil)
  keys_of-perm (x ∷ xs) (y ∷ ys) (Permᴰ.cons e p) =
      subst (λ (i : Input). SameKeys (keys_of (x ∷ xs)) (join (input_key lib i) (keys_of ys))) e
        (join-cons (input_key lib x) (keys_of xs) (keys_of ys) (keys_of-perm xs ys p))
  keys_of-perm (a ∷ b ∷ xs) (b' ∷ a' ∷ ys) (Permᴰ.swap p q) =
      subst (λ (i : Input). SameKeys (keys_of (a ∷ b ∷ xs)) (keys_of (b' ∷ i ∷ xs))) p
        (subst (λ (i : Input). SameKeys (keys_of (a ∷ b ∷ xs)) (keys_of (i ∷ a ∷ xs))) q
          (join-swap (input_key lib a) (input_key lib b) (keys_of xs)))
  keys_of-perm xs ys (Permᴰ.trans p q) =
      SameKeys-trans (keys_of xs) _ (keys_of ys) (keys_of-perm xs _ p) (keys_of-perm _ ys q)

  scan_point-perm :
      (xs ys : List Input) (sum : List ℕ)
      → Permᴰ xs ys
      → scan_point lib xs sum ≡ scan_point lib ys sum
  unfolding scan_point
  scan_point-perm xs ys sum p = rw (smallest_outpoint-perm xs ys p) refl

  combine_and_compute-perm :
      (xs ys : List Input) (ks ls : List (List ℕ))
      → Permᴰ xs ys
      → Permᴰ ks ls
      → combine_and_compute lib xs ks ≡ combine_and_compute lib ys ls
  unfolding combine_and_compute
  combine_and_compute-perm xs ys ks ls p q =
      ap (λ (n : ℕ). finish n (lib.combine_keys ks) (scan_point lib xs)) (length-perm ks ls q)
      ∙ ap (λ (sum : Option (List ℕ)). finish (length ls) sum (scan_point lib xs))
          (commutes ks ls q)
      ∙ ap (finish (length ls) (lib.combine_keys ls)) (fun_ext (λ sum. scan_point-perm xs ys sum p))

  abbrev after_keys : List Input → KeyResult → Result Error Status
  after_keys xs r = do keys ← r; combine_and_compute lib xs keys

  after_keys-Agree :
      (xs ys : List Input) (r s : KeyResult)
      → Permᴰ xs ys
      → SameKeys r s
      → Agree (after_keys xs r) (after_keys ys s)
  after_keys-Agree xs ys r s p (inl (ks, ls, e, f, q)) =
      inl (
        ap (after_keys xs) e
        ∙ combine_and_compute-perm xs ys ks ls p q
        ∙ ap (after_keys ys) (sym f))
  after_keys-Agree xs ys r s p (inr ((e, h), (f, k))) =
      inr ((e, ap (after_keys xs) h), (f, ap (after_keys ys) k))

  compute-decide :
      (xs : List Input)
      → compute_tx_scan_point lib xs
        ≡ decide
            (all_coinbase xs)
            (count_missing xs)
            (spends_later_version xs)
            (after_keys xs (eligible_keys lib xs))
  unfolding compute_tx_scan_point
  compute-decide xs = refl

  -- Where the sum of keys does not depend on their order, neither does the scan point of the inputs
  -- of a transaction: in every order the result is the same, or there is an error in both.
  pub compute_tx_scan_point-perm :
      (xs ys : List Input)
      → Permᴰ xs ys
      → Agree (compute_tx_scan_point lib xs) (compute_tx_scan_point lib ys)
  compute_tx_scan_point-perm xs ys p =
      let keys =
        subst (λ (r : KeyResult). SameKeys r (eligible_keys lib ys)) (sym (eligible_keys-fold xs))
          (subst (SameKeys (keys_of xs)) (sym (eligible_keys-fold ys)) (keys_of-perm xs ys p)) in
      let agree =
        decide-Agree (all_coinbase ys) (spends_later_version ys) (count_missing ys)
          (after_keys xs (eligible_keys lib xs)) (after_keys ys (eligible_keys lib ys))
          (after_keys-Agree xs ys (eligible_keys lib xs) (eligible_keys lib ys) p keys) in
      let left =
        compute-decide xs
        ∙ ap
            (λ (b : Bool).
              decide b (count_missing xs) (spends_later_version xs)
                (after_keys xs (eligible_keys lib xs)))
            (all_coinbase-perm xs ys p)
        ∙ ap
            (λ (n : ℕ).
              decide (all_coinbase ys) n (spends_later_version xs)
                (after_keys xs (eligible_keys lib xs)))
            (count_missing-perm xs ys p)
        ∙ ap
            (λ (b : Bool).
              decide (all_coinbase ys) (count_missing ys) b (after_keys xs (eligible_keys lib xs)))
            (spends_later_version-perm xs ys p) in
      subst (λ (r : Result Error Status). Agree r (compute_tx_scan_point lib ys)) (sym left)
        (subst
          (Agree (
            decide (all_coinbase ys) (count_missing ys) (spends_later_version ys)
              (after_keys xs (eligible_keys lib xs))))
          (sym (compute-decide ys)) agree)
