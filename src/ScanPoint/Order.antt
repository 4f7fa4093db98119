-- ===== src/ScanPoint/Order.antt =====
-- light-server/src/sp_tweak.rs: the order of byte arrays, and the least outpoint of some inputs.
use bitcoin_data.Base.{
  Bool-cases, List, Option, [], ap, arith, bytes_keyed, false, if◌then◌else◌, inl, inr, none, refl,
  some, sym, true, ℕ, ◌∙◌, ◌∷◌, ◌≡◌,
}
use mathlib.Core.List.{Permᴰ}
use bitcoin_data.OutPoint.{is_coinbase}
use bitcoin_data.ScanPoint.{Input}
use bitcoin_data.ScanPoint.Folds.{fold, fold-perm}
use bitcoin_data.ScanPoint.Compute.{is_before, smaller, serialize_outpoint, smallest_outpoint}

before_total : (xs ys : List ℕ) → is_before xs ys ≡ false → is_before ys xs ≡ true
unfolding is_before
before_total [] ys h = cc
before_total (x ∷ xs) [] h = refl
before_total (x ∷ xs) (y ∷ ys) h = ground (arith, before_total xs ys)

before_antisymm : (xs ys : List ℕ) → is_before xs ys ≡ true → is_before ys xs ≡ true → xs ≡ ys
unfolding is_before
before_antisymm [] [] h k = refl
before_antisymm [] (y ∷ ys) h k = cc
before_antisymm (x ∷ xs) [] h k = cc
before_antisymm (x ∷ xs) (y ∷ ys) h k = ground (arith, before_antisymm xs ys)

before_trans :
    (xs ys zs : List ℕ) → is_before xs ys ≡ true → is_before ys zs ≡ true → is_before xs zs ≡ true
unfolding is_before
before_trans [] ys zs h k = refl
before_trans (x ∷ xs) [] zs h k = cc
before_trans (x ∷ xs) (y ∷ ys) [] h k = cc
before_trans (x ∷ xs) (y ∷ ys) (z ∷ zs) h k = ground (arith, before_trans xs ys zs)

abbrev least : List ℕ → List ℕ → List ℕ
least xs ys = if is_before xs ys then xs else ys

least_comm : (xs ys : List ℕ) → least xs ys ≡ least ys xs
least_comm xs ys = ground (arith, before_total xs ys, before_antisymm xs ys)

least_left_comm : (xs ys zs : List ℕ) → least xs (least ys zs) ≡ least ys (least xs zs)
least_left_comm xs ys zs = ground (
  arith,
  before_total xs ys,
  before_antisymm xs ys,
  before_total xs zs,
  before_antisymm xs zs,
  before_total ys zs,
  before_antisymm ys zs,
  before_trans xs ys zs,
  before_trans ys xs zs,
  before_trans xs zs ys,
  before_trans ys zs xs,
  before_trans zs xs ys,
  before_trans zs ys xs,
)

smaller_left_comm :
    (xs ys : List ℕ) (rest : Option (List ℕ))
    → smaller xs (some (smaller ys rest)) ≡ smaller ys (some (smaller xs rest))
smaller_left_comm xs ys none = least_comm xs ys
smaller_left_comm xs ys (some zs) = least_left_comm xs ys zs

abbrev add_outpoint : Input → Option (List ℕ) → Option (List ℕ)
add_outpoint input rest =
    if is_coinbase input.previous_output
    then rest
    else some (smaller (serialize_outpoint input) rest)

add_outpoint_left_comm :
    (a b : Input) (rest : Option (List ℕ))
    → add_outpoint a (add_outpoint b rest) ≡ add_outpoint b (add_outpoint a rest)
add_outpoint_left_comm a b rest = elim (Bool-cases (is_coinbase a.previous_output)) [
  | inl ca ↦ rw ca refl
  | inr na ↦ elim (Bool-cases (is_coinbase b.previous_output)) [
    | inl cb ↦ rw (na, cb) refl
    | inr nb ↦
        rw (na, nb) (ap some (smaller_left_comm (serialize_outpoint a) (serialize_outpoint b) rest))
  ]
]

smallest_outpoint-fold : (xs : List Input) → smallest_outpoint xs ≡ fold add_outpoint none xs
unfolding smallest_outpoint
smallest_outpoint-fold [] = refl
smallest_outpoint-fold (x ∷ xs) = ap (add_outpoint x) (smallest_outpoint-fold xs)

pub smallest_outpoint-perm :
    (xs ys : List Input) → Permᴰ xs ys → smallest_outpoint xs ≡ smallest_outpoint ys
smallest_outpoint-perm xs ys p =
    smallest_outpoint-fold xs
    ∙ fold-perm add_outpoint none add_outpoint_left_comm xs ys p
    ∙ sym (smallest_outpoint-fold ys)
