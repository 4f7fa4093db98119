-- ===== src/SpentIds/Sorting.antt =====
-- light-server/src/index.rs: what `sort_unstable` gives for ids.
use bitcoin_data.Base.{
  All, Bool-cases, List, [], ap, arith, bytes_keyed, false, inl, inr, leb, length, refl, suc, true,
  ℕ, ◌<◌, ◌∙◌, ◌∷◌, ◌≡◌, ◌≢◌,
}
use mathlib.Core.List.{Perm}
use mathlib.Core.List.Perm
use bitcoin_data.SpentIds.{insert_sorted, sort}

-- No id stands twice in the list.
abbrev pub IsDistinct : List ℕ → Type 0
IsDistinct [] = Unit {0}
IsDistinct (x ∷ xs) = All (λ (y : ℕ). x ≢ y) xs × IsDistinct xs

-- Every id is above the one before it, the first above `p`.
abbrev pub Rises : ℕ → List ℕ → Type 0
Rises p [] = Unit {0}
Rises p (x ∷ xs) = (p < x) × Rises x xs

abbrev pub IsAscending : List ℕ → Type 0
IsAscending [] = Unit {0}
IsAscending (x ∷ xs) = Rises x xs

pub length-insert_sorted : (x : ℕ) (xs : List ℕ) → length (insert_sorted x xs) ≡ suc (length xs)
unfolding insert_sorted
length-insert_sorted x [] = refl
length-insert_sorted x (y ∷ ys) = elim (Bool-cases (leb x y)) [
  | inl low ↦ rw low refl
  | inr high ↦ rw high (ap suc (length-insert_sorted x ys))
]

pub length-sort : (xs : List ℕ) → length (sort xs) ≡ length xs
unfolding sort
length-sort [] = refl
length-sort (x ∷ xs) = length-insert_sorted x (sort xs) ∙ ap suc (length-sort xs)

All-insert_sorted {ℓ} :
    (P : ℕ → Type ℓ) (x : ℕ) (xs : List ℕ) → P x → All P xs → All P (insert_sorted x xs)
unfolding insert_sorted
All-insert_sorted P x [] p h = (p, h)
All-insert_sorted P x (y ∷ ys) p h = elim (Bool-cases (leb x y)) [
  | inl low ↦ rw low (p, h)
  | inr high ↦ rw high (h.0, All-insert_sorted P x ys p h.1)
]

pub All-sort {ℓ} : (P : ℕ → Type ℓ) (xs : List ℕ) → All P xs → All P (sort xs)
unfolding sort
All-sort P [] h = h
All-sort P (x ∷ xs) h = All-insert_sorted P x (sort xs) h.0 (All-sort P xs h.1)

insert_sorted-perm : (x : ℕ) (xs : List ℕ) → Perm (insert_sorted x xs) (x ∷ xs)
unfolding insert_sorted
insert_sorted-perm x [] = Perm.refl (x ∷ [])
insert_sorted-perm x (y ∷ ys) = elim (Bool-cases (leb x y)) [
  | inl low ↦ rw low (Perm.refl (x ∷ y ∷ ys))
  | inr high ↦ rw high (Perm.trans (Perm.cons y (insert_sorted-perm x ys)) (Perm.swap x y ys))
]

pub sort-perm : (xs : List ℕ) → Perm (sort xs) xs
unfolding sort
sort-perm [] = Perm.refl []
sort-perm (x ∷ xs) = Perm.trans (insert_sorted-perm x (sort xs)) (Perm.cons x (sort-perm xs))

above : (x y : ℕ) → leb x y ≡ false → y < x
above x y h = ground arith

below_of : (x y : ℕ) → leb x y ≡ true → x ≢ y → x < y
below_of x y h n = ground arith

insert_sorted-Rises :
    (p x : ℕ) (xs : List ℕ)
    → p < x
    → All (λ (y : ℕ). x ≢ y) xs
    → Rises p xs
    → Rises p (insert_sorted x xs)
unfolding insert_sorted
insert_sorted-Rises p x [] h n r = (h, tt)
insert_sorted-Rises p x (y ∷ ys) h n r = elim (Bool-cases (leb x y)) [
  | inl low ↦ rw low (h, (below_of x y low n.0, r.1))
  | inr high ↦ rw high (r.0, insert_sorted-Rises y x ys (above x y high) n.1 r.1)
]

insert_sorted-IsAscending :
    (x : ℕ) (xs : List ℕ)
    → All (λ (y : ℕ). x ≢ y) xs
    → IsAscending xs
    → IsAscending (insert_sorted x xs)
unfolding insert_sorted
insert_sorted-IsAscending x [] n r = tt
insert_sorted-IsAscending x (y ∷ ys) n r = elim (Bool-cases (leb x y)) [
  | inl low ↦ rw low (below_of x y low n.0, r)
  | inr high ↦ rw high (insert_sorted-Rises y x ys (above x y high) n.1 r)
]

pub sort-IsAscending : (xs : List ℕ) → IsDistinct xs → IsAscending (sort xs)
unfolding sort
sort-IsAscending [] h = tt
sort-IsAscending (x ∷ xs) h =
    insert_sorted-IsAscending x (sort xs) (All-sort (λ (y : ℕ). x ≢ y) xs h.0)
      (sort-IsAscending xs h.1)
