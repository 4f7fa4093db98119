-- ===== src/ScanPoint/Folds.antt =====
-- Folds whose steps commute: they give the same for every order of a list.
use mathlib.Core.Path.{◌≡◌, refl, ap, ◌∙◌}
use mathlib.Core.List.{List, [], ◌∷◌, Permᴰ}

module _ {ℓ κ} {A : Type ℓ} {B : Type κ} (step : A → B → B) (base : B) where
  abbrev pub fold : List A → B
  fold [] = base
  fold (x ∷ xs) = step x (fold xs)

  pub fold-perm :
      ((a b : A) (r : B) → step a (step b r) ≡ step b (step a r))
      → (xs ys : List A) → Permᴰ xs ys
      → fold xs ≡ fold ys
  fold-perm comm xs ys Permᴰ.nil = refl
  fold-perm comm (x ∷ xs) (y ∷ ys) (Permᴰ.cons e p) =
      ap (λ (i : A). step i (fold xs)) e ∙ ap (step y) (fold-perm comm xs ys p)
  fold-perm comm (a ∷ b ∷ xs) (b' ∷ a' ∷ ys) (Permᴰ.swap p q) =
      comm a b (fold xs)
      ∙ ap (λ (i : A). step i (step a (fold xs))) q
      ∙ ap (λ (i : A). step b' (step i (fold xs))) p
  fold-perm comm xs ys (Permᴰ.trans p q) = fold-perm comm xs _ p ∙ fold-perm comm _ ys q
