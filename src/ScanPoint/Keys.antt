-- ===== src/ScanPoint/Keys.antt =====
-- light-server/src/sp_tweak.rs: the keys of some inputs, whatever their order.
use bitcoin_data.Base.{
  List, Option, Result, [], ap, bytes_keyed, err, err-ne-ok, inl, inr, none, ok, ok-injective, refl,
  some, subst, sym, ℕ, ◌>>=◌, ◌∙◌, ◌∷◌, ◌≡◌, ◌⊎◌,
}
use mathlib.Core.List.{Permᴰ}
use bitcoin_data.ScanPoint.{Error}
use bitcoin_data.ScanPoint.Compute.{add_key}

abbrev pub KeyResult : Type 0
KeyResult = Result Error (List (List ℕ))

abbrev pub IsErr {ℓ} : {A : Type ℓ} → Result Error A → Type ℓ
IsErr r = (e : Error) × (r ≡ err e)

-- The same keys in any order, or errors.
abbrev pub SameKeys : KeyResult → KeyResult → Type 0
SameKeys r s =
    ((ks : List (List ℕ)) × (ls : List (List ℕ)) × (r ≡ ok ks) × (s ≡ ok ls) × Permᴰ ks ls)
    ⊎ (IsErr r × IsErr s)

abbrev pub join : Result Error (Option (List ℕ)) → KeyResult → KeyResult
join m r = do key ← m; keys ← r; ok (add_key key keys)

add_key-perm :
    (k : Option (List ℕ)) (ks ls : List (List ℕ))
    → Permᴰ ks ls
    → Permᴰ (add_key k ks) (add_key k ls)
add_key-perm none ks ls p = p
add_key-perm (some k) ks ls p = Permᴰ.cons refl p

same_order {ℓ} : {A : Type ℓ} (xs : List A) → Permᴰ xs xs
same_order [] = Permᴰ.nil
same_order (x ∷ xs) = Permᴰ.cons refl (same_order xs)

add_key-swap :
    (k l : Option (List ℕ)) (ks : List (List ℕ))
    → Permᴰ (add_key k (add_key l ks)) (add_key l (add_key k ks))
add_key-swap none l ks = same_order (add_key l ks)
add_key-swap (some k) none ks = same_order (k ∷ ks)
add_key-swap (some k) (some l) ks = Permᴰ.swap refl refl

pub join-cons :
    (m : Result Error (Option (List ℕ))) (r s : KeyResult)
    → SameKeys r s
    → SameKeys (join m r) (join m s)
join-cons (err e) r s h = inr ((e, refl), (e, refl))
join-cons (ok k) r s (inl (ks, ls, p, q, h)) =
    inl (add_key k ks, add_key k ls, ap (join (ok k)) p, ap (join (ok k)) q, add_key-perm k ks ls h)
join-cons (ok k) r s (inr ((e, p), (f, q))) = inr ((e, ap (join (ok k)) p), (f, ap (join (ok k)) q))

pub join-swap :
    (m n : Result Error (Option (List ℕ))) (r : KeyResult)
    → SameKeys (join m (join n r)) (join n (join m r))
join-swap (err e) (err f) r = inr ((e, refl), (f, refl))
join-swap (err e) (ok l) (err g) = inr ((e, refl), (e, refl))
join-swap (err e) (ok l) (ok ks) = inr ((e, refl), (e, refl))
join-swap (ok k) (err f) (err g) = inr ((f, refl), (f, refl))
join-swap (ok k) (err f) (ok ks) = inr ((f, refl), (f, refl))
join-swap (ok k) (ok l) (err g) = inr ((g, refl), (g, refl))
join-swap (ok k) (ok l) (ok ks) =
    inl (add_key k (add_key l ks), add_key l (add_key k ks), refl, refl, add_key-swap k l ks)

pub SameKeys-trans : (r s t : KeyResult) → SameKeys r s → SameKeys s t → SameKeys r t
SameKeys-trans r s t (inl (ks, ls, p, q, h)) (inl (ls', ms, p', q', h')) = inl (
  ks,
  ms,
  p,
  q',
  Permᴰ.trans h (subst (λ (l : List (List ℕ)). Permᴰ l ms) (ok-injective (sym p' ∙ q)) h'),
)
SameKeys-trans r s t (inl (ks, ls, p, q, h)) (inr ((e, p'), f)) = absurd (err-ne-ok (sym p' ∙ q))
SameKeys-trans r s t (inr (f, (e, q))) (inl (ls, ms, p', q', h)) = absurd (err-ne-ok (sym q ∙ p'))
SameKeys-trans r s t (inr (f, g)) (inr (f', g')) = inr (f, g')
