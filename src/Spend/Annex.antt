-- ===== src/Spend/Annex.antt =====
-- stats/src/transaction.rs, `classify_p2tr_spend`: an annex does not change the class.
use bitcoin_data.Base.{
  List, Option, [], ap, arith, bytes_keyed, false, get_elem?, get_or, if◌then◌else◌, length,
  length-append, ltb, none, refl, some, suc, sym, true, zero, ℕ, ◌++◌, ◌-◌, ◌<◌, ◌==◌, ◌∙◌, ◌∷◌,
  ◌≡◌,
}
use mathlib.Core.Option.{none-ne-some}
use bitcoin_data.Spend.{
  SpendClass, is_taproot_annex, stripped_len, classify_at, classify_control, classify_p2tr_spend,
  key_spend,
}

pub last-append : (w : List (List ℕ)) (x : List ℕ) → get_elem? (w ++ x ∷ []) (length w) ≡ some x
last-append [] x = refl
last-append (y ∷ w) x = last-append w x

get_elem?-front :
    (w : List (List ℕ)) (x : List ℕ) (i : ℕ)
    → i < length w
    → get_elem? (w ++ x ∷ []) i ≡ get_elem? w i
get_elem?-front [] x i h = absurd (omega arith)
get_elem?-front (y ∷ w) x zero h = refl
get_elem?-front (y ∷ w) x (suc i) h = get_elem?-front w x i (omega arith)

get_or-front :
    (w : List (List ℕ)) (x : List ℕ) (i : ℕ)
    → i < length w
    → get_or (w ++ x ∷ []) i [] ≡ get_or w i []
get_or-front [] x i h = absurd (omega arith)
get_or-front (y ∷ w) x zero h = refl
get_or-front (y ∷ w) x (suc i) h = get_or-front w x i (omega arith)

stripped_len-annex :
    (w : List (List ℕ)) (x : List ℕ)
    → is_taproot_annex x ≡ true
    → stripped_len (w ++ x ∷ []) ≡ length w
unfolding stripped_len
stripped_len-annex w x a =
    let size : length (w ++ x ∷ []) - 1 ≡ length w = omega (arith, length-append w (x ∷ [])) in
    let here : get_elem? (w ++ x ∷ []) (length (w ++ x ∷ []) - 1) ≡ some x =
      ap (get_elem? (w ++ x ∷ [])) size ∙ last-append w x in
    rw (stripped_len, here, a) size

pub stripped_len-plain :
    (w : List (List ℕ)) (last : List ℕ)
    → get_elem? w (length w - 1) ≡ some last
    → is_taproot_annex last ≡ false
    → stripped_len w ≡ length w
unfolding stripped_len
stripped_len-plain w last l n = rw (stripped_len, l, n) refl

abbrev pick : ℕ → Option (List ℕ) → List ℕ → SpendClass
pick n item script =
    if ltb n 2
    then key_spend
    else elim item [ none ↦ key_spend | some control ↦ classify_control control script ]

classify_at-pick :
    (w : List (List ℕ)) (n : ℕ)
    → classify_at w n ≡ pick n (get_elem? w (n - 1)) (get_or w (n - 2) [])
unfolding classify_at
classify_at-pick w n = refl

classify_at-front :
    (w : List (List ℕ)) (x : List ℕ)
    → 0 < length w
    → classify_at (w ++ x ∷ []) (length w) ≡ classify_at w (length w)
classify_at-front w x p =
    let n = length w in
    classify_at-pick (w ++ x ∷ []) n
    ∙ ap (λ i. pick n i (get_or (w ++ x ∷ []) (n - 2) []))
        (get_elem?-front w x (n - 1) (omega arith))
    ∙ ap (pick n (get_elem? w (n - 1))) (get_or-front w x (n - 2) (omega arith))
    ∙ sym (classify_at-pick w n)

not_empty : (n : ℕ) → 0 < n → (n == 0) ≡ false
not_empty n h = ground arith

classify_p2tr_spend-unfold :
    (w : List (List ℕ))
    → classify_p2tr_spend w ≡ (if length w == 0 then key_spend else classify_at w (stripped_len w))
unfolding classify_p2tr_spend
classify_p2tr_spend-unfold w = refl

pub classify-at :
    (w : List (List ℕ)) (n : ℕ)
    → 0 < length w
    → stripped_len w ≡ n
    → classify_p2tr_spend w ≡ classify_at w n
classify-at w n p e =
    classify_p2tr_spend-unfold w
    ∙ ap (λ b. if b then key_spend else classify_at w (stripped_len w)) (not_empty (length w) p)
    ∙ ap (classify_at w) e

some_items :
    (w : List (List ℕ)) (last : List ℕ) → get_elem? w (length w - 1) ≡ some last → 0 < length w
some_items [] last l = absurd (none-ne-some last l)
some_items (y ∷ w) last l = omega arith

-- Adding an annex to a witness that has none, and at least one item, leaves its class as it is.
pub classify_p2tr_spend-annex :
    (witness : List (List ℕ)) (annex last : List ℕ)
    → is_taproot_annex annex ≡ true
    → get_elem? witness (length witness - 1) ≡ some last
    → is_taproot_annex last ≡ false
    → classify_p2tr_spend (witness ++ annex ∷ []) ≡ classify_p2tr_spend witness
classify_p2tr_spend-annex witness annex last a l n =
    let p = some_items witness last l in
    let longer : 0 < length (witness ++ annex ∷ []) =
      omega (arith, length-append witness (annex ∷ [])) in
    classify-at (witness ++ annex ∷ []) (length witness) longer (stripped_len-annex witness annex a)
    ∙ classify_at-front witness annex p
    ∙ sym (classify-at witness (length witness) p (stripped_len-plain witness last l n))
