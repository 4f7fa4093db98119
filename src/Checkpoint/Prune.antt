-- ===== src/Checkpoint/Prune.antt =====
-- stats/src/checkpoint.rs, `prune_checkpoints`: what is kept.
use bitcoin_data.Base.{
  Bool-cases, List, [], ap, arith, bytes_keyed, drop, drop-append, false, if◌then◌else◌, inl, inr,
  leb, leb→le, length, length-drop, refl, suc, sym, take, take-append-drop, zero, ℕ, ◌++◌, ◌-◌,
  ◌==◌, ◌∙◌, ◌∷◌, ◌≡◌, ◌≤◌,
}
use mathlib.Core.List.{reverse, reverse-reverse, reverse-append}
use bitcoin_data.Helper.Endian.{length-reverse}
use bitcoin_data.Checkpoint.{prune_checkpoints}

beyond : (a n : ℕ) → leb a n ≡ false → n ≤ a
beyond a n h = ground arith

module _ {ℓ} {A : Type ℓ} where
  take_all : (n : ℕ) (xs : List A) → length xs ≤ n → take n xs ≡ xs
  take_all zero [] h = refl
  take_all zero (x ∷ xs) h = absurd (omega arith)
  take_all (suc n) [] h = refl
  take_all (suc n) (x ∷ xs) h = ap (◌∷◌ x) (take_all n xs (omega arith))

  drop_older :
      (n : ℕ) (xs : List A)
      → n ≤ length xs
      → reverse (drop (length xs - n) (reverse xs)) ≡ take n xs
  drop_older n xs h =
      let split : reverse xs ≡ reverse (drop n xs) ++ reverse (take n xs) =
        ap reverse (sym (take-append-drop n xs)) ∙ reverse-append (take n xs) (drop n xs) in
      let size : length xs - n ≡ length (reverse (drop n xs)) =
        sym (length-reverse (drop n xs) ∙ length-drop n xs) in
      ap reverse (
        ap (drop (length xs - n)) split
        ∙ ap (λ (k : ℕ). drop k (reverse (drop n xs) ++ reverse (take n xs))) size
        ∙ drop-append (reverse (drop n xs)) (reverse (take n xs)))
      ∙ reverse-reverse (take n xs)

  -- A positive limit keeps the newest checkpoints up to that number, in their order, and a limit of
  -- zero keeps all of them.
  pub prune_checkpoints-take :
      (checkpoints : List A) (keep : ℕ)
      → prune_checkpoints checkpoints keep
        ≡ (if keep == 0 then checkpoints else take keep checkpoints)
  unfolding prune_checkpoints
  prune_checkpoints-take checkpoints keep = elim (Bool-cases (keep == 0)) [
    | inl all ↦ rw all refl
    | inr some_limit ↦ elim (Bool-cases (leb (length checkpoints) keep)) [
      | inl short ↦
          rw (some_limit, short)
            (sym (take_all keep checkpoints (leb→le (length checkpoints) keep short)))
      | inr long ↦
          rw (some_limit, long)
            (drop_older keep checkpoints (beyond (length checkpoints) keep long))
    ]
  ]
