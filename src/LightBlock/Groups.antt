-- ===== src/LightBlock/Groups.antt =====
-- light-server/src/index.rs: the outputs of one tweak under a filter.
use bitcoin_data.Base.{
  Bool-cases, List, [], ap, append-nil, append_assoc, arith, bytes_keyed, false, if◌then◌else◌, inl,
  inr, length, lt→ltb, ok, refl, suc, sym, true, ℕ, ◌++◌, ◌+◌, ◌<◌, ◌^◌, ◌∙◌, ◌∷◌, ◌≡◌, ◌≤◌,
}
use bitcoin_data.LightBlock.{StoredOutput, ResponseFilter, should_omit_output}
use bitcoin_data.LightBlock.Response.{keep_group}

-- The keys of the outputs that the filter leaves, in their order.
unfoldable pub kept_keys : ℕ → ResponseFilter → List StoredOutput → List (List ℕ)
kept_keys height filter [] = []
kept_keys height filter (output ∷ outputs) =
    if should_omit_output height output filter
    then kept_keys height filter outputs
    else output.key ∷ kept_keys height filter outputs

module _ (height : ℕ) (filter : ResponseFilter) where
  pub kept_keys-append :
      (os ps : List StoredOutput)
      → kept_keys height filter (os ++ ps)
        ≡ kept_keys height filter os ++ kept_keys height filter ps
  unfolding kept_keys
  kept_keys-append [] ps = refl
  kept_keys-append (o ∷ os) ps = elim (Bool-cases (should_omit_output height o filter)) [
    | inl omit ↦ rw omit (kept_keys-append os ps)
    | inr keep ↦ rw keep (ap (◌∷◌ o.key) (kept_keys-append os ps))
  ]

  pub length-kept_keys : (os : List StoredOutput) → length (kept_keys height filter os) ≤ length os
  unfolding kept_keys
  length-kept_keys [] = omega arith
  length-kept_keys (o ∷ os) = elim (Bool-cases (should_omit_output height o filter)) [
    | inl omit ↦ rw omit (omega (arith, length-kept_keys os))
    | inr keep ↦ rw keep (omega (arith, length-kept_keys os))
  ]

  keep_group-omit :
      (o : StoredOutput) (os : List StoredOutput) (kept : ℕ) (keys : List (List ℕ))
      → should_omit_output height o filter ≡ true
      → keep_group height filter (o ∷ os) kept keys ≡ keep_group height filter os kept keys
  unfolding keep_group
  keep_group-omit o os kept keys omit = rw omit refl

  keep_group-keep :
      (o : StoredOutput) (os : List StoredOutput) (kept : ℕ) (keys : List (List ℕ))
      → should_omit_output height o filter ≡ false
      → kept + 1 < 2 ^ 16
      → keep_group height filter (o ∷ os) kept keys
        ≡ keep_group height filter os (kept + 1) (keys ++ o.key ∷ [])
  unfolding keep_group
  keep_group-keep o os kept keys keep h = rw (keep, lt→ltb (kept + 1) (2 ^ 16) h) refl

  -- The loop counts the outputs that are left and adds their keys.
  pub keep_group-kept_keys :
      (os : List StoredOutput) (kept : ℕ) (keys : List (List ℕ))
      → kept + length os < 2 ^ 16
      → keep_group height filter os kept keys
        ≡ ok (kept + length (kept_keys height filter os), keys ++ kept_keys height filter os)
  unfolding keep_group kept_keys
  keep_group-kept_keys [] kept keys fits =
      let e : kept ≡ kept + 0 = omega arith in
      ap (λ (n : ℕ). ok (n, keys)) e
      ∙ ap (λ (ks : List (List ℕ)). ok (kept + 0, ks)) (sym (append-nil keys))
  keep_group-kept_keys (o ∷ os) kept keys fits =
      elim (Bool-cases (should_omit_output height o filter)) [
        | inl omit ↦
            keep_group-omit o os kept keys omit
            ∙ rw omit (keep_group-kept_keys os kept keys (omega arith))
        | inr keep ↦
            let ks = kept_keys height filter os in
            let n : kept + 1 + length ks ≡ kept + suc (length ks) = omega arith in
            keep_group-keep o os kept keys keep (omega arith)
            ∙ rw keep (
                keep_group-kept_keys os (kept + 1) (keys ++ o.key ∷ []) (omega arith)
                ∙ ap (λ (m : ℕ). ok (m, (keys ++ o.key ∷ []) ++ ks)) n
                ∙ ap (λ (l : List (List ℕ)). ok (kept + suc (length ks), l))
                    (append_assoc keys (o.key ∷ []) ks))
      ]
