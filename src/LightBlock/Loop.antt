-- ===== src/LightBlock/Loop.antt =====
-- light-server/src/index.rs: all tweaks of a block under a filter.
use bitcoin_data.Base.{
  All, Bool, List, [], ap, append-nil, append_assoc, arith, bytes_keyed, drop, drop-drop, length,
  length-append, ok, refl, subst, suc, sym, take, zero, ℕ, ◌++◌, ◌+◌, ◌-◌, ◌<◌, ◌∙◌, ◌∷◌, ◌≡◌, ◌≤◌,
}
use bitcoin_data.Bitmap.Skipped.{IsBitmap, is_set}
use bitcoin_data.LightBlock.{TweakEntry, StoredOutput, StoredBlock, ResponseFilter}
use bitcoin_data.LightBlock.Validate.{output_total}
use bitcoin_data.LightBlock.Response.{Filtered, filter_tweak, filter_tweaks}
use bitcoin_data.LightBlock.Indexes.{AreOpen}
use bitcoin_data.LightBlock.Groups.{kept_keys, kept_keys-append}
use bitcoin_data.LightBlock.Filtering.{IsPoint, IsSmall, Ran, length-group, step}

take_none {ℓ} : {A : Type ℓ} (k : ℕ) → take {A = A} k [] ≡ []
take_none zero = refl
take_none (suc k) = refl

take_more {ℓ} :
    {A : Type ℓ} (m n : ℕ) (xs : List A) → take (m + n) xs ≡ take m xs ++ take n (drop m xs)
take_more zero n xs = let e : 0 + n ≡ n = omega arith in rw e refl
take_more (suc m) n [] = let e : suc m + n ≡ suc (m + n) = omega arith in rw e (sym (take_none n))
take_more (suc m) n (x ∷ xs) =
    let e : suc m + n ≡ suc (m + n) = omega arith in rw e (ap (◌∷◌ x) (take_more m n xs))

AreOpen-same :
    (f g : ℕ → Bool) (tx_count from low : ℕ) (is : List ℕ)
    → low ≤ from
    → ((j : ℕ) → low ≤ j → j < tx_count → g j ≡ f j)
    → AreOpen f tx_count from is
    → AreOpen g tx_count from is
AreOpen-same f g tx_count from low [] h same a = tt
AreOpen-same f g tx_count from low (i ∷ is) h same a = (
  a.0,
  a.1,
  same i (omega (arith, a.0)) a.1 ∙ a.2,
  AreOpen-same f g tx_count (i + 1) low is (omega (arith, a.0)) same a.3,
)

module _ (block : StoredBlock) (filter : ResponseFilter) where
  Ran-refl :
      (s : Filtered)
      → IsBitmap block.tx_count s.skipped_txs
      → All IsPoint s.tweaks
      → Ran block filter s s 0 []
  unfolding kept_keys
  Ran-refl s accepted points = record {
    accepted = accepted;
    cursor = omega arith;
    keys = sym (append-nil s.keys);
    totals = omega arith;
    entries = omega arith;
    points = points;
  }

  Ran-trans :
      (s s₁ s₂ : Filtered) (n : ℕ) (os ps : List StoredOutput)
      → Ran block filter s s₁ 1 os
      → Ran block filter s₁ s₂ n ps
      → Ran block filter s s₂ (suc n) (os ++ ps)
  Ran-trans s s₁ s₂ n os ps r q =
      let both = kept_keys-append block.height filter os ps in
      let ks = kept_keys block.height filter os in
      let ls = kept_keys block.height filter ps in
      record {
        accepted = q.accepted;
        cursor = omega (arith, r.cursor, q.cursor, length-append os ps);
        keys =
            q.keys
            ∙ ap (λ (k : List (List ℕ)). k ++ ls) r.keys
            ∙ append_assoc s.keys ks ls
            ∙ ap (◌++◌ s.keys) (sym both);
        totals = omega (arith, r.totals, q.totals, ap length both, length-append ks ls);
        entries = omega (arith, r.entries, q.entries);
        points = q.points;
      }

  filter_tweaks-step :
      (tweak : TweakEntry) (tweaks : List TweakEntry) (i : ℕ) (is : List ℕ) (s s' : Filtered)
      → filter_tweak block filter tweak i s ≡ ok s'
      → filter_tweaks block filter (tweak ∷ tweaks) (i ∷ is) s
        ≡ filter_tweaks block filter tweaks is s'
  unfolding filter_tweaks
  filter_tweaks-step tweak tweaks i is s s' e = rw e refl

  unfoldable pub outputs_of : (cursor total : ℕ) → List StoredOutput
  outputs_of cursor total = take total (drop cursor block.outputs)

  outputs_of-more :
      (cursor n total : ℕ)
      → outputs_of cursor (n + total)
        ≡ take (cursor + n - cursor) (drop cursor block.outputs) ++ outputs_of (cursor + n) total
  unfolding outputs_of
  outputs_of-more cursor n total =
      let e : cursor + n - cursor ≡ n = omega arith in
      rw e (
        take_more n total (drop cursor block.outputs)
        ∙ ap (λ (os : List StoredOutput). take n (drop cursor block.outputs) ++ take total os)
            (drop-drop cursor n block.outputs))

  -- The loop succeeds where the tweaks count no more outputs than there are.
  pub filter_tweaks-Ran :
      (tweaks : List TweakEntry) (is : List ℕ) (from : ℕ) (s : Filtered)
      → length is ≡ length tweaks
      → s.cursor + output_total tweaks ≤ length block.outputs
      → All IsSmall tweaks
      → IsBitmap block.tx_count s.skipped_txs
      → AreOpen (is_set s.skipped_txs) block.tx_count from is
      → All IsPoint s.tweaks
      → (s' : Filtered) × (filter_tweaks block filter tweaks is s ≡ ok s')
        × Ran block filter s s' (length tweaks) (outputs_of s.cursor (output_total tweaks))
  unfolding filter_tweaks output_total outputs_of
  filter_tweaks-Ran [] is from s size inside small accepted open_now points =
      (s, refl, Ran-refl s accepted points)
  filter_tweaks-Ran (t ∷ ts) [] from s size inside small accepted open_now points =
      absurd (omega arith)
  filter_tweaks-Ran (t ∷ ts) (i ∷ is) from s size inside small accepted open_now points =
      let (s₁, first, r, same) =
        step block filter s t i (omega arith) small.0.0 accepted points small.0.1 open_now.1
          open_now.2 in
      let start : s₁.cursor ≡ s.cursor + t.output_count =
        omega (arith, r.cursor, length-group block filter s t i (omega arith)) in
      let (s₂, rest, q) =
        filter_tweaks-Ran ts is (i + 1) s₁ (omega arith) (omega (arith, start)) small.1 r.accepted
          (AreOpen-same (is_set s.skipped_txs) (is_set s₁.skipped_txs) block.tx_count (i + 1)
            (i + 1) is (omega arith) same open_now.3)
          r.points in
      let q' =
        subst (λ (c : ℕ). Ran block filter s₁ s₂ (length ts) (outputs_of c (output_total ts))) start
          q in
      (
        s₂,
        filter_tweaks-step t ts i is s s₁ first ∙ rest,
        subst (Ran block filter s s₂ (suc (length ts)))
            (sym (outputs_of-more s.cursor t.output_count (output_total ts)))
            (Ran-trans s s₁ s₂ (length ts) _ _ r q'),
      )
