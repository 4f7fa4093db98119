-- ===== src/LightBlock/Filtering.antt =====
-- light-server/src/index.rs: the loop of `to_filtered_response_input` over the tweaks of a block.
use bitcoin_data.Base.{
  All, All-append, Bool, Bool-cases, List, [], ap, arith, bytes_keyed, drop, false, if◌then◌else◌,
  inl, inr, leb, length, length-append, length-drop, length-take, le→leb, ltb, ok, refl, true, ℕ,
  ◌++◌, ◌+◌, ◌-◌, ◌<◌, ◌==◌, ◌^◌, ◌∙◌, ◌∷◌, ◌≡◌, ◌≤◌,
}
use bitcoin_data.Helper.{slice}
use bitcoin_data.Bitmap.{set_skipped}
use bitcoin_data.Bitmap.Skipped.{IsBitmap, is_set}
use bitcoin_data.Bitmap.Count.{ones, Differs, set_skipped-IsMarked}
use bitcoin_data.LightBlock.{TweakEntry, StoredOutput, StoredBlock, ResponseFilter, lift_bitmap}
use bitcoin_data.LightBlock.Validate.{output_total}
use bitcoin_data.LightBlock.Response.{Filtered, keep_group, filter_tweak}
use bitcoin_data.LightBlock.Groups.{kept_keys, keep_group-kept_keys}

-- A compressed point.
abbrev pub IsPoint : TweakEntry → Type 0
IsPoint entry = length entry.tweak ≡ 33

-- An entry with a 16-bit count.
abbrev pub IsSmall : TweakEntry → Type 0
IsSmall entry = (entry.output_count < 2 ^ 16) × IsPoint entry

output_total-append :
    (ts : List TweakEntry) (e : TweakEntry)
    → output_total (ts ++ e ∷ []) ≡ output_total ts + e.output_count
unfolding output_total
output_total-append [] e = omega arith
output_total-append (t ∷ ts) e = omega (arith, output_total-append ts e)

apart : (i j : ℕ) → i + 1 ≤ j → (i == j) ≡ false
apart i j h = ground arith

module _ (block : StoredBlock) (filter : ResponseFilter) where
  abbrev pub marked_count : List ℕ → ℕ
  marked_count bitmap = ones (is_set bitmap) block.tx_count 0

  -- What the loop has done between `s` and `s'` with `n` tweaks and the outputs `os`.
  pub record Ran (s s' : Filtered) (n : ℕ) (os : List StoredOutput) : Type 0 where
    pub accepted : IsBitmap block.tx_count s'.skipped_txs
    pub cursor : s'.cursor ≡ s.cursor + length os
    pub keys : s'.keys ≡ s.keys ++ kept_keys block.height filter os
    pub totals :
        output_total s'.tweaks ≡ output_total s.tweaks + length (kept_keys block.height filter os)
    pub entries :
        length s'.tweaks + marked_count s'.skipped_txs
        ≡ length s.tweaks + marked_count s.skipped_txs + n
    pub points : All IsPoint s'.tweaks

  module _ (s : Filtered) (tweak : TweakEntry) (i : ℕ) where
    abbrev pub group : List StoredOutput
    group = slice block.outputs s.cursor (s.cursor + tweak.output_count)

    abbrev kept : List (List ℕ)
    kept = kept_keys block.height filter group

    abbrev entry : TweakEntry
    entry = record { output_count = 0 + length kept; tweak = tweak.tweak }

    abbrev after_keep : Filtered
    after_keep = record s {
      cursor = s.cursor + tweak.output_count;
      keys = s.keys ++ kept;
      tweaks = s.tweaks ++ entry ∷ [];
    }

    abbrev after_drop : List ℕ → Filtered
    after_drop marked = record s {
      cursor = s.cursor + tweak.output_count;
      keys = s.keys ++ kept;
      skipped_txs = marked;
    }

    filter_tweak-keep :
        leb (s.cursor + tweak.output_count) (length block.outputs) ≡ true
        → keep_group block.height filter group 0 s.keys ≡ ok (0 + length kept, s.keys ++ kept)
        → ltb 0 (0 + length kept) ≡ true
        → filter_tweak block filter tweak i s ≡ ok after_keep
    unfolding filter_tweak
    filter_tweak-keep inside made some_kept = rw (inside, made, some_kept) refl

    filter_tweak-drop :
        (marked : List ℕ)
        → leb (s.cursor + tweak.output_count) (length block.outputs) ≡ true
        → keep_group block.height filter group 0 s.keys ≡ ok (0 + length kept, s.keys ++ kept)
        → ltb 0 (0 + length kept) ≡ false
        → set_skipped block.tx_count s.skipped_txs i ≡ ok marked
        → filter_tweak block filter tweak i s ≡ ok (after_drop marked)
    unfolding filter_tweak lift_bitmap
    filter_tweak-drop marked inside made none_kept set_now =
        rw (inside, made, none_kept, set_now) refl

    pub length-group :
        s.cursor + tweak.output_count ≤ length block.outputs → length group ≡ tweak.output_count
    length-group h = omega (
      arith,
      length-take (s.cursor + tweak.output_count - s.cursor) (drop s.cursor block.outputs),
      length-drop s.cursor block.outputs,
    )

    -- One tweak: the step succeeds, and leaves the later transactions as they are.
    abbrev pub Steps : Type 0
    Steps =
        (s' : Filtered) × (filter_tweak block filter tweak i s ≡ ok s')
        × Ran s s' 1 group
        × ((j : ℕ)
            → i + 1 ≤ j
            → j < block.tx_count
            → is_set s'.skipped_txs j ≡ is_set s.skipped_txs j)

    module _ (inside : s.cursor + tweak.output_count ≤ length block.outputs)
        (fits : tweak.output_count < 2 ^ 16) (accepted : IsBitmap block.tx_count s.skipped_txs)
        (points : All IsPoint s.tweaks) (point : IsPoint tweak) where
      grouped : keep_group block.height filter group 0 s.keys ≡ ok (0 + length kept, s.keys ++ kept)
      grouped =
          keep_group-kept_keys block.height filter group 0 s.keys
            (omega (arith, length-group inside))

      step-keep : ltb 0 (0 + length kept) ≡ true → Steps
      step-keep some_kept = (
        after_keep,
        filter_tweak-keep (le→leb _ _ inside) grouped some_kept,
        record {
          accepted = accepted;
          cursor = omega (arith, length-group inside);
          keys = refl;
          totals = omega (arith, output_total-append s.tweaks entry);
          entries = omega (arith, length-append s.tweaks (entry ∷ []));
          points = All-append IsPoint s.tweaks (entry ∷ []) points (point, tt);
        },
        λ j h k. refl,
      )

      step-drop :
          i < block.tx_count
          → is_set s.skipped_txs i ≡ false
          → ltb 0 (0 + length kept) ≡ false
          → Steps
      unfolding Differs
      step-drop below free none_kept =
          let (marked, m) =
            set_skipped-IsMarked block.tx_count s.skipped_txs i accepted below free in
          (
            after_drop marked,
            filter_tweak-drop marked (le→leb _ _ inside) grouped none_kept m.made,
            record {
              accepted = m.accepted;
              cursor = omega (arith, length-group inside);
              keys = refl;
              totals = ground arith;
              entries = omega (arith, m.counted);
              points = points;
            },
            λ j h k.
                m.differs j k
                ∙ ap (λ (b : Bool). if b then true else is_set s.skipped_txs j) (apart i j h),
          )

      pub step : i < block.tx_count → is_set s.skipped_txs i ≡ false → Steps
      step below free = elim (Bool-cases (ltb 0 (0 + length kept))) [
        | inl some_kept ↦ step-keep some_kept
        | inr none_kept ↦ step-drop below free none_kept
      ]
