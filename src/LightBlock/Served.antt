-- ===== src/LightBlock/Served.antt =====
-- light-server/src/index.rs: every request for a servable block is answered.
use bitcoin_data.Base.{
  ==_iff, All, List, [], ap, arith, bytes_keyed, length, ok, ok-injective, refl, subst, suc, sym,
  take, zero, ℕ, ◌+◌, ◌<◌, ◌^◌, ◌∙◌, ◌∷◌, ◌≡◌,
}
use bitcoin_data.Bitmap.{skipped_count}
use bitcoin_data.Bitmap.Skipped.{IsBitmap, is_set}
use bitcoin_data.Bitmap.Count.{ones, opens, length-opens, skipped_count-ones}
use bitcoin_data.SpentIds.{sort, encode_spent_ids, decode_spent_ids}
use bitcoin_data.SpentIds.Sorting.{IsDistinct, length-sort}
use bitcoin_data.SpentIds.RoundTrip.{IsUid, decode_spent_ids-encode}
use bitcoin_data.LightBlock.{
  LightBlockInput, StoredBlock, ResponseFilter, lift_spent, lift_hash, derive_indexes,
}
use bitcoin_data.LightBlock.Hashes.{label_budget, choose_hash_bits, pack_hashes, packed_len}
use bitcoin_data.LightBlock.Hashes.Packed.{IsPacked, pack_hashes-IsPacked}
use bitcoin_data.LightBlock.Validate.{output_total, validate_light_block}
use bitcoin_data.LightBlock.Response.{
  Filtered, respond, filter_tweaks, kept_uids, filtered_response,
}
use bitcoin_data.LightBlock.Indexes.{derive_indexes-opens, opens-AreOpen}
use bitcoin_data.LightBlock.Groups.{kept_keys}
use bitcoin_data.LightBlock.Filtering.{IsSmall, Ran}
use bitcoin_data.LightBlock.Loop.{outputs_of, filter_tweaks-Ran}
use bitcoin_data.LightBlock.Valid.{FitsTotal, IsSound, IsSound-validate, choose_hash_bits-width}
use bitcoin_data.LightBlock.Spends.{uids_of, kept_uids-All, kept_uids-IsDistinct, length-kept_uids}

-- A stored block whose tweaks cover its outputs and its transactions that are not skipped, with
-- distinct spent ids.
pub record IsServable (block : StoredBlock) : Type 0 where
  pub skipped : ℕ
  pub accepted : IsBitmap block.tx_count block.skipped_txs
  pub fits : block.tx_count < 2 ^ 16
  pub counted : skipped_count block.tx_count block.skipped_txs ≡ ok skipped
  pub txs : block.tx_count ≡ skipped + length block.tweaks
  pub covered : output_total block.tweaks ≡ length block.outputs
  pub small : All IsSmall block.tweaks
  pub distinct : IsDistinct (uids_of block.spends)
  pub uids : All IsUid (uids_of block.spends)
  pub few_spends : length block.spends < 2 ^ 32
  pub raw : 0 < block.raw_block_bytes

take_length {ℓ} : {A : Type ℓ} (n : ℕ) (xs : List A) → n ≡ length xs → take n xs ≡ xs
take_length n [] e = let z : n ≡ 0 = omega arith in rw z refl
take_length zero (x ∷ xs) e = absurd (omega arith)
take_length (suc n) (x ∷ xs) e = ap (◌∷◌ x) (take_length n xs (omega arith))

module _ (sha256 : List ℕ → List ℕ) (width : (bytes : List ℕ) → length (sha256 bytes) ≡ 32) where
  -- What a response holds.
  pub record IsServed (block : StoredBlock) (filter : ResponseFilter) (response : LightBlockInput)
      : Type 0 where
    pub counts : output_total response.tweaks ≡ length (kept_keys block.height filter block.outputs)
    pub packed :
        IsPacked sha256
          (kept_keys block.height filter block.outputs)
          response.hash_bits
          response.hashes
    pub spent :
        decode_spent_ids response.spent_count response.spent_ids
        ≡ ok (sort (kept_uids block.height filter block.spends))
    pub valid : validate_light_block response ≡ ok tt

  abbrev start : StoredBlock → Filtered
  start block = record { cursor = 0; keys = []; tweaks = []; skipped_txs = block.skipped_txs }

  filtered_response-run :
      (block : StoredBlock) (filter : ResponseFilter) (indexes : List ℕ) (s : Filtered)
      (spent : ℕ × List ℕ) (bits : ℕ) (hashes : List ℕ)
      → derive_indexes block.tx_count block.skipped_txs (length block.tweaks) ≡ ok indexes
      → filter_tweaks block filter block.tweaks indexes (start block) ≡ ok s
      → s.cursor ≡ length block.outputs
      → encode_spent_ids (kept_uids block.height filter block.spends) ≡ ok spent
      → choose_hash_bits (length s.keys) block.raw_block_bytes (label_budget filter.labels) ≡ bits
      → pack_hashes sha256 s.keys bits ≡ ok hashes
      → validate_light_block (respond block s.skipped_txs s.tweaks bits hashes spent) ≡ ok tt
      → filtered_response sha256 block filter
        ≡ ok (respond block s.skipped_txs s.tweaks bits hashes spent)
  unfolding filtered_response lift_spent lift_hash
  filtered_response-run block filter indexes s spent bits hashes found ran whole packed chosen made
        valid =
      rw (found, ran, (==_iff s.cursor (length block.outputs)).1 whole, packed, chosen, made, valid)
        refl

  module _ (block : StoredBlock) (filter : ResponseFilter) (w : IsServable block) where
    abbrev all_keys : List (List ℕ)
    all_keys = kept_keys block.height filter block.outputs

    skipped-ones : ones (is_set block.skipped_txs) block.tx_count 0 ≡ w.skipped
    skipped-ones = ok-injective (
        sym (skipped_count-ones block.tx_count block.skipped_txs w.accepted.accepted w.fits)
        ∙ w.counted)

    abbrev indexes : List ℕ
    indexes = opens (is_set block.skipped_txs) block.tx_count 0

    ran :
        (s : Filtered) × (filter_tweaks block filter block.tweaks indexes (start block) ≡ ok s)
        × Ran block filter (start block) s (length block.tweaks) block.outputs
    unfolding outputs_of
    ran =
        let size : length indexes ≡ length block.tweaks =
          omega (
            arith,
            length-opens (is_set block.skipped_txs) block.tx_count 0,
            skipped-ones,
            w.txs,
          ) in
        let (s, e, r) =
          filter_tweaks-Ran block filter block.tweaks indexes 0 (start block) size
            (omega (arith, w.covered)) w.small w.accepted
            (opens-AreOpen (is_set block.skipped_txs) block.tx_count block.tx_count 0 (omega arith))
            tt in
        (
          s,
          e,
          subst (Ran block filter (start block) s (length block.tweaks))
              (take_length (output_total block.tweaks) block.outputs w.covered) r,
        )

    spends_packed :
        (bytes : List ℕ) × (encode_spent_ids (kept_uids block.height filter block.spends)
          ≡ ok (length (kept_uids block.height filter block.spends), bytes))
        × (decode_spent_ids (length (kept_uids block.height filter block.spends)) bytes
            ≡ ok (sort (kept_uids block.height filter block.spends)))
    spends_packed =
        let (bytes, e, d, _, _) =
          decode_spent_ids-encode (kept_uids block.height filter block.spends)
            (kept_uids-IsDistinct block.height filter block.spends w.distinct)
            (kept_uids-All block.height filter IsUid block.spends w.uids)
            (omega (arith, length-kept_uids block.height filter block.spends, w.few_spends)) in
        (bytes, e, d)

    found : derive_indexes block.tx_count block.skipped_txs (length block.tweaks) ≡ ok indexes
    found =
        derive_indexes-opens block.tx_count block.skipped_txs (length block.tweaks)
          w.accepted.accepted w.fits (omega (arith, skipped-ones, w.txs))

    total_kept :
        (s : Filtered)
        → Ran block filter (start block) s (length block.tweaks) block.outputs
        → output_total s.tweaks ≡ length s.keys
    unfolding output_total
    total_kept s r = omega (arith, r.totals, ap length r.keys)

    sound :
        (s : Filtered) (r : Ran block filter (start block) s (length block.tweaks) block.outputs)
        (bits : ℕ) (hashes bytes : List ℕ)
        → decode_spent_ids (length (kept_uids block.height filter block.spends)) bytes
          ≡ ok (sort (kept_uids block.height filter block.spends))
        → length hashes ≡ packed_len (length s.keys) bits
        → FitsTotal (length s.keys) bits
        → IsSound (
            respond block s.skipped_txs s.tweaks bits hashes
              (length (kept_uids block.height filter block.spends), bytes))
    unfolding respond
    sound s r bits hashes bytes read sized fitting =
        let total = total_kept s r in
        record {
          skipped = ones (is_set s.skipped_txs) block.tx_count 0;
          uids = sort (kept_uids block.height filter block.spends);
          accepted = r.accepted.accepted;
          counted = skipped_count-ones block.tx_count s.skipped_txs r.accepted.accepted w.fits;
          few = omega (arith, r.entries, skipped-ones, w.txs, w.fits);
          txs = omega (arith, r.entries, skipped-ones, w.txs);
          sized = sized ∙ ap (λ (n : ℕ). packed_len n bits) (sym total);
          width = subst (λ (n : ℕ). FitsTotal n bits) (sym total) fitting;
          points = r.points;
          read = read;
          all_read = length-sort (kept_uids block.height filter block.spends);
        }

    abbrev Answers : Filtered → Type 0
    Answers s =
        (response : LightBlockInput) × (filtered_response sha256 block filter ≡ ok response)
        × IsServed block filter response

    answer :
        (s : Filtered)
        → filter_tweaks block filter block.tweaks indexes (start block) ≡ ok s
        → Ran block filter (start block) s (length block.tweaks) block.outputs
        → Answers s
    unfolding output_total respond
    answer s e r =
        let (bytes, packed, read) = spends_packed in
        let spent : ℕ × List ℕ = (length (kept_uids block.height filter block.spends), bytes) in
        let bits =
          choose_hash_bits (length s.keys) block.raw_block_bytes (label_budget filter.labels) in
        let (below, fitting) =
          choose_hash_bits-width (length s.keys) block.raw_block_bytes (label_budget filter.labels)
            w.raw in
        let (hashes, made, p) = pack_hashes-IsPacked sha256 width s.keys bits below in
        let response = respond block s.skipped_txs s.tweaks bits hashes spent in
        let total = total_kept s r in
        let valid : validate_light_block response ≡ ok tt =
          IsSound-validate response (sound s r bits hashes bytes read p.sized fitting) in
        (
          response,
          filtered_response-run block filter indexes s spent bits hashes found e
              (omega (arith, r.cursor)) packed refl made valid,
          record {
            counts = omega (arith, total, ap length r.keys);
            packed = subst (λ (ks : List (List ℕ)). IsPacked sha256 ks bits hashes) r.keys p;
            spent = read;
            valid = valid;
          },
        )

  -- A filtered request for a servable block is always answered, whatever the filter. The answer
  -- counts and hashes the outputs that the filter leaves, in their order; its stream of spent ids is
  -- read back as those that the filter leaves, in ascending order; and the checks accept it.
  pub filtered_response-IsServed :
      (block : StoredBlock) (filter : ResponseFilter)
      → IsServable block
      → (response : LightBlockInput) × (filtered_response sha256 block filter ≡ ok response)
        × IsServed block filter response
  filtered_response-IsServed block filter w =
      let (s, e, r) = ran block filter w in answer block filter w s e r
