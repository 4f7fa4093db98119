-- ===== src/Tests/Blocks.antt =====
-- Runs of light-server/src/index.rs: spent ids, hashes, flat tweaks and served blocks.
use bitcoin_data.Base.{
  List, [], arith, bytes_keyed, get_or, length, map, ok, refl, replicate, some, true, ℕ, ◌∷◌, ◌≡◌,
  ◌≢◌,
}
use bitcoin_data.Bitmap.{validate, skipped_count, is_skipped}
use bitcoin_data.SpentIds.{sort, encode_spent_ids, decode_spent_ids}
use bitcoin_data.SpentIds.Sorting.{IsAscending}
use bitcoin_data.SpentIds.RoundTrip.{decode_spent_ids-encode}
use bitcoin_data.LightBlock.{
  TweakEntry, LightBlockInput, StoredBlock, ResponseFilter, flag_reused, unspent,
}
use bitcoin_data.LightBlock.Hashes.{pack_hashes}
use bitcoin_data.LightBlock.Hashes.Packed.{IsPacked, pack_hashes-IsPacked}
use bitcoin_data.LightBlock.Tweaks.{encode_flat_tweaks, decode_flat_tweaks}
use bitcoin_data.LightBlock.Flat.{even_point, decode_flat_tweaks-encode}
use bitcoin_data.LightBlock.Validate.{output_total}
use bitcoin_data.LightBlock.Response.{filtered_response}
use bitcoin_data.LightBlock.Served.{IsServable, IsServed, filtered_response-IsServed}
use mathlib.Core.List.{Perm}

apart : let seven : ℕ = 7 in seven ≢ 3
apart e = absurd (omega arith)

decode_spent_ids-encode_example :
    (bytes : List ℕ) × (encode_spent_ids (7 ∷ 3 ∷ []) ≡ ok (2, bytes))
    × (decode_spent_ids 2 bytes ≡ ok (sort (7 ∷ 3 ∷ [])))
    × Perm (sort (7 ∷ 3 ∷ [])) (7 ∷ 3 ∷ [])
    × IsAscending (sort (7 ∷ 3 ∷ []))
decode_spent_ids-encode_example =
    decode_spent_ids-encode (7 ∷ 3 ∷ []) ((apart, tt), (tt, tt)) (omega arith, (omega arith, tt))
      (omega arith)

-- Stands for SHA-256.
abbrev pub digest : List ℕ → List ℕ
digest bytes = get_or bytes 0 0 ∷ replicate 31 5

digest_width : (bytes : List ℕ) → length (digest bytes) ≡ 32
digest_width bytes = refl

pack_hashes-IsPacked_example :
    (hashes : List ℕ) × (pack_hashes digest ((1 ∷ []) ∷ (2 ∷ []) ∷ []) 11 ≡ ok hashes)
    × IsPacked digest ((1 ∷ []) ∷ (2 ∷ []) ∷ []) 11 hashes
pack_hashes-IsPacked_example =
    pack_hashes-IsPacked digest digest_width ((1 ∷ []) ∷ (2 ∷ []) ∷ []) 11 (omega arith)

abbrev a_tweak : ℕ → TweakEntry
a_tweak n = record { output_count = n; tweak = 3 ∷ replicate 32 n }

decode_flat_tweaks-encode_example :
    decode_flat_tweaks 2
      (encode_flat_tweaks (a_tweak 1 ∷ a_tweak 300 ∷ [])).0
      (encode_flat_tweaks (a_tweak 1 ∷ a_tweak 300 ∷ [])).1
    ≡ ok (map even_point (a_tweak 1 ∷ a_tweak 300 ∷ []))
decode_flat_tweaks-encode_example =
    decode_flat_tweaks-encode (a_tweak 1 ∷ a_tweak 300 ∷ [])
      ((omega arith, refl), ((omega arith, refl), tt))

abbrev a_block : StoredBlock
a_block = record {
  height = 900;
  block_hash = replicate 32 1;
  previous_block_hash = replicate 32 2;
  first_uid = 40;
  tx_count = 3;
  skipped_txs = 2 ∷ [];
  tweaks = a_tweak 1 ∷ a_tweak 2 ∷ [];
  skipped_outputs = [];
  outputs =
      record { key = replicate 32 1; spent_height = unspent; flags = flag_reused }
      ∷ record { key = replicate 32 2; spent_height = 950; flags = 0 }
      ∷ record { key = replicate 32 3; spent_height = unspent; flags = 0 }
      ∷ [];
  spends =
      record { spent_uid = 7; creation_height = 100 }
      ∷ record { spent_uid = 3; creation_height = 890 }
      ∷ [];
  raw_block_bytes = 1000;
  hashes_two_labels = [];
  hashes_hundred_labels = [];
}

abbrev a_filter : ResponseFilter
a_filter = record {
  cutthrough_start = some 800;
  cutthrough_tip = some 1000;
  filter_reuse = true;
  labels = some 5;
}

a_block-IsServable : IsServable a_block
unfolding validate skipped_count is_skipped output_total
a_block-IsServable = record {
  skipped = 1;
  accepted = record { accepted = refl; bytes = (omega arith, tt) };
  fits = omega arith;
  counted = refl;
  txs = refl;
  covered = refl;
  small = ((omega arith, refl), ((omega arith, refl), tt));
  distinct = ((apart, tt), (tt, tt));
  uids = (omega arith, (omega arith, tt));
  few_spends = omega arith;
  raw = omega arith;
}

filtered_response-IsServed_example :
    (response : LightBlockInput) × (filtered_response digest a_block a_filter ≡ ok response)
    × IsServed digest digest_width a_block a_filter response
filtered_response-IsServed_example =
    filtered_response-IsServed digest digest_width a_block a_filter a_block-IsServable
