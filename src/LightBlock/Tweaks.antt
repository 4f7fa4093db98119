-- ===== src/LightBlock/Tweaks.antt =====
-- light-server/src/index.rs: the flat bytes of tweak entries.
use bitcoin_data.Base.{
  List, Result, [], bytes_keyed, drop, ensure, length, ok, suc, zero, ℕ, ◌*◌, ◌++◌, ◌+◌, ◌==◌,
  ◌>>=◌, ◌>>◌, ◌∷◌,
}
use bitcoin_data.Helper.{to_le_bytes, from_le_bytes, slice}
use bitcoin_data.LightBlock.{
  Error, TweakEntry, count_bytes_mismatch, tweak_bytes_mismatch, payload_length,
}

-- The x-coordinate of the point.
unfoldable pub tweak_payload : List ℕ → List ℕ
tweak_payload tweak = drop 1 tweak

unfoldable pub tweak_from_payload : List ℕ → Result Error (List ℕ)
tweak_from_payload bytes = do ensure (length bytes == 32) payload_length; ok (0x02 ∷ bytes)

unfoldable pub encode_flat_tweaks : List TweakEntry → List ℕ × List ℕ
unfolding tweak_payload
encode_flat_tweaks [] = ([], [])
encode_flat_tweaks (entry ∷ tweaks) =
    let (counts, payloads) = encode_flat_tweaks tweaks in
    (to_le_bytes 2 entry.output_count ++ counts, tweak_payload entry.tweak ++ payloads)

-- `for i in 0..tweak_count`, from `i` on; the lengths were checked, so the indexes are inside.
unfoldable pub read_tweaks : ℕ → ℕ → List ℕ → List ℕ → Result Error (List TweakEntry)
unfolding tweak_from_payload
read_tweaks zero i output_counts tx_tweaks = ok []
read_tweaks (suc n) i output_counts tx_tweaks = do
  let output_count = from_le_bytes (slice output_counts (i * 2) (i * 2 + 2))
  tweak ← tweak_from_payload (slice tx_tweaks (i * 32) (i * 32 + 32))
  rest ← read_tweaks n (i + 1) output_counts tx_tweaks
  ok (record { output_count = output_count; tweak = tweak } ∷ rest)

unfoldable pub decode_flat_tweaks : ℕ → List ℕ → List ℕ → Result Error (List TweakEntry)
unfolding read_tweaks
decode_flat_tweaks tweak_count output_counts tx_tweaks = do
  ensure (length output_counts == tweak_count * 2) count_bytes_mismatch
  ensure (length tx_tweaks == tweak_count * 32) tweak_bytes_mismatch
  read_tweaks tweak_count 0 output_counts tx_tweaks
