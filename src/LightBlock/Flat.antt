-- ===== src/LightBlock/Flat.antt =====
-- light-server/src/index.rs: tweak entries read back from their flat bytes.
use bitcoin_data.Base.{
  ==_iff, All, List, [], ap, arith, bytes_keyed, drop, drop-drop, drop_prefix, length,
  length-append, length-drop, map, ok, refl, suc, sym, take_prefix, ℕ, ◌*◌, ◌++◌, ◌+◌, ◌-◌, ◌<◌,
  ◌^◌, ◌∙◌, ◌∷◌, ◌≡◌,
}
use bitcoin_data.Helper.{to_le_bytes, from_le_bytes, slice}
use bitcoin_data.LightBlock.{TweakEntry}
use bitcoin_data.LightBlock.Tweaks.{
  tweak_payload, encode_flat_tweaks, read_tweaks, decode_flat_tweaks, tweak_from_payload,
}
use bitcoin_data.LightBlock.Filtering.{IsSmall}

-- The entry with the even point of its x-coordinate.
abbrev pub even_point : TweakEntry → TweakEntry
even_point entry = record entry { tweak = 0x02 ∷ drop 1 entry.tweak }

flat_lengths :
    (tweaks : List TweakEntry)
    → All IsSmall tweaks
    → (length (encode_flat_tweaks tweaks).0 ≡ length tweaks * 2)
      × (length (encode_flat_tweaks tweaks).1 ≡ length tweaks * 32)
unfolding encode_flat_tweaks tweak_payload
flat_lengths [] h = (omega arith, omega arith)
flat_lengths (t ∷ ts) h =
    let (a, b) = flat_lengths ts h.1 in
    (
      omega (arith, a),
      omega (
        arith,
        b,
        length-append (drop 1 t.tweak) (encode_flat_tweaks ts).1,
        length-drop 1 t.tweak,
        h.0.1,
      ),
    )

two_bytes : (v : ℕ) → v < 2 ^ 16 → from_le_bytes (to_le_bytes 2 v) ≡ v
two_bytes v h = omega arith

take_front {ℓ} :
    {A : Type ℓ} (i n : ℕ) (xs front rest : List A)
    → drop i xs ≡ front ++ rest
    → length front ≡ n
    → slice xs i (i + n) ≡ front
take_front i n xs front rest e l =
    let d : i + n - i ≡ n = omega arith in rw (d, e) (take_prefix n front rest l)

drop_front {ℓ} :
    {A : Type ℓ} (i n j : ℕ) (xs front rest : List A)
    → drop i xs ≡ front ++ rest
    → length front ≡ n
    → i + n ≡ j
    → drop j xs ≡ rest
drop_front i n j xs front rest e l s =
    ap (λ (k : ℕ). drop k xs) (sym s)
    ∙ sym (drop-drop i n xs)
    ∙ ap (drop n) e
    ∙ drop_prefix n front rest l

read_tweaks-step :
    (n i count : ℕ) (counts payloads payload : List ℕ) (rest : List TweakEntry)
    → from_le_bytes (slice counts (i * 2) (i * 2 + 2)) ≡ count
    → slice payloads (i * 32) (i * 32 + 32) ≡ payload
    → length payload ≡ 32
    → read_tweaks n (i + 1) counts payloads ≡ ok rest
    → read_tweaks (suc n) i counts payloads
      ≡ ok (record { output_count = count; tweak = 0x02 ∷ payload } ∷ rest)
unfolding read_tweaks tweak_from_payload
read_tweaks-step n i count counts payloads payload rest c p size e =
    rw (c, p, (==_iff (length payload) 32).1 size, e) refl

read_tweaks-encode :
    (tweaks : List TweakEntry) (i : ℕ) (counts payloads : List ℕ)
    → All IsSmall tweaks
    → drop (i * 2) counts ≡ (encode_flat_tweaks tweaks).0
    → drop (i * 32) payloads ≡ (encode_flat_tweaks tweaks).1
    → read_tweaks (length tweaks) i counts payloads ≡ ok (map even_point tweaks)
unfolding encode_flat_tweaks read_tweaks tweak_payload
read_tweaks-encode [] i counts payloads h c p = refl
read_tweaks-encode (t ∷ ts) i counts payloads h c p =
    let size : length (drop 1 t.tweak) ≡ 32 = omega (arith, length-drop 1 t.tweak, h.0.1) in
    let front = to_le_bytes 2 t.output_count in
    read_tweaks-step (length ts) i t.output_count counts payloads (drop 1 t.tweak)
      (map even_point ts)
      (ap from_le_bytes (take_front (i * 2) 2 counts front (encode_flat_tweaks ts).0 c refl)
        ∙ two_bytes t.output_count h.0.0)
      (take_front (i * 32) 32 payloads (drop 1 t.tweak) (encode_flat_tweaks ts).1 p size) size
      (read_tweaks-encode ts (i + 1) counts payloads h.1
        (drop_front (i * 2) 2 ((i + 1) * 2) counts front (encode_flat_tweaks ts).0 c refl
          (omega arith))
        (drop_front (i * 32) 32 ((i + 1) * 32) payloads (drop 1 t.tweak) (encode_flat_tweaks ts).1 p
          size (omega arith)))

-- Entries with 16-bit counts and compressed points are read back from their flat bytes with the
-- same counts and x-coordinates; the parity of a point is not kept.
pub decode_flat_tweaks-encode :
    (tweaks : List TweakEntry)
    → All IsSmall tweaks
    → let (counts, payloads) = encode_flat_tweaks tweaks in
      decode_flat_tweaks (length tweaks) counts payloads ≡ ok (map even_point tweaks)
unfolding decode_flat_tweaks
decode_flat_tweaks-encode tweaks h =
    let (a, b) = flat_lengths tweaks h in
    rw
      (
        (==_iff (length (encode_flat_tweaks tweaks).0) (length tweaks * 2)).1 a,
        (==_iff (length (encode_flat_tweaks tweaks).1) (length tweaks * 32)).1 b,
      )
      (read_tweaks-encode tweaks 0 (encode_flat_tweaks tweaks).0 (encode_flat_tweaks tweaks).1 h
        refl refl)
