-- ===== src/IndexStore/RoundTrip.antt =====
-- light-server/src/index_store.rs: a spend lookup written and read back.
use bitcoin_data.Base.{
  List, [], ap, append_assoc, arith, bytes_keyed, drop, drop-append, length, length-append, ok,
  refl, sym, take, take-append, ℕ, ◌++◌, ◌+◌, ◌-◌, ◌<◌, ◌^◌, ◌∙◌, ◌∷◌, ◌≡◌,
}
use bitcoin_data.Helper.{slice, to_be_bytes, read_u64_be, read_u32_be}
use bitcoin_data.Helper.Endian.{length-to_be_bytes, read_u64_be-to_be, read_u32_be-to_be}
use bitcoin_data.Indexer.{SpendLookup}
use bitcoin_data.IndexStore.{lift, encode_spend_lookup, read_fields, read_spend_lookup}

-- The widths of the source's fields.
pub record IsLookup (s : SpendLookup) : Type 0 where
  pub uid_fits : s.uid < 2 ^ 64
  pub height_fits : s.creation_height < 2 ^ 64
  pub index_fits : s.output_index < 2 ^ 32

-- A slice between two parts of known lengths.
slice-middle :
    (a b c : List ℕ) (i j : ℕ) → length a ≡ i → length b + i ≡ j → slice (a ++ (b ++ c)) i j ≡ b
slice-middle a b c i j p q =
    let n : j - i ≡ length b = omega (arith, q) in
    rw n (
      ap (take (length b)) (ap (λ (k : ℕ). drop k (a ++ (b ++ c))) (sym p) ∙ drop-append a (b ++ c))
      ∙ take-append b c)

read_fields-parts :
    (bytes : List ℕ) (uid height index flags : ℕ)
    → read_u64_be (slice bytes 0 8) ≡ ok uid
    → read_u64_be (slice bytes 8 16) ≡ ok height
    → read_u32_be (slice bytes 16 20) ≡ ok index
    → read_fields bytes flags
      ≡ ok (record { uid = uid; creation_height = height; output_index = index; flags = flags })
unfolding read_fields lift
read_fields-parts bytes uid height index flags e₁ e₂ e₃ = rw (e₁, e₂, e₃) refl

abbrev fields : SpendLookup → List ℕ → List ℕ
fields s tail =
    to_be_bytes 8 s.uid
    ++ (to_be_bytes 8 s.creation_height ++ (to_be_bytes 4 s.output_index ++ tail))

read_fields-fields :
    (s : SpendLookup) (tail : List ℕ) (flags : ℕ)
    → IsLookup s
    → read_fields (fields s tail) flags ≡ ok (record s { flags = flags })
read_fields-fields s tail flags w =
    let u = to_be_bytes 8 s.uid in
    let h = to_be_bytes 8 s.creation_height in
    let i = to_be_bytes 4 s.output_index in
    let lu = length-to_be_bytes 8 s.uid in
    let lh = length-to_be_bytes 8 s.creation_height in
    let li = length-to_be_bytes 4 s.output_index in
    read_fields-parts (fields s tail) s.uid s.creation_height s.output_index flags
      (ap read_u64_be (slice-middle [] u (h ++ (i ++ tail)) 0 8 refl (omega (arith, lu)))
        ∙ read_u64_be-to_be s.uid w.uid_fits)
      (ap read_u64_be (slice-middle u h (i ++ tail) 8 16 lu (omega (arith, lh)))
        ∙ read_u64_be-to_be s.creation_height w.height_fits)
      (ap (λ (b : List ℕ). read_u32_be (slice b 16 20)) (sym (append_assoc u h (i ++ tail)))
        ∙ ap read_u32_be (
            slice-middle (u ++ h) i tail 16 20 (omega (arith, length-append u h, lu, lh))
              (omega (arith, li)))
        ∙ read_u32_be-to_be s.output_index w.index_fits)

-- A spend lookup is read back from its 21 bytes; and without the last of them, which the earlier
-- layout did not have, it is read with no flags.
pub read_spend_lookup-encode :
    (s : SpendLookup)
    → IsLookup s
    → (read_spend_lookup (encode_spend_lookup s) ≡ ok s)
      × (read_spend_lookup (take 20 (encode_spend_lookup s)) ≡ ok (record s { flags = 0 }))
unfolding read_spend_lookup encode_spend_lookup
read_spend_lookup-encode s w =
    (read_fields-fields s (s.flags ∷ []) s.flags w, read_fields-fields s [] 0 w)
