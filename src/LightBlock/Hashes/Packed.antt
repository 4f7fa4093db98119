-- ===== src/LightBlock/Hashes/Packed.antt =====
-- light-server/src/index.rs: the stream that `pack_truncated_output_hash_from_keys` writes.
use bitcoin_data.Base.{
  All, Bool, Bool-cases, List, [], ap, arith, bytes_keyed, false, if◌then◌else◌, inl, inr, length,
  length-append, length-map, length-replicate, length-take, map, ok, refl, replicate, suc, sym,
  take, true, zero, ℕ, ◌%◌, ◌*◌, ◌++◌, ◌+◌, ◌-◌, ◌<◌, ◌==◌, ◌∙◌, ◌∷◌, ◌≡◌, ◌⊎◌,
}
use bitcoin_data.Helper.{IsByte}
use bitcoin_data.Codec.BitIo.Stream.{byte_bits, unpack, length-unpack}
use bitcoin_data.LightBlock.Hashes.{tag_hash, pack_hashes, digest_32, packed_len, pack_digests}
use bitcoin_data.LightBlock.Hashes.Filling.{Fills, IsWide, hash_bits_of, pack_digests-Fills}

unpack-zeros : (n : ℕ) → unpack (replicate n 0) ≡ replicate (n * 8) false
unfolding byte_bits
unpack-zeros zero = refl
unpack-zeros (suc n) =
    let e : suc n * 8 ≡ suc (suc (suc (suc (suc (suc (suc (suc (n * 8)))))))) = omega arith in
    rw e (ap (λ (bs : List Bool). byte_bits 0 ++ bs) (unpack-zeros n))

zeros-IsByte : (n : ℕ) → All IsByte (replicate n 0)
zeros-IsByte zero = tt
zeros-IsByte (suc n) = (omega arith, zeros-IsByte n)

packed_len-cases :
    (n bits : ℕ)
    → ((n == 0) ≡ true) ⊎ ((n == 0) ≡ false)
    → 0 < bits
    → (pad : ℕ) × (pad < 8) × (packed_len n bits * 8 ≡ n * bits + pad)
unfolding packed_len
packed_len-cases n bits (inl none_left) h =
    let e : n ≡ 0 = ground arith in
    (0, omega arith, rw (none_left, e) (let z : 0 * bits ≡ 0 = grind arith in rw z refl))
packed_len-cases n bits (inr several) h =
    let b : (bits == 0) ≡ false = ground arith in
    ((8 - n * bits % 8) % 8, omega arith, rw (several, b) (omega arith))

packed_len-pad :
    (n bits : ℕ) → 0 < bits → (pad : ℕ) × (pad < 8) × (packed_len n bits * 8 ≡ n * bits + pad)
packed_len-pad n bits h = packed_len-cases n bits (Bool-cases (n == 0)) h

length-hash_bits_of :
    (bits : ℕ) (digests : List (List ℕ))
    → All (IsWide bits) digests
    → length (hash_bits_of bits digests) ≡ length digests * bits
length-hash_bits_of bits [] h = grind arith
length-hash_bits_of bits (digest ∷ digests) h =
    let e : suc (length digests) * bits ≡ bits + length digests * bits = grind arith in
    omega (
      arith,
      length-append (take bits (unpack digest)) (hash_bits_of bits digests),
      length-take bits (unpack digest),
      length-unpack digest,
      length-hash_bits_of bits digests h.1,
    )

-- What the packed hashes of some keys are.
pub record IsPacked (sha256 : List ℕ → List ℕ) (keys : List (List ℕ)) (bits : ℕ) (hashes : List ℕ)
    : Type 0 where
  pub pad : ℕ
  pub padding : pad < 8
  pub sized : length hashes ≡ packed_len (length keys) bits
  pub stream :
      unpack hashes
      ≡ hash_bits_of bits (map (digest_32 sha256 tag_hash) keys) ++ replicate pad false

module _ (sha256 : List ℕ → List ℕ) (width : (bytes : List ℕ) → length (sha256 bytes) ≡ 32) where
  digests-IsWide :
      (bits : ℕ) (keys : List (List ℕ))
      → bits < 256
      → All (IsWide bits) (map (digest_32 sha256 tag_hash) keys)
  unfolding digest_32
  digests-IsWide bits [] h = tt
  digests-IsWide bits (key ∷ keys) h =
      (omega (arith, width (tag_hash ++ (tag_hash ++ key))), digests-IsWide bits keys h)

  hash_bits_of-zero :
      (keys : List (List ℕ)) → hash_bits_of 0 (map (digest_32 sha256 tag_hash) keys) ≡ []
  hash_bits_of-zero [] = refl
  hash_bits_of-zero (key ∷ keys) = hash_bits_of-zero keys

  pack_hashes-zero : (keys : List (List ℕ)) → IsPacked sha256 keys 0 []
  unfolding packed_len
  pack_hashes-zero keys = record {
    pad = 0;
    padding = omega arith;
    sized = ground arith;
    stream = rw (hash_bits_of-zero keys) refl;
  }

  pack_hashes-run :
      (keys : List (List ℕ)) (bits : ℕ) (hashes : List ℕ)
      → (bits == 0) ≡ false
      → pack_digests
          (map (digest_32 sha256 tag_hash) keys)
          bits
          0
          (replicate (packed_len (length keys) bits) 0)
        ≡ ok hashes
      → pack_hashes sha256 keys bits ≡ ok hashes
  unfolding pack_hashes
  pack_hashes-run keys bits hashes positive made =
      ap
        (λ (b : Bool).
          if b
          then ok []
          else pack_digests (map (digest_32 sha256 tag_hash) keys) bits 0
              (replicate (packed_len (length keys) bits) 0))
        positive
      ∙ made

  pack_hashes-positive :
      (keys : List (List ℕ)) (bits : ℕ)
      → 0 < bits
      → bits < 256
      → (hashes : List ℕ) × (pack_hashes sha256 keys bits ≡ ok hashes)
        × IsPacked sha256 keys bits hashes
  pack_hashes-positive keys bits h fits =
      let digests = map (digest_32 sha256 tag_hash) keys in
      let size : length digests ≡ length keys = length-map keys (digest_32 sha256 tag_hash) in
      let (pad, padding, total) = packed_len-pad (length keys) bits h in
      let room : packed_len (length keys) bits * 8 ≡ length digests * bits + pad =
        total ∙ ap (λ (n : ℕ). n * bits + pad) (sym size) in
      let wide = digests-IsWide bits keys fits in
      let start : Fills (replicate (packed_len (length keys) bits) 0) []
          (length digests * bits + pad) =
        record {
          stream =
              unpack-zeros (packed_len (length keys) bits) ∙ ap (λ (n : ℕ). replicate n false) room;
          are_bytes = zeros-IsByte (packed_len (length keys) bits);
        } in
      let (hashes, made, f) = pack_digests-Fills digests bits pad _ [] wide start in
      let some_bits : (bits == 0) ≡ false = ground arith in
      (
        hashes,
        pack_hashes-run keys bits hashes some_bits made,
        record {
          pad = pad;
          padding = padding;
          sized = omega (
            arith,
            ap length f.stream,
            length-append (hash_bits_of bits digests) (replicate pad false),
            length-replicate pad false,
            length-unpack hashes,
            length-hash_bits_of bits digests wide,
            room,
          );
          stream = f.stream;
        },
      )

  -- Packing never panics, and the stream holds the first bits of the hash of every key, in their
  -- order, with fewer than eight zero bits behind them; its length is the one that the checks ask.
  pub pack_hashes-IsPacked :
      (keys : List (List ℕ)) (bits : ℕ)
      → bits < 256
      → (hashes : List ℕ) × (pack_hashes sha256 keys bits ≡ ok hashes)
        × IsPacked sha256 keys bits hashes
  unfolding pack_hashes
  pack_hashes-IsPacked keys zero h = ([], refl, pack_hashes-zero keys)
  pack_hashes-IsPacked keys (suc bits) h = pack_hashes-positive keys (suc bits) (omega arith) h
