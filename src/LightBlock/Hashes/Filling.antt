-- ===== src/LightBlock/Hashes/Filling.antt =====
-- light-server/src/index.rs: the loops of `pack_truncated_output_hash_from_keys` fill their bytes.
use bitcoin_data.Base.{
  All, Bool, List, Result, [], ap, append-nil, append_assoc, arith, bit_and_one, bytes_keyed, drop,
  false, get_elem?, get_or, if◌then◌else◌, length, length-append, length-take, ok, refl, replicate,
  some, subst, suc, sym, take, true, zero, ℕ, ◌%◌, ◌*◌, ◌++◌, ◌+◌, ◌-◌, ◌/◌, ◌<◌, ◌==◌, ◌^◌, ◌∙◌,
  ◌∷◌, ◌≡◌, ◌≤◌,
}
use bitcoin_data.Helper.{IsByte}
use bitcoin_data.Codec.BitIo.{Error, or_at}
use bitcoin_data.Codec.BitIo.Stream.{unpack, bit_at, length-unpack, get_elem?-unpack}
use bitcoin_data.Codec.BitIo.SetBit.{or_at-unpack, set_next}
use bitcoin_data.LightBlock.Hashes.{pack_bits, pack_digests}

-- Bytes that hold the bits `done` and room for `n` more.
pub record Fills (out : List ℕ) (done : List Bool) (n : ℕ) : Type 0 where
  pub stream : unpack out ≡ done ++ replicate n false
  pub are_bytes : All IsByte out

Fills-room :
    (out : List ℕ) (done : List Bool) (n : ℕ)
    → Fills out done (suc n)
    → length done < length out * 8
Fills-room out done n f =
    omega
      (arith, length-unpack out, ap length f.stream, length-append done (replicate (suc n) false))

get_elem?-get_or : (xs : List ℕ) (i : ℕ) → i < length xs → get_elem? xs i ≡ some (get_or xs i 0)
get_elem?-get_or [] i h = absurd (omega arith)
get_elem?-get_or (x ∷ xs) zero h = refl
get_elem?-get_or (x ∷ xs) (suc i) h = get_elem?-get_or xs i (omega arith)

drop-at {ℓ} :
    {A : Type ℓ} (xs : List A) (p : ℕ) {x : A}
    → get_elem? xs p ≡ some x
    → drop p xs ≡ x ∷ drop (suc p) xs
drop-at [] p e = absurd (cc)
drop-at (y ∷ xs) zero e = cc
drop-at (y ∷ xs) (suc p) e = drop-at xs p e

-- The step of the loop that writes one bit.
abbrev put_bit : List ℕ → ℕ → ℕ → Result Error (List ℕ)
put_bit out out_bit src =
    if src == 0 then ok out else or_at out (out_bit / 8) (2 ^ (7 - out_bit % 8))

put_bit-Fills :
    (out : List ℕ) (done : List Bool) (n src : ℕ)
    → src < 2
    → Fills out done (suc n)
    → (out' : List ℕ) × (put_bit out (length done) src ≡ ok out')
      × Fills out' (done ++ (src == 1) ∷ []) n
put_bit-Fills out done n zero h f = (
  out,
  refl,
  record {
    stream = f.stream ∙ sym (append_assoc done (false ∷ []) (replicate n false));
    are_bytes = f.are_bytes;
  },
)
put_bit-Fills out done n (suc zero) h f =
    let (out', e, u, a) = or_at-unpack out (length done) (Fills-room out done n f) f.are_bytes in
    (
      out',
      e,
      record {
        stream = u ∙ set_next _ done (length done) false true (replicate n false) f.stream refl;
        are_bytes = a;
      },
    )
put_bit-Fills out done n (suc (suc src)) h f = absurd (omega arith)

pack_bits-step :
    (digest : List ℕ) (n bit out_bit : ℕ) (out out' : List ℕ)
    → bit / 8 < length digest
    → put_bit out out_bit (get_or digest (bit / 8) 0 / 2 ^ (7 - bit % 8) % 2) ≡ ok out'
    → pack_bits digest (suc n) bit out_bit out ≡ pack_bits digest n (bit + 1) (out_bit + 1) out'
unfolding pack_bits
pack_bits-step digest n bit out_bit out out' h e =
    rw
      (
        get_elem?-get_or digest (bit / 8) h,
        bit_and_one (get_or digest (bit / 8) 0 / 2 ^ (7 - bit % 8)),
        e,
      )
      refl

pack_bits-Fills :
    (digest : List ℕ) (n bit room : ℕ) (out : List ℕ) (done : List Bool)
    → bit + n ≤ length digest * 8
    → Fills out done (n + room)
    → (out' : List ℕ) × (pack_bits digest n bit (length done) out ≡ ok out')
      × Fills out' (done ++ take n (drop bit (unpack digest))) room
unfolding pack_bits
pack_bits-Fills digest zero bit room out done h f =
    (out, refl, rw append-nil (let e : 0 + room ≡ room = omega arith in subst (Fills out done) e f))
pack_bits-Fills digest (suc n) bit room out done h f =
    let here = bit_at (get_or digest (bit / 8) 0) (7 - bit % 8) in
    let e : suc n + room ≡ suc (n + room) = omega arith in
    let (out₁, put, f₁) =
      put_bit-Fills out done (n + room) (get_or digest (bit / 8) 0 / 2 ^ (7 - bit % 8) % 2)
        (omega arith) (subst (Fills out done) e f) in
    let next : length (done ++ here ∷ []) ≡ length done + 1 =
      omega (arith, length-append done (here ∷ [])) in
    let (out₂, rest, f₂) =
      pack_bits-Fills digest n (bit + 1) room out₁ (done ++ here ∷ []) (omega arith) f₁ in
    let one : bit + 1 ≡ suc bit = omega arith in
    let ahead : drop bit (unpack digest) ≡ here ∷ drop (bit + 1) (unpack digest) =
      drop-at (unpack digest) bit (get_elem?-unpack digest bit (omega arith))
      ∙ ap (λ (k : ℕ). here ∷ drop k (unpack digest)) (sym one) in
    (
      out₂,
      pack_bits-step digest n bit (length done) out out₁ (omega arith) put
          ∙ ap (λ (k : ℕ). pack_bits digest n (bit + 1) k out₁) (sym next)
          ∙ rest,
      rw ahead (
          subst (λ (bs : List Bool). Fills out₂ bs room)
            (append_assoc done (here ∷ []) (take n (drop (bit + 1) (unpack digest)))) f₂),
    )

-- The first bits of every digest, one after the other.
abbrev pub hash_bits_of : ℕ → List (List ℕ) → List Bool
hash_bits_of bits [] = []
hash_bits_of bits (digest ∷ digests) = take bits (unpack digest) ++ hash_bits_of bits digests

pack_digests-step :
    (digest : List ℕ) (digests : List (List ℕ)) (bits out_bit : ℕ) (out out' : List ℕ)
    → pack_bits digest bits 0 out_bit out ≡ ok out'
    → pack_digests (digest ∷ digests) bits out_bit out
      ≡ pack_digests digests bits (out_bit + bits) out'
unfolding pack_digests
pack_digests-step digest digests bits out_bit out out' e = rw e refl

abbrev pub IsWide : ℕ → List ℕ → Type 0
IsWide bits digest = bits ≤ length digest * 8

pub pack_digests-Fills :
    (digests : List (List ℕ)) (bits room : ℕ) (out : List ℕ) (done : List Bool)
    → All (IsWide bits) digests
    → Fills out done (length digests * bits + room)
    → (out' : List ℕ) × (pack_digests digests bits (length done) out ≡ ok out')
      × Fills out' (done ++ hash_bits_of bits digests) room
unfolding pack_digests
pack_digests-Fills [] bits room out done h f = (
  out,
  refl,
  rw append-nil (let e : 0 * bits + room ≡ room = grind arith in subst (Fills out done) e f),
)
pack_digests-Fills (digest ∷ digests) bits room out done h f =
    let bs = take bits (unpack digest) in
    let e : suc (length digests) * bits + room ≡ bits + (length digests * bits + room) =
      grind arith in
    let (out₁, first, f₁) =
      pack_bits-Fills digest bits 0 (length digests * bits + room) out done (omega (arith, h.0))
        (subst (Fills out done) e f) in
    let next : length (done ++ bs) ≡ length done + bits =
      omega (
        arith,
        length-append done bs,
        length-take bits (unpack digest),
        length-unpack digest,
        h.0,
      ) in
    let (out₂, rest, f₂) = pack_digests-Fills digests bits room out₁ (done ++ bs) h.1 f₁ in
    (
      out₂,
      pack_digests-step digest digests bits (length done) out out₁ first
          ∙ ap (λ (k : ℕ). pack_digests digests bits k out₁) (sym next)
          ∙ rest,
      subst (λ (xs : List Bool). Fills out₂ xs room)
          (append_assoc done bs (hash_bits_of bits digests)) f₂,
    )
