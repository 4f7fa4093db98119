-- ===== src/Codec/EliasDelta/Decode.antt =====
-- light-server/src/codec/elias_delta.rs: the decoder on one code word.
use bitcoin_data.Base.{
  Bool, List, Result, ap, append_assoc, arith, bit_or, bit_or_top, bytes_keyed, false, le→leb,
  lt→ltb, ok, refl, replicate, suc, sym, true, zero, ℕ, ◌*◌, ◌++◌, ◌+◌, ◌-◌, ◌/◌, ◌<◌, ◌^◌, ◌∙◌,
  ◌∷◌, ◌≡◌, ◌≤◌,
}
use bitcoin_data.Codec.BitIo.{BitReader, Error}
use bitcoin_data.Codec.BitIo.Stream.{bits_of, bit_at}
use bitcoin_data.Codec.BitIo.Read.{quotient, ahead, advance, read_bit-cons, read_bits-bits_of}
use bitcoin_data.Codec.EliasDelta.{read_prefix, read_length, read_tail, decode_one}
use bitcoin_data.Codec.EliasDelta.Code.{Shape, code_word}

-- A step of the decoder that returns `a` and leaves `rest` ahead.
abbrev pub Gives : Result Error (ℕ × BitReader) → ℕ → List Bool → Type 0
Gives o a rest = (r : BitReader) × (o ≡ ok (a, r)) × (ahead r ≡ rest)

read_prefix_step :
    (fuel n : ℕ) (r : BitReader) (xs : List Bool)
    → ahead r ≡ false ∷ xs
    → n + 1 ≤ 63
    → read_prefix (suc fuel) n r ≡ read_prefix fuel (n + 1) (advance r 1)
unfolding read_prefix
read_prefix_step fuel n r xs e h =
    rw ((read_bit-cons r false xs e).0, read_prefix, le→leb (n + 1) 63 h)

read_prefix_end :
    (fuel n : ℕ) (r : BitReader) (xs : List Bool)
    → ahead r ≡ true ∷ xs
    → Gives (read_prefix (suc fuel) n r) n xs
unfolding read_prefix
read_prefix_end fuel n r xs e =
    let (got, left) = read_bit-cons r true xs e in (advance r 1, rw (got, read_prefix), left)

read_prefix-zeros :
    (j fuel n m : ℕ) (r : BitReader) (xs : List Bool)
    → ahead r ≡ replicate j false ++ true ∷ xs
    → n + j ≡ m
    → m ≤ 63
    → j < fuel
    → Gives (read_prefix fuel n r) m xs
read_prefix-zeros j zero n m r xs e s h f = absurd (omega arith)
read_prefix-zeros zero (suc fuel) n m r xs e s h f =
    let e' : n ≡ m = omega arith in rw (← e') (read_prefix_end fuel n r xs e)
read_prefix-zeros (suc j) (suc fuel) n m r xs e s h f =
    let tail = replicate j false ++ true ∷ xs in
    rw (read_prefix_step fuel n r tail e (omega arith)) (
      read_prefix-zeros j fuel (n + 1) m (advance r 1) xs (read_bit-cons r false tail e).1
        (omega arith) h (omega arith))

read_length-bits_of :
    (j n s : ℕ) (r : BitReader) (rest : List Bool)
    → ahead r ≡ bits_of j n ++ rest
    → n ≡ 2 ^ j + s
    → s < 2 ^ j
    → n ≤ 64
    → Gives (read_length j r) n rest
unfolding read_length
read_length-bits_of zero n s r rest e w h f = (r, ground arith, e)
read_length-bits_of (suc j) n s r rest e w h f =
    let (r', got, left) = read_bits-bits_of (suc j) r n 1 s rest e (omega arith) h (omega arith) in
    (
      r',
      rw (got, lt→ltb 0 (suc j) (omega arith))
          (ap (λ (x : ℕ). ok (x, r')) (bit_or_top (suc j) s h ∙ sym w)),
      left,
    )

read_tail-bits_of :
    (k t : ℕ) (r : BitReader) (rest : List Bool)
    → ahead r ≡ bits_of k t ++ rest
    → t < 2 ^ k
    → k < 64
    → t < 2 ^ 64
    → Gives (read_tail k r) t rest
unfolding read_tail
read_tail-bits_of zero t r rest e h w f = (r, ground arith, e)
read_tail-bits_of (suc k) t r rest e h w f =
    let (r', got, left) = read_bits-bits_of (suc k) r t 0 t rest e (omega arith) h f in
    (r', rw got (ground arith), left)

decode_one_steps :
    (r r₁ r₂ r₃ : BitReader) (j n k t v : ℕ)
    → read_prefix 64 0 r ≡ ok (j, r₁)
    → read_length j r₁ ≡ ok (n, r₂)
    → n ≡ suc k
    → k < 64
    → read_tail k r₂ ≡ ok (t, r₃)
    → bit_or (2 ^ k) t ≡ v
    → decode_one r ≡ ok (v, r₃)
unfolding decode_one
decode_one_steps r r₁ r₂ r₃ j n k t v e₁ e₂ e h e₃ w =
    let p : suc k - 1 ≡ k = omega arith in
    rw (e₁, e₂, e, le→leb 1 (suc k) (omega arith), le→leb (suc k) 64 h, p, e₃, w)

top_is_set : (n j s : ℕ) → n ≡ 2 ^ j + s → s < 2 ^ j → bit_at n j ≡ true
top_is_set n j s e h =
    let w : n ≡ 1 * 2 ^ j + s = omega arith in
    ground (arith, quotient 1 (2 ^ j) s h, ap (λ (x : ℕ). x / 2 ^ j) w)

code_word_split :
    {v : ℕ} (h : Shape v) (rest : List Bool)
    → code_word h ++ rest
      ≡ replicate h.j false ++ true ∷ (bits_of h.j (suc h.k) ++ (bits_of h.k h.r ++ rest))
code_word_split h rest = rw (
  append_assoc (replicate h.j false),
  append_assoc,
  top_is_set (suc h.k) h.j h.s h.length h.low_length,
)

-- A decoder whose next bits are a value's code word returns the value and stops behind the word.
pub decode_one-code_word :
    (v : ℕ) (h : Shape v) (r : BitReader) (rest : List Bool)
    → v < 2 ^ 64
    → ahead r ≡ code_word h ++ rest
    → Gives (decode_one r) v rest
decode_one-code_word v h r rest fits e =
    let after = bits_of h.j (suc h.k) ++ (bits_of h.k h.r ++ rest) in
    let (r₁, e₁, a₁) =
      read_prefix-zeros h.j 64 0 h.j r after (e ∙ code_word_split h rest) (omega arith)
        (omega (arith, h.length_width)) (omega (arith, h.length_width)) in
    let (r₂, e₂, a₂) =
      read_length-bits_of h.j (suc h.k) h.s r₁ (bits_of h.k h.r ++ rest) a₁ h.length h.low_length
        h.width in
    let (r₃, e₃, a₃) =
      read_tail-bits_of h.k h.r r₂ rest a₂ h.tail h.width (omega (arith, h.whole)) in
    (
      r₃,
      decode_one_steps r r₁ r₂ r₃ h.j (suc h.k) h.k h.r v e₁ e₂ refl h.width e₃
          (bit_or_top h.k h.r h.tail ∙ sym h.whole),
      a₃,
    )
