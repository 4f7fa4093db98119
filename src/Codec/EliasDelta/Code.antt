-- ===== src/Codec/EliasDelta/Code.antt =====
-- light-server/src/codec/elias_delta.rs: the code word of a value, and what `encode_one` writes.
use bitcoin_data.Base.{
  Bool, List, [], ap, append-nil, append_assoc, arith, bit_length, bit_length_bounds, bit_xor,
  bit_xor_top, bytes_keyed, false, if◌then◌else◌, leading_zeros, le→leb, ltb, lt→ltb, ok, refl,
  replicate, sub-leading_zeros, subst, suc, zero, ℕ, ◌++◌, ◌+◌, ◌-◌, ◌<◌, ◌^◌, ◌∙◌, ◌∷◌, ◌≡◌,
}
use native.Mathlib.Nat.{pow-suc}
use bitcoin_data.Codec.BitIo.{BitWriter, push_bits}
use bitcoin_data.Codec.BitIo.Stream.{bits_of}
use bitcoin_data.Codec.BitIo.Write.{Holds, push_bit-Holds, push_bits-Holds}
use bitcoin_data.Codec.EliasDelta.{push_zeros, encode_one}

-- A value of `k + 1` bits, where the number `k + 1` has `j + 1` bits.
pub record Shape (v : ℕ) : Type 0 where
  pub k : ℕ
  pub r : ℕ
  pub j : ℕ
  pub s : ℕ
  pub whole : v ≡ 2 ^ k + r
  pub tail : r < 2 ^ k
  pub width : k < 64
  pub length : suc k ≡ 2 ^ j + s
  pub low_length : s < 2 ^ j
  pub length_width : j < 32
  pub n_bits : bit_length 64 v ≡ suc k
  pub len_bits : bit_length 32 (suc k) ≡ suc j

pub shape : (v : ℕ) → 0 < v → v < 2 ^ 64 → Shape v
shape v p h =
    let (k, e, lo, hi, kw) = bit_length_bounds 64 v p h in
    let (j, e', lo', hi', jw) = bit_length_bounds 32 (suc k) (omega arith) (omega (arith, kw)) in
    record {
      k = k;
      r = v - 2 ^ k;
      j = j;
      s = suc k - 2 ^ j;
      whole = omega (arith, lo);
      tail = omega (arith, hi, lo, pow-suc 2 k);
      width = kw;
      length = omega (arith, lo');
      low_length = omega (arith, hi', lo', pow-suc 2 j);
      length_width = jw;
      n_bits = e;
      len_bits = e';
    }

-- The length of the length in zeros, the length, and the value below its top bit.
abbrev pub code_word : {v : ℕ} → Shape v → List Bool
code_word h = replicate h.j false ++ (bits_of (suc h.j) (suc h.k) ++ bits_of h.k h.r)

push_zeros-Holds :
    (n : ℕ) (w : BitWriter) (bs : List Bool)
    → Holds w bs
    → (w' : BitWriter) × (push_zeros w n ≡ ok w') × Holds w' (bs ++ replicate n false)
unfolding push_zeros
push_zeros-Holds zero w bs h = (w, refl, rw append-nil h)
push_zeros-Holds (suc n) w bs h =
    let (w', e, h') = push_bit-Holds w bs false h in
    let (w'', e', h'') = push_zeros-Holds n w' (bs ++ false ∷ []) h' in
    (w'', rw e e', rw (append_assoc bs (false ∷ []) (replicate n false)) at h'')

-- The tail is written where the value has more than its top bit.
push_tail-Holds :
    (k value : ℕ) (w : BitWriter) (bs : List Bool)
    → Holds w bs
    → (w' : BitWriter) × ((if ltb 1 (suc k) then push_bits w value k else ok w) ≡ ok w')
      × Holds w' (bs ++ bits_of k value)
push_tail-Holds zero value w bs h = (w, refl, rw append-nil h)
push_tail-Holds (suc k) value w bs h =
    rw (lt→ltb 1 (suc (suc k)) (omega arith)) (push_bits-Holds w bs value (suc k) h)

low_part : (v : ℕ) (h : Shape v) → bit_xor v (2 ^ h.k) ≡ h.r
low_part v h = ap (λ (x : ℕ). bit_xor x (2 ^ h.k)) h.whole ∙ bit_xor_top h.k h.r h.tail

encode_one_steps :
    (v : ℕ) (h : Shape v) (w w₁ w₂ w₃ : BitWriter)
    → 0 < v
    → push_zeros w h.j ≡ ok w₁
    → push_bits w₁ (suc h.k) (suc h.j) ≡ ok w₂
    → (if ltb 1 (suc h.k) then push_bits w₂ h.r h.k else ok w₂) ≡ ok w₃
    → encode_one v w ≡ ok w₃
unfolding encode_one
encode_one_steps v h w w₁ w₂ w₃ p e₁ e₂ e₃ =
    let n : 64 - leading_zeros 64 v ≡ suc h.k = sub-leading_zeros 64 v (suc h.k) h.n_bits h.width in
    let l : 32 - leading_zeros 32 (suc h.k) ≡ suc h.j =
      sub-leading_zeros 32 (suc h.k) (suc h.j) h.len_bits h.length_width in
    let k : suc h.k - 1 ≡ h.k = omega arith in
    let j : suc h.j - 1 ≡ h.j = omega arith in
    let x : bit_xor v (2 ^ h.k) ≡ h.r = low_part v h in rw (le→leb 1 v p, n, l, k, j, x, e₁, e₂) e₃

-- `encode_one` never fails on a positive 64-bit value, and appends its code word.
pub encode_one-Holds :
    (v : ℕ) (h : Shape v) (w : BitWriter) (bs : List Bool)
    → 0 < v
    → Holds w bs
    → (w' : BitWriter) × (encode_one v w ≡ ok w') × Holds w' (bs ++ code_word h)
encode_one-Holds v h w bs p held =
    let (w₁, e₁, h₁) = push_zeros-Holds h.j w bs held in
    let (w₂, e₂, h₂) = push_bits-Holds w₁ (bs ++ replicate h.j false) (suc h.k) (suc h.j) h₁ in
    let (w₃, e₃, h₃) = push_tail-Holds h.k h.r w₂ _ h₂ in
    (
      w₃,
      encode_one_steps v h w w₁ w₂ w₃ p e₁ e₂ e₃,
      subst (Holds w₃) (append_assoc (bs ++ replicate h.j false) _ _ ∙ append_assoc bs _ _) h₃,
    )
