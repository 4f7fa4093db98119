-- ===== src/Costs/Sizes.antt =====
-- stats/src/block.rs: the charges against the bytes and bits the codecs of light-server/src/codec
-- write.
use bitcoin_data.Base.{
  IsU64, List, ap, arith, bit_length, bit_length_unique, bytes_keyed, false, leading_zeros, length,
  length-append, length-replicate, refl, replicate, some, sub-leading_zeros, suc, zero, ℕ, ◌*◌,
  ◌++◌, ◌+◌, ◌-◌, ◌/◌, ◌<◌, ◌^◌, ◌≡◌,
}
use native.Mathlib.Nat.{pow-suc}
use bitcoin_data.Codec.Leb128.{encode_one}
use bitcoin_data.Codec.Leb128.Encode.{groups, encode_one-groups}
use bitcoin_data.Codec.BitIo.Stream.{bits_of}
use bitcoin_data.Codec.EliasDelta.Code.{Shape, shape, code_word}
use bitcoin_data.Costs.{leb128_len_loop, leb128_len_u64, elias_delta_bits}

leb128_len_loop-groups :
    (k b v : ℕ) → v < 128 ^ suc k → leb128_len_loop (suc k) b v + 1 ≡ b + length (groups k v)
unfolding leb128_len_loop groups
leb128_len_loop-groups zero b v h = ground arith
leb128_len_loop-groups (suc k) b v h =
    ground (arith, leb128_len_loop-groups k (b + 1) (v / 128) (omega arith))

-- The LEB128 charge of a 64-bit value is the number of bytes `encode_one` appends for it.
pub encode_one-leb128_len_u64 :
    (v : ℕ) (out : List ℕ)
    → IsU64 v
    → (bytes : List ℕ) × (encode_one v out ≡ some (out ++ bytes))
      × (leb128_len_u64 v ≡ length bytes)
unfolding leb128_len_u64
encode_one-leb128_len_u64 v out h =
    (groups 9 v, encode_one-groups v out h, omega (arith, leb128_len_loop-groups 9 1 v))

length-bits_of : (k v : ℕ) → length (bits_of k v) ≡ k
length-bits_of zero v = refl
length-bits_of (suc k) v = ap suc (length-bits_of k v)

length-code_word : (v : ℕ) (h : Shape v) → length (code_word h) ≡ h.k + 2 * h.j + 1
length-code_word v h = omega (
  arith,
  length-append (replicate h.j false) (bits_of (suc h.j) (suc h.k) ++ bits_of h.k h.r),
  length-append (bits_of (suc h.j) (suc h.k)) (bits_of h.k h.r),
  length-replicate h.j false,
  length-bits_of (suc h.j) (suc h.k),
  length-bits_of h.k h.r,
)

elias_delta_bits-shape : (v : ℕ) (h : Shape v) → elias_delta_bits v ≡ h.k + 2 * h.j + 2
unfolding elias_delta_bits
elias_delta_bits-shape v h =
    let width = h.width in
    let length_width = h.length_width in
    let n : 64 - leading_zeros 64 v ≡ suc h.k = sub-leading_zeros 64 v (suc h.k) h.n_bits width in
    let top : bit_length 64 (suc h.k) ≡ suc h.j =
      bit_length_unique 64 h.j (suc h.k) (omega arith) (omega (arith, h.length))
        (omega (arith, h.length, h.low_length, pow-suc 2 h.j)) in
    let l : 64 - leading_zeros 64 (suc h.k) ≡ suc h.j =
      sub-leading_zeros 64 (suc h.k) (suc h.j) top (omega arith) in
    rw (n, l) (omega arith)

-- The charge for a positive 64-bit value is one bit more than its code word has.
pub elias_delta_bits_one_over :
    (v : ℕ) (p : 0 < v) (h : v < 2 ^ 64)
    → elias_delta_bits v ≡ suc (length (code_word (shape v p h)))
elias_delta_bits_one_over v p h =
    omega (arith, elias_delta_bits-shape v (shape v p h), length-code_word v (shape v p h))
