-- ===== src/Codec/BitIo/Stream.antt =====
-- The bits that a byte slice holds, in the order of light-server/src/codec/elias_delta.rs.
use bitcoin_data.Base.{
  Bool, List, [], ap, arith, bit_or, bytes_keyed, false, get_elem?, get_or, holds_below,
  holds_below_sound, length, refl, set, some, suc, true, zero, ℕ, ◌%◌, ◌*◌, ◌++◌, ◌-◌, ◌/◌, ◌<◌,
  ◌==◌, ◌^◌, ◌∷◌, ◌≡◌,
}

abbrev pub bit_at : ℕ → ℕ → Bool
bit_at b s = b / 2 ^ s % 2 == 1

unfoldable pub byte_bits : ℕ → List Bool
byte_bits b =
    bit_at b 7
    ∷ bit_at b 6
    ∷ bit_at b 5
    ∷ bit_at b 4
    ∷ bit_at b 3
    ∷ bit_at b 2
    ∷ bit_at b 1
    ∷ bit_at b 0
    ∷ []

abbrev pub unpack : List ℕ → List Bool
unpack [] = []
unpack (b ∷ bytes) = byte_bits b ++ unpack bytes

pub length-unpack : (bytes : List ℕ) → length (unpack bytes) ≡ length bytes * 8
unfolding byte_bits
length-unpack [] = refl
length-unpack (b ∷ bytes) = omega (arith, length-unpack bytes)

pub unpack-append :
    (bytes : List ℕ) (b : ℕ) → unpack (bytes ++ b ∷ []) ≡ unpack bytes ++ byte_bits b
unfolding byte_bits
unpack-append [] b = refl
unpack-append (c ∷ bytes) b = rw (unpack-append bytes b)

-- The bit at a position of the stream, as the reader computes it from the bytes.
pub get_elem?-unpack :
    (bytes : List ℕ) (pos : ℕ)
    → pos < length bytes * 8
    → get_elem? (unpack bytes) pos ≡ some (bit_at (get_or bytes (pos / 8) 0) (7 - pos % 8))
unfolding byte_bits
get_elem?-unpack [] pos h = absurd (omega arith)
get_elem?-unpack (b ∷ bytes) zero h = refl
get_elem?-unpack (b ∷ bytes) (suc zero) h = refl
get_elem?-unpack (b ∷ bytes) (suc (suc zero)) h = refl
get_elem?-unpack (b ∷ bytes) (suc (suc (suc zero))) h = refl
get_elem?-unpack (b ∷ bytes) (suc (suc (suc (suc zero)))) h = refl
get_elem?-unpack (b ∷ bytes) (suc (suc (suc (suc (suc zero))))) h = refl
get_elem?-unpack (b ∷ bytes) (suc (suc (suc (suc (suc (suc zero)))))) h = refl
get_elem?-unpack (b ∷ bytes) (suc (suc (suc (suc (suc (suc (suc zero))))))) h = refl
get_elem?-unpack (b ∷ bytes) (suc (suc (suc (suc (suc (suc (suc (suc p)))))))) h =
    let d : suc (suc (suc (suc (suc (suc (suc (suc p))))))) / 8 ≡ suc (p / 8) = omega arith in
    let m : suc (suc (suc (suc (suc (suc (suc (suc p))))))) % 8 ≡ p % 8 = omega arith in
    rw (d, m) (get_elem?-unpack bytes p (omega arith))

pub get_elem?-get_or :
    (bytes : List ℕ) (i : ℕ) → i < length bytes → get_elem? bytes i ≡ some (get_or bytes i 0)
get_elem?-get_or [] i h = absurd (omega arith)
get_elem?-get_or (b ∷ bytes) zero h = refl
get_elem?-get_or (b ∷ bytes) (suc i) h = get_elem?-get_or bytes i (omega (arith, h))

-- Setting one bit of a byte, checked for every byte.
same : List Bool → List Bool → Bool
same [] [] = true
same (true ∷ xs) (true ∷ ys) = same xs ys
same (false ∷ xs) (false ∷ ys) = same xs ys
same _ _ = false

same→eq : (xs ys : List Bool) → same xs ys ≡ true → xs ≡ ys
unfolding same
same→eq [] [] e = refl
same→eq [] (y ∷ ys) e = cc
same→eq (true ∷ xs) [] e = cc
same→eq (false ∷ xs) [] e = cc
same→eq (true ∷ xs) (true ∷ ys) e = ap (◌∷◌ true) (same→eq xs ys e)
same→eq (true ∷ xs) (false ∷ ys) e = cc
same→eq (false ∷ xs) (true ∷ ys) e = cc
same→eq (false ∷ xs) (false ∷ ys) e = ap (◌∷◌ false) (same→eq xs ys e)

abbrev set_test : ℕ → ℕ → Bool
unfolding same
set_test p b = same (byte_bits (bit_or b (2 ^ (7 - p)))) (set (byte_bits b) p true)

-- One table for each place in the byte.
set_table : (p : ℕ) → p < 8 → holds_below (set_test p) 256 ≡ true
unfolding byte_bits holds_below same
set_table zero h = refl
set_table (suc zero) h = refl
set_table (suc (suc zero)) h = refl
set_table (suc (suc (suc zero))) h = refl
set_table (suc (suc (suc (suc zero)))) h = refl
set_table (suc (suc (suc (suc (suc zero))))) h = refl
set_table (suc (suc (suc (suc (suc (suc zero)))))) h = refl
set_table (suc (suc (suc (suc (suc (suc (suc zero))))))) h = refl
set_table (suc (suc (suc (suc (suc (suc (suc (suc p)))))))) h = absurd (omega arith)

pub byte_bits-bit_or :
    (p b : ℕ) → p < 8 → b < 256 → byte_bits (bit_or b (2 ^ (7 - p))) ≡ set (byte_bits b) p true
unfolding same
byte_bits-bit_or p b hp hb = same→eq _ _ (holds_below_sound (set_test p) 256 b (set_table p hp) hb)

-- The lowest `n` bits of a number, the highest of them first.
abbrev pub bits_of : ℕ → ℕ → List Bool
bits_of zero v = []
bits_of (suc i) v = bit_at v i ∷ bits_of i v
