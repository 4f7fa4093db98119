-- ===== src/Helper/Endian.antt =====
-- light-server/src/helper.rs: the readers against Rust's writers of integers.
use bitcoin_data.Base.{
  All, List, [], ap, arith, bytes_keyed, length, length-append, ok, refl, suc, zero, ℕ, ◌%◌, ◌*◌,
  ◌+◌, ◌/◌, ◌<◌, ◌^◌, ◌∙◌, ◌∷◌, ◌≡◌,
}
use mathlib.Core.List.{reverse, reverse-reverse, reverse-cons}
use native.Mathlib.Nat.{pow-suc}
use bitcoin_data.Helper.{
  IsByte, from_le_bytes, to_le_bytes, from_be_bytes, to_be_bytes, read_u16_le, read_u32_le,
  read_u32_be, read_u64_be,
}

pub length-to_le_bytes : (n v : ℕ) → length (to_le_bytes n v) ≡ n
length-to_le_bytes zero v = refl
length-to_le_bytes (suc n) v = ap suc (length-to_le_bytes n (v / 256))

pub from_le-to_le : (n v : ℕ) → v < 256 ^ n → from_le_bytes (to_le_bytes n v) ≡ v
from_le-to_le zero v h = omega arith
from_le-to_le (suc n) v h = omega (arith, from_le-to_le n (v / 256) (omega (arith, pow-suc 256 n)))

pub to_le-from_le :
    (bytes : List ℕ) → All IsByte bytes → to_le_bytes (length bytes) (from_le_bytes bytes) ≡ bytes
to_le-from_le [] h = refl
to_le-from_le (b ∷ bytes) h =
    let low : (b + 256 * from_le_bytes bytes) % 256 ≡ b = omega (arith, h.0) in
    let high : (b + 256 * from_le_bytes bytes) / 256 ≡ from_le_bytes bytes = omega (arith, h.0) in
    rw (low, high) (ap (◌∷◌ b) (to_le-from_le bytes h.1))

pub from_le-lt : (bytes : List ℕ) → All IsByte bytes → from_le_bytes bytes < 256 ^ length bytes
from_le-lt [] h = omega arith
from_le-lt (b ∷ bytes) h = omega (arith, from_le-lt bytes h.1, h.0, pow-suc 256 (length bytes))

pub to_le-IsByte : (n v : ℕ) → All IsByte (to_le_bytes n v)
to_le-IsByte zero v = tt
to_le-IsByte (suc n) v = (omega arith, to_le-IsByte n (v / 256))

pub length-reverse {ℓ} : {A : Type ℓ} (xs : List A) → length (reverse xs) ≡ length xs
length-reverse [] = refl
length-reverse (x ∷ xs) =
    omega
      (arith, ap length (reverse-cons x xs), length-append (reverse xs) (x ∷ []), length-reverse xs)

pub length-to_be_bytes : (n v : ℕ) → length (to_be_bytes n v) ≡ n
length-to_be_bytes n v = length-reverse (to_le_bytes n v) ∙ length-to_le_bytes n v

pub from_be-to_be : (n v : ℕ) → v < 256 ^ n → from_be_bytes (to_be_bytes n v) ≡ v
from_be-to_be n v h = rw (reverse-reverse (to_le_bytes n v)) (from_le-to_le n v h)

pub read_u16_le-to_le : (v : ℕ) → v < 2 ^ 16 → read_u16_le (to_le_bytes 2 v) ≡ ok v
unfolding read_u16_le
read_u16_le-to_le v h = ap ok (from_le-to_le 2 v h)

pub read_u32_le-to_le : (v : ℕ) → v < 2 ^ 32 → read_u32_le (to_le_bytes 4 v) ≡ ok v
unfolding read_u32_le
read_u32_le-to_le v h = ap ok (from_le-to_le 4 v h)

pub read_u32_be-to_be : (v : ℕ) → v < 2 ^ 32 → read_u32_be (to_be_bytes 4 v) ≡ ok v
unfolding read_u32_be
read_u32_be-to_be v h = ap ok (from_be-to_be 4 v h)

pub read_u64_be-to_be : (v : ℕ) → v < 2 ^ 64 → read_u64_be (to_be_bytes 8 v) ≡ ok v
unfolding read_u64_be
read_u64_be-to_be v h = ap ok (from_be-to_be 8 v h)

-- A reader of `n` bytes accepts exactly the slices of that length.
pub read_u32_le-eq :
    (bytes : List ℕ) → length bytes ≡ 4 → read_u32_le bytes ≡ ok (from_le_bytes bytes)
unfolding read_u32_le
read_u32_le-eq bytes e = rw (e, read_u32_le)

pub read_u16_le-eq :
    (bytes : List ℕ) → length bytes ≡ 2 → read_u16_le bytes ≡ ok (from_le_bytes bytes)
unfolding read_u16_le
read_u16_le-eq bytes e = rw (e, read_u16_le)
