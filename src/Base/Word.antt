-- ===== src/Base/Word.antt =====
-- Rust's arithmetic on unsigned words. A release build wraps on overflow.
use Prim.Native.Nat.{ℕ, ◌+◌, ◌-◌, ◌*◌, ◌%◌, ◌^◌, ◌<◌, min}

abbrev pub IsU64 : ℕ → Type 0
IsU64 v = v < 2 ^ 64

abbrev pub add_u64 : ℕ → ℕ → ℕ
add_u64 a b = (a + b) % 2 ^ 64

abbrev pub add_u128 : ℕ → ℕ → ℕ
add_u128 a b = (a + b) % 2 ^ 128

abbrev pub saturating_add_u64 : ℕ → ℕ → ℕ
saturating_add_u64 a b = min (a + b) (2 ^ 64 - 1)

abbrev pub saturating_mul_u64 : ℕ → ℕ → ℕ
saturating_mul_u64 a b = min (a * b) (2 ^ 64 - 1)
