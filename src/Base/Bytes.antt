-- ===== src/Base/Bytes.antt =====
-- Byte strings compared, as the source's `==` on arrays and slices.
use Prim.Native.Nat.{ℕ}
use mathlib.Core.Path.{◌≡◌, refl, subst}
use mathlib.Core.Bool.{Bool, true, false, ◌&&◌}
use mathlib.Core.List.{List, [], ◌∷◌}
use native.Mathlib.Omega.{arith}
use bitcoin_data.Base.Maps.{Keyed}
use bitcoin_data.Base.Tests.{◌==◌}

unfoldable pub same_bytes : List ℕ → List ℕ → Bool
same_bytes [] [] = true
same_bytes (x ∷ xs) (y ∷ ys) = x == y && same_bytes xs ys
same_bytes _ _ = false

pub same_bytes-eq : (xs ys : List ℕ) → same_bytes xs ys ≡ true → xs ≡ ys
unfolding same_bytes
same_bytes-eq [] [] e = refl
same_bytes-eq [] (y ∷ ys) e = cc
same_bytes-eq (x ∷ xs) [] e = cc
same_bytes-eq (x ∷ xs) (y ∷ ys) e = ground (arith, same_bytes-eq xs ys)

pub same_bytes_refl : (xs : List ℕ) → same_bytes xs xs ≡ true
unfolding same_bytes
same_bytes_refl [] = refl
same_bytes_refl (x ∷ xs) = ground (arith, same_bytes_refl xs)

instance unfoldable pub bytes_keyed : Keyed (List ℕ)
bytes_keyed = record {
  same = same_bytes;
  same_iff = λ a b.
      (same_bytes-eq a b, λ e. subst (λ (x : List ℕ). same_bytes a x ≡ true) e (same_bytes_refl a));
}
