-- ===== src/Base.antt =====
-- The names that the other modules share.
mod Tests
mod Lists
mod Results
mod Bits
mod Word
mod Maps
mod Bytes
unfoldable pub use Tests.{holds_below}
pub use Tests.*
pub use Lists.*
pub use Results.*
pub use Bits.*
pub use Word.*
pub use Maps.*
pub use Bytes.*
unfoldable pub use Bytes.{same_bytes, bytes_keyed}
unfoldable pub use Maps.{get, remove, insert, Unique}
unfoldable pub use Bits.{bit_length, leading_zeros}
pub use Prim.Native.Nat.{
  ℕ, zero, suc, ◌+◌, ◌-◌, ◌*◌, ◌/◌, ◌%◌, ◌^◌, ◌≤◌, ◌<◌, min, max, bit_and, bit_or, bit_xor,
}
pub use mathlib.Core.Path.{◌≡◌, refl, sym, ap, ◌∙◌, subst}
pub use mathlib.Core.Logic.{◌≢◌, ◌↔◌, ◌⊎◌, inl, inr}
pub use mathlib.Core.Bool.{Bool, true, false, not, ◌&&◌, ◌||◌}
pub use mathlib.Core.Option.{Option, none, some}
pub use mathlib.Core.List.{List, [], ◌∷◌, ◌++◌, map, append-nil, append_assoc}
pub use native.Mathlib.Omega.{arith}
unfoldable pub use native.Mathlib.Decide.{dec_lt, dec_le, ℕ_discrete}
