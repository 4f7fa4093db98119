-- ===== src/Base/Maps.antt =====
-- Keyed maps: a Rust `HashMap` or a key-value store as an association list that holds each key once.
use mathlib.Core.Path.{◌≡◌, refl, ap, ◌∙◌}
use mathlib.Core.Logic.{◌↔◌, inl, inr}
use mathlib.Core.Bool.{Bool, true, false}
use mathlib.Core.Option.{Option, none, some}
use mathlib.Core.List.{List, [], ◌∷◌}
use native.Mathlib.Omega.{arith}
use bitcoin_data.Base.Tests.{if◌then◌else◌, Bool-cases}

-- A type of keys with the equality test of the source.
pub record Keyed (K : Type 0) : Type 0 where
  pub same : K → K → Bool
  pub same_iff : (a b : K) → (same a b ≡ true) ↔ (a ≡ b)

module _ {K : Type 0} ⦃e : Keyed K⦄ where
  abbrev pub same_key : K → K → Bool
  same_key a b = e.same a b

  pub same_key_refl : (a : K) → same_key a a ≡ true
  same_key_refl a = (e.same_iff a a).1 refl

  pub same_key-eq : (a b : K) → same_key a b ≡ true → a ≡ b
  same_key-eq a b h = (e.same_iff a b).0 h

  pub same_key_left : (a b c : K) → same_key a b ≡ true → same_key a c ≡ same_key b c
  same_key_left a b c h = ap (λ (x : K). same_key x c) (same_key-eq a b h)

  pub same_key_right : (a b c : K) → same_key b c ≡ true → same_key a b ≡ same_key a c
  same_key_right a b c h = ap (λ (x : K). same_key a x) (same_key-eq b c h)

if_same : {V : Type 0} → (b : Bool) → ◌≡◌ {A = Option V} (if b then none else none) none
if_same true = refl
if_same false = refl

module _ {K V : Type 0} ⦃e : Keyed K⦄ where
  unfoldable pub get : List (K × V) → K → Option V
  get [] k = none
  get (entry ∷ m) k = if same_key entry.0 k then some entry.1 else get m k

  unfoldable pub remove : List (K × V) → K → List (K × V)
  remove [] k = []
  remove (entry ∷ m) k = let rest = remove m k in if same_key entry.0 k then rest else entry ∷ rest

  unfoldable pub insert : List (K × V) → K → V → List (K × V)
  unfolding remove
  insert m k v = (k, v) ∷ remove m k

  pub get-remove :
      (m : List (K × V)) (k k' : K)
      → get (remove m k) k' ≡ (if same_key k k' then none else get m k')
  unfolding get remove
  get-remove [] k k' = ground arith
  get-remove (entry ∷ m) k k' = elim (Bool-cases (same_key entry.0 k)) [
    | inl here ↦ rw here (ground (arith, get-remove m k k', same_key_left entry.0 k k' here))
    | inr other ↦ rw other (elim (Bool-cases (same_key k k')) [
      | inl same ↦ ground (arith, get-remove m k k', same_key_right entry.0 k k' same)
      | inr differ ↦ ground (arith, get-remove m k k')
    ])
  ]

  pub get-insert :
      (m : List (K × V)) (k k' : K) (v : V)
      → get (insert m k v) k' ≡ (if same_key k k' then some v else get m k')
  unfolding get insert
  get-insert m k k' v = ground (arith, get-remove m k k')

  -- Every key occurs once.
  unfoldable pub Unique : List (K × V) → Type 0
  Unique [] = Unit {0}
  Unique (entry ∷ m) = (get m entry.0 ≡ none) × Unique m

  pub remove-Unique : (m : List (K × V)) (k : K) → Unique m → Unique (remove m k)
  unfolding Unique remove
  remove-Unique [] k u = tt
  remove-Unique (entry ∷ m) k u =
      let absent : get (remove m k) entry.0 ≡ none =
        get-remove m k entry.0
        ∙ ap (λ (x : Option V). if same_key k entry.0 then none else x) u.0
        ∙ if_same (same_key k entry.0) in
      elim (Bool-cases (same_key entry.0 k)) [
        | inl here ↦ rw here (remove-Unique m k u.1)
        | inr other ↦ rw other (absent, remove-Unique m k u.1)
      ]

  pub insert-Unique : (m : List (K × V)) (k : K) (v : V) → Unique m → Unique (insert m k v)
  unfolding Unique insert
  insert-Unique m k v u = (
    get-remove m k k ∙ ap (λ (b : Bool). if b then none else get m k) (same_key_refl k),
    remove-Unique m k u,
  )
