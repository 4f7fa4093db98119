-- ===== src/Base/Results.antt =====
-- Rust's `Result` as a monad, and the error-or-panic outcomes of fallible code.
use mathlib.Core.Path.{◌≡◌, refl}
use mathlib.Core.Logic.{inr, inl, ◌⊎◌, ◌≢◌}
use mathlib.Core.Bool.{Bool, true, false}
use mathlib.Core.Option.{Option, none, some}

pub data Result {ℓ} (E : Type 0) (A : Type ℓ) : Type ℓ where
  ok : A → Result E A
  err : E → Result E A

infixl 5 ◌>>=◌ ◌>>◌
abbrev pub ◌>>=◌ {ℓ κ} :
    {E : Type 0} {A : Type ℓ} {B : Type κ} → Result E A → (A → Result E B) → Result E B
ok a >>= f = f a
err e >>= f = err e

abbrev pub ◌>>◌ {ℓ} : {E : Type 0} {B : Type ℓ} → Result E (Unit {0}) → Result E B → Result E B
m >> k = m >>= λ _. k

-- `anyhow::ensure!`.
abbrev pub ensure : {E : Type 0} → Bool → E → Result E (Unit {0})
ensure false refusal = err refusal
ensure true refusal = ok tt

-- `Option::ok_or_else`.
abbrev pub ok_or {ℓ} : {E : Type 0} {A : Type ℓ} → Option A → E → Result E A
ok_or none e = err e
ok_or (some a) e = ok a

-- What a bind that succeeded went through.
pub >>=-eq-ok {ℓ κ} :
    {E : Type 0} {A : Type ℓ} {B : Type κ} (first : Result E A) (next : A → Result E B) {c : B}
    → (first >>= next) ≡ ok c
    → (a : A) × (first ≡ ok a) × (next a ≡ ok c)
>>=-eq-ok (err e) next done = cc
>>=-eq-ok (ok a) next done = (a, refl, done)

pub err-ne-ok {ℓ} : {E : Type 0} {A : Type ℓ} {e : E} {a : A} → err e ≢ ok a
err-ne-ok h = cc

-- A test that was passed on the way to a success.
pub ensure-eq-ok {ℓ} :
    {E : Type 0} {A : Type ℓ} (b : Bool) (e : E) (m : Result E A) {a : A}
    → (ensure b e >> m) ≡ ok a
    → (b ≡ true) × (m ≡ ok a)
ensure-eq-ok true e m h = (refl, h)
ensure-eq-ok false e m h = (cc, cc)

pub ok-injective {ℓ} :
    {E : Type 0} {A : Type ℓ} {a b : A} → ◌≡◌ {A = Result E A} (ok a) (ok b) → a ≡ b
ok-injective h = cc

pub Result-cases {ℓ} :
    {E : Type 0} {A : Type ℓ} (r : Result E A) → ((a : A) × (r ≡ ok a)) ⊎ ((e : E) × (r ≡ err e))
Result-cases (ok a) = inl (a, refl)
Result-cases (err e) = inr (e, refl)
