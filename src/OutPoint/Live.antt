-- ===== src/OutPoint/Live.antt =====
-- Maps from outpoints to values with an id, as the indexer and the statistics keep them.
use bitcoin_data.Base.{
  All, Bool-cases, List, Unique, [], arith, bytes_keyed, get, inl, inr, insert, insert-Unique,
  length, remove, remove-Unique, some, subst, sym, ℕ, ◌+◌, ◌<◌, ◌∷◌, ◌≡◌, ◌≢◌, ◌≤◌,
}
use mathlib.Core.Option.{none-ne-some, some-injective}
use bitcoin_data.OutPoint.{OutPoint, outpoint_keyed, same_outpoint}

module _ {V : Type 0} (id : V → ℕ) where
  abbrev pub Below : ℕ → List (OutPoint × V) → Type 0
  Below n m = All (λ (e : OutPoint × V). id e.1 < n) m

  -- No value of the map has the id `i`.
  abbrev pub Lacks : ℕ → List (OutPoint × V) → Type 0
  Lacks i m = All (λ (e : OutPoint × V). id e.1 ≢ i) m

  -- No id stands for two outpoints.
  abbrev pub Distinct : List (OutPoint × V) → Type 0
  Distinct [] = Unit {0}
  Distinct (e ∷ m) = Lacks (id e.1) m × Distinct m

  -- The map holds every outpoint once, and different ids, all below `n`.
  pub record IsLive (n : ℕ) (m : List (OutPoint × V)) : Type 0 where
    pub unique : Unique m
    pub below : Below n m
    pub distinct : Distinct m

  pub remove-All :
      (P : OutPoint × V → Type 0) (m : List (OutPoint × V)) (o : OutPoint)
      → All P m
      → All P (remove m o)
  unfolding remove outpoint_keyed
  remove-All P [] o h = tt
  remove-All P (e ∷ m) o h = elim (Bool-cases (same_outpoint e.0 o)) [
    | inl here ↦ rw here (remove-All P m o h.1)
    | inr other ↦ rw other (h.0, remove-All P m o h.1)
  ]

  remove-Distinct : (m : List (OutPoint × V)) (o : OutPoint) → Distinct m → Distinct (remove m o)
  unfolding remove outpoint_keyed
  remove-Distinct [] o h = tt
  remove-Distinct (e ∷ m) o h = elim (Bool-cases (same_outpoint e.0 o)) [
    | inl here ↦ rw here (remove-Distinct m o h.1)
    | inr other ↦
        rw other
          (remove-All (λ (x : OutPoint × V). id x.1 ≢ id e.1) m o h.0, remove-Distinct m o h.1)
  ]

  All-imply :
      (P Q : OutPoint × V → Type 0) (m : List (OutPoint × V))
      → ((e : OutPoint × V) → P e → Q e)
      → All P m
      → All Q m
  All-imply P Q [] f h = tt
  All-imply P Q (e ∷ m) f h = (f e h.0, All-imply P Q m f h.1)

  pub remove-IsLive :
      (n : ℕ) (m : List (OutPoint × V)) (o : OutPoint) → IsLive n m → IsLive n (remove m o)
  remove-IsLive n m o w = record {
    unique = remove-Unique m o w.unique;
    below = remove-All (λ (e : OutPoint × V). id e.1 < n) m o w.below;
    distinct = remove-Distinct m o w.distinct;
  }

  pub IsLive-weaken : (n k : ℕ) (m : List (OutPoint × V)) → n ≤ k → IsLive n m → IsLive k m
  IsLive-weaken n k m h w = record {
    unique = w.unique;
    below =
        All-imply (λ (e : OutPoint × V). id e.1 < n) (λ (e : OutPoint × V). id e.1 < k) m
          (λ e p. omega arith) w.below;
    distinct = w.distinct;
  }

  -- A new output takes the next id.
  pub insert-IsLive :
      (n : ℕ) (m : List (OutPoint × V)) (o : OutPoint) (v : V)
      → id v ≡ n
      → IsLive n m
      → IsLive (n + 1) (insert m o v)
  unfolding insert
  insert-IsLive n m o v e w =
      let others = remove-IsLive n m o w in
      record {
        unique = insert-Unique m o v w.unique;
        below =
            (omega (arith, e), (IsLive-weaken n (n + 1) (remove m o) (omega arith) others).below);
        distinct = (
          All-imply (λ (x : OutPoint × V). id x.1 < n) (λ (x : OutPoint × V). id x.1 ≢ id v)
              (remove m o) (λ x p q. omega (arith, e)) others.below,
          others.distinct,
        );
      }

  -- What holds of all values holds of one that is found.
  pub get-All :
      (P : V → Type 0) (m : List (OutPoint × V)) (o : OutPoint) (v : V)
      → get m o ≡ some v
      → All (λ (e : OutPoint × V). P e.1) m
      → P v
  unfolding get outpoint_keyed
  get-All P [] o v found h = absurd (none-ne-some v found)
  get-All P (e ∷ m) o v found h = elim (Bool-cases (same_outpoint e.0 o)) [
    | inl here ↦ subst P (some-injective e.1 v (rw here at found)) h.0
    | inr other ↦ get-All P m o v (rw other at found) h.1
  ]

  -- The id of a removed value is in the map no more.
  pub remove-Lacks :
      (m : List (OutPoint × V)) (o : OutPoint) (v : V)
      → get m o ≡ some v
      → Distinct m
      → Lacks (id v) (remove m o)
  unfolding get remove outpoint_keyed
  remove-Lacks [] o v found h = tt
  remove-Lacks (e ∷ m) o v found h = elim (Bool-cases (same_outpoint e.0 o)) [
    | inl here ↦ rw here (
        subst (λ (w : V). Lacks (id w) (remove m o)) (some-injective e.1 v (rw here at found))
          (remove-All (λ (x : OutPoint × V). id x.1 ≢ id e.1) m o h.0))
    | inr other ↦ rw other (
      λ same. get-All (λ (w : V). id w ≢ id e.1) m o v (rw other at found) h.0 (sym same),
      remove-Lacks m o v (rw other at found) h.1,
    )
  ]

  remove_shorter : (m : List (OutPoint × V)) (o : OutPoint) → length (remove m o) ≤ length m
  unfolding remove outpoint_keyed
  remove_shorter [] o = omega arith
  remove_shorter (e ∷ m) o = elim (Bool-cases (same_outpoint e.0 o)) [
    | inl here ↦ rw here (omega (arith, remove_shorter m o))
    | inr other ↦ rw other (omega (arith, remove_shorter m o))
  ]

  pub length-remove :
      (m : List (OutPoint × V)) (o : OutPoint) (v : V)
      → get m o ≡ some v
      → length (remove m o) < length m
  unfolding get remove outpoint_keyed
  length-remove [] o v found = absurd (none-ne-some v found)
  length-remove (e ∷ m) o v found = elim (Bool-cases (same_outpoint e.0 o)) [
    | inl here ↦ rw here (omega (arith, remove_shorter m o))
    | inr other ↦ rw other (omega (arith, length-remove m o v (rw other at found)))
  ]

  pub length-insert :
      (m : List (OutPoint × V)) (o : OutPoint) (v : V) → length (insert m o v) ≤ length m + 1
  unfolding insert
  length-insert m o v = omega (arith, remove_shorter m o)
