-- ===== src/Costs/Best.antt =====
-- stats/src/block.rs: `best_rice` finds a smallest charge, and the first of them.
use bitcoin_data.Base.{
  All, Bool, Bool-cases, List, [], ap, arith, bytes_keyed, false, get_elem?, if◌then◌else◌, inl,
  inr, length, ltb, ltb→lt, refl, some, subst, suc, sym, take, ℕ, ◌+◌, ◌-◌, ◌<◌, ◌==◌, ◌^◌, ◌∷◌,
  ◌≡◌, ◌≤◌, ◌⊎◌,
}
use bitcoin_data.Costs.{CodecEstimate, RiceChoice, best_rice, best_rice_loop}

-- `i` is the first index of a smallest entry, and `r` names it, counted from `k`.
record IsFirstLeast (k : ℕ) (cs : List ℕ) (r : RiceChoice) : Type 0 where
  i : ℕ
  index : r.k ≡ k + i
  entry : get_elem? cs i ≡ some r.bits
  least : All (λ (b : ℕ). r.bits ≤ b) cs
  first : All (λ (b : ℕ). r.bits < b) (take i cs)

abbrev IsOutcome : ℕ → List ℕ → RiceChoice → RiceChoice → Type 0
IsOutcome k cs best r =
    ((r ≡ best) × All (λ (b : ℕ). best.bits ≤ b) cs) ⊎ (IsFirstLeast k cs r × (r.bits < best.bits))

not_ltb→le : (a b : ℕ) → ltb a b ≡ false → b ≤ a
not_ltb→le a b h = ground arith

after_better :
    (k c : ℕ) (cs : List ℕ) (best r : RiceChoice)
    → c < best.bits
    → IsOutcome (k + 1) cs (record { k = k; bits = c }) r
    → IsOutcome k (c ∷ cs) best r
after_better k c cs best r less (inl (same, rest)) =
    let k_eq : r.k ≡ k = ap (λ (x : RiceChoice). x.k) same in
    let bits_eq : r.bits ≡ c = ap (λ (x : RiceChoice). x.bits) same in
    let rest' : All (λ (b : ℕ). c ≤ b) cs = rest in
    inr (
      record {
        i = 0;
        index = omega (arith, k_eq);
        entry = ap some (sym bits_eq);
        least =
            subst (λ (x : ℕ). All (λ (b : ℕ). x ≤ b) (c ∷ cs)) (sym bits_eq) (omega arith, rest');
        first = tt;
      },
      omega (arith, bits_eq),
    )
after_better k c cs best r less (inr (w, below)) = inr (
  record {
    i = suc w.i;
    index = omega (arith, w.index);
    entry = w.entry;
    least = (omega arith, w.least);
    first = (below, w.first);
  },
  omega arith,
)

after_worse :
    (k c : ℕ) (cs : List ℕ) (best r : RiceChoice)
    → best.bits ≤ c
    → IsOutcome (k + 1) cs best r
    → IsOutcome k (c ∷ cs) best r
after_worse k c cs best r worse (inl (same, rest)) = inl (same, (worse, rest))
after_worse k c cs best r worse (inr (w, below)) = inr (
  record {
    i = suc w.i;
    index = omega (arith, w.index);
    entry = w.entry;
    least = (omega arith, w.least);
    first = (omega arith, w.first);
  },
  below,
)

best_rice_loop-IsOutcome :
    (k : ℕ) (best : RiceChoice) (cs : List ℕ) → IsOutcome k cs best (best_rice_loop k best cs)
unfolding best_rice_loop
best_rice_loop-IsOutcome k best [] = inl (refl, tt)
best_rice_loop-IsOutcome k best (c ∷ cs) = elim (Bool-cases (ltb c best.bits)) [
  | inl less ↦
      subst (IsOutcome k (c ∷ cs) best)
        (ap
          (λ (t : Bool). best_rice_loop (k + 1) (if t then record { k = k; bits = c } else best) cs)
          (sym less))
        (after_better k c cs best (best_rice_loop (k + 1) (record { k = k; bits = c }) cs)
          (ltb→lt c best.bits less)
          (best_rice_loop-IsOutcome (k + 1) (record { k = k; bits = c }) cs))
  | inr not_less ↦
      subst (IsOutcome k (c ∷ cs) best)
        (ap
          (λ (t : Bool). best_rice_loop (k + 1) (if t then record { k = k; bits = c } else best) cs)
          (sym not_less))
        (after_worse k c cs best (best_rice_loop (k + 1) best cs) (not_ltb→le c best.bits not_less)
          (best_rice_loop-IsOutcome (k + 1) best cs))
]

not_over :
    (cs : List ℕ) (m : ℕ)
    → 0 < length cs
    → All (λ (b : ℕ). b < m) cs
    → All (λ (b : ℕ). m ≤ b) cs
    → ⊥
not_over [] m p h g = omega arith
not_over (c ∷ cs) m p h g = omega (arith, h.0, g.0)

pub IsLeast : List ℕ → RiceChoice → Type 0
IsLeast cs r =
    (get_elem? cs r.k ≡ some r.bits)
    × All (λ (b : ℕ). r.bits ≤ b) cs
    × All (λ (b : ℕ). r.bits < b) (take r.k cs)

IsOutcome-IsLeast :
    (cs : List ℕ) (m : ℕ) (r : RiceChoice)
    → 0 < length cs
    → All (λ (b : ℕ). b < m) cs
    → IsOutcome 0 cs (record { k = 0; bits = m }) r
    → IsLeast cs r
unfolding IsLeast
IsOutcome-IsLeast cs m r p fit (inl (_, over)) = absurd (not_over cs m p fit over)
IsOutcome-IsLeast cs m r p fit (inr (w, _)) =
    let k_eq : r.k ≡ w.i = omega (arith, w.index) in rw k_eq (w.entry, w.least, w.first)

-- Where a value was added and the charges stay below the largest 128-bit number, `best_rice` names
-- the first parameter whose charge is the smallest of all.
pub best_rice-IsFirstLeast :
    (e : CodecEstimate)
    → 0 < e.values
    → 0 < length e.rice_bits_by_k
    → All (λ (b : ℕ). b < 2 ^ 128 - 1) e.rice_bits_by_k
    → IsLeast e.rice_bits_by_k (best_rice e)
unfolding best_rice IsLeast
best_rice-IsFirstLeast e some_values some_charges fit =
    let started : (e.values == 0) ≡ false = ground arith in
    rw started (
      IsOutcome-IsLeast e.rice_bits_by_k (2 ^ 128 - 1)
        (best_rice_loop 0 (record { k = 0; bits = 2 ^ 128 - 1 }) e.rice_bits_by_k) some_charges fit
        (best_rice_loop-IsOutcome 0 (record { k = 0; bits = 2 ^ 128 - 1 }) e.rice_bits_by_k))
