-- ===== src/Sources/Answers.antt =====
-- sources/src/multi.rs: when a request is answered.
use bitcoin_data.Base.{
  List, Option, Result, Result-cases, ap, arith, bytes_keyed, dec_le, err, err-ne-ok, inl, inr,
  none, ok, refl, replicate, some, suc, sym, zero, ℕ, ◌%◌, ◌*◌, ◌+◌, ◌-◌, ◌<◌, ◌^◌, ◌∙◌, ◌∷◌, ◌≡◌,
  ◌≢◌,
}
use native.Mathlib.Nat.{mod-lt, mod-eq_of_lt, mod-add-mod, add-mod_right, mul-suc}
use bitcoin_data.Sources.Multi.{
  MultiSource, Failure, last_error, pick, others_pick, failure_of, try_sources, request,
}

-- Counting on from the cursor, every source has its turn within one round.
turn_of : (n c j : ℕ) → j < n → (t : ℕ) × (t < n) × ((c + t) % n ≡ j)
turn_of n c j h =
    let below : c % n < n = mod-lt c (omega arith) in
    elim (dec_le (c % n) j) [
      | yes le ↦
          let sum : c % n + (j - c % n) ≡ j = omega arith in
          (
            j - c % n,
            omega arith,
            sym (mod-add-mod c n (j - c % n)) ∙ ap (λ (x : ℕ). x % n) sum ∙ mod-eq_of_lt h,
          )
      | no gt ↦
          let sum : c % n + (j + n - c % n) ≡ j + n = omega arith in
          (
            j + n - c % n,
            omega arith,
            sym (mod-add-mod c n (j + n - c % n))
                ∙ ap (λ (x : ℕ). x % n) sum
                ∙ add-mod_right j n
                ∙ mod-eq_of_lt h,
          )
    ]

module _ {E A : Type 0} (ask : ℕ → Result E A) where
  -- An answer of one of the sources.
  abbrev pub Answered : ℕ → Result (Failure E) A → Type 0
  Answered n r = (i : ℕ) × (a : A) × (i < n) × (ask i ≡ ok a) × (r ≡ ok a)

  try-ok :
      (picks : ℕ) (rounds : List ℕ) (m : MultiSource) (last_err : Option E) (a : A)
      → ask (pick (others_pick picks m)).0 ≡ ok a
      → try_sources ask (picks ∷ rounds) m last_err ≡ ok a
  unfolding try_sources
  try-ok picks rounds m last_err a e = rw (e, try_sources) refl

  try-err :
      (picks : ℕ) (rounds : List ℕ) (m : MultiSource) (last_err : Option E) (e : E)
      → ask (pick (others_pick picks m)).0 ≡ err e
      → try_sources ask (picks ∷ rounds) m last_err
        ≡ try_sources ask rounds (pick (others_pick picks m)).1 (some e)
  unfolding try_sources
  try-err picks rounds m last_err e f = rw (f, try_sources) refl

  abbrev at : ℕ → ℕ → MultiSource
  at n c = record { sources = n; cursor = c }

  -- A round that other requests let through unless they pick: the source and the cursor after it.
  round :
      (n c picks : ℕ)
      → c + picks + 1 < 2 ^ 64
      → pick (others_pick picks (at n c)) ≡ ((c + picks) % n, at n (c + picks + 1))
  unfolding pick others_pick
  round n c picks h =
      let here : (c + picks) % 2 ^ 64 ≡ c + picks = omega arith in
      let next : (c + picks + 1) % 2 ^ 64 ≡ c + picks + 1 = omega arith in
      ap (λ (x : ℕ). (x % n, at n ((x + 1) % 2 ^ 64))) here
      ∙ ap (λ (x : ℕ). ((c + picks) % n, at n x)) next

  answer_within :
      (k n c t : ℕ) (a : A) (last_err : Option E)
      → t < k
      → 0 < n
      → c + k < 2 ^ 64
      → ask ((c + t) % n) ≡ ok a
      → Answered n (try_sources ask (replicate k 0) (at n c) last_err)
  answer_within zero n c t a last_err h some_source fits good = absurd (omega arith)
  answer_within (suc k) n c t a last_err h some_source fits good =
      let this = round n c 0 (omega arith) in
      elim (Result-cases (ask ((c + 0) % n))) [
        | inl (b, answer) ↦ (
          (c + 0) % n,
          b,
          mod-lt (c + 0) some_source,
          answer,
          try-ok 0 (replicate k 0) (at n c) last_err b
              (ap (λ (p : ℕ × MultiSource). ask p.0) this ∙ answer),
        )
        | inr (e, failed) ↦
            let other : t ≢ 0 = λ same.
              err-ne-ok (sym failed ∙ ap (λ (x : ℕ). ask ((c + x) % n)) (sym same) ∙ good) in
            let (i, b, inside, answer, got) =
              answer_within k n (c + 0 + 1) (t - 1) a (some e) (omega (arith, h)) some_source
                (omega (arith, fits)) (ap (λ (x : ℕ). ask (x % n)) (omega arith) ∙ good) in
            (
              i,
              b,
              inside,
              answer,
              try-err 0 (replicate k 0) (at n c) last_err e
                    (ap (λ (p : ℕ × MultiSource). ask p.0) this ∙ failed)
                  ∙ ap (λ (p : ℕ × MultiSource). try_sources ask (replicate k 0) p.1 (some e)) this
                  ∙ got,
            )
      ]

  -- A request while no other is running is answered, by one of the sources, when any source would
  -- answer it, as long as the cursor does not wrap during it.
  pub request-Answered :
      (m : MultiSource) (j : ℕ) (a : A)
      → j < m.sources
      → m.cursor + m.sources < 2 ^ 64
      → ask j ≡ ok a
      → Answered m.sources (request ask m)
  unfolding request
  request-Answered m j a h fits good =
      let (t, early, turn) = turn_of m.sources m.cursor j h in
      answer_within m.sources m.sources m.cursor t a none early (omega arith) fits
        (ap ask turn ∙ good)

  missed :
      (k n c : ℕ) (e first : E)
      → 0 < n
      → c + n * k < 2 ^ 64 - 1
      → ask (c % n) ≡ err e
      → (x : E) × (try_sources ask (replicate k (n - 1)) (at n (c + 1)) (some first)
          ≡ err (last_error x))
  unfolding try_sources failure_of
  missed zero n c e first some_source fits failed = (first, refl)
  missed (suc k) n c e first some_source fits failed =
      let this = round n (c + 1) (n - 1) (omega (arith, mul-suc n k)) in
      let full : c + 1 + (n - 1) ≡ c + n = omega (arith, some_source) in
      let again : ask ((c + 1 + (n - 1)) % n) ≡ err e =
        ap (λ (x : ℕ). ask (x % n)) full ∙ ap ask (add-mod_right c n) ∙ failed in
      let (x, got) =
        missed k n (c + n) e e some_source (omega (arith, mul-suc n k))
          (ap ask (add-mod_right c n) ∙ failed) in
      (
        x,
        try-err (n - 1) (replicate k (n - 1)) (at n (c + 1)) (some first) e
              (ap (λ (p : ℕ × MultiSource). ask p.0) this ∙ again)
            ∙ ap (λ (p : ℕ × MultiSource). try_sources ask (replicate k (n - 1)) p.1 (some e)) this
            ∙ ap (λ (y : ℕ). try_sources ask (replicate k (n - 1)) (at n (y + 1)) (some e)) full
            ∙ got,
      )

  -- A request whose first source fails is refused, whatever the other sources answer, when other
  -- requests pick once less than there are sources before each of its later rounds.
  pub try_sources_missed :
      (m : MultiSource) (k : ℕ) (e : E)
      → 0 < m.sources
      → m.cursor + m.sources * k < 2 ^ 64 - 1
      → ask (m.cursor % m.sources) ≡ err e
      → (x : E) × (try_sources ask (0 ∷ replicate k (m.sources - 1)) m none ≡ err (last_error x))
  try_sources_missed m k e some_source fits failed =
      let this = round m.sources m.cursor 0 (omega (arith, fits)) in
      let same : m.cursor + 0 ≡ m.cursor = omega arith in
      let (x, got) = missed k m.sources m.cursor e e some_source fits failed in
      (
        x,
        try-err 0 (replicate k (m.sources - 1)) m none e (
              ap (λ (p : ℕ × MultiSource). ask p.0) this
              ∙ ap (λ (y : ℕ). ask (y % m.sources)) same
              ∙ failed)
            ∙ ap
                (λ (p : ℕ × MultiSource).
                  try_sources ask (replicate k (m.sources - 1)) p.1 (some e))
                this
            ∙ ap
                (λ (y : ℕ).
                  try_sources ask (replicate k (m.sources - 1)) (at m.sources (y + 1)) (some e))
                same
            ∙ got,
      )
