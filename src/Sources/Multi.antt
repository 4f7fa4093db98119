-- ===== src/Sources/Multi.antt =====
-- sources/src/multi.rs: a request goes to one source after the other, from a shared cursor on.
use bitcoin_data.Base.{
  List, Option, Result, [], bytes_keyed, err, none, ok, replicate, some, ℕ, ◌%◌, ◌+◌, ◌^◌, ◌∷◌,
}

pub record MultiSource : Type 0 where
  pub sources : ℕ
  pub cursor : ℕ

-- The index of the next source; `fetch_add` wraps.
unfoldable pub pick : MultiSource → ℕ × MultiSource
pick m = (m.cursor % m.sources, record m { cursor = (m.cursor + 1) % 2 ^ 64 })

-- After `picks` picks of other requests.
unfoldable pub others_pick : ℕ → MultiSource → MultiSource
others_pick picks m = record m { cursor = (m.cursor + picks) % 2 ^ 64 }

-- `last_err.unwrap()` panics where there was no round.
pub data Failure (E : Type 0) : Type 0 where
  no_error : Failure E
  last_error : E → Failure E

unfoldable pub failure_of : {E : Type 0} → Option E → Failure E
failure_of none = no_error
failure_of (some e) = last_error e

module _ {E A : Type 0} (ask : ℕ → Result E A) where
  -- The rounds of a request, with what each source answers; before each round other requests pick.
  unfoldable pub try_sources : List ℕ → MultiSource → Option E → Result (Failure E) A
  unfolding pick others_pick failure_of
  try_sources [] m last_err = err (failure_of last_err)
  try_sources (picks ∷ rounds) m last_err =
      let (i, m') = pick (others_pick picks m) in
      elim (ask i) [ ok a ↦ ok a | err e ↦ try_sources rounds m' (some e) ]

  -- A request while no other is running.
  unfoldable pub request : MultiSource → Result (Failure E) A
  unfolding try_sources
  request m = try_sources (replicate m.sources 0) m none
