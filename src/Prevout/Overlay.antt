-- ===== src/Prevout/Overlay.antt =====
-- light-server/src/prevout_store.rs: what a lookup finds after the pending writes of a block.
use bitcoin_data.Base.{
  Bool-cases, Option, Option-cases, Result, bytes_keyed, get, get-insert, get-remove, if◌then◌else◌,
  inl, inr, insert, none, ok, refl, remove, some, subst, sym, ◌>>=◌, ◌∙◌, ◌≡◌, ◌⊎◌,
}
use mathlib.Core.Option.{some-ne-none}
use bitcoin_data.OutPoint.{OutPoint, outpoint_keyed, same_outpoint, same_outpoint-eq}
use bitcoin_data.Prevout.{Curve, Script, Error, decode_prevout_entry}
use bitcoin_data.Prevout.Pending.{Db, Pending, lookup, put, delete, rocks_key, lookup_prevout}

-- What the database holds for an outpoint.
unfoldable pub stored : Curve → Db → OutPoint → Result Error (Option Script)
stored curve db o = elim (get db (rocks_key o)) [
  | none ↦ ok none
  | some bytes ↦ do entry ← decode_prevout_entry curve bytes; ok (some entry)
]

unfoldable pub found :
    Option Script → Option (Unit {0}) → Result Error (Option Script) → Result Error (Option Script)
found (some entry) _ below = ok (some entry)
found none (some _) below = ok none
found none none below = below

pub lookup_prevout-found :
    (curve : Curve) (db : Db) (p : Pending) (o : OutPoint)
    → lookup_prevout curve db p o ≡ found (get p.puts o) (get p.deletes o) (stored curve db o)
unfolding lookup_prevout lookup found stored
lookup_prevout-found curve db p o = elim (Option-cases (get p.puts o)) [
  | inl e ↦ elim (Option-cases (get p.deletes o)) [
    | inl e' ↦ rw (lookup_prevout, lookup, e, e') refl
    | inr (_, e') ↦ rw (lookup_prevout, lookup, e, e') refl
  ]
  | inr (entry, e) ↦ rw (lookup_prevout, lookup, e) refl
]

-- A put shadows the database and an earlier tombstone, and no other outpoint is affected.
pub lookup_prevout-put :
    (curve : Curve) (db : Db) (p : Pending) (o o' : OutPoint) (s : Script)
    → lookup_prevout curve db (put p o s) o'
      ≡ (if same_outpoint o o' then ok (some s) else lookup_prevout curve db p o')
unfolding put outpoint_keyed found
lookup_prevout-put curve db p o o' s =
    rw
      (
        lookup_prevout-found curve db (put p o s) o',
        lookup_prevout-found curve db p o',
        get-insert p.puts o o' s,
        get-remove p.deletes o o',
      )
      (elim (Bool-cases (same_outpoint o o')) [
        | inl here ↦ rw here refl
        | inr other ↦ rw other refl
      ])

-- The outpoints of the pending puts are not in the database: an output is created once.
unfoldable pub IsFresh : Db → Pending → Type 0
IsFresh db p = (o : OutPoint) → (get p.puts o ≡ none) ⊎ (get db (rocks_key o) ≡ none)

delete-pending :
    (p : Pending) (o : OutPoint) (s : Script)
    → get p.puts o ≡ some s
    → delete p o ≡ record { puts = remove p.puts o; deletes = p.deletes }
unfolding delete
delete-pending p o s e = rw (delete, e) refl

delete-other :
    (p : Pending) (o : OutPoint)
    → get p.puts o ≡ none
    → delete p o ≡ record { puts = remove p.puts o; deletes = insert p.deletes o tt }
unfolding delete
delete-other p o e = rw (delete, e) refl

found-gone : (b : Option (Unit {0})) → found none b (ok none) ≡ ok none
unfolding found
found-gone none = refl
found-gone (some _) = refl

stored-absent :
    (curve : Curve) (db : Db) (o : OutPoint)
    → get db (rocks_key o) ≡ none
    → stored curve db o ≡ ok none
unfolding stored
stored-absent curve db o e = rw (stored, e) refl

deleted_put :
    (curve : Curve) (db : Db) (p : Pending) (o o' : OutPoint)
    → get db (rocks_key o) ≡ none
    → found (get (remove p.puts o) o') (get p.deletes o') (stored curve db o')
      ≡ (if same_outpoint o o' then ok none else lookup_prevout curve db p o')
unfolding outpoint_keyed found
deleted_put curve db p o o' fresh =
    rw (lookup_prevout-found curve db p o', get-remove p.puts o o')
      (elim (Bool-cases (same_outpoint o o')) [
        | inl here ↦
            let gone : stored curve db o' ≡ ok none =
              subst (λ (x : OutPoint). stored curve db x ≡ ok none) (same_outpoint-eq o o' here)
                (stored-absent curve db o fresh) in
            rw (here, gone) (found-gone (get p.deletes o'))
        | inr other ↦ rw other refl
      ])

-- A deleted outpoint is not found any more, and no other outpoint is affected, where the outpoints
-- of the pending puts are not in the database.
pub lookup_prevout-delete :
    (curve : Curve) (db : Db) (p : Pending) (o o' : OutPoint)
    → IsFresh db p
    → lookup_prevout curve db (delete p o) o'
      ≡ (if same_outpoint o o' then ok none else lookup_prevout curve db p o')
unfolding IsFresh outpoint_keyed found
lookup_prevout-delete curve db p o o' fresh = elim (Option-cases (get p.puts o)) [
  | inl e ↦
      rw
        (
          lookup_prevout-found curve db (delete p o) o',
          lookup_prevout-found curve db p o',
          delete-other p o e,
          get-remove p.puts o o',
          get-insert p.deletes o o' tt,
        )
        (elim (Bool-cases (same_outpoint o o')) [
          | inl here ↦ rw here refl
          | inr other ↦ rw other refl
        ])
  | inr (s, e) ↦
      rw (lookup_prevout-found curve db (delete p o) o', delete-pending p o s e)
        (deleted_put curve db p o o'
          (elim (fresh o) [ inl e' ↦ absurd (some-ne-none s (sym e ∙ e')) | inr e' ↦ e' ]))
]
