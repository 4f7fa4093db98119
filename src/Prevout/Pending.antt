-- ===== src/Prevout/Pending.antt =====
-- light-server/src/prevout_store.rs, `PendingPrevoutWrites` and the store below it. The database is
-- a map from byte strings to byte strings, written by one batch in order.
use bitcoin_data.Base.{
  Bool, List, Option, Result, [], bytes_keyed, get, insert, length, map, none, ok, remove, some, ℕ,
  ◌&&◌, ◌++◌, ◌+◌, ◌==◌, ◌>>=◌, ◌∷◌,
}
use bitcoin_data.Helper.{to_le_bytes}
use bitcoin_data.OutPoint.{OutPoint, outpoint_keyed}
use bitcoin_data.Prevout.{Curve, Script, Error, decode_prevout_entry, encode_prevout_entry}

abbrev pub Db : Type 0
Db = List (List ℕ × List ℕ)

pub record Pending : Type 0 where
  pub puts : List (OutPoint × Script)
  pub deletes : List (OutPoint × Unit {0})

pub data Lookup : Type 0 where
  present : Script → Lookup
  tombstoned absent : Lookup

abbrev pub no_pending : Pending
no_pending = record { puts = []; deletes = [] }

unfoldable pub is_empty : Pending → Bool
is_empty p = length p.puts == 0 && length p.deletes == 0

unfoldable pub len : Pending → ℕ
len p = length p.puts + length p.deletes

unfoldable pub lookup : Pending → OutPoint → Lookup
unfolding get
lookup p outpoint = elim (get p.puts outpoint) [
  | some entry ↦ present entry
  | none ↦ elim (get p.deletes outpoint) [ some _ ↦ tombstoned | none ↦ absent ]
]

unfoldable pub put : Pending → OutPoint → Script → Pending
unfolding remove insert
put p outpoint entry = record {
  deletes = remove p.deletes outpoint;
  puts = insert p.puts outpoint entry;
}

-- `self.puts.remove(&outpoint)` also empties the slot where it finds nothing.
unfoldable pub delete : Pending → OutPoint → Pending
unfolding get remove insert
delete p outpoint =
    let puts = remove p.puts outpoint in
    elim (get p.puts outpoint) [
      | none ↦ record { puts = puts; deletes = insert p.deletes outpoint tt }
      | some _ ↦ record { puts = puts; deletes = p.deletes }
    ]

-- `p:`, the transaction id and the index.
unfoldable pub rocks_key : OutPoint → List ℕ
rocks_key outpoint = 112 ∷ 58 ∷ outpoint.txid ++ to_le_bytes 4 outpoint.vout

unfoldable pub lookup_prevout : Curve → Db → Pending → OutPoint → Result Error (Option Script)
unfolding lookup rocks_key get
lookup_prevout curve db p outpoint = elim (lookup p outpoint) [
  | present entry ↦ ok (some entry)
  | tombstoned ↦ ok none
  | absent ↦ elim (get db (rocks_key outpoint)) [
    | none ↦ ok none
    | some bytes ↦ do entry ← decode_prevout_entry curve bytes; ok (some entry)
  ]
]

pub data BatchOp : Type 0 where
  put_op : List ℕ → List ℕ → BatchOp
  delete_op : List ℕ → BatchOp

-- `db.write(batch)`: a later operation on a key prevails.
unfoldable pub write : Db → List BatchOp → Db
unfolding insert remove
write db [] = db
write db (put_op key value ∷ ops) = write (insert db key value) ops
write db (delete_op key ∷ ops) = write (remove db key) ops

-- `m:tip_height` and `m:tip_hash`.
abbrev pub tip_height_key : List ℕ
tip_height_key = 109 ∷ 58 ∷ 116 ∷ 105 ∷ 112 ∷ 95 ∷ 104 ∷ 101 ∷ 105 ∷ 103 ∷ 104 ∷ 116 ∷ []

abbrev pub tip_hash_key : List ℕ
tip_hash_key = 109 ∷ 58 ∷ 116 ∷ 105 ∷ 112 ∷ 95 ∷ 104 ∷ 97 ∷ 115 ∷ 104 ∷ []

unfoldable pub batch : Pending → ℕ → List ℕ → List BatchOp
unfolding rocks_key
batch p height block_hash =
    map (λ (d : OutPoint × Unit {0}). delete_op (rocks_key d.0)) p.deletes
    ++ (map (λ (e : OutPoint × Script). put_op (rocks_key e.0) (encode_prevout_entry e.1)) p.puts
        ++ put_op tip_height_key (to_le_bytes 8 height) ∷ put_op tip_hash_key block_hash ∷ [])

unfoldable pub apply_pending : Db → Pending → ℕ → List ℕ → Db
unfolding write batch
apply_pending db p height block_hash = write db (batch p height block_hash)
