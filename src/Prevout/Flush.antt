-- ===== src/Prevout/Flush.antt =====
-- light-server/src/prevout_store.rs, `apply_pending`: the batch of a block's pending writes.
use bitcoin_data.Base.{
  All, Bool, Bool-cases, List, Option, Option-cases, Result, Unique, [], ap, bytes_keyed, drop,
  drop-append, false, get, get-insert, get-remove, if◌then◌else◌, inl, inr, insert, length, map,
  none, ok, refl, remove, same_bytes, same_bytes-eq, same_bytes_refl, some, subst, sym, take,
  take-append, true, ℕ, ◌++◌, ◌<◌, ◌>>=◌, ◌^◌, ◌∙◌, ◌∷◌, ◌≡◌,
}
use bitcoin_data.Helper.{from_le_bytes, to_le_bytes}
use bitcoin_data.Helper.Endian.{from_le-to_le}
use mathlib.Core.Option.{some-ne-none, some-injective}
use bitcoin_data.OutPoint.{
  OutPoint, outpoint_keyed, same_outpoint, same_outpoint-eq, same_outpoint_refl,
}
use bitcoin_data.Prevout.{Curve, Script, Error, decode_prevout_entry, encode_prevout_entry}
use bitcoin_data.Prevout.RoundTrip.{IsStored, decode-encode_prevout_entry}
use bitcoin_data.Prevout.Pending.{
  Db, Pending, rocks_key, lookup_prevout, BatchOp, put_op, delete_op, write, batch, apply_pending,
  no_pending, tip_height_key, tip_hash_key,
}
use bitcoin_data.Prevout.Overlay.{stored, found, lookup_prevout-found}

-- A transaction id of 32 bytes and a 32-bit index.
pub record IsOutPoint (o : OutPoint) : Type 0 where
  pub sized : length o.txid ≡ 32
  pub fits : o.vout < 2 ^ 32

rocks_key-injective :
    (a b : OutPoint)
    → IsOutPoint a
    → IsOutPoint b
    → rocks_key a ≡ rocks_key b
    → same_outpoint a b ≡ true
unfolding rocks_key same_outpoint
rocks_key-injective a b w u e =
    let tails : a.txid ++ to_le_bytes 4 a.vout ≡ b.txid ++ to_le_bytes 4 b.vout = ap (drop 2) e in
    let txids : a.txid ≡ b.txid =
      sym (take-append a.txid (to_le_bytes 4 a.vout))
      ∙ ap (λ (n : ℕ). take n (a.txid ++ to_le_bytes 4 a.vout)) (w.sized ∙ sym u.sized)
      ∙ ap (take (length b.txid)) tails
      ∙ take-append b.txid (to_le_bytes 4 b.vout) in
    let lows : to_le_bytes 4 a.vout ≡ to_le_bytes 4 b.vout =
      sym (drop-append a.txid (to_le_bytes 4 a.vout))
      ∙ ap (λ (n : ℕ). drop n (a.txid ++ to_le_bytes 4 a.vout)) (w.sized ∙ sym u.sized)
      ∙ ap (drop (length b.txid)) tails
      ∙ drop-append b.txid (to_le_bytes 4 b.vout) in
    let vouts : a.vout ≡ b.vout =
      sym (from_le-to_le 4 a.vout w.fits) ∙ ap from_le_bytes lows ∙ from_le-to_le 4 b.vout u.fits in
    rw (txids, vouts) (same_outpoint_refl b)

same_bytes-rocks_key :
    (a b : OutPoint)
    → IsOutPoint a
    → IsOutPoint b
    → same_bytes (rocks_key a) (rocks_key b) ≡ same_outpoint a b
same_bytes-rocks_key a b w u = elim (Bool-cases (same_outpoint a b)) [
  | inl same ↦
      rw (same_outpoint-eq a b same) (same_bytes_refl (rocks_key b) ∙ sym (same_outpoint_refl b))
  | inr differ ↦ elim (Bool-cases (same_bytes (rocks_key a) (rocks_key b))) [
    | inl keys ↦
        keys ∙ sym (rocks_key-injective a b w u (same_bytes-eq (rocks_key a) (rocks_key b) keys))
    | inr keys ↦ keys ∙ sym differ
  ]
]

write-append : (db : Db) (xs ys : List BatchOp) → write db (xs ++ ys) ≡ write (write db xs) ys
unfolding write
write-append db [] ys = refl
write-append db (put_op key value ∷ xs) ys = write-append (insert db key value) xs ys
write-append db (delete_op key ∷ xs) ys = write-append (remove db key) xs ys

or_below : Option (Unit {0}) → Option (List ℕ) → Option (List ℕ)
or_below (some _) below = none
or_below none below = below

encoded_or : Option Script → Option (List ℕ) → Option (List ℕ)
encoded_or (some s) below = some (encode_prevout_entry s)
encoded_or none below = below

or_below_step :
    (c : Bool) (u : Unit {0}) (g : Option (Unit {0})) (below : Option (List ℕ))
    → or_below g (if c then none else below) ≡ or_below (if c then some u else g) below
unfolding or_below
or_below_step true u none below = refl
or_below_step true u (some _) below = refl
or_below_step false u g below = refl

encoded_or_step :
    (c : Bool) (s : Script) (g : Option Script) (below : Option (List ℕ))
    → (c ≡ true → g ≡ none)
    → encoded_or g (if c then some (encode_prevout_entry s) else below)
      ≡ encoded_or (if c then some s else g) below
unfolding encoded_or
encoded_or_step true s g below none_left = rw (none_left refl) refl
encoded_or_step false s g below none_left = refl

get-write_deletes :
    (db : Db) (ds : List (OutPoint × Unit {0})) (o : OutPoint)
    → IsOutPoint o
    → All (λ (d : OutPoint × Unit {0}). IsOutPoint d.0) ds
    → get (write db (map (λ (d : OutPoint × Unit {0}). delete_op (rocks_key d.0)) ds)) (rocks_key o)
      ≡ or_below (get ds o) (get db (rocks_key o))
unfolding write get or_below outpoint_keyed bytes_keyed
get-write_deletes db [] o w all = refl
get-write_deletes db (d ∷ ds) o w all =
    rw
      (
        get-write_deletes (remove db (rocks_key d.0)) ds o w all.1,
        get-remove db (rocks_key d.0) (rocks_key o),
        same_bytes-rocks_key d.0 o all.0 w,
      )
      (or_below_step (same_outpoint d.0 o) d.1 (get ds o) (get db (rocks_key o)))

get-write_puts :
    (db : Db) (ps : List (OutPoint × Script)) (o : OutPoint)
    → IsOutPoint o
    → All (λ (e : OutPoint × Script). IsOutPoint e.0) ps
    → Unique ps
    → get
        (write db
          (map (λ (e : OutPoint × Script). put_op (rocks_key e.0) (encode_prevout_entry e.1)) ps))
        (rocks_key o)
      ≡ encoded_or (get ps o) (get db (rocks_key o))
unfolding write get encoded_or outpoint_keyed bytes_keyed Unique
get-write_puts db [] o w all u = refl
get-write_puts db (e ∷ ps) o w all u =
    rw
      (
        get-write_puts (insert db (rocks_key e.0) (encode_prevout_entry e.1)) ps o w all.1 u.1,
        get-insert db (rocks_key e.0) (rocks_key o) (encode_prevout_entry e.1),
        same_bytes-rocks_key e.0 o all.0 w,
      )
      (encoded_or_step (same_outpoint e.0 o) e.1 (get ps o) (get db (rocks_key o))
        (λ here. subst (λ (x : OutPoint). get ps x ≡ none) (same_outpoint-eq e.0 o here) u.0))

get-write_meta :
    (db : Db) (o : OutPoint) (height hash : List ℕ)
    → get (write db (put_op tip_height_key height ∷ put_op tip_hash_key hash ∷ [])) (rocks_key o)
      ≡ get db (rocks_key o)
unfolding write rocks_key bytes_keyed same_bytes
get-write_meta db o height hash =
    get-insert (insert db tip_height_key height) tip_hash_key (rocks_key o) hash
    ∙ get-insert db tip_height_key (rocks_key o) height

-- What the map of pending writes must satisfy for a flush: keys that the key format holds, entries
-- that it holds, and one entry for each outpoint.
pub record IsWritable (curve : Curve) (p : Pending) : Type 0 where
  pub put_keys : All (λ (e : OutPoint × Script). IsOutPoint e.0) p.puts
  pub delete_keys : All (λ (d : OutPoint × Unit {0}). IsOutPoint d.0) p.deletes
  pub entries : All (λ (e : OutPoint × Script). IsStored curve e.1) p.puts
  pub unique : Unique p.puts

get-apply_pending :
    (curve : Curve) (db : Db) (p : Pending) (height : ℕ) (hash : List ℕ) (o : OutPoint)
    → IsOutPoint o
    → IsWritable curve p
    → get (apply_pending db p height hash) (rocks_key o)
      ≡ encoded_or (get p.puts o) (or_below (get p.deletes o) (get db (rocks_key o)))
unfolding apply_pending batch
get-apply_pending curve db p height hash o w u =
    let dels = map (λ (d : OutPoint × Unit {0}). delete_op (rocks_key d.0)) p.deletes in
    let puts =
      map (λ (e : OutPoint × Script). put_op (rocks_key e.0) (encode_prevout_entry e.1)) p.puts in
    let meta = put_op tip_height_key (to_le_bytes 8 height) ∷ put_op tip_hash_key hash ∷ [] in
    ap (λ (d : Db). get d (rocks_key o))
      (write-append db dels (puts ++ meta) ∙ write-append (write db dels) puts meta)
    ∙ get-write_meta (write (write db dels) puts) o (to_le_bytes 8 height) hash
    ∙ get-write_puts (write db dels) p.puts o w u.put_keys u.unique
    ∙ ap (encoded_or (get p.puts o)) (get-write_deletes db p.deletes o w u.delete_keys)

get-IsStored :
    (curve : Curve) (ps : List (OutPoint × Script)) (o : OutPoint) (s : Script)
    → All (λ (e : OutPoint × Script). IsStored curve e.1) ps
    → get ps o ≡ some s
    → IsStored curve s
unfolding get outpoint_keyed
get-IsStored curve [] o s all e = absurd (some-ne-none s (sym e))
get-IsStored curve (x ∷ ps) o s all e = elim (Bool-cases (same_outpoint x.0 o)) [
  | inl here ↦ subst (IsStored curve) (some-injective x.1 s (rw here at e)) all.0
  | inr other ↦ get-IsStored curve ps o s all.1 (rw other at e)
]

decode_found : Curve → Option (List ℕ) → Result Error (Option Script)
decode_found curve none = ok none
decode_found curve (some bytes) = do entry ← decode_prevout_entry curve bytes; ok (some entry)

stored-decode_found :
    (curve : Curve) (db : Db) (o : OutPoint)
    → stored curve db o ≡ decode_found curve (get db (rocks_key o))
unfolding stored decode_found
stored-decode_found curve db o = elim (Option-cases (get db (rocks_key o))) [
  | inl e ↦ rw (stored, e) refl
  | inr (_, e) ↦ rw (stored, e) refl
]

flushed :
    (curve : Curve) (db : Db) (o : OutPoint) (a : Option Script) (b : Option (Unit {0}))
    → ((s : Script) → a ≡ some s → IsStored curve s)
    → decode_found curve (encoded_or a (or_below b (get db (rocks_key o))))
      ≡ found a b (stored curve db o)
unfolding decode_found encoded_or or_below found
flushed curve db o (some s) b fit = rw (decode-encode_prevout_entry curve s (fit s refl)) refl
flushed curve db o none (some _) fit = refl
flushed curve db o none none fit = sym (stored-decode_found curve db o)

-- After the batch is written, a lookup with nothing pending finds what it found before through the
-- pending writes, at every well-formed outpoint.
pub lookup_prevout-apply_pending :
    (curve : Curve) (db : Db) (p : Pending) (height : ℕ) (hash : List ℕ) (o : OutPoint)
    → IsOutPoint o
    → IsWritable curve p
    → lookup_prevout curve (apply_pending db p height hash) no_pending o
      ≡ lookup_prevout curve db p o
unfolding found get
lookup_prevout-apply_pending curve db p height hash o w u =
    lookup_prevout-found curve (apply_pending db p height hash) no_pending o
    ∙ stored-decode_found curve (apply_pending db p height hash) o
    ∙ ap (decode_found curve) (get-apply_pending curve db p height hash o w u)
    ∙ flushed curve db o (get p.puts o) (get p.deletes o)
        (λ s e. get-IsStored curve p.puts o s u.entries e)
    ∙ sym (lookup_prevout-found curve db p o)
