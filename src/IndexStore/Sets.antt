-- ===== src/IndexStore/Sets.antt =====
-- light-server/src/index_store.rs, `commit_applied_blocks`: operations of a batch that set the
-- count of one seen key, and operations that leave it.
use bitcoin_data.Base.{
  Bool, Bool-cases, List, [], ap, bytes_keyed, false, get, get-insert, get-remove, if◌then◌else◌,
  inl, inr, insert, map, refl, remove, same_bytes, same_bytes-eq, some, true, ℕ, ◌++◌, ◌||◌, ◌∙◌,
  ◌∷◌, ◌≡◌,
}
use bitcoin_data.Helper.{to_be_bytes}
use bitcoin_data.OutPoint.{OutPoint}
use bitcoin_data.Indexer.{Spent}
use bitcoin_data.IndexStore.{
  Db, BatchOp, put_op, delete_op, write, seen_key, outpoint_key, tip_height_key, tip_hash_key,
  last_uid_key,
}

-- The operations set the count of a key to `v` where `hit` holds, and leave it otherwise.
abbrev pub Sets : List ℕ → List ℕ → Bool → List BatchOp → Type 0
Sets key v hit ops =
    (d : Db) → get (write d ops) (seen_key key) ≡ (if hit then some v else get d (seen_key key))

write-append : (d : Db) (ops more : List BatchOp) → write d (ops ++ more) ≡ write (write d ops) more
unfolding write
write-append d [] more = refl
write-append d (put_op k v ∷ ops) more = write-append (insert d k v) ops more
write-append d (delete_op k ∷ ops) more = write-append (remove d k) ops more

last_hit {ℓ} :
    {A : Type ℓ} (hit hit' : Bool) (x y z : A)
    → y ≡ (if hit then x else z)
    → (if hit' then x else y) ≡ (if hit || hit' then x else z)
last_hit true true x y z e = refl
last_hit true false x y z e = e
last_hit false true x y z e = refl
last_hit false false x y z e = e

pub Sets-append :
    (key v : List ℕ) (hit hit' : Bool) (ops more : List BatchOp)
    → Sets key v hit ops
    → Sets key v hit' more
    → Sets key v (hit || hit') (ops ++ more)
Sets-append key v hit hit' ops more h h' = λ d.
    ap (λ (m : Db). get m (seen_key key)) (write-append d ops more)
    ∙ h' (write d ops)
    ∙ last_hit hit hit' (some v) (get (write d ops) (seen_key key)) (get d (seen_key key)) (h d)

pub Sets-nothing : (key v : List ℕ) → Sets key v false []
unfolding write
Sets-nothing key v = λ d. refl

put_other-Sets :
    (key v k w : List ℕ) → same_bytes k (seen_key key) ≡ false → Sets key v false (put_op k w ∷ [])
unfolding write bytes_keyed
put_other-Sets key v k w differ = λ d. rw differ at (get-insert d k (seen_key key) w)

delete_outpoint-Sets :
    (key v : List ℕ) (o : OutPoint) → Sets key v false (delete_op (outpoint_key o) ∷ [])
unfolding write bytes_keyed outpoint_key seen_key same_bytes
delete_outpoint-Sets key v o = λ d. get-remove d (outpoint_key o) (seen_key key)

pub put_outpoint-Sets :
    (key v w : List ℕ) (o : OutPoint) → Sets key v false (put_op (outpoint_key o) w ∷ [])
unfolding outpoint_key seen_key same_bytes
put_outpoint-Sets key v w o = put_other-Sets key v (outpoint_key o) w refl

pub put_seen-Sets :
    (key k : List ℕ) (value : List ℕ → List ℕ)
    → Sets key (value key) (same_bytes k key) (put_op (seen_key k) (value k) ∷ [])
unfolding write bytes_keyed seen_key same_bytes
put_seen-Sets key k value = λ d.
    get-insert d (seen_key k) (seen_key key) (value k) ∙ elim (Bool-cases (same_bytes k key)) [
      | inl same ↦ rw same (ap (λ (x : List ℕ). some (value x)) (same_bytes-eq k key same))
      | inr differ ↦ rw differ refl
    ]

pub deletes-Sets :
    (key v : List ℕ) (spent : List Spent)
    → Sets key v false (map (λ (s : Spent). delete_op (outpoint_key s.outpoint)) spent)
deletes-Sets key v [] = Sets-nothing key v
deletes-Sets key v (s ∷ spent) =
    Sets-append key v false false (delete_op (outpoint_key s.outpoint) ∷ []) _
      (delete_outpoint-Sets key v s.outpoint) (deletes-Sets key v spent)

unfoldable pub tip_ops : ℕ → List ℕ → ℕ → List BatchOp
tip_ops tip_height tip_hash last_uid =
    put_op tip_height_key (to_be_bytes 8 tip_height)
    ∷ put_op tip_hash_key tip_hash
    ∷ put_op last_uid_key (to_be_bytes 8 last_uid)
    ∷ []

pub tip_ops-Sets :
    (key v : List ℕ) (tip_height : ℕ) (tip_hash : List ℕ) (last_uid : ℕ)
    → Sets key v false (tip_ops tip_height tip_hash last_uid)
unfolding tip_ops seen_key same_bytes
tip_ops-Sets key v tip_height tip_hash last_uid =
    Sets-append key v false false (put_op tip_height_key _ ∷ []) _
      (put_other-Sets key v tip_height_key (to_be_bytes 8 tip_height) refl)
      (Sets-append key v false false (put_op tip_hash_key _ ∷ []) _
        (put_other-Sets key v tip_hash_key tip_hash refl)
        (put_other-Sets key v last_uid_key (to_be_bytes 8 last_uid) refl))

pub or_false : (b : Bool) → (b || false) ≡ b
or_false true = refl
or_false false = refl
