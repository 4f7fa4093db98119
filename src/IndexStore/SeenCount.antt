-- ===== src/IndexStore/SeenCount.antt =====
-- light-server/src/index_store.rs, `commit_applied_blocks`: the counts kept for the seen keys.
use bitcoin_data.Base.{
  Bool, List, Result, [], arith, bytes_keyed, false, get, if◌then◌else◌, inl, inr, map, min, none,
  ok, refl, same_bytes, some, subst, ℕ, ◌++◌, ◌+◌, ◌-◌, ◌<◌, ◌^◌, ◌||◌, ◌∷◌, ◌≡◌, ◌⊎◌,
}
use bitcoin_data.Helper.{to_be_bytes, read_u64_be}
use bitcoin_data.Helper.Endian.{read_u64_be-to_be}
use bitcoin_data.Indexer.{Created, Spent, SpendLookup}
use bitcoin_data.IndexStore.{
  Db, Error, BatchOp, Applied, put_op, delete_op, write, lift, seen_key, outpoint_key, next_count,
  created_ops, block_ops, blocks_ops, commit_applied_blocks, encode_spend_lookup,
}
use bitcoin_data.IndexStore.Sets.{
  Sets, Sets-append, Sets-nothing, put_outpoint-Sets, put_seen-Sets, deletes-Sets, tip_ops,
  tip_ops-Sets, or_false,
}

-- The database has seen a key `n` times: it holds that 64-bit number, or nothing for 0.
abbrev pub Counts : Db → List ℕ → ℕ → Type 0
Counts db key n =
    (n < 2 ^ 64)
    × (((n ≡ 0) × (get db (seen_key key) ≡ none))
        ⊎ (get db (seen_key key) ≡ some (to_be_bytes 8 n)))

-- One more, up to the largest 64-bit number.
abbrev pub one_more : ℕ → ℕ
one_more n = min (n + 1) (2 ^ 64 - 1)

-- Whether a list of outputs, or some block, has one with the key.
abbrev pub creates : List ℕ → List Created → Bool
creates key [] = false
creates key (c ∷ cs) = same_bytes c.key key || creates key cs

abbrev pub created_in : List ℕ → List Applied → Bool
created_in key [] = false
created_in key (b ∷ blocks) = creates key b.created || created_in key blocks

next_count-held :
    (db : Db) (key bytes : List ℕ) (n : ℕ)
    → get db (seen_key key) ≡ some bytes
    → read_u64_be bytes ≡ ok n
    → next_count db key ≡ ok (one_more n)
unfolding next_count lift
next_count-held db key bytes n held e = rw (held, next_count, e) refl

next_count-Counts :
    (db : Db) (key : List ℕ) (n : ℕ) → Counts db key n → next_count db key ≡ ok (one_more n)
unfolding next_count lift
next_count-Counts db key n (fits, inl (zero_seen, absent)) = rw (absent, next_count) (ground arith)
next_count-Counts db key n (fits, inr held) =
    next_count-held db key (to_be_bytes 8 n) n held (read_u64_be-to_be n fits)

abbrev lookup_of : ℕ → Created → SpendLookup
lookup_of height c = record {
  uid = c.uid;
  creation_height = height;
  output_index = c.output_index;
  flags = if c.is_reused then 1 else 0;
}

created_ops-cons :
    (db : Db) (height count : ℕ) (c : Created) (cs : List Created) (rest : List BatchOp)
    → next_count db c.key ≡ ok count
    → created_ops db height cs ≡ ok rest
    → created_ops db height (c ∷ cs)
      ≡ ok (
          put_op (outpoint_key c.outpoint) (encode_spend_lookup (lookup_of height c))
          ∷ put_op (seen_key c.key) (to_be_bytes 8 count)
          ∷ rest)
unfolding created_ops
created_ops-cons db height count c cs rest e e' = rw (e, e') refl

module _ (db : Db) (count : List ℕ → ℕ) (counted : (key : List ℕ) → Counts db key (count key)) where
  -- The count that a key gets when it is created.
  new_value : List ℕ → List ℕ
  new_value key = to_be_bytes 8 (one_more (count key))

  -- A step of the batch that returns operations which count the keys that `hit` tells of.
  abbrev Counted : Result Error (List BatchOp) → (List ℕ → Bool) → Type 0
  Counted r hit =
      (ops : List BatchOp) × (r ≡ ok ops)
      × ((key : List ℕ) → Sets key (new_value key) (hit key) ops)

  created_ops-Counted :
      (height : ℕ) (cs : List Created) → Counted (created_ops db height cs) (λ key. creates key cs)
  unfolding created_ops new_value
  created_ops-Counted height [] = ([], refl, λ key. Sets-nothing key (new_value key))
  created_ops-Counted height (c ∷ cs) =
      let (rest, made, sets) = created_ops-Counted height cs in
      let put = put_op (outpoint_key c.outpoint) (encode_spend_lookup (lookup_of height c)) in
      let put' = put_op (seen_key c.key) (new_value c.key) in
      (
        put ∷ put' ∷ rest,
        created_ops-cons db height (one_more (count c.key)) c cs rest
            (next_count-Counts db c.key (count c.key) (counted c.key)) made,
        λ key.
            Sets-append key (new_value key) false (same_bytes c.key key || creates key cs)
              (put ∷ []) (put' ∷ rest)
              (put_outpoint-Sets key (new_value key) (encode_spend_lookup (lookup_of height c))
                c.outpoint)
              (Sets-append key (new_value key) (same_bytes c.key key) (creates key cs) (put' ∷ [])
                rest (put_seen-Sets key c.key new_value) (sets key)),
      )

  block_ops-Counted :
      (b : Applied)
      → Counted (block_ops db b.height b.created b.spent) (λ key. creates key b.created)
  unfolding block_ops
  block_ops-Counted b =
      let (ops, made, sets) = created_ops-Counted b.height b.created in
      let deletes = map (λ (s : Spent). delete_op (outpoint_key s.outpoint)) b.spent in
      (
        ops ++ deletes,
        rw made refl,
        λ key.
            subst (λ (hit : Bool). Sets key (new_value key) hit (ops ++ deletes))
              (or_false (creates key b.created))
              (Sets-append key (new_value key) (creates key b.created) false ops deletes (sets key)
                (deletes-Sets key (new_value key) b.spent)),
      )

  blocks_ops-Counted :
      (blocks : List Applied) → Counted (blocks_ops db blocks) (λ key. created_in key blocks)
  unfolding blocks_ops
  blocks_ops-Counted [] = ([], refl, λ key. Sets-nothing key (new_value key))
  blocks_ops-Counted (b ∷ blocks) =
      let (ops, made, sets) = block_ops-Counted b in
      let (rest, made', sets') = blocks_ops-Counted blocks in
      (
        ops ++ rest,
        rw (made, made') refl,
        λ key.
            Sets-append key (new_value key) (creates key b.created) (created_in key blocks) ops rest
              (sets key) (sets' key),
      )

-- On a database that holds a proper count for every key, the batch of any applied blocks is
-- committed. However many outputs of these blocks have a key, at least one, its count is then one
-- more than before the batch, up to the largest 64-bit number; the entry of a key that none of them
-- has is as it was.
pub commit_applied_blocks_seen_once :
    (db : Db) (count : List ℕ → ℕ) (blocks : List Applied) (tip_height : ℕ) (tip_hash : List ℕ)
    (last_uid : ℕ) (key : List ℕ)
    → ((k : List ℕ) → Counts db k (count k))
    → (db' : Db) × (commit_applied_blocks db blocks tip_height tip_hash last_uid ≡ ok db')
      × (get db' (seen_key key) ≡ (
          if created_in key blocks
          then some (to_be_bytes 8 (one_more (count key)))
          else get db (seen_key key)))
unfolding commit_applied_blocks tip_ops new_value
commit_applied_blocks_seen_once db count blocks tip_height tip_hash last_uid key counted =
    let (ops, made, sets) = blocks_ops-Counted db count counted blocks in
    let tip = tip_ops tip_height tip_hash last_uid in
    let v = to_be_bytes 8 (one_more (count key)) in
    (
      write db (ops ++ tip),
      rw made refl,
      subst (λ (hit : Bool). Sets key v hit (ops ++ tip)) (or_false (created_in key blocks))
          (Sets-append key v (created_in key blocks) false ops tip (sets key)
            (tip_ops-Sets key v tip_height tip_hash last_uid))
          db,
    )
