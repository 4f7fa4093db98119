-- ===== src/IndexStore.antt =====
-- light-server/src/index_store.rs: keys and values of the index database, and the batch that commits
-- applied blocks. The database is a map of byte strings; opening and flushing it are left out.
pub mod RoundTrip
pub mod Sets
pub mod SeenCount
use bitcoin_data.Base.{
  List, Result, [], bytes_keyed, err, get, get_or, if◌then◌else◌, insert, length, map, none, ok,
  remove, saturating_add_u64, some, ℕ, ◌++◌, ◌==◌, ◌>>=◌, ◌>>◌, ◌||◌, ◌∷◌,
}
use bitcoin_data.Helper.{LengthError, slice, to_be_bytes, read_u32_be, read_u64_be, read_32}
use bitcoin_data.OutPoint.{OutPoint}
use bitcoin_data.Indexer.{SpendLookup, Created, Spent}

abbrev pub Db : Type 0
Db = List (List ℕ × List ℕ)

pub data Error : Type 0 where
  bad_length : LengthError → Error
  reindex_needed : Error
  invalid_length : ℕ → Error

unfoldable pub lift {ℓ} : {A : Type ℓ} → Result LengthError A → Result Error A
lift (ok a) = ok a
lift (err e) = err (bad_length e)

-- `o:`, the transaction id and the index.
unfoldable pub outpoint_key : OutPoint → List ℕ
outpoint_key outpoint = 111 ∷ 58 ∷ outpoint.txid ++ to_be_bytes 4 outpoint.vout

-- `k:` and the key.
unfoldable pub seen_key : List ℕ → List ℕ
seen_key xonly = 107 ∷ 58 ∷ xonly

unfoldable pub encode_spend_lookup : SpendLookup → List ℕ
encode_spend_lookup spend =
    to_be_bytes 8 spend.uid
    ++ (to_be_bytes 8 spend.creation_height
        ++ (to_be_bytes 4 spend.output_index ++ spend.flags ∷ []))

-- The fields that both accepted lengths have.
unfoldable pub read_fields : List ℕ → ℕ → Result Error SpendLookup
unfolding lift read_u64_be read_u32_be
read_fields bytes flags = do
  uid ← lift (read_u64_be (slice bytes 0 8))
  creation_height ← lift (read_u64_be (slice bytes 8 16))
  output_index ← lift (read_u32_be (slice bytes 16 20))
  ok (record {
    uid = uid;
    creation_height = creation_height;
    output_index = output_index;
    flags = flags;
  })

unfoldable pub read_spend_lookup : List ℕ → Result Error SpendLookup
unfolding read_fields
read_spend_lookup bytes =
    let len = length bytes in
    if len == 21
    then read_fields bytes (get_or bytes 20 0)
    else if len == 20
    then read_fields bytes 0
    else if len == 8 || len == 16 || len == 17
    then err reindex_needed
    else err (invalid_length len)

pub data BatchOp : Type 0 where
  put_op : List ℕ → List ℕ → BatchOp
  delete_op : List ℕ → BatchOp

unfoldable pub write : Db → List BatchOp → Db
unfolding insert remove
write db [] = db
write db (put_op key value ∷ ops) = write (insert db key value) ops
write db (delete_op key ∷ ops) = write (remove db key) ops

-- The count under a seen key, read from the database as it was before the batch.
unfoldable pub next_count : Db → List ℕ → Result Error ℕ
unfolding get lift read_u64_be seen_key
next_count db key = elim (get db (seen_key key)) [
  | none ↦ ok 1
  | some bytes ↦ do count ← lift (read_u64_be bytes); ok (saturating_add_u64 count 1)
]

unfoldable pub created_ops : Db → ℕ → List Created → Result Error (List BatchOp)
unfolding next_count outpoint_key encode_spend_lookup
created_ops db height [] = ok []
created_ops db height (c ∷ cs) = do
  count ← next_count db c.key
  rest ← created_ops db height cs
  ok (
      put_op (outpoint_key c.outpoint) (
        encode_spend_lookup (record {
          uid = c.uid;
          creation_height = height;
          output_index = c.output_index;
          flags = if c.is_reused then 1 else 0;
        }))
      ∷ put_op (seen_key c.key) (to_be_bytes 8 count)
      ∷ rest)

-- The operations of one block, with the height at which its outputs were created.
unfoldable pub block_ops : Db → ℕ → List Created → List Spent → Result Error (List BatchOp)
unfolding created_ops outpoint_key
block_ops db height created spent = do
  ops ← created_ops db height created
  ok (ops ++ map (λ (s : Spent). delete_op (outpoint_key s.outpoint)) spent)

pub record Applied : Type 0 where
  pub height : ℕ
  pub created : List Created
  pub spent : List Spent

unfoldable pub blocks_ops : Db → List Applied → Result Error (List BatchOp)
unfolding block_ops
blocks_ops db [] = ok []
blocks_ops db (b ∷ blocks) = do
  ops ← block_ops db b.height b.created b.spent
  rest ← blocks_ops db blocks
  ok (ops ++ rest)

-- `m:tip_height`, `m:tip_hash` and `m:last_uid`.
abbrev pub tip_height_key : List ℕ
tip_height_key =
    b'm' ∷ b':' ∷ b't' ∷ b'i' ∷ b'p' ∷ b'_' ∷ b'h' ∷ b'e' ∷ b'i' ∷ b'g' ∷ b'h' ∷ b't' ∷ []

abbrev pub tip_hash_key : List ℕ
tip_hash_key = b'm' ∷ b':' ∷ b't' ∷ b'i' ∷ b'p' ∷ b'_' ∷ b'h' ∷ b'a' ∷ b's' ∷ b'h' ∷ []

abbrev pub last_uid_key : List ℕ
last_uid_key = b'm' ∷ b':' ∷ b'l' ∷ b'a' ∷ b's' ∷ b't' ∷ b'_' ∷ b'u' ∷ b'i' ∷ b'd' ∷ []

unfoldable pub commit_applied_blocks : Db → List Applied → ℕ → List ℕ → ℕ → Result Error Db
unfolding write blocks_ops
commit_applied_blocks db blocks tip_height tip_hash last_uid = do
  ops ← blocks_ops db blocks
  ok (
      write db (
        ops
        ++ put_op tip_height_key (to_be_bytes 8 tip_height)
          ∷ put_op tip_hash_key tip_hash
          ∷ put_op last_uid_key (to_be_bytes 8 last_uid)
          ∷ []))

-- What the database holds for one outpoint.
unfoldable pub lookup_outpoint : Db → OutPoint → Result Error (List (OutPoint × SpendLookup))
unfolding get outpoint_key read_spend_lookup
lookup_outpoint db o = elim (get db (outpoint_key o)) [
  | none ↦ ok []
  | some value ↦ do spend ← read_spend_lookup value; ok ((o, spend) ∷ [])
]

unfoldable pub lookup_outpoint_uids :
    Db → List OutPoint → Result Error (List (OutPoint × SpendLookup))
unfolding lookup_outpoint
lookup_outpoint_uids db [] = ok []
lookup_outpoint_uids db (o ∷ outpoints) = do
  found ← lookup_outpoint db o
  rest ← lookup_outpoint_uids db outpoints
  ok (found ++ rest)
