-- ===== src/Sources.antt =====
-- core/src/source.rs, core/src/pipeline.rs and sources/src/multi.rs: what sources answer, batches of
-- heights, and the choice among several sources. An answer is a result; waiting for it is left out.
pub mod Multi
pub mod Answers
pub mod Batches
use bitcoin_data.Base.{
  List, Option, Result, [], bytes_keyed, err, if◌then◌else◌, map, max, min, ok, suc, zero, ℕ, ◌*◌,
  ◌%◌, ◌^◌, ◌++◌, ◌+◌, ◌-◌, ◌/◌, ◌==◌, ◌>>=◌, ◌>>◌, ◌∷◌,
}
use bitcoin_data.Undo.{BlockSpentTxOuts}

pub record RawBlockFrame : Type 0 where
  pub height : ℕ
  pub hash : List ℕ
  pub bytes : List ℕ
  pub spent_txouts : Option BlockSpentTxOuts

-- The calls that a source answers itself.
pub record BlockSource (E : Type 0) : Type 0 where
  pub get_block_hash : ℕ → Result E (List ℕ)
  pub get_block_raw : List ℕ → Result E (List ℕ)
  pub get_block_spent_txouts : List ℕ → Result E (Option BlockSpentTxOuts)

-- `f` of every element, up to the first error.
unfoldable pub collect : {E A B : Type 0} → (A → Result E B) → List A → Result E (List B)
collect f [] = ok []
collect f (x ∷ xs) = do y ← f x; ys ← collect f xs; ok (y ∷ ys)

-- `start..(start + count)`.
unfoldable pub heights : ℕ → ℕ → List ℕ
heights start zero = []
heights start (suc count) = start ∷ heights (start + 1) count

module _ {E : Type 0} (source : BlockSource E) where
  unfoldable pub get_blocks_spent_txouts : List (List ℕ) → Result E (List (Option BlockSpentTxOuts))
  unfolding collect
  get_blocks_spent_txouts hashes = collect source.get_block_spent_txouts hashes

  unfoldable pub get_block_by_height : ℕ → Result E RawBlockFrame
  get_block_by_height height = do
    hash ← source.get_block_hash height
    bytes ← source.get_block_raw hash
    spent_txouts ← source.get_block_spent_txouts hash
    ok (record { height = height; hash = hash; bytes = bytes; spent_txouts = spent_txouts })

  unfoldable pub get_block_range_by_height : ℕ → ℕ → Result E (List RawBlockFrame)
  unfolding collect heights get_block_by_height
  get_block_range_by_height start_height count =
      collect get_block_by_height (heights start_height count)

  unfoldable pub prefetch_hashes : ℕ → ℕ → Result E (List (List ℕ))
  unfolding collect heights
  prefetch_hashes start count = collect source.get_block_hash (heights start count)

-- The items of a batch: its frames, or its one error.
unfoldable pub batch_items :
    {E : Type 0} → Result E (List RawBlockFrame) → List (Result E RawBlockFrame)
batch_items (ok frames) = map ok frames
batch_items (err e) = err e ∷ []

unfoldable pub flat_items :
    {E : Type 0} → List (Result E (List RawBlockFrame)) → List (Result E RawBlockFrame)
unfolding batch_items
flat_items [] = []
flat_items (batch ∷ batches) = batch_items batch ++ flat_items batches

-- The answers to `batches` batches from the index `batch_idx` on, over the range call `fetch`.
unfoldable pub batches_from :
    {E : Type 0}
    → (ℕ → ℕ → Result E (List RawBlockFrame))
    → ℕ
    → ℕ
    → ℕ
    → ℕ
    → ℕ
    → List (Result E (List RawBlockFrame))
batches_from fetch start_height count batch_size batch_idx zero = []
batches_from fetch start_height count batch_size batch_idx (suc batches) =
    let batch_start = (start_height + batch_idx * batch_size) % 2 ^ 64 in
    let remaining = (start_height + count + (2 ^ 64 - batch_start)) % 2 ^ 64 in
    fetch batch_start (min remaining batch_size)
    ∷ batches_from fetch start_height count batch_size (batch_idx + 1) batches

-- The parameter `buffered` is the stream combinator of the futures crate.
unfoldable pub raw_block_stream_by_height_batched :
    {E : Type 0}
    → (ℕ → List (Result E (List RawBlockFrame)) → List (Result E (List RawBlockFrame)))
    → (ℕ → ℕ → Result E (List RawBlockFrame))
    → ℕ
    → ℕ
    → ℕ
    → ℕ
    → List (Result E RawBlockFrame)
unfolding flat_items batches_from
raw_block_stream_by_height_batched buffered fetch start_height count buffer batch_size =
    let size = max batch_size 1 in
    let batches = if count == 0 then 0 else (count + size - 1) / size in
    flat_items (buffered buffer (batches_from fetch start_height count size 0 batches))
