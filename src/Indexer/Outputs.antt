-- ===== src/Indexer/Outputs.antt =====
-- light-server/src/p2tr_indexer.rs, `apply_block_with_stats`: the inputs and the outputs of one
-- transaction.
use bitcoin_data.Base.{
  Bool, List, Option, Result, [], bytes_keyed, ensure, false, get, if◌then◌else◌, insert, length,
  ltb, none, ok, ok_or, remove, some, true, ℕ, ◌%◌, ◌++◌, ◌+◌, ◌-◌, ◌>>=◌, ◌>>◌, ◌^◌, ◌||◌, ◌∷◌,
}
use bitcoin_data.OutPoint.{OutPoint, outpoint_keyed}
use bitcoin_data.Indexer.{
  Error, height_too_large, too_many_outputs, missing_key, uid_overflow, SpendLookup, TxOutput, Tx,
  Progress,
}

-- A 32-bit counter.
unfoldable pub incr : ℕ → ℕ
incr n = (n + 1) % 2 ^ 32

-- The state and the lists without a spent output.
unfoldable pub drop_spent : ℕ → Progress → OutPoint → SpendLookup → Progress
unfolding remove incr
drop_spent tx_index acc outpoint spend = record acc {
  state = record acc.state {
    outpoint_to_spend = remove acc.state.outpoint_to_spend outpoint;
    live_uid_count = acc.state.live_uid_count - 1;
  };
  stats = record acc.stats { indexed_spent_count = incr acc.stats.indexed_spent_count };
  spent =
      acc.spent
      ++ record {
        outpoint = outpoint;
        uid = spend.uid;
        creation_height = spend.creation_height;
        spend_tx_index = tx_index;
      }
        ∷ [];
}

unfoldable pub spend_input : ℕ → Progress → OutPoint → Result Error Progress
unfolding get drop_spent
spend_input tx_index acc outpoint = elim (get acc.state.outpoint_to_spend outpoint) [
  | none ↦ ok acc
  | some spend ↦ do
    ensure (ltb spend.creation_height (2 ^ 32)) height_too_large
    ok (drop_spent tx_index acc outpoint spend)
]

unfoldable pub spend_inputs : ℕ → Progress → List OutPoint → Result Error Progress
unfolding spend_input
spend_inputs tx_index acc [] = ok acc
spend_inputs tx_index acc (outpoint ∷ inputs) = do
  acc' ← spend_input tx_index acc outpoint
  spend_inputs tx_index acc' inputs

-- `seen_p2tr_keys.insert(key)`: whether the key was there before, and the set after.
unfoldable pub see_key :
    Option (List (List ℕ × Unit {0})) → List ℕ → Bool × Option (List (List ℕ × Unit {0}))
unfolding get insert
see_key none key = (false, none)
see_key (some seen) key = elim (get seen key) [
  | none ↦ (false, some (insert seen key tt))
  | some _ ↦ (true, some seen)
]

-- The state and the lists with a new output. Its dense index is the number of outputs created
-- before it.
unfoldable pub create_output : ℕ → ℕ → Tx → Progress → TxOutput → List ℕ → Bool → Progress
unfolding insert incr
create_output uid height tx acc output key is_reused =
    let outpoint : OutPoint = record { txid = tx.txid; vout = output.vout } in
    let output_index = length acc.created in
    let spend : SpendLookup = record {
      uid = uid;
      creation_height = height;
      output_index = output_index;
      flags = if is_reused then 1 else 0;
    } in
    record acc {
      state = record acc.state {
        outpoint_to_spend = insert acc.state.outpoint_to_spend outpoint spend;
        live_uid_count = acc.state.live_uid_count + 1;
      };
      stats = record acc.stats { indexed_output_count = incr acc.stats.indexed_output_count };
      created =
          acc.created
          ++ record {
            outpoint = outpoint;
            uid = uid;
            output_index = output_index;
            key = key;
            is_reused = is_reused;
          }
            ∷ [];
    }

-- An output that is not omitted: its uid is the first of the block plus its slot.
unfoldable pub index_output :
    ℕ → ℕ → Tx → Progress → ℕ → TxOutput → ℕ → List ℕ → Bool → Result Error (Progress × ℕ)
unfolding create_output
index_output first_uid height tx acc indexed output slot key is_reused = do
  ensure (ltb (indexed + 1) (2 ^ 16)) too_many_outputs
  ensure (ltb (first_uid + slot) (2 ^ 64)) uid_overflow
  ensure (ltb (length acc.created) (2 ^ 32)) too_many_outputs
  ok (create_output (first_uid + slot) height tx acc output key is_reused, indexed + 1)

-- Whether an output keeps its slot but is left out of the dense list.
unfoldable pub is_omitted : Tx → TxOutput → Bool
is_omitted tx output =
    output.is_nums || elim tx.silent_payment_tweak [ none ↦ true | some _ ↦ false ]

-- The counters and the set of seen keys after a taproot output with a key.
unfoldable pub count_slot : Progress → TxOutput → List ℕ → Progress
unfolding see_key incr
count_slot acc output key = record acc {
  stats = record acc.stats {
    p2tr_output_count = acc.stats.p2tr_output_count + 1;
    p2tr_count = incr acc.stats.p2tr_count;
    p2tr_nums_count =
        if output.is_nums then incr acc.stats.p2tr_nums_count else acc.stats.p2tr_nums_count;
    p2tr_reused_count =
        if (see_key acc.state.seen_p2tr_keys key).0
        then incr acc.stats.p2tr_reused_count
        else acc.stats.p2tr_reused_count;
  };
  state = record acc.state { seen_p2tr_keys = (see_key acc.state.seen_p2tr_keys key).1 };
}

unfoldable pub omit_output : ℕ → Progress → Progress
unfolding incr
omit_output slot acc = record acc {
  stats = record acc.stats {
    p2tr_excluded_by_scope_count = incr acc.stats.p2tr_excluded_by_scope_count;
  };
  skipped_outputs = acc.skipped_outputs ++ slot ∷ [];
}

-- A taproot output with its key, at its slot.
unfoldable pub take_slot :
    ℕ → ℕ → Tx → Progress → ℕ → TxOutput → List ℕ → Result Error (Progress × ℕ)
unfolding count_slot omit_output is_omitted index_output
take_slot first_uid height tx acc indexed output key =
    let slot = acc.stats.p2tr_output_count in
    let acc' = count_slot acc output key in
    if is_omitted tx output
    then ok (omit_output slot acc', indexed)
    else index_output first_uid height tx acc' indexed output slot key
        (see_key acc.state.seen_p2tr_keys key).0

unfoldable pub count_output : Progress → Progress
unfolding incr
count_output acc = record acc {
  stats = record acc.stats { output_count_total = incr acc.stats.output_count_total };
}

-- One output of a transaction; the pair counts the transaction's indexed outputs.
unfoldable pub scan_output : ℕ → ℕ → Tx → Progress × ℕ → TxOutput → Result Error (Progress × ℕ)
unfolding take_slot count_output
scan_output first_uid height tx (acc, indexed) output =
    if output.is_p2tr
    then (do
      ensure (ltb acc.stats.p2tr_output_count (2 ^ 16)) too_many_outputs
      key ← ok_or output.p2tr_xonly_key missing_key
      take_slot first_uid height tx (count_output acc) indexed output key)
    else ok (count_output acc, indexed)

unfoldable pub scan_outputs :
    ℕ → ℕ → Tx → Progress × ℕ → List TxOutput → Result Error (Progress × ℕ)
unfolding scan_output
scan_outputs first_uid height tx acc [] = ok acc
scan_outputs first_uid height tx acc (output ∷ outputs) = do
  acc' ← scan_output first_uid height tx acc output
  scan_outputs first_uid height tx acc' outputs
