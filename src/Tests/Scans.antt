-- ===== src/Tests/Scans.antt =====
-- Runs of stats/src/scan.rs, sources/src/multi.rs and core/src/pipeline.rs.
use bitcoin_data.Base.{
  suc, zero, List, Result, Unique, [], arith, bytes_keyed, err, false, get, get_or, if◌then◌else◌,
  map, none, ok, refl, replicate, some, true, ℕ, ◌==◌, ◌∷◌, ◌≡◌,
}
use bitcoin_data.ScriptTypes.{p2tr, p2wpkh, merge_counts}
use bitcoin_data.Spend.{key}
use bitcoin_data.SortedUids.{BlockEstimate}
use bitcoin_data.PerBlock.{Row}
use bitcoin_data.Scanner.{State, new_state, PreparedTx}
use bitcoin_data.Scanner.Blocks.{scan_block}
use bitcoin_data.Scanner.Whole.{IsReady, Scanned, scan_block-IsReady}
use bitcoin_data.Scanner.RowSums.{RowSums, scan_block-RowSums}
use bitcoin_data.Sources.{RawBlockFrame, heights, raw_block_stream_by_height_batched}
use bitcoin_data.Sources.Multi.{MultiSource, last_error, try_sources, request}
use bitcoin_data.Sources.Answers.{Answered, request-Answered, try_sources_missed}
use bitcoin_data.Sources.Batches.{KeepsOrder, items, raw_block_stream_by_height_batched-items}

-- Stands for SHA-256.
abbrev digest : List ℕ → List ℕ
digest bytes = get_or bytes 10 0 ∷ replicate 31 5

abbrev coinbase_tx : PreparedTx
coinbase_tx = record {
  txid = replicate 32 1;
  is_coinbase = true;
  inputs = [];
  output_script_types = p2tr ∷ p2wpkh ∷ [];
  output_xonly_keys = some (replicate 32 7) ∷ none ∷ [];
}

-- Spends the taproot output of the coinbase and an output from before the scan.
abbrev spending_tx : PreparedTx
spending_tx = record {
  txid = replicate 32 2;
  is_coinbase = false;
  inputs =
      record {
        previous_output = record { txid = replicate 32 1; vout = 0 };
        p2tr_spend_class = record { path = key; inscription = false };
      }
      ∷ record {
        previous_output = record { txid = replicate 32 9; vout = 4 };
        p2tr_spend_class = record { path = key; inscription = false };
      }
      ∷ [];
  output_script_types = p2tr ∷ [];
  output_xonly_keys = some (replicate 32 7) ∷ [];
}

new_state-IsReady : IsReady (new_state 2)
unfolding new_state Unique get
new_state-IsReady = record {
  live = record { unique = tt; below = tt; distinct = tt };
  held = omega arith;
  counted = refl;
}

scan_block-IsReady_example :
    (r : State × Row × BlockEstimate × BlockEstimate) × (scan_block digest
        (new_state 2)
        (coinbase_tx ∷ spending_tx ∷ [])
      ≡ ok r)
    × Scanned (new_state 2) (coinbase_tx ∷ spending_tx ∷ []) r
unfolding new_state
scan_block-IsReady_example =
    scan_block-IsReady digest (new_state 2) (coinbase_tx ∷ spending_tx ∷ []) (omega arith)
      new_state-IsReady

scan_block-RowSums_example :
    (r : State × Row × BlockEstimate × BlockEstimate) × (scan_block digest
        (new_state 2)
        (coinbase_tx ∷ spending_tx ∷ [])
      ≡ ok r)
    × RowSums (new_state 2).stats r.0.stats r.1
unfolding new_state merge_counts
scan_block-RowSums_example =
    scan_block-RowSums digest (new_state 2) (coinbase_tx ∷ spending_tx ∷ []) (omega arith)
      new_state-IsReady refl refl

-- Of three sources the first fails.
abbrev answers : ℕ → Result ℕ ℕ
answers i = if i == 0 then err 5 else ok i

abbrev three_sources : MultiSource
three_sources = record { sources = 3; cursor = 6 }

request-Answered_example : Answered answers 3 (request answers three_sources)
request-Answered_example =
    request-Answered answers three_sources 2 2 (omega arith) (omega arith) refl

try_sources_missed_example :
    (x : ℕ) × (try_sources answers (0 ∷ 2 ∷ 2 ∷ []) three_sources none ≡ err (last_error x))
try_sources_missed_example =
    try_sources_missed answers three_sources 2 5 (omega arith) (omega arith) refl

abbrev a_frame : ℕ → RawBlockFrame
a_frame height = record {
  height = height;
  hash = replicate 32 height;
  bytes = height ∷ [];
  spent_txouts = none;
}

abbrev a_fetch : ℕ → ℕ → Result ℕ (List RawBlockFrame)
a_fetch start count = ok (map a_frame (heights start count))

-- Stands for `buffered`, which gives nothing when it may not wait for any answer.
abbrev in_order : ℕ → List (Result ℕ (List RawBlockFrame)) → List (Result ℕ (List RawBlockFrame))
in_order zero xs = []
in_order (suc n) xs = xs

in_order-KeepsOrder : KeepsOrder in_order
in_order-KeepsOrder zero xs h = absurd (omega (arith, h))
in_order-KeepsOrder (suc n) xs h = refl

raw_block_stream_by_height_batched-items_example :
    raw_block_stream_by_height_batched in_order a_fetch 100 5 3 2 ≡ items a_fetch a_frame 100 5
raw_block_stream_by_height_batched-items_example =
    raw_block_stream_by_height_batched-items a_fetch a_frame in_order 100 5 3 2 in_order-KeepsOrder
      (omega arith) (omega arith) (λ s n h k. refl)
