-- ===== src/Scanner/Whole.antt =====
-- stats/src/scan.rs, `scan`: a block is scanned without a panic and the invariant is kept.
use bitcoin_data.Base.{
  List, arith, bytes_keyed, length, ok, refl, sym, ℕ, ◌%◌, ◌+◌, ◌-◌, ◌<◌, ◌^◌, ◌∙◌, ◌≡◌, ◌≤◌,
}
use bitcoin_data.OutPoint.Live
use bitcoin_data.UtxoHash.{finalize_block}
use bitcoin_data.SpentIds.{sort}
use bitcoin_data.SortedUids.{BlockEstimate, CodecStats, measure_stream}
use bitcoin_data.SortedUids.Measuring.{measure_stream-measures}
use bitcoin_data.PerBlock.{RunStats, PerBlock, Row, drain_into, measure_sorted_uid_encoding}
use bitcoin_data.Scanner.{State, PreparedTx, id_of}
use bitcoin_data.Scanner.Blocks.{Scan, scan_txs, start_block, scan_block}
use bitcoin_data.Scanner.Sound.{View, IsSound}
use bitcoin_data.Scanner.Views.{view_of}
use bitcoin_data.Scanner.Steps.{IsGood, outputs_in, scan_txs-IsGood}

-- The unspent outputs have different ids, which were all given out; what was created is at least
-- what is unspent and what was spent, and an id was given out for each output.
pub record IsReady (state : State) : Type 0 where
  pub live : Live.IsLive id_of (state.last_id + 1) state.utxo
  pub held : length state.utxo + state.stats.spend.spends ≤ state.stats.outputs
  pub counted : state.stats.outputs ≡ state.last_id

-- What a scanned block gives.
pub record Scanned (state : State) (txs : List PreparedTx)
    (r : State × Row × BlockEstimate × BlockEstimate) : Type 0 where
  pub ready : IsReady r.0
  pub last : r.0.last_id ≡ state.last_id + outputs_in txs
  pub output_count : r.1.output_count ≡ outputs_in txs
  pub measured : r.2.values ≡ r.1.spends

measured_both :
    (p : PerBlock) (anchor : ℕ) (stats : RunStats) (a b : BlockEstimate × CodecStats)
    → measure_stream p.spent_uids anchor stats.sorted_spent_ids ≡ ok a
    → measure_stream p.p2tr_spent_uids anchor stats.sorted_p2tr_spent_ids ≡ ok b
    → measure_sorted_uid_encoding p anchor stats
      ≡ ok (
        record p { spent_uids = sort p.spent_uids; p2tr_spent_uids = sort p.p2tr_spent_uids },
        record stats { sorted_spent_ids = a.1; sorted_p2tr_spent_ids = b.1 },
        a.0,
        b.0,
      )
unfolding measure_sorted_uid_encoding
measured_both p anchor stats a b e f = rw (e, f) refl

-- There are no more spent ids than ids that were given out.
spent_few :
    (v : View)
    → IsSound v
    → v.last_id < 2 ^ 60
    → (length v.spent < 2 ^ 64) × (length v.p2tr_spent < 2 ^ 64)
spent_few v w few = (
  omega (arith, w.block_counted, w.block_within, w.held, w.counted, few),
  omega (arith, w.p2tr_few, w.block_counted, w.block_within, w.held, w.counted, few),
)

module _ (sha256 : List ℕ → List ℕ) where
  started : (state : State) → IsReady state → IsGood state.last_id (start_block state)
  started state w = (
    record {
      live = w.live;
      spent = record { distinct = tt; given = tt; gone = tt };
      p2tr_spent = record { distinct = tt; given = tt; gone = tt };
      held = w.held;
      counted = w.counted;
      block_counted = refl;
      block_within = omega arith;
      p2tr_few = omega arith;
    },
    refl,
  )

  -- The scan of a block, and what its end makes of the two measures.
  abbrev pub scan_of : State → List PreparedTx → Scan
  scan_of state txs = scan_txs sha256 state.last_id txs (start_block state)

  unfoldable pub result_of :
      State
      → Scan
      → BlockEstimate × CodecStats
      → BlockEstimate × CodecStats
      → State × Row × BlockEstimate × BlockEstimate
  unfolding drain_into finalize_block
  result_of state s a b = (
    record (s.state) {
      stats = record (s.state.stats) { sorted_spent_ids = a.1; sorted_p2tr_spent_ids = b.1 };
      utxo_hash = finalize_block s.state.utxo_hash;
    },
    record ((drain_into s.per_block).0) {
      output_count = (s.state.last_id + 2 ^ 64 - state.last_id) % 2 ^ 64;
    },
    a.0,
    b.0,
  )

  finished :
      (state : State) (txs : List PreparedTx) (s : Scan) (a b : BlockEstimate × CodecStats)
      → scan_of state txs ≡ s
      → measure_stream s.per_block.spent_uids s.state.last_id s.state.stats.sorted_spent_ids ≡ ok a
      → measure_stream s.per_block.p2tr_spent_uids s.state.last_id
          s.state.stats.sorted_p2tr_spent_ids
        ≡ ok b
      → scan_block sha256 state txs ≡ ok (result_of state s a b)
  unfolding scan_block drain_into result_of
  finished state txs s a b run e f =
      rw (run, measured_both s.per_block s.state.last_id s.state.stats a b e f) refl

  -- A block is scanned without a panic.
  pub scan_block-result :
      (state : State) (txs : List PreparedTx)
      → state.last_id + outputs_in txs < 2 ^ 60
      → IsReady state
      → IsGood (state.last_id + outputs_in txs) (scan_of state txs)
        × ((a : BlockEstimate × CodecStats) × (b : BlockEstimate × CodecStats) × (scan_block sha256
                state txs
              ≡ ok (result_of state (scan_of state txs) a b))
            × (a.0.values ≡ length (scan_of state txs).per_block.spent_uids))
  scan_block-result state txs few w =
      let s = scan_of state txs in
      let good =
        scan_txs-IsGood sha256 state.last_id state.last_id txs (start_block state) few
          (started state w) in
      let room = spent_few (view_of s) good.0 (omega (arith, good.1, few)) in
      let (a, e, v) =
        measure_stream-measures s.per_block.spent_uids s.state.last_id
          s.state.stats.sorted_spent_ids good.0.spent.distinct good.0.spent.given room.0 in
      let (b, f, _) =
        measure_stream-measures s.per_block.p2tr_spent_uids s.state.last_id
          s.state.stats.sorted_p2tr_spent_ids good.0.p2tr_spent.distinct good.0.p2tr_spent.given
          room.1 in
      (good, (a, b, finished state txs s a b refl e f, v))

  -- From a state whose ids are in order, and while the ids fit 60 bits, every block is scanned
  -- without a panic; the ids are in order again, the row counts the outputs of the block, and all
  -- spends that it counts are measured.
  pub scan_block-IsReady :
      (state : State) (txs : List PreparedTx)
      → state.last_id + outputs_in txs < 2 ^ 60
      → IsReady state
      → (r : State × Row × BlockEstimate × BlockEstimate) × (scan_block sha256 state txs ≡ ok r)
        × Scanned state txs r
  unfolding result_of drain_into
  scan_block-IsReady state txs few w =
      let (good, (a, b, e, v)) = scan_block-result state txs few w in
      (
        result_of state (scan_of state txs) a b,
        e,
        record {
          ready = record { live = good.0.live; held = good.0.held; counted = good.0.counted };
          last = good.1;
          output_count = omega (arith, good.1, few);
          measured = v ∙ sym good.0.block_counted;
        },
      )
