-- ===== src/Indexer/Invariant/Whole.antt =====
-- light-server/src/p2tr_indexer.rs, `apply_block_with_stats`: the uids of a whole block.
use bitcoin_data.Base.{
  >>=-eq-ok, Bool-cases, Result, [], arith, bytes_keyed, ensure, ensure-eq-ok, false, inl, inr,
  length, ltb, ltb→lt, ok, ok-injective, refl, saturating_add_u64, subst, ℕ, ◌+◌, ◌-◌, ◌<◌, ◌>>=◌,
  ◌>>◌, ◌^◌, ◌≡◌,
}
use bitcoin_data.OutPoint.{outpoint_keyed}
use bitcoin_data.Indexer.{Error, too_many_txs, uid_overflow, Block, State, Progress}
use bitcoin_data.OutPoint.Live
use bitcoin_data.Indexer.Uids.{uid_of, IsLive}
use bitcoin_data.Indexer.Blocks.{apply_txs, started, advance_uid, apply_block_with_stats}
use bitcoin_data.Indexer.Invariant.{IsIndexed, Ascending, Dense}
use bitcoin_data.Indexer.Invariant.Slots.{
  Adds, Adds-none, Adds-closed, apply_txs-Adds, block_taproot_outputs, block_indexed_uids, uids,
}
use bitcoin_data.Indexer.Invariant.Txs.{apply_txs-IsIndexed}

-- What a block leaves behind, with the number of slots that it reports.
record IsAdvanced (state : State) (r : Progress) : Type 0 where
  counted : r.state.next_uid ≡ state.next_uid + r.stats.p2tr_output_count
  live : IsLive (r.state.next_uid + 1) r.state.outpoint_to_spend
  ascending : Ascending (state.next_uid + 1) (r.state.next_uid + 1) r.created
  dense : Dense 0 r.created

taken_slots-IsAdvanced :
    (state : State) (acc : Progress)
    → 0 < acc.stats.p2tr_output_count
    → IsIndexed (state.next_uid + 1) acc
    → IsAdvanced state (record acc {
      state = record acc.state { next_uid = state.next_uid + 1 + acc.stats.p2tr_output_count - 1 };
    })
unfolding IsIndexed
taken_slots-IsAdvanced state acc p w =
    let n = acc.stats.p2tr_output_count in
    let top : state.next_uid + 1 + n ≡ state.next_uid + 1 + n - 1 + 1 = omega arith in
    record {
      counted = omega arith;
      live = subst (λ (k : ℕ). IsLive k acc.state.outpoint_to_spend) top w.live;
      ascending = subst (λ (k : ℕ). Ascending (state.next_uid + 1) k acc.created) top w.ascending;
      dense = w.dense;
    }

idle-IsAdvanced :
    (state : State) (acc : Progress)
    → acc.stats.p2tr_output_count ≡ 0
    → IsIndexed (state.next_uid + 1) acc
    → IsAdvanced state acc
unfolding IsIndexed
idle-IsAdvanced state acc none_taken w =
    let n = acc.stats.p2tr_output_count in
    let top : state.next_uid + 1 + n ≡ acc.state.next_uid + 1 = omega (arith, w.next) in
    record {
      counted = omega (arith, w.next);
      live = subst (λ (k : ℕ). IsLive k acc.state.outpoint_to_spend) top w.live;
      ascending = subst (λ (k : ℕ). Ascending (state.next_uid + 1) k acc.created) top w.ascending;
      dense = w.dense;
    }

none_counted : (n : ℕ) → ltb 0 n ≡ false → n ≡ 0
none_counted n h = ground arith

advance_uid-IsAdvanced :
    (state : State) (acc r : Progress)
    → IsIndexed (state.next_uid + 1) acc
    → advance_uid (state.next_uid + 1) acc ≡ ok r
    → IsAdvanced state r
unfolding advance_uid
advance_uid-IsAdvanced state acc r w e =
    let n = acc.stats.p2tr_output_count in
    elim (Bool-cases (ltb 0 n)) [
      | inl some_taken ↦
          let (_, e₁) =
            ensure-eq-ok (ltb (state.next_uid + 1 + n) (2 ^ 64)) uid_overflow
              (ok
                (record acc { state = record acc.state { next_uid = state.next_uid + 1 + n - 1 } }))
              (rw some_taken at e) in
          subst (IsAdvanced state) (ok-injective e₁)
            (taken_slots-IsAdvanced state acc (ltb→lt 0 n some_taken) w)
      | inr none_taken ↦
          subst (IsAdvanced state) (ok-injective (rw none_taken at e))
            (idle-IsAdvanced state acc (none_counted n none_taken) w)
    ]

started-IsIndexed :
    (state : State) (tx_count : ℕ)
    → IsLive (state.next_uid + 1) state.outpoint_to_spend
    → IsIndexed (state.next_uid + 1) (started state tx_count)
unfolding IsIndexed started Ascending Dense
started-IsIndexed state tx_count w = record {
  live = Live.IsLive-weaken uid_of (state.next_uid + 1) (state.next_uid + 1 + 0) _ (omega arith) w;
  ascending = omega arith;
  dense = tt;
  next = refl;
}

-- The block with a given first uid.
abbrev block_from : ℕ → State → Block → Result Error Progress
block_from first_uid state block = do
  ensure (ltb (length block.txs) (2 ^ 16)) too_many_txs
  acc ←
      apply_txs first_uid (length block.txs) block.height (started state (length block.txs))
        block.txs
  advance_uid first_uid acc

advance_uid-Adds : (first : ℕ) (acc r : Progress) → advance_uid first acc ≡ ok r → Adds acc 0 [] r
unfolding advance_uid
advance_uid-Adds first acc r e = Adds-none acc r (ground arith) (ground arith)

-- What a block leaves behind, against the state that it found and against its transactions.
pub record IsApplied (state : State) (block : Block) (r : Progress) : Type 0 where
  pub counted : r.state.next_uid ≡ state.next_uid + block_taproot_outputs block.txs
  pub reported : r.stats.p2tr_output_count ≡ block_taproot_outputs block.txs
  pub slots : uids r.created ≡ block_indexed_uids (state.next_uid + 1) block.txs
  pub live : IsLive (r.state.next_uid + 1) r.state.outpoint_to_spend
  pub ascending : Ascending (state.next_uid + 1) (r.state.next_uid + 1) r.created
  pub dense : Dense 0 r.created

applied :
    (state : State) (block : Block) (r : Progress)
    → IsAdvanced state r
    → Adds
        (started state (length block.txs))
        (block_taproot_outputs block.txs)
        (block_indexed_uids (state.next_uid + 1 + 0) block.txs)
        r
    → IsApplied state block r
unfolding started
applied state block r w added =
    let first : state.next_uid + 1 + 0 ≡ state.next_uid + 1 = omega arith in
    record {
      counted = omega (arith, w.counted, added.0);
      reported = omega (arith, added.0);
      slots = rw first at added.1;
      live = w.live;
      ascending = w.ascending;
      dense = w.dense;
    }

block_from-IsApplied :
    (state : State) (block : Block) (r : Progress)
    → IsLive (state.next_uid + 1) state.outpoint_to_spend
    → block_from (state.next_uid + 1) state block ≡ ok r
    → IsApplied state block r
unfolding started
block_from-IsApplied state block r w e =
    let n = length block.txs in
    let first = state.next_uid + 1 in
    let start = started state n in
    let (_, e₁) =
      ensure-eq-ok (ltb n (2 ^ 16)) too_many_txs
        (apply_txs first n block.height start block.txs >>= (λ x. advance_uid first x)) e in
    let (acc, e₂, e₃) =
      >>=-eq-ok (apply_txs first n block.height start block.txs) (λ x. advance_uid first x) e₁ in
    applied state block r
      (advance_uid-IsAdvanced state acc r
        (apply_txs-IsIndexed first n block.height start block.txs acc (started-IsIndexed state n w)
          e₂)
        e₃)
      (Adds-closed start acc r _ _ (apply_txs-Adds first n block.height start block.txs acc e₂)
        (advance_uid-Adds first acc r e₃))

-- A block that is applied advances the uid counter by the number of its taproot outputs, indexed or
-- not. Each of them takes the next uid in the order of the block, and the outputs that it creates
-- have the uids of those that are neither unspendable nor in a transaction without a tweak, strictly
-- ascending, and the dense indexes 0, 1, 2, ...; and the map of live outputs still holds every
-- outpoint once and no uid twice, all at most the counter. This needs the same of the map before,
-- and a counter below the last 64-bit number.
pub apply_block_with_stats-IsApplied :
    (state : State) (block : Block) (r : Progress)
    → IsLive (state.next_uid + 1) state.outpoint_to_spend
    → state.next_uid < 2 ^ 64 - 1
    → apply_block_with_stats state block ≡ ok r
    → IsApplied state block r
unfolding apply_block_with_stats
apply_block_with_stats-IsApplied state block r w h e =
    let first : saturating_add_u64 state.next_uid 1 ≡ state.next_uid + 1 = omega arith in
    block_from-IsApplied state block r w
      (subst (λ (f : ℕ). block_from f state block ≡ ok r) first e)
