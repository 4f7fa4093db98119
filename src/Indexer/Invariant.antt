-- ===== src/Indexer/Invariant.antt =====
-- light-server/src/p2tr_indexer.rs, `apply_block_with_stats`: what every step of a block keeps.
pub mod Steps
pub mod Txs
pub mod Slots
pub mod Whole
use bitcoin_data.Base.{
  ◌>>◌, Bool, List, [], ap, arith, bytes_keyed, ensure, false, if◌then◌else◌, length, ltb, ok,
  ok-injective, refl, subst, true, ℕ, ◌++◌, ◌+◌, ◌<◌, ◌^◌, ◌∷◌, ◌≡◌, ◌≤◌,
}
use bitcoin_data.OutPoint.{OutPoint, outpoint_keyed, same_outpoint}
use bitcoin_data.Indexer.{
  Error, too_many_txs, height_too_large, too_many_outputs, missing_key, uid_overflow, bitmap,
  SpendLookup, TxOutput, Tx, Block, Stats, State, Created, Spent, Progress,
}
use bitcoin_data.OutPoint.Live
use bitcoin_data.Indexer.Uids.{uid_of, IsLive}
use bitcoin_data.Indexer.Outputs.{
  spend_input, spend_inputs, create_output, count_slot, omit_output, count_output, drop_spent,
  index_output, take_slot, scan_output, scan_outputs, see_key, is_omitted, incr,
}

-- Outputs in the order of their uids, from `low` on and below `high`.
unfoldable pub Ascending : ℕ → ℕ → List Created → Type 0
Ascending low high [] = low ≤ high
Ascending low high (c ∷ cs) = (low ≤ c.uid) × (c.uid < high) × Ascending (c.uid + 1) high cs

-- The dense indexes count from `k`.
unfoldable pub Dense : ℕ → List Created → Type 0
Dense k [] = Unit {0}
Dense k (c ∷ cs) = (c.output_index ≡ k) × Dense (k + 1) cs

-- After `n` taproot outputs of a block whose first uid is `first`.
pub record IsUpTo (first n : ℕ) (acc : Progress) : Type 0 where
  pub live : IsLive (first + n) acc.state.outpoint_to_spend
  pub ascending : Ascending first (first + n) acc.created
  pub dense : Dense 0 acc.created
  pub next : acc.state.next_uid + 1 ≡ first

Ascending-append :
    (low high : ℕ) (cs : List Created) (c : Created)
    → Ascending low high cs
    → c.uid ≡ high
    → Ascending low (high + 1) (cs ++ c ∷ [])
unfolding Ascending
Ascending-append low high [] c h e = (omega (arith, h), omega arith, omega arith)
Ascending-append low high (x ∷ cs) c h e =
    (h.0, omega (arith, h.1), Ascending-append (x.uid + 1) high cs c h.2 e)

Ascending-weaken :
    (low high high' : ℕ) (cs : List Created)
    → high ≤ high'
    → Ascending low high cs
    → Ascending low high' cs
unfolding Ascending
Ascending-weaken low high high' [] p h = omega (arith, h)
Ascending-weaken low high high' (c ∷ cs) p h =
    (h.0, omega (arith, h.1), Ascending-weaken (c.uid + 1) high high' cs p h.2)

Dense-append :
    (k : ℕ) (cs : List Created) (c : Created)
    → Dense k cs
    → c.output_index ≡ k + length cs
    → Dense k (cs ++ c ∷ [])
unfolding Dense
Dense-append k [] c h e = (omega (arith, e), tt)
Dense-append k (x ∷ cs) c h e = (h.0, Dense-append (k + 1) cs c h.1 (omega (arith, e)))

-- An omitted output only takes its slot.
pub IsUpTo-skip :
    (first n : ℕ) (acc acc' : Progress)
    → acc'.state.outpoint_to_spend ≡ acc.state.outpoint_to_spend
    → acc'.created ≡ acc.created
    → acc'.state.next_uid ≡ acc.state.next_uid
    → IsUpTo first n acc
    → IsUpTo first (n + 1) acc'
IsUpTo-skip first n acc acc' e e' e'' w = record {
  live = rw e (Live.IsLive-weaken uid_of (first + n) (first + (n + 1)) _ (omega arith) w.live);
  ascending =
      rw e' (Ascending-weaken first (first + n) (first + (n + 1)) _ (omega arith) w.ascending);
  dense = rw e' w.dense;
  next = rw e'' w.next;
}

pub create_output-IsUpTo :
    (first height n : ℕ) (tx : Tx) (acc : Progress) (output : TxOutput) (key : List ℕ)
    (reused : Bool)
    → IsUpTo first n acc
    → IsUpTo first (n + 1) (create_output (first + n) height tx acc output key reused)
unfolding create_output
create_output-IsUpTo first height n tx acc output key reused w =
    let next : first + n + 1 ≡ first + (n + 1) = omega arith in
    let made = create_output (first + n) height tx acc output key reused in
    let o : OutPoint = record { txid = tx.txid; vout = output.vout } in
    let s : SpendLookup = record {
      uid = first + n;
      creation_height = height;
      output_index = length acc.created;
      flags = if reused then 1 else 0;
    } in
    let c : Created = record {
      outpoint = o;
      uid = first + n;
      output_index = length acc.created;
      key = key;
      is_reused = reused;
    } in
    record {
      live =
          subst (λ (k : ℕ). IsLive k made.state.outpoint_to_spend) next
            (Live.insert-IsLive uid_of (first + n) acc.state.outpoint_to_spend o s refl w.live);
      ascending =
          subst (λ (k : ℕ). Ascending first k made.created) next
            (Ascending-append first (first + n) acc.created c w.ascending refl);
      dense = Dense-append 0 acc.created c w.dense (omega arith);
      next = w.next;
    }

-- A result behind three tests.
behind_tests :
    {A : Type 0} (b₁ b₂ b₃ : Bool) (e₁ e₂ e₃ : Error) (x r : A)
    → (ensure b₁ e₁ >> (ensure b₂ e₂ >> (ensure b₃ e₃ >> ok x))) ≡ ok r
    → x ≡ r
behind_tests true true true e₁ e₂ e₃ x r h = ok-injective h
behind_tests true true false e₁ e₂ e₃ x r h = cc
behind_tests true false b₃ e₁ e₂ e₃ x r h = cc
behind_tests false b₂ b₃ e₁ e₂ e₃ x r h = cc

pub index_output-made :
    (first height n : ℕ) (tx : Tx) (acc : Progress) (indexed : ℕ) (output : TxOutput)
    → (key : List ℕ) (reused : Bool) (r : Progress × ℕ)
    → index_output first height tx acc indexed output n key reused ≡ ok r
    → create_output (first + n) height tx acc output key reused ≡ r.0
unfolding index_output
index_output-made first height n tx acc indexed output key reused r e =
    ap (λ (x : Progress × ℕ). x.0)
      (behind_tests (ltb (indexed + 1) (2 ^ 16)) (ltb (first + n) (2 ^ 64))
        (ltb (length acc.created) (2 ^ 32)) too_many_outputs uid_overflow too_many_outputs
        (create_output (first + n) height tx acc output key reused, indexed + 1) r e)

-- The invariant at the number of slots taken so far.
pub IsIndexed : ℕ → Progress → Type 0
IsIndexed first acc = IsUpTo first acc.stats.p2tr_output_count acc
