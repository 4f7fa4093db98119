-- ===== src/Indexer/Invariant/Slots.antt =====
-- light-server/src/p2tr_indexer.rs, `apply_block_with_stats`: the uid slots that a block takes, one
-- for each of its taproot outputs, and the uids of the outputs that it creates.
use bitcoin_data.Base.{
  >>=-eq-ok, Bool-cases, List, [], ap, append-nil, append_assoc, arith, bytes_keyed, ensure-eq-ok,
  if◌then◌else◌, inl, inr, ltb, map, ok, ok-injective, ok_or, refl, subst, sym, ℕ, ◌++◌, ◌+◌, ◌>>=◌,
  ◌^◌, ◌∙◌, ◌∷◌, ◌≡◌,
}
use mathlib.Core.List.{map-append}
use bitcoin_data.OutPoint.{OutPoint, outpoint_keyed}
use bitcoin_data.Indexer.{too_many_outputs, missing_key, TxOutput, Tx, Created, Progress}
use bitcoin_data.Indexer.Outputs.{
  spend_input, spend_inputs, create_output, count_slot, omit_output, count_output, drop_spent,
  take_slot, scan_output, scan_outputs, see_key, is_omitted,
}
use bitcoin_data.Indexer.Blocks.{
  close_tx, count_p2tr_tx, count_indexed_tx, push_tweak, apply_tx, apply_txs,
}
use bitcoin_data.Indexer.Invariant.{index_output-made}

-- How many taproot outputs there are, in a transaction and in a block.
abbrev pub taproot_outputs : List TxOutput → ℕ
taproot_outputs [] = 0
taproot_outputs (output ∷ outputs) = (if output.is_p2tr then 1 else 0) + taproot_outputs outputs

abbrev pub block_taproot_outputs : List Tx → ℕ
block_taproot_outputs [] = 0
block_taproot_outputs (tx ∷ txs) = taproot_outputs tx.outputs + block_taproot_outputs txs

-- The uids of the outputs to index, when every taproot output from `uid` on takes the next uid.
abbrev pub indexed_uids : ℕ → Tx → List TxOutput → List ℕ
indexed_uids uid tx [] = []
indexed_uids uid tx (output ∷ outputs) =
    (if output.is_p2tr then (if is_omitted tx output then [] else uid ∷ []) else [])
    ++ indexed_uids (uid + (if output.is_p2tr then 1 else 0)) tx outputs

abbrev pub block_indexed_uids : ℕ → List Tx → List ℕ
block_indexed_uids uid [] = []
block_indexed_uids uid (tx ∷ txs) =
    indexed_uids uid tx tx.outputs ++ block_indexed_uids (uid + taproot_outputs tx.outputs) txs

abbrev pub uids : List Created → List ℕ
uids cs = map (λ (c : Created). c.uid) cs

-- What a step adds: so many slots, and outputs with these uids.
abbrev pub Adds : Progress → ℕ → List ℕ → Progress → Type 0
Adds acc n us r =
    (r.stats.p2tr_output_count ≡ acc.stats.p2tr_output_count + n)
    × (uids r.created ≡ uids acc.created ++ us)

Adds-trans :
    (a b c : Progress) (n m : ℕ) (us vs : List ℕ)
    → Adds a n us b
    → Adds b m vs c
    → Adds a (n + m) (us ++ vs) c
Adds-trans a b c n m us vs h k = (
  omega (arith, h.0, k.0),
  k.1 ∙ ap (λ (xs : List ℕ). xs ++ vs) h.1 ∙ append_assoc (uids a.created) us vs,
)

pub Adds-none :
    (a b : Progress)
    → b.stats.p2tr_output_count ≡ a.stats.p2tr_output_count
    → b.created ≡ a.created
    → Adds a 0 [] b
Adds-none a b e e' = (omega (arith, e), ap uids e' ∙ sym (append-nil (uids a.created)))

-- A step between two that add nothing.
Adds-around :
    (a b c d : Progress) (n : ℕ) (us : List ℕ)
    → Adds a 0 [] b
    → Adds b n us c
    → Adds c 0 [] d
    → Adds a n us d
Adds-around a b c d n us h k l = (
  omega (arith, h.0, k.0, l.0),
  l.1
      ∙ append-nil (uids c.created)
      ∙ k.1
      ∙ ap (λ (xs : List ℕ). xs ++ us) (h.1 ∙ append-nil (uids a.created)),
)

pub Adds-closed :
    (a b c : Progress) (n : ℕ) (us : List ℕ) → Adds a n us b → Adds b 0 [] c → Adds a n us c
Adds-closed a b c n us h k = Adds-around a a b c n us (Adds-none a a refl refl) h k

spend_input-Adds :
    (tx_index : ℕ) (acc : Progress) (o : OutPoint) (r : Progress)
    → spend_input tx_index acc o ≡ ok r
    → Adds acc 0 [] r
unfolding spend_input drop_spent
spend_input-Adds tx_index acc o r e = Adds-none acc r (ground arith) (ground arith)

close_tx-Adds :
    (tx_count : ℕ) (tx : Tx) (acc : Progress × ℕ) (r : Progress)
    → close_tx tx_count tx acc ≡ ok r
    → Adds acc.0 0 [] r
unfolding close_tx count_p2tr_tx count_indexed_tx push_tweak
close_tx-Adds tx_count tx acc r e = Adds-none acc.0 r (ground arith) (ground arith)

spend_inputs-Adds :
    (tx_index : ℕ) (acc : Progress) (inputs : List OutPoint) (r : Progress)
    → spend_inputs tx_index acc inputs ≡ ok r
    → Adds acc 0 [] r
unfolding spend_inputs
spend_inputs-Adds tx_index acc [] r e = Adds-none acc r (ground arith) (ground arith)
spend_inputs-Adds tx_index acc (o ∷ inputs) r e =
    let (acc', e₁, e₂) =
      >>=-eq-ok (spend_input tx_index acc o) (λ x. spend_inputs tx_index x inputs) e in
    Adds-trans acc acc' r 0 0 [] [] (spend_input-Adds tx_index acc o acc' e₁)
      (spend_inputs-Adds tx_index acc' inputs r e₂)

-- A taproot output takes one slot, and is created with the uid of its slot or omitted.
take_slot-Adds :
    (first height : ℕ) (tx : Tx) (acc : Progress) (indexed : ℕ) (output : TxOutput)
    → (key : List ℕ) (r : Progress × ℕ) → take_slot first height tx acc indexed output key ≡ ok r
    → Adds acc 1
        (if is_omitted tx output then [] else (first + acc.stats.p2tr_output_count) ∷ [])
        r.0
unfolding take_slot omit_output count_slot create_output
take_slot-Adds first height tx acc indexed output key r e =
    let slot = acc.stats.p2tr_output_count in
    elim (Bool-cases (is_omitted tx output)) [
      | inl omitted ↦
          let same : omit_output slot (count_slot acc output key) ≡ r.0 =
            ap (λ (x : Progress × ℕ). x.0) (ok-injective (rw omitted at e)) in
          rw omitted (subst (Adds acc 1 []) same (refl, sym (append-nil (uids acc.created))))
      | inr kept ↦
          let reused = (see_key acc.state.seen_p2tr_keys key).0 in
          rw kept (
            subst (Adds acc 1 ((first + slot) ∷ []))
              (index_output-made first height slot tx (count_slot acc output key) indexed output key
                reused r (rw kept at e))
              (refl, map-append (λ (c : Created). c.uid) acc.created (_ ∷ [])))
    ]

scan_output-Adds :
    (first height : ℕ) (tx : Tx) (acc : Progress × ℕ) (output : TxOutput) (r : Progress × ℕ)
    → scan_output first height tx acc output ≡ ok r
    → Adds acc.0
        (if output.is_p2tr then 1 else 0)
        (if output.is_p2tr
          then (if is_omitted tx output then [] else (first + acc.0.stats.p2tr_output_count) ∷ [])
          else [])
        r.0
unfolding scan_output count_output
scan_output-Adds first height tx (acc, indexed) output r e = elim (Bool-cases output.is_p2tr) [
  | inl taproot ↦
      let (_, e₁) =
        ensure-eq-ok (ltb acc.stats.p2tr_output_count (2 ^ 16)) too_many_outputs
          (ok_or output.p2tr_xonly_key missing_key
            >>= (λ key. take_slot first height tx (count_output acc) indexed output key))
          (rw taproot at e) in
      let (key, _, e₂) =
        >>=-eq-ok (ok_or output.p2tr_xonly_key missing_key)
          (λ key. take_slot first height tx (count_output acc) indexed output key) e₁ in
      rw taproot (take_slot-Adds first height tx (count_output acc) indexed output key r e₂)
  | inr other ↦
      let same : (count_output acc, indexed) ≡ r = ok-injective (rw other at e) in
      rw other (
        subst (λ (x : Progress × ℕ). Adds acc 0 [] x.0) same
          (Adds-none acc (count_output acc) refl refl))
]

-- The outputs of a transaction from the uid `first + n` on.
scan_outputs-Adds :
    (first height : ℕ) (tx : Tx) (acc : Progress × ℕ) (outputs : List TxOutput) (r : Progress × ℕ)
    → scan_outputs first height tx acc outputs ≡ ok r
    → Adds acc.0
        (taproot_outputs outputs)
        (indexed_uids (first + acc.0.stats.p2tr_output_count) tx outputs)
        r.0
unfolding scan_outputs
scan_outputs-Adds first height tx acc [] r e =
    subst (λ (x : Progress × ℕ). Adds acc.0 0 [] x.0) (ok-injective e)
      (Adds-none acc.0 acc.0 refl refl)
scan_outputs-Adds first height tx acc (output ∷ outputs) r e =
    let (acc', e₁, e₂) =
      >>=-eq-ok (scan_output first height tx acc output)
        (λ x. scan_outputs first height tx x outputs) e in
    let step = scan_output-Adds first height tx acc output acc' e₁ in
    let uid : first + acc'.0.stats.p2tr_output_count
        ≡ first + acc.0.stats.p2tr_output_count + (if output.is_p2tr then 1 else 0) =
      omega (arith, step.0) in
    Adds-trans acc.0 acc'.0 r.0 _ _ _ _ step (
      subst (λ (u : ℕ). Adds acc'.0 (taproot_outputs outputs) (indexed_uids u tx outputs) r.0) uid
        (scan_outputs-Adds first height tx acc' outputs r e₂))

apply_tx-Adds :
    (first tx_count height : ℕ) (acc : Progress) (tx : Tx) (r : Progress)
    → apply_tx first tx_count height acc tx ≡ ok r
    → Adds acc
        (taproot_outputs tx.outputs)
        (indexed_uids (first + acc.stats.p2tr_output_count) tx tx.outputs)
        r
unfolding apply_tx
apply_tx-Adds first tx_count height acc tx r e =
    let (acc₁, e₁, rest₁) =
      >>=-eq-ok (spend_inputs tx.tx_index acc tx.inputs)
        (λ x. do acc₂ ← scan_outputs first height tx (x, 0) tx.outputs; close_tx tx_count tx acc₂)
        e in
    let (acc₂, e₂, rest₂) =
      >>=-eq-ok (scan_outputs first height tx (acc₁, 0) tx.outputs) (λ x. close_tx tx_count tx x)
        rest₁ in
    let spent = spend_inputs-Adds tx.tx_index acc tx.inputs acc₁ e₁ in
    let scanned = scan_outputs-Adds first height tx (acc₁, 0) tx.outputs acc₂ e₂ in
    let closed = close_tx-Adds tx_count tx acc₂ r rest₂ in
    let uid : first + acc₁.stats.p2tr_output_count ≡ first + acc.stats.p2tr_output_count =
      omega (arith, spent.0) in
    let us = indexed_uids (first + acc.stats.p2tr_output_count) tx tx.outputs in
    let scanned' : Adds acc₁ (taproot_outputs tx.outputs) us acc₂.0 = rw uid at scanned in
    Adds-around acc acc₁ acc₂.0 r (taproot_outputs tx.outputs) us spent scanned' closed

pub apply_txs-Adds :
    (first tx_count height : ℕ) (acc : Progress) (txs : List Tx) (r : Progress)
    → apply_txs first tx_count height acc txs ≡ ok r
    → Adds acc
        (block_taproot_outputs txs)
        (block_indexed_uids (first + acc.stats.p2tr_output_count) txs)
        r
unfolding apply_txs
apply_txs-Adds first tx_count height acc [] r e =
    subst (Adds acc 0 []) (ok-injective e) (Adds-none acc acc refl refl)
apply_txs-Adds first tx_count height acc (tx ∷ txs) r e =
    let (acc', e₁, e₂) =
      >>=-eq-ok (apply_tx first tx_count height acc tx) (λ x. apply_txs first tx_count height x txs)
        e in
    let step = apply_tx-Adds first tx_count height acc tx acc' e₁ in
    let uid : first + acc'.stats.p2tr_output_count
        ≡ first + acc.stats.p2tr_output_count + taproot_outputs tx.outputs =
      omega (arith, step.0) in
    Adds-trans acc acc' r _ _ _ _ step (
      subst (λ (u : ℕ). Adds acc' (block_taproot_outputs txs) (block_indexed_uids u txs) r) uid
        (apply_txs-Adds first tx_count height acc' txs r e₂))
