-- ===== src/Indexer/Invariant/Txs.antt =====
-- light-server/src/p2tr_indexer.rs, `apply_block_with_stats`: the end of a transaction, and
-- all transactions, keep the invariant.
use bitcoin_data.Base.{
  >>=-eq-ok, Bool-cases, List, Option-cases, [], bytes_keyed, inl, inr, ltb, ok, ok-injective,
  subst, ℕ, ◌>>=◌, ◌∷◌, ◌≡◌,
}
use bitcoin_data.OutPoint.{outpoint_keyed}
use bitcoin_data.Bitmap.{set_skipped}
use bitcoin_data.Indexer.{Tx, Progress}
use bitcoin_data.Indexer.Outputs.{spend_inputs, scan_outputs}
use bitcoin_data.Indexer.Blocks.{
  close_tx, count_p2tr_tx, count_indexed_tx, push_tweak, lift_bitmap, is_p2tr_tx, apply_tx,
  apply_txs,
}
use bitcoin_data.Indexer.Invariant.{IsIndexed}
use bitcoin_data.Indexer.Invariant.Steps.{spend_inputs-IsIndexed, scan_outputs-IsIndexed}

count_p2tr_tx-IsIndexed :
    (first : ℕ) (tx : Tx) (acc : Progress)
    → IsIndexed first acc
    → IsIndexed first (count_p2tr_tx tx acc)
unfolding IsIndexed count_p2tr_tx
count_p2tr_tx-IsIndexed first tx acc w = elim (Bool-cases (is_p2tr_tx tx.outputs)) [
  | inl here ↦
      rw here (record { live = w.live; ascending = w.ascending; dense = w.dense; next = w.next })
  | inr other ↦ rw other w
]

count_indexed_tx-IsIndexed :
    (first : ℕ) (acc : Progress) → IsIndexed first acc → IsIndexed first (count_indexed_tx acc)
unfolding IsIndexed count_indexed_tx
count_indexed_tx-IsIndexed first acc w = record {
  live = w.live;
  ascending = w.ascending;
  dense = w.dense;
  next = w.next;
}

push_tweak-IsIndexed :
    (first indexed : ℕ) (tweak : List ℕ) (acc : Progress)
    → IsIndexed first acc
    → IsIndexed first (push_tweak indexed tweak acc)
unfolding IsIndexed push_tweak
push_tweak-IsIndexed first indexed tweak acc w = record {
  live = w.live;
  ascending = w.ascending;
  dense = w.dense;
  next = w.next;
}

marked-IsIndexed :
    (first : ℕ) (bits : List ℕ) (acc : Progress)
    → IsIndexed first acc
    → IsIndexed first (record acc { skipped_txs = bits })
unfolding IsIndexed
marked-IsIndexed first bits acc w = record {
  live = w.live;
  ascending = w.ascending;
  dense = w.dense;
  next = w.next;
}

close_tx-IsIndexed :
    (first tx_count : ℕ) (tx : Tx) (acc : Progress × ℕ) (r : Progress)
    → IsIndexed first acc.0
    → close_tx tx_count tx acc ≡ ok r
    → IsIndexed first r
unfolding close_tx
close_tx-IsIndexed first tx_count tx (acc, indexed) r w e =
    let acc' = count_p2tr_tx tx acc in
    let w' = count_p2tr_tx-IsIndexed first tx acc w in
    let u = count_indexed_tx-IsIndexed first acc' w' in
    elim (Bool-cases (ltb 0 indexed)) [
      | inl some_indexed ↦ elim (Option-cases tx.silent_payment_tweak) [
        | inl no_tweak ↦ subst (IsIndexed first) (ok-injective (rw (some_indexed, no_tweak) at e)) u
        | inr (tweak, has_tweak) ↦
            subst (IsIndexed first) (ok-injective (rw (some_indexed, has_tweak) at e))
              (push_tweak-IsIndexed first indexed tweak (count_indexed_tx acc') u)
      ]
      | inr none_indexed ↦
          let (bits, _, e₁) =
            >>=-eq-ok (lift_bitmap (set_skipped tx_count acc'.skipped_txs tx.tx_index))
              (λ bits. ok (record acc' { skipped_txs = bits })) (rw none_indexed at e) in
          subst (IsIndexed first) (ok-injective e₁) (marked-IsIndexed first bits acc' w')
    ]

apply_tx-IsIndexed :
    (first tx_count height : ℕ) (acc : Progress) (tx : Tx) (r : Progress)
    → IsIndexed first acc
    → apply_tx first tx_count height acc tx ≡ ok r
    → IsIndexed first r
unfolding apply_tx
apply_tx-IsIndexed first tx_count height acc tx r w e =
    let (acc₁, e₁, rest₁) =
      >>=-eq-ok (spend_inputs tx.tx_index acc tx.inputs)
        (λ x. do acc₂ ← scan_outputs first height tx (x, 0) tx.outputs; close_tx tx_count tx acc₂)
        e in
    let (acc₂, e₂, rest₂) =
      >>=-eq-ok (scan_outputs first height tx (acc₁, 0) tx.outputs) (λ x. close_tx tx_count tx x)
        rest₁ in
    close_tx-IsIndexed first tx_count tx acc₂ r
      (scan_outputs-IsIndexed first height tx (acc₁, 0) tx.outputs acc₂
        (spend_inputs-IsIndexed first tx.tx_index acc tx.inputs acc₁ w e₁) e₂)
      rest₂

pub apply_txs-IsIndexed :
    (first tx_count height : ℕ) (acc : Progress) (txs : List Tx) (r : Progress)
    → IsIndexed first acc
    → apply_txs first tx_count height acc txs ≡ ok r
    → IsIndexed first r
unfolding apply_txs
apply_txs-IsIndexed first tx_count height acc [] r w e = subst (IsIndexed first) (ok-injective e) w
apply_txs-IsIndexed first tx_count height acc (tx ∷ txs) r w e =
    let (acc', e₁, e₂) =
      >>=-eq-ok (apply_tx first tx_count height acc tx) (λ x. apply_txs first tx_count height x txs)
        e in
    apply_txs-IsIndexed first tx_count height acc' txs r
      (apply_tx-IsIndexed first tx_count height acc tx acc' w e₁) e₂
