-- ===== src/Indexer/Invariant/Steps.antt =====
-- light-server/src/p2tr_indexer.rs, `apply_block_with_stats`: the inputs and the outputs of a
-- transaction keep the invariant.
use bitcoin_data.Base.{
  ◌>>=◌, >>=-eq-ok, Bool, Bool-cases, List, Option-cases, [], bytes_keyed, ensure-eq-ok, get, inl,
  inr, ltb, ok, ok-injective, ok_or, refl, subst, ℕ, ◌+◌, ◌^◌, ◌∷◌, ◌≡◌,
}
use bitcoin_data.OutPoint.{OutPoint, outpoint_keyed}
use bitcoin_data.Indexer.{
  height_too_large, too_many_outputs, missing_key, SpendLookup, TxOutput, Tx, Progress,
}
use bitcoin_data.OutPoint.Live
use bitcoin_data.Indexer.Uids.{uid_of}
use bitcoin_data.Indexer.Outputs.{
  spend_input, spend_inputs, create_output, count_slot, omit_output, count_output, drop_spent,
  take_slot, scan_output, scan_outputs, see_key, is_omitted,
}
use bitcoin_data.Indexer.Invariant.{
  IsUpTo, IsIndexed, IsUpTo-skip, create_output-IsUpTo, index_output-made,
}

count_slot-IsUpTo :
    (first n : ℕ) (acc : Progress) (output : TxOutput) (key : List ℕ)
    → IsUpTo first n acc
    → IsUpTo first n (count_slot acc output key)
unfolding count_slot
count_slot-IsUpTo first n acc output key w = record {
  live = w.live;
  ascending = w.ascending;
  dense = w.dense;
  next = w.next;
}

created-IsIndexed :
    (first height : ℕ) (tx : Tx) (acc : Progress) (output : TxOutput) (key : List ℕ) (reused : Bool)
    → IsIndexed first acc
    → IsIndexed first (
        create_output
          (first + acc.stats.p2tr_output_count)
          height
          tx
          (count_slot acc output key)
          output
          key
          reused)
unfolding IsIndexed create_output count_slot
created-IsIndexed first height tx acc output key reused w =
    create_output-IsUpTo first height acc.stats.p2tr_output_count tx (count_slot acc output key)
      output key reused (count_slot-IsUpTo first acc.stats.p2tr_output_count acc output key w)

omitted-IsIndexed :
    (first : ℕ) (acc : Progress) (output : TxOutput) (key : List ℕ)
    → IsIndexed first acc
    → IsIndexed first (omit_output acc.stats.p2tr_output_count (count_slot acc output key))
unfolding IsIndexed omit_output count_slot
omitted-IsIndexed first acc output key w =
    IsUpTo-skip first acc.stats.p2tr_output_count acc
      (omit_output acc.stats.p2tr_output_count (count_slot acc output key)) refl refl refl w

take_slot-IsIndexed :
    (first height : ℕ) (tx : Tx) (acc : Progress) (indexed : ℕ) (output : TxOutput)
    → (key : List ℕ) (r : Progress × ℕ) → IsIndexed first acc
    → take_slot first height tx acc indexed output key ≡ ok r
    → IsIndexed first r.0
unfolding take_slot
take_slot-IsIndexed first height tx acc indexed output key r w e =
    let slot = acc.stats.p2tr_output_count in
    elim (Bool-cases (is_omitted tx output)) [
      | inl omitted ↦
          let same : (omit_output slot (count_slot acc output key), indexed) ≡ r =
            ok-injective (rw omitted at e) in
          subst (λ (x : Progress × ℕ). IsIndexed first x.0) same
            (omitted-IsIndexed first acc output key w)
      | inr kept ↦
          let reused = (see_key acc.state.seen_p2tr_keys key).0 in
          subst (IsIndexed first)
            (index_output-made first height slot tx (count_slot acc output key) indexed output key
              reused r (rw kept at e))
            (created-IsIndexed first height tx acc output key reused w)
    ]

count_output-IsIndexed :
    (first : ℕ) (acc : Progress) → IsIndexed first acc → IsIndexed first (count_output acc)
unfolding IsIndexed count_output
count_output-IsIndexed first acc w = record {
  live = w.live;
  ascending = w.ascending;
  dense = w.dense;
  next = w.next;
}

scan_output-IsIndexed :
    (first height : ℕ) (tx : Tx) (acc : Progress × ℕ) (output : TxOutput) (r : Progress × ℕ)
    → IsIndexed first acc.0
    → scan_output first height tx acc output ≡ ok r
    → IsIndexed first r.0
unfolding scan_output
scan_output-IsIndexed first height tx (acc, indexed) output r w e =
    let counted = count_output-IsIndexed first acc w in
    elim (Bool-cases output.is_p2tr) [
      | inl taproot ↦
          let (_, e₁) =
            ensure-eq-ok (ltb acc.stats.p2tr_output_count (2 ^ 16)) too_many_outputs
              (ok_or output.p2tr_xonly_key missing_key
                >>= (λ key. take_slot first height tx (count_output acc) indexed output key))
              (rw taproot at e) in
          let (key, _, e₂) =
            >>=-eq-ok (ok_or output.p2tr_xonly_key missing_key)
              (λ key. take_slot first height tx (count_output acc) indexed output key) e₁ in
          take_slot-IsIndexed first height tx (count_output acc) indexed output key r counted e₂
      | inr other ↦
          let same : (count_output acc, indexed) ≡ r = ok-injective (rw other at e) in
          subst (λ (x : Progress × ℕ). IsIndexed first x.0) same counted
    ]

pub scan_outputs-IsIndexed :
    (first height : ℕ) (tx : Tx) (acc : Progress × ℕ) (outputs : List TxOutput) (r : Progress × ℕ)
    → IsIndexed first acc.0
    → scan_outputs first height tx acc outputs ≡ ok r
    → IsIndexed first r.0
unfolding scan_outputs
scan_outputs-IsIndexed first height tx acc [] r w e =
    subst (λ (x : Progress × ℕ). IsIndexed first x.0) (ok-injective e) w
scan_outputs-IsIndexed first height tx acc (output ∷ outputs) r w e =
    let (acc', e₁, e₂) =
      >>=-eq-ok (scan_output first height tx acc output)
        (λ x. scan_outputs first height tx x outputs) e in
    scan_outputs-IsIndexed first height tx acc' outputs r
      (scan_output-IsIndexed first height tx acc output acc' w e₁) e₂

drop_spent-IsIndexed :
    (first tx_index : ℕ) (acc : Progress) (o : OutPoint) (spend : SpendLookup)
    → IsIndexed first acc
    → IsIndexed first (drop_spent tx_index acc o spend)
unfolding IsIndexed drop_spent
drop_spent-IsIndexed first tx_index acc o spend w = record {
  live =
      Live.remove-IsLive uid_of (first + acc.stats.p2tr_output_count) acc.state.outpoint_to_spend o
        w.live;
  ascending = w.ascending;
  dense = w.dense;
  next = w.next;
}

spend_input-IsIndexed :
    (first tx_index : ℕ) (acc : Progress) (o : OutPoint) (r : Progress)
    → IsIndexed first acc
    → spend_input tx_index acc o ≡ ok r
    → IsIndexed first r
unfolding spend_input
spend_input-IsIndexed first tx_index acc o r w e =
    elim (Option-cases (get acc.state.outpoint_to_spend o)) [
      | inl missing ↦ subst (IsIndexed first) (ok-injective (rw (spend_input, missing) at e)) w
      | inr (spend, here) ↦
          let (_, e₁) =
            ensure-eq-ok (ltb spend.creation_height (2 ^ 32)) height_too_large
              (ok (drop_spent tx_index acc o spend)) (rw (spend_input, here) at e) in
          subst (IsIndexed first) (ok-injective e₁)
            (drop_spent-IsIndexed first tx_index acc o spend w)
    ]

pub spend_inputs-IsIndexed :
    (first tx_index : ℕ) (acc : Progress) (inputs : List OutPoint) (r : Progress)
    → IsIndexed first acc
    → spend_inputs tx_index acc inputs ≡ ok r
    → IsIndexed first r
unfolding spend_inputs
spend_inputs-IsIndexed first tx_index acc [] r w e = subst (IsIndexed first) (ok-injective e) w
spend_inputs-IsIndexed first tx_index acc (o ∷ inputs) r w e =
    let (acc', e₁, e₂) =
      >>=-eq-ok (spend_input tx_index acc o) (λ x. spend_inputs tx_index x inputs) e in
    spend_inputs-IsIndexed first tx_index acc' inputs r
      (spend_input-IsIndexed first tx_index acc o acc' w e₁) e₂
