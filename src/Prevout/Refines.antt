-- ===== src/Prevout/Refines.antt =====
-- light-server/src/prevout_store.rs: `enrich_block_scan_points` over the pending writes does what it
-- does over a map of unspent outputs.
use bitcoin_data.Base.{
  >>=-eq-ok, All, Bool-cases, List, Option-cases, Result, [], ap, bytes_keyed, err, get, inl, inr,
  none, ok, ok-injective, refl, some, subst, sym, ℕ, ◌>>=◌, ◌∙◌, ◌∷◌, ◌≡◌,
}
use mathlib.Core.Path.{fun_ext}
use bitcoin_data.OutPoint.{OutPoint, is_coinbase}
use bitcoin_data.ScanPoint
use bitcoin_data.Prevout.{Curve, Script}
use bitcoin_data.Prevout.Pending.{Db, Pending, put, delete, rocks_key, lookup_prevout}
use bitcoin_data.Prevout.Overlay.{IsFresh, lookup_prevout-put, lookup_prevout-delete}
use bitcoin_data.Prevout.Enrich.{
  Error, TxInput, TxOutput, Tx, MutationStats, Lookups, compact_script, enrich_tx, apply_spends,
  apply_outputs, enrich_block,
}
use bitcoin_data.Prevout.View.{
  update, spend_all, create_all, enrich_over, after_all, put-IsFresh, delete-IsFresh,
  apply_spends-IsFresh,
}

abbrev Enriched : Type 0
Enriched = List Tx × Pending × MutationStats

abbrev pub txs_of : Result Error Enriched → Result Error (List Tx)
txs_of r = do (txs, _, _) ← r; ok txs

bind_txs :
    (e : Tx) (r : Result Error Enriched) (spec : Result Error (List Tx))
    → txs_of r ≡ spec
    → txs_of (do (rest, p, s) ← r; ok (e ∷ rest, p, s)) ≡ (do rest ← spec; ok (e ∷ rest))
bind_txs e (err f) spec h = ap (λ (r : Result Error (List Tx)). do rest ← r; ok (e ∷ rest)) h
bind_txs e (ok (rest, p, s)) spec h =
    ap (λ (r : Result Error (List Tx)). do rest ← r; ok (e ∷ rest)) h

bind_first :
    (r : Result Error (Tx × ℕ)) (later : ℕ → Result Error Enriched) (spec : Result Error (List Tx))
    → ((n : ℕ) → txs_of (later n) ≡ spec)
    → txs_of (do (e, n) ← r; (rest, p, s) ← later n; ok (e ∷ rest, p, s))
      ≡ (do (e, _) ← r; rest ← spec; ok (e ∷ rest))
bind_first (err f) later spec h = refl
bind_first (ok (e, n)) later spec h = bind_txs e (later n) spec (h n)

module _ (lib : ScanPoint.Library) (curve : Curve) (db : Db) where
  -- No output of the transactions is in the database yet.
  abbrev pub AreNew : List ℕ → List TxOutput → Type 0
  AreNew txid outputs =
      All (λ (o : TxOutput). get db (rocks_key (record { txid = txid; vout = o.vout })) ≡ none)
        outputs

  abbrev find : Pending → Lookups
  find p = lookup_prevout curve db p

  find-delete :
      (p : Pending) (o : OutPoint) → IsFresh db p → find (delete p o) ≡ update (find p) o none
  find-delete p o fresh = fun_ext (λ o'. lookup_prevout-delete curve db p o o' fresh)

  find-put :
      (p : Pending) (o : OutPoint) (s : Script) → find (put p o s) ≡ update (find p) o (some s)
  find-put p o s = fun_ext (λ o'. lookup_prevout-put curve db p o o' s)

  apply_spends-find :
      (p : Pending) (inputs : List TxInput)
      → IsFresh db p
      → find (apply_spends p inputs) ≡ spend_all (find p) inputs
  unfolding apply_spends spend_all
  apply_spends-find p [] fresh = refl
  apply_spends-find p (input ∷ inputs) fresh =
      elim (Bool-cases (is_coinbase input.previous_output)) [
        | inl coinbase ↦ rw coinbase (apply_spends-find p inputs fresh)
        | inr spent ↦ rw spent (
            apply_spends-find (delete p input.previous_output) inputs
              (delete-IsFresh db p input.previous_output fresh)
            ∙ ap (λ (f : Lookups). spend_all f inputs) (find-delete p input.previous_output fresh))
      ]

  apply_outputs-none :
      (p : Pending) (txid : List ℕ) (o : TxOutput) (os : List TxOutput)
      → compact_script lib curve o.script_pubkey ≡ none
      → (apply_outputs lib curve p txid (o ∷ os) ≡ apply_outputs lib curve p txid os)
        × ((f : Lookups) → create_all lib curve f txid (o ∷ os) ≡ create_all lib curve f txid os)
  unfolding apply_outputs create_all
  apply_outputs-none p txid o os e = (rw (e, apply_outputs) refl, λ f. rw (e, create_all) refl)

  apply_outputs-some :
      (p : Pending) (txid : List ℕ) (o : TxOutput) (os : List TxOutput) (s : Script)
      → compact_script lib curve o.script_pubkey ≡ some s
      → ((apply_outputs lib curve p txid (o ∷ os)).0
          ≡ (apply_outputs lib curve (put p (record { txid = txid; vout = o.vout }) s) txid os).0)
        × ((f : Lookups)
            → create_all lib curve f txid (o ∷ os)
              ≡ create_all lib curve
                  (update f (record { txid = txid; vout = o.vout }) (some s))
                  txid
                  os)
  unfolding apply_outputs create_all
  apply_outputs-some p txid o os s e = (rw (e, apply_outputs) refl, λ f. rw (e, create_all) refl)

  -- The writes of the outputs keep the puts fresh and create the outputs in the map.
  apply_outputs-find :
      (p : Pending) (txid : List ℕ) (outputs : List TxOutput)
      → AreNew txid outputs
      → IsFresh db p
      → IsFresh db (apply_outputs lib curve p txid outputs).0
        × (find (apply_outputs lib curve p txid outputs).0
            ≡ create_all lib curve (find p) txid outputs)
  unfolding apply_outputs create_all
  apply_outputs-find p txid [] new fresh = (fresh, refl)
  apply_outputs-find p txid (o ∷ os) new fresh =
      elim (Option-cases (compact_script lib curve o.script_pubkey)) [
        | inl e ↦
            let (a, b) = apply_outputs-none p txid o os e in
            let (kept, same) = apply_outputs-find p txid os new.1 fresh in
            (
              subst (λ (r : Pending × ℕ). IsFresh db r.0) (sym a) kept,
              ap (λ (r : Pending × ℕ). find r.0) a ∙ same ∙ sym (b (find p)),
            )
        | inr (s, e) ↦
            let at_now : OutPoint = record { txid = txid; vout = o.vout } in
            let (a, b) = apply_outputs-some p txid o os s e in
            let (kept, same) =
              apply_outputs-find (put p at_now s) txid os new.1
                (put-IsFresh db p at_now s new.0 fresh) in
            (
              subst (IsFresh db) (sym a) kept,
              ap find a
                  ∙ same
                  ∙ ap (λ (f : Lookups). create_all lib curve f txid os) (find-put p at_now s)
                  ∙ sym (b (find p)),
            )
      ]

  abbrev written : Pending → Tx → Pending
  written p tx = (apply_outputs lib curve (apply_spends p tx.inputs) tx.txid tx.outputs).0

  written-find :
      (p : Pending) (tx : Tx)
      → AreNew tx.txid tx.outputs
      → IsFresh db p
      → IsFresh db (written p tx)
        × (find (written p tx)
            ≡ create_all lib curve (spend_all (find p) tx.inputs) tx.txid tx.outputs)
  written-find p tx new fresh =
      let (kept, same) =
        apply_outputs-find (apply_spends p tx.inputs) tx.txid tx.outputs new
          (apply_spends-IsFresh db p tx.inputs fresh) in
      (
        kept,
        same
            ∙ ap (λ (f : Lookups). create_all lib curve f tx.txid tx.outputs)
                (apply_spends-find p tx.inputs fresh),
      )

  enriched_txs :
      (txs : List Tx) (p : Pending) (stats : MutationStats)
      → All (λ (tx : Tx). AreNew tx.txid tx.outputs) txs
      → IsFresh db p
      → txs_of (enrich_block lib curve db p stats txs) ≡ enrich_over lib curve (find p) txs
  unfolding enrich_block enrich_over
  enriched_txs [] p stats new fresh = refl
  enriched_txs (tx ∷ txs) p stats new fresh =
      let (kept, same) = written-find p tx new.0 fresh in
      bind_first (enrich_tx lib curve (find p) tx) _
        (enrich_over lib curve
          (create_all lib curve (spend_all (find p) tx.inputs) tx.txid tx.outputs) txs)
        (λ n.
          enriched_txs txs (written p tx) _ new.1 kept
          ∙ ap (λ (f : Lookups). enrich_over lib curve f txs) same)

  written_all : Pending → List Tx → Pending
  written_all p [] = p
  written_all p (tx ∷ txs) = written_all (written p tx) txs

  written_all-find :
      (txs : List Tx) (p : Pending)
      → All (λ (tx : Tx). AreNew tx.txid tx.outputs) txs
      → IsFresh db p
      → find (written_all p txs) ≡ after_all lib curve (find p) txs
  unfolding written_all after_all
  written_all-find [] p new fresh = refl
  written_all-find (tx ∷ txs) p new fresh =
      let (kept, same) = written-find p tx new.0 fresh in
      written_all-find txs (written p tx) new.1 kept
      ∙ ap (λ (f : Lookups). after_all lib curve f txs) same

  enrich_block-pending :
      (txs : List Tx) (p : Pending) (stats : MutationStats) (r : Enriched)
      → enrich_block lib curve db p stats txs ≡ ok r
      → written_all p txs ≡ r.1
  unfolding enrich_block written_all
  enrich_block-pending [] p stats r e = ap (λ (x : Enriched). x.1) (ok-injective e)
  enrich_block-pending (tx ∷ txs) p stats r e =
      let (first, _, e₁) = >>=-eq-ok (enrich_tx lib curve (find p) tx) _ e in
      let (rest, e₂, e₃) = >>=-eq-ok (enrich_block lib curve db (written p tx) _ txs) _ e₁ in
      enrich_block-pending txs (written p tx) _ rest e₂
      ∙ ap (λ (x : Enriched). x.1) (ok-injective e₃)

  -- Where the pending puts and the outputs of the block are not in the database, enriching a block
  -- over the pending writes gives the transactions, or the error, that enriching it over the map of
  -- unspent outputs gives, each transaction over what the earlier ones left; and on success the
  -- pending writes stand for the map after the block.
  pub enrich_block-refines :
      (txs : List Tx) (p : Pending) (stats : MutationStats)
      → All (λ (tx : Tx). AreNew tx.txid tx.outputs) txs
      → IsFresh db p
      → (txs_of (enrich_block lib curve db p stats txs)
          ≡ enrich_over lib curve (lookup_prevout curve db p) txs)
        × ((r : List Tx × Pending × MutationStats)
            → enrich_block lib curve db p stats txs ≡ ok r
            → (o : OutPoint)
            → lookup_prevout curve db r.1 o ≡ after_all lib curve (lookup_prevout curve db p) txs o)
  enrich_block-refines txs p stats new fresh = (
    enriched_txs txs p stats new fresh,
    λ r e o.
        ap (λ (q : Pending). find q o) (sym (enrich_block-pending txs p stats r e))
        ∙ ap (λ (f : Lookups). f o) (written_all-find txs p new fresh),
  )
