-- ===== src/Prevout/View.antt =====
-- light-server/src/prevout_store.rs, `enrich_block_scan_points`: the database with the pending writes
-- is a map of unspent outputs.
use bitcoin_data.Base.{
  Bool, Bool-cases, List, Option, Option-cases, Result, [], ap, bytes_keyed, false, get, get-insert,
  get-remove, if◌then◌else◌, inl, inr, none, ok, refl, remove, some, subst, true, ℕ, ◌>>=◌, ◌∙◌,
  ◌∷◌, ◌≡◌,
}
use bitcoin_data.OutPoint.{OutPoint, outpoint_keyed, same_outpoint, is_coinbase, same_outpoint-eq}
use bitcoin_data.ScanPoint
use bitcoin_data.Prevout.{Curve, Script}
use bitcoin_data.Prevout.Pending.{Db, Pending, put, delete, rocks_key}
use bitcoin_data.Prevout.Overlay.{IsFresh}
use bitcoin_data.Prevout.Enrich.{
  apply_spends, Error, TxInput, TxOutput, Tx, Lookups, compact_script, enrich_tx,
}

-- The map of unspent outputs with one changed entry.
abbrev pub update : Lookups → OutPoint → Option Script → Lookups
update find o value o' = if same_outpoint o o' then ok value else find o'

-- After the inputs of a transaction are spent.
unfoldable pub spend_all : Lookups → List TxInput → Lookups
spend_all find [] = find
spend_all find (input ∷ inputs) =
    spend_all
      (if is_coinbase input.previous_output then find else update find input.previous_output none)
      inputs

module _ (lib : ScanPoint.Library) (curve : Curve) where
  -- After its outputs are created.
  unfoldable pub create_all : Lookups → List ℕ → List TxOutput → Lookups
  create_all find txid [] = find
  create_all find txid (output ∷ outputs) = elim (compact_script lib curve output.script_pubkey) [
    | none ↦ create_all find txid outputs
    | some script ↦
        create_all (update find (record { txid = txid; vout = output.vout }) (some script)) txid
          outputs
  ]

  -- After all transactions.
  unfoldable pub after_all : Lookups → List Tx → Lookups
  unfolding create_all spend_all
  after_all find [] = find
  after_all find (tx ∷ txs) =
      after_all (create_all (spend_all find tx.inputs) tx.txid tx.outputs) txs

  -- The transactions of a block with their tweaks, each over the map that the earlier ones leave.
  unfoldable pub enrich_over : Lookups → List Tx → Result Error (List Tx)
  unfolding create_all spend_all
  enrich_over find [] = ok []
  enrich_over find (tx ∷ txs) = do
    (enriched, _) ← enrich_tx lib curve find tx
    rest ← enrich_over (create_all (spend_all find tx.inputs) tx.txid tx.outputs) txs
    ok (enriched ∷ rest)

pub put-IsFresh :
    (db : Db) (p : Pending) (o : OutPoint) (s : Script)
    → get db (rocks_key o) ≡ none
    → IsFresh db p
    → IsFresh db (put p o s)
unfolding IsFresh put outpoint_keyed
put-IsFresh db p o s new fresh o' = elim (Bool-cases (same_outpoint o o')) [
  | inl here ↦
      inr (subst (λ (x : OutPoint). get db (rocks_key x) ≡ none) (same_outpoint-eq o o' here) new)
  | inr other ↦ elim (fresh o') [
    | inl e ↦ inl (get-insert p.puts o o' s ∙ rw other e)
    | inr e ↦ inr e
  ]
]

remove_none : (b : Bool) (x : Option Script) → x ≡ none → (if b then none else x) ≡ none
remove_none true x e = refl
remove_none false x e = e

delete-puts : (p : Pending) (o : OutPoint) → (delete p o).puts ≡ remove p.puts o
unfolding delete
delete-puts p o = elim (Option-cases (get p.puts o)) [
  | inl e ↦ rw (e, delete) refl
  | inr (s, e) ↦ rw (e, delete) refl
]

pub delete-IsFresh : (db : Db) (p : Pending) (o : OutPoint) → IsFresh db p → IsFresh db (delete p o)
unfolding IsFresh outpoint_keyed
delete-IsFresh db p o fresh o' = elim (fresh o') [
  | inl e ↦ inl (
      ap (λ (m : List (OutPoint × Script)). get m o') (delete-puts p o)
      ∙ get-remove p.puts o o'
      ∙ remove_none (same_outpoint o o') (get p.puts o') e)
  | inr e ↦ inr e
]

pub apply_spends-IsFresh :
    (db : Db) (p : Pending) (inputs : List TxInput)
    → IsFresh db p
    → IsFresh db (apply_spends p inputs)
unfolding apply_spends
apply_spends-IsFresh db p [] fresh = fresh
apply_spends-IsFresh db p (input ∷ inputs) fresh =
    elim (Bool-cases (is_coinbase input.previous_output)) [
      | inl coinbase ↦ rw coinbase (apply_spends-IsFresh db p inputs fresh)
      | inr spent ↦ rw spent (
          apply_spends-IsFresh db (delete p input.previous_output) inputs
            (delete-IsFresh db p input.previous_output fresh))
    ]
