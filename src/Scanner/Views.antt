-- ===== src/Scanner/Views.antt =====
-- stats/src/scan.rs, `scan`: what spending an output changes of what the invariant reads.
use bitcoin_data.Base.{
  Bool, Bool-cases, List, add_u64, ap, bytes_keyed, if◌then◌else◌, inl, inr, refl, remove, true, ℕ,
  ◌∙◌, ◌≡◌,
}
use bitcoin_data.OutPoint.{OutPoint, outpoint_keyed}
use bitcoin_data.Spend.{
  Stats, SpendContext, same_tx, same_block, earlier, SpendPath, key, script_non_nums, script_nums,
  SpendClass, record_spend, record_p2tr_spend, count_context, count_path, count_inscription,
}
use bitcoin_data.PerBlock.{
  PerBlock, record_spend_uid, block_path, block_inscription, block_p2tr_spend,
}
use bitcoin_data.Scanner.{UtxoEntry, id_of, script_type_of, PreparedInput, is_p2tr_type}
use bitcoin_data.Scanner.Blocks.{Scan, spend_context, count_spend, count_p2tr, spend_entry}
use bitcoin_data.Scanner.Sound.{View, spend_view}

abbrev pub view_of : Scan → View
view_of s = record {
  utxo = s.state.utxo;
  last_id = s.state.last_id;
  outputs = s.state.stats.outputs;
  spends = s.state.stats.spend.spends;
  block_spends = s.per_block.spends;
  spent = s.per_block.spent_uids;
  p2tr_spent = s.per_block.p2tr_spent_uids;
}

record_spend-spends :
    (s : Stats) (ctx : SpendContext) → (record_spend s ctx).spends ≡ add_u64 s.spends 1
unfolding record_spend
record_spend-spends s same_tx = refl
record_spend-spends s same_block = refl
record_spend-spends s earlier = refl

count_context-spends : (s : Stats) (ctx : SpendContext) → (count_context s ctx).spends ≡ s.spends
unfolding count_context
count_context-spends s same_tx = refl
count_context-spends s same_block = refl
count_context-spends s earlier = refl

count_path-spends : (s : Stats) (path : SpendPath) → (count_path s path).spends ≡ s.spends
unfolding count_path
count_path-spends s key = refl
count_path-spends s script_non_nums = refl
count_path-spends s script_nums = refl

count_inscription-spends :
    (s : Stats) (class : SpendClass) → (count_inscription s class).spends ≡ s.spends
unfolding count_inscription
count_inscription-spends s class = elim (Bool-cases class.inscription) [
  | inl marked ↦ rw marked refl
  | inr plain ↦ rw plain refl
]

-- A taproot spend is counted among all spends before.
record_p2tr_spend-spends :
    (s : Stats) (class : SpendClass) (ctx : SpendContext)
    → (record_p2tr_spend s class ctx).spends ≡ s.spends
unfolding record_p2tr_spend
record_p2tr_spend-spends s class ctx =
    let counted = record s { p2tr_spends = add_u64 s.p2tr_spends 1 } in
    count_inscription-spends (count_path (count_context counted ctx) class.path) class
    ∙ count_path-spends (count_context counted ctx) class.path
    ∙ count_context-spends counted ctx

abbrev Lists : Type 0
Lists = ℕ × List ℕ × List ℕ

abbrev lists_of : PerBlock → Lists
lists_of p = (p.spends, p.spent_uids, p.p2tr_spent_uids)

block_path-lists : (p : PerBlock) (path : SpendPath) → lists_of (block_path p path) ≡ lists_of p
unfolding block_path
block_path-lists p key = refl
block_path-lists p script_non_nums = refl
block_path-lists p script_nums = refl

block_inscription-lists :
    (p : PerBlock) (class : SpendClass) → lists_of (block_inscription p class) ≡ lists_of p
unfolding block_inscription
block_inscription-lists p class = elim (Bool-cases class.inscription) [
  | inl marked ↦ rw marked refl
  | inr plain ↦ rw plain refl
]

block_p2tr_spend-lists :
    (p : PerBlock) (class : SpendClass) → lists_of (block_p2tr_spend p class) ≡ lists_of p
unfolding block_p2tr_spend
block_p2tr_spend-lists p class =
    let counted = record p { p2tr_spends = add_u64 p.p2tr_spends 1 } in
    block_inscription-lists (block_path counted class.path) class
    ∙ block_path-lists counted class.path

module _ (sha256 : List ℕ → List ℕ) where
  count_p2tr-view :
      (s : Scan) (class : SpendClass) (ctx : SpendContext)
      → view_of (count_p2tr sha256 s class ctx) ≡ view_of s
  unfolding count_p2tr
  count_p2tr-view s class ctx =
      ap (λ (n : ℕ). record (view_of (count_p2tr sha256 s class ctx)) { spends = n })
        (record_p2tr_spend-spends s.state.stats.spend class ctx)
      ∙ ap (λ (x : Lists). record (view_of s) { block_spends = x.0; spent = x.1; p2tr_spent = x.2 })
          (block_p2tr_spend-lists s.per_block class)

  -- The scan with the entry at `o` taken out.
  abbrev pub taken : Scan → OutPoint → Scan
  taken s o = record s { state = record (s.state) { utxo = remove s.state.utxo o } }

  count_spend-view :
      (s : Scan) (o : OutPoint) (entry : UtxoEntry) (ctx : SpendContext)
      → view_of (count_spend sha256 (taken s o) entry ctx)
        ≡ spend_view (view_of s) o entry (is_p2tr_type (script_type_of entry))
  unfolding count_spend spend_view record_spend_uid
  count_spend-view s o entry ctx =
      ap
        (λ (n : ℕ). record (spend_view (view_of s) o entry (is_p2tr_type (script_type_of entry))) {
          spends = n;
        })
        (record_spend-spends s.state.stats.spend ctx)

  pub spend_entry-view :
      (block_start tx_start : ℕ) (input : PreparedInput) (s : Scan) (o : OutPoint)
      (entry : UtxoEntry)
      → view_of (spend_entry sha256 block_start tx_start input entry (taken s o))
        ≡ spend_view (view_of s) o entry (is_p2tr_type (script_type_of entry))
  unfolding spend_entry
  spend_entry-view block_start tx_start input s o entry =
      let ctx = spend_context block_start tx_start (id_of entry) in
      let counted = count_spend sha256 (taken s o) entry ctx in
      elim (Bool-cases (is_p2tr_type (script_type_of entry))) [
        | inl p2tr ↦
            ap
              (λ (b : Bool). view_of (
                if b
                then count_p2tr sha256 counted input.p2tr_spend_class ctx
                else record counted { has_non_p2tr = true }))
              p2tr
            ∙ count_p2tr-view counted input.p2tr_spend_class ctx
            ∙ count_spend-view s o entry ctx
        | inr other ↦
            ap
              (λ (b : Bool). view_of (
                if b
                then count_p2tr sha256 counted input.p2tr_spend_class ctx
                else record counted { has_non_p2tr = true }))
              other
            ∙ count_spend-view s o entry ctx
      ]
