-- ===== src/Scanner/Sound.antt =====
-- stats/src/scan.rs: what holds between the unspent outputs and the counters while a block is scanned.
use bitcoin_data.Base.{
  All, Bool, List, [], add_u64, arith, bytes_keyed, false, get, if◌then◌else◌, insert, length,
  length-append, remove, some, subst, sym, true, ℕ, ◌++◌, ◌+◌, ◌<◌, ◌^◌, ◌∙◌, ◌∷◌, ◌≡◌, ◌≢◌, ◌≤◌,
}
use bitcoin_data.OutPoint.{OutPoint, outpoint_keyed}
use bitcoin_data.OutPoint.Live
use bitcoin_data.ScriptTypes.{ScriptType}
use bitcoin_data.SpentIds.Sorting.{IsDistinct}
use bitcoin_data.Scanner.{UtxoEntry, Utxo, new_entry, id_of}
use bitcoin_data.Scanner.Packing.{id_of-new_entry}

-- What the invariant reads of a scan.
pub record View : Type 0 where
  pub utxo : Utxo
  pub last_id : ℕ
  pub outputs : ℕ
  pub spends : ℕ
  pub block_spends : ℕ
  pub spent : List ℕ
  pub p2tr_spent : List ℕ

-- Different ids that were given out and whose outputs are no more.
pub record AreSpent (last_id : ℕ) (utxo : Utxo) (uids : List ℕ) : Type 0 where
  pub distinct : IsDistinct uids
  pub given : All (λ (uid : ℕ). uid ≤ last_id) uids
  pub gone : All (λ (uid : ℕ). Live.Lacks id_of uid utxo) uids

pub record IsSound (v : View) : Type 0 where
  pub live : Live.IsLive id_of (v.last_id + 1) v.utxo
  pub spent : AreSpent v.last_id v.utxo v.spent
  pub p2tr_spent : AreSpent v.last_id v.utxo v.p2tr_spent
  pub held : length v.utxo + v.spends ≤ v.outputs
  pub counted : v.outputs ≡ v.last_id
  pub block_counted : v.block_spends ≡ length v.spent
  pub block_within : v.block_spends ≤ v.spends
  pub p2tr_few : length v.p2tr_spent ≤ length v.spent

All-imply : (P Q : ℕ → Type 0) (xs : List ℕ) → ((x : ℕ) → P x → Q x) → All P xs → All Q xs
All-imply P Q [] f h = tt
All-imply P Q (x ∷ xs) f h = (f x h.0, All-imply P Q xs f h.1)

All-last : (P : ℕ → Type 0) (xs : List ℕ) (x : ℕ) → All P xs → P x → All P (xs ++ x ∷ [])
All-last P [] x h p = (p, tt)
All-last P (y ∷ xs) x h p = (h.0, All-last P xs x h.1 p)

IsDistinct-last :
    (xs : List ℕ) (x : ℕ) → IsDistinct xs → All (λ (y : ℕ). y ≢ x) xs → IsDistinct (xs ++ x ∷ [])
IsDistinct-last [] x h n = (tt, tt)
IsDistinct-last (y ∷ xs) x h n =
    (All-last (λ (z : ℕ). y ≢ z) xs x h.0 n.0, IsDistinct-last xs x h.1 n.1)

AreSpent-remove :
    (last_id : ℕ) (utxo : Utxo) (uids : List ℕ) (o : OutPoint)
    → AreSpent last_id utxo uids
    → AreSpent last_id (remove utxo o) uids
AreSpent-remove last_id utxo uids o w = record {
  distinct = w.distinct;
  given = w.given;
  gone =
      All-imply (λ (uid : ℕ). Live.Lacks id_of uid utxo)
        (λ (uid : ℕ). Live.Lacks id_of uid (remove utxo o)) uids
        (λ uid h. Live.remove-All id_of (λ (e : OutPoint × UtxoEntry). id_of e.1 ≢ uid) utxo o h)
        w.gone;
}

-- The id of a removed entry is another one.
AreSpent-spend :
    (last_id : ℕ) (utxo : Utxo) (uids : List ℕ) (o : OutPoint) (entry : UtxoEntry)
    → get utxo o ≡ some entry
    → Live.IsLive id_of (last_id + 1) utxo
    → AreSpent last_id utxo uids
    → AreSpent last_id (remove utxo o) (uids ++ id_of entry ∷ [])
AreSpent-spend last_id utxo uids o entry found live w =
    let rest = AreSpent-remove last_id utxo uids o w in
    let below : id_of entry < last_id + 1 =
      Live.get-All id_of (λ (e : UtxoEntry). id_of e < last_id + 1) utxo o entry found live.below in
    record {
      distinct = IsDistinct-last uids (id_of entry) w.distinct (
          All-imply (λ (uid : ℕ). Live.Lacks id_of uid utxo) (λ (uid : ℕ). uid ≢ id_of entry) uids
            (λ uid h same.
              Live.get-All id_of (λ (e : UtxoEntry). id_of e ≢ uid) utxo o entry found h (sym same))
            w.gone);
      given = All-last (λ (uid : ℕ). uid ≤ last_id) uids (id_of entry) w.given (omega arith);
      gone =
          All-last (λ (uid : ℕ). Live.Lacks id_of uid (remove utxo o)) uids (id_of entry) rest.gone
            (Live.remove-Lacks id_of utxo o entry found live.distinct);
    }

-- A found entry is spent; a taproot spend is in the second list as well.
unfoldable pub spend_view : View → OutPoint → UtxoEntry → Bool → View
spend_view v o entry is_p2tr = record v {
  utxo = remove v.utxo o;
  spends = add_u64 v.spends 1;
  block_spends = add_u64 v.block_spends 1;
  spent = v.spent ++ id_of entry ∷ [];
  p2tr_spent = if is_p2tr then v.p2tr_spent ++ id_of entry ∷ [] else v.p2tr_spent;
}

p2tr_spent-IsSound :
    (v : View) (o : OutPoint) (entry : UtxoEntry) (is_p2tr : Bool)
    → get v.utxo o ≡ some entry
    → IsSound v
    → AreSpent v.last_id
        (remove v.utxo o)
        (if is_p2tr then v.p2tr_spent ++ id_of entry ∷ [] else v.p2tr_spent)
p2tr_spent-IsSound v o entry true found w =
    AreSpent-spend v.last_id v.utxo v.p2tr_spent o entry found w.live w.p2tr_spent
p2tr_spent-IsSound v o entry false found w =
    AreSpent-remove v.last_id v.utxo v.p2tr_spent o w.p2tr_spent

p2tr_shorter :
    (spent p2tr_spent : List ℕ) (uid : ℕ) (is_p2tr : Bool)
    → length p2tr_spent ≤ length spent
    → length (if is_p2tr then p2tr_spent ++ uid ∷ [] else p2tr_spent) ≤ length (spent ++ uid ∷ [])
p2tr_shorter spent p2tr_spent uid true h =
    omega (arith, length-append spent (uid ∷ []), length-append p2tr_spent (uid ∷ []), h)
p2tr_shorter spent p2tr_spent uid false h = omega (arith, length-append spent (uid ∷ []), h)

pub spend_view-IsSound :
    (v : View) (o : OutPoint) (entry : UtxoEntry) (is_p2tr : Bool)
    → v.last_id < 2 ^ 60
    → get v.utxo o ≡ some entry
    → IsSound v
    → IsSound (spend_view v o entry is_p2tr)
unfolding spend_view
spend_view-IsSound v o entry is_p2tr few found w =
    let shorter = Live.length-remove id_of v.utxo o entry found in
    let size : length (v.spent ++ id_of entry ∷ []) ≡ length v.spent + 1 =
      omega (arith, length-append v.spent (id_of entry ∷ [])) in
    record {
      live = Live.remove-IsLive id_of (v.last_id + 1) v.utxo o w.live;
      spent = AreSpent-spend v.last_id v.utxo v.spent o entry found w.live w.spent;
      p2tr_spent = p2tr_spent-IsSound v o entry is_p2tr found w;
      held = omega (arith, shorter, w.held, w.counted, few);
      counted = w.counted;
      block_counted = omega (arith, size, w.block_counted, w.block_within, w.held, w.counted, few);
      block_within = omega (arith, shorter, w.block_within, w.held, w.counted, few);
      p2tr_few = p2tr_shorter v.spent v.p2tr_spent (id_of entry) is_p2tr w.p2tr_few;
    }

AreSpent-insert :
    (last_id : ℕ) (utxo : Utxo) (uids : List ℕ) (o : OutPoint) (entry : UtxoEntry)
    → id_of entry ≡ last_id + 1
    → AreSpent last_id utxo uids
    → AreSpent (last_id + 1) (insert utxo o entry) uids
unfolding insert
AreSpent-insert last_id utxo uids o entry e w = record {
  distinct = w.distinct;
  given =
      All-imply (λ (uid : ℕ). uid ≤ last_id) (λ (uid : ℕ). uid ≤ last_id + 1) uids
        (λ uid h. omega arith) w.given;
  gone = both uids w.given (AreSpent-remove last_id utxo uids o w).gone;
}
  where
    both :
        (us : List ℕ)
        → All (λ (uid : ℕ). uid ≤ last_id) us
        → All (λ (uid : ℕ). Live.Lacks id_of uid (remove utxo o)) us
        → All (λ (uid : ℕ). Live.Lacks id_of uid ((o, entry) ∷ remove utxo o)) us
    both [] h k = tt
    both (u ∷ us) h k = ((λ same. absurd (omega (arith, same, e, h.0)), k.0), both us h.1 k.1)

-- A new output takes the next id.
unfoldable pub output_view : View → OutPoint → ScriptType → View
output_view v o t = record v {
  utxo = insert v.utxo o (new_entry (add_u64 v.last_id 1) t);
  last_id = add_u64 v.last_id 1;
  outputs = add_u64 v.outputs 1;
}

pub output_view-IsSound :
    (v : View) (o : OutPoint) (t : ScriptType)
    → v.last_id + 1 < 2 ^ 60
    → IsSound v
    → IsSound (output_view v o t)
unfolding output_view
output_view-IsSound v o t few w =
    let next : add_u64 v.last_id 1 ≡ v.last_id + 1 = omega arith in
    let id : id_of (new_entry (add_u64 v.last_id 1) t) ≡ v.last_id + 1 =
      id_of-new_entry (add_u64 v.last_id 1) t (omega arith) ∙ next in
    let entry = new_entry (add_u64 v.last_id 1) t in
    record {
      live =
          subst (λ (n : ℕ). Live.IsLive id_of (n + 1) (insert v.utxo o entry)) (sym next)
            (Live.insert-IsLive id_of (v.last_id + 1) v.utxo o entry id w.live);
      spent =
          subst (λ (n : ℕ). AreSpent n (insert v.utxo o entry) v.spent) (sym next)
            (AreSpent-insert v.last_id v.utxo v.spent o entry id w.spent);
      p2tr_spent =
          subst (λ (n : ℕ). AreSpent n (insert v.utxo o entry) v.p2tr_spent) (sym next)
            (AreSpent-insert v.last_id v.utxo v.p2tr_spent o entry id w.p2tr_spent);
      held = omega (arith, Live.length-insert id_of v.utxo o entry, w.held, w.counted, few);
      counted = omega (arith, w.counted);
      block_counted = w.block_counted;
      block_within = w.block_within;
      p2tr_few = w.p2tr_few;
    }
