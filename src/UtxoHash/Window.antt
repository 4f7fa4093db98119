-- ===== src/UtxoHash/Window.antt =====
-- stats/src/utxo_hash.rs: the accumulator against the blocks of the window.
use bitcoin_data.Base.{
  Bool-cases, List, [], ap, append-nil, append_assoc, arith, bytes_keyed, drop, drop-drop, false,
  inl, inr, length, length-append, length-drop, ltb, ltb→lt, lt→ltb, refl, subst, suc, sym, zero, ℕ,
  ◌++◌, ◌+◌, ◌-◌, ◌<◌, ◌∙◌, ◌∷◌, ◌≡◌, ◌≤◌,
}
use bitcoin_data.UtxoHash.{RollingUtxoHash, xor_bytes, zero_hash, new_hash, evict, finalize_block}
use bitcoin_data.UtxoHash.Xor.{xor_bytes_cancel, xor_bytes_exchange}

-- The exclusive or of the hashes of some blocks.
unfoldable pub xor_all : List (List ℕ) → List ℕ
unfolding xor_bytes
xor_all [] = zero_hash
xor_all (w ∷ ws) = xor_bytes (xor_all ws) w

xor_all-append :
    (ws : List (List ℕ)) (x : List ℕ) → xor_all (ws ++ x ∷ []) ≡ xor_bytes (xor_all ws) x
unfolding xor_all
xor_all-append [] x = refl
xor_all-append (w ∷ ws) x =
    ap (λ (t : List ℕ). xor_bytes t w) (xor_all-append ws x) ∙ xor_bytes_exchange (xor_all ws) x w

no_more : (a n : ℕ) → ltb n a ≡ false → a - n ≡ 0
no_more a n h = ground arith

-- The blocks that leave are the oldest, and the accumulator keeps up with them.
evict-last :
    (n : ℕ) (ws : List (List ℕ)) (acc : List ℕ)
    → acc ≡ xor_all ws
    → ((evict n ws acc).0 ≡ drop (length ws - n) ws)
      × ((evict n ws acc).1 ≡ xor_all (drop (length ws - n) ws))
unfolding evict xor_all
evict-last n [] acc e = ground arith
evict-last n (w ∷ ws) acc e = elim (Bool-cases (ltb n (length (w ∷ ws)))) [
  | inl more ↦
      let less = ltb→lt n (length (w ∷ ws)) more in
      let count : length (w ∷ ws) - n ≡ suc (length ws - n) = omega arith in
      let undone : xor_bytes acc w ≡ xor_all ws =
        ap (λ (t : List ℕ). xor_bytes t w) e ∙ xor_bytes_cancel (xor_all ws) w in
      rw (more, count) (evict-last n ws (xor_bytes acc w) undone)
  | inr done ↦
      let count : length (w ∷ ws) - n ≡ 0 = no_more (length (w ∷ ws)) n done in
      rw (done, count) (refl, e)
]

-- What the fields hold between two blocks, after blocks with the hashes `ds`.
pub record IsRolling (h : RollingUtxoHash) (n : ℕ) (ds : List (List ℕ)) : Type 0 where
  pub size : h.window_blocks ≡ n
  pub recent : h.window ≡ drop (length ds - n) ds
  pub sum : h.acc ≡ xor_all h.window
  pub fresh : h.current_block ≡ zero_hash

-- A block whose events were mixed to the hash `d`, and its end.
unfoldable pub roll : RollingUtxoHash → List ℕ → RollingUtxoHash
unfolding finalize_block
roll h d = finalize_block (record h { current_block = d })

unfoldable pub roll_all : RollingUtxoHash → List (List ℕ) → RollingUtxoHash
unfolding roll
roll_all h [] = h
roll_all h (d ∷ ds) = roll_all (roll h d) ds

drop_first : (k : ℕ) (ds es : List (List ℕ)) → k ≤ length ds → drop k (ds ++ es) ≡ drop k ds ++ es
drop_first zero ds es h = refl
drop_first (suc k) [] es h = absurd (omega arith)
drop_first (suc k) (d ∷ ds) es h = drop_first k ds es (omega arith)

drop_recent :
    (n : ℕ) (ds kept : List (List ℕ)) (d : List ℕ)
    → kept ≡ drop (length ds - n) ds ++ d ∷ []
    → drop (length kept - n) kept ≡ drop (length (ds ++ d ∷ []) - n) (ds ++ d ∷ [])
drop_recent n ds kept d e =
    let k = length ds - n in
    let all = ds ++ d ∷ [] in
    let tail : kept ≡ drop k all = e ∙ sym (drop_first k ds (d ∷ []) (omega arith)) in
    let size : length all ≡ length ds + 1 = length-append ds (d ∷ []) in
    let left : length (drop k all) - n + k ≡ length all - n =
      omega (arith, length-drop k all, size) in
    let left' : k + (length (drop k all) - n) ≡ length all - n = omega (arith, left) in
    rw tail (drop-drop k (length (drop k all) - n) all ∙ ap (λ (m : ℕ). drop m all) left')

roll_on :
    (h : RollingUtxoHash) (d : List ℕ)
    → 0 < h.window_blocks
    → roll h d ≡ record {
      window = (evict h.window_blocks (h.window ++ d ∷ []) (xor_bytes h.acc d)).0;
      acc = (evict h.window_blocks (h.window ++ d ∷ []) (xor_bytes h.acc d)).1;
      window_blocks = h.window_blocks;
      current_block = zero_hash;
    }
unfolding roll finalize_block
roll_on h d p = rw (lt→ltb 0 h.window_blocks p) refl

roll-IsRolling :
    (h : RollingUtxoHash) (n : ℕ) (ds : List (List ℕ)) (d : List ℕ)
    → 0 < n
    → IsRolling h n ds
    → IsRolling (roll h d) n (ds ++ d ∷ [])
roll-IsRolling h n ds d p w =
    let pushed = h.window ++ d ∷ [] in
    let sum : xor_bytes h.acc d ≡ xor_all pushed =
      ap (λ (t : List ℕ). xor_bytes t d) w.sum ∙ sym (xor_all-append h.window d) in
    let (kept, left) = evict-last h.window_blocks pushed (xor_bytes h.acc d) sum in
    let positive : 0 < h.window_blocks = omega (arith, w.size) in
    let recent = drop_recent n ds pushed d (ap (λ (t : List (List ℕ)). t ++ d ∷ []) w.recent) in
    let size = w.size in
    rw (roll_on h d positive) (record {
      size = size;
      recent = kept ∙ ap (λ (m : ℕ). drop (length pushed - m) pushed) size ∙ recent;
      sum = left ∙ ap xor_all (sym kept);
      fresh = refl;
    })

new_hash-IsRolling : (n : ℕ) → IsRolling (new_hash n) n []
unfolding xor_all
new_hash-IsRolling n = record { size = refl; recent = ground arith; sum = refl; fresh = refl }

roll_all-IsRolling :
    (h : RollingUtxoHash) (n : ℕ) (ds es : List (List ℕ))
    → 0 < n
    → IsRolling h n ds
    → IsRolling (roll_all h es) n (ds ++ es)
unfolding roll_all
roll_all-IsRolling h n ds [] p w = subst (IsRolling h n) (sym (append-nil ds)) w
roll_all-IsRolling h n ds (e ∷ es) p w =
    subst (IsRolling (roll_all (roll h e) es) n) (append_assoc ds (e ∷ []) es)
      (roll_all-IsRolling (roll h e) n (ds ++ e ∷ []) es p (roll-IsRolling h n ds e p w))

-- After any blocks, the window of a rolling hash over `n` blocks, `n` positive, holds the hashes of
-- the last `n` of them, all where there are fewer, and the accumulator is their exclusive or,
-- independent of the blocks before.
pub roll_all_window :
    (n : ℕ) (ds : List (List ℕ)) → 0 < n → IsRolling (roll_all (new_hash n) ds) n ds
roll_all_window n ds p = roll_all-IsRolling (new_hash n) n [] ds p (new_hash-IsRolling n)
