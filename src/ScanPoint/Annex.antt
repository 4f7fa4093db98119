-- ===== src/ScanPoint/Annex.antt =====
-- light-server/src/sp_tweak.rs and stats/src/transaction.rs: a script path with an annex.
use bitcoin_data.Base.{
  Bool, List, Option, [], ap, arith, bytes_keyed, false, get_elem?, get_or, if◌then◌else◌, leb,
  length, length-append, ltb, none, not, ok, refl, same_bytes, some, true, ℕ, ◌%◌, ◌&&◌, ◌++◌, ◌+◌,
  ◌-◌, ◌<◌, ◌==◌, ◌||◌, ◌∙◌, ◌∷◌, ◌≡◌, ◌≤◌,
}
use bitcoin_data.Helper.{slice}
use bitcoin_data.Spend.{
  SpendClass, script_nums, script_non_nums, key_spend, is_taproot_annex, is_taproot_control_block,
  classify_p2tr_spend, classify_at, classify_control, is_inscription_envelope, nums_h_xonly,
}
use bitcoin_data.Spend.Annex.{
  classify_p2tr_spend-annex, classify-at, stripped_len-plain, last-append,
}
use bitcoin_data.ScanPoint.{Library, Input, nums_key}
use bitcoin_data.ScanPoint.Compute.{last_item, internal_key, extract_p2tr}

last_item-append : (w : List (List ℕ)) (x : List ℕ) → last_item (w ++ x ∷ []) ≡ some x
unfolding last_item
last_item-append [] x = refl
last_item-append (y ∷ []) x = refl
last_item-append (y ∷ z ∷ w) x = last_item-append (z ∷ w) x

no_block :
    (len items : ℕ)
    → (leb 33 len && (len - 33) % 32 == 0) ≡ false
    → (ltb len 33 || (not ((len - 33) % 32 == 0) || ltb items 2)) ≡ true
no_block len items h = ground arith

a_block :
    (len items : ℕ)
    → (leb 33 len && (len - 33) % 32 == 0) ≡ true
    → 2 ≤ items
    → (ltb len 33 || (not ((len - 33) % 32 == 0) || ltb items 2)) ≡ false
a_block len items h k = ground arith

abbrev block_key : Bool → List ℕ → Option (List ℕ)
block_key refused control_block = if refused then none else some (slice control_block 1 33)

internal_key-last :
    (w : List (List ℕ)) (x : List ℕ)
    → last_item w ≡ some x
    → internal_key w
      ≡ block_key (ltb (length x) 33 || (not ((length x - 33) % 32 == 0) || ltb (length w) 2)) x
unfolding internal_key
internal_key-last w x e = rw (e, internal_key) refl

internal_key-other :
    (w : List (List ℕ)) (x : List ℕ)
    → is_taproot_control_block x ≡ false
    → internal_key (w ++ x ∷ []) ≡ none
unfolding is_taproot_control_block
internal_key-other w x h =
    internal_key-last (w ++ x ∷ []) x (last_item-append w x)
    ∙ ap (λ (b : Bool). block_key b x) (no_block (length x) (length (w ++ x ∷ [])) h)

internal_key-block :
    (w : List (List ℕ)) (x : List ℕ)
    → is_taproot_control_block x ≡ true
    → 0 < length w
    → internal_key (w ++ x ∷ []) ≡ some (slice x 1 33)
unfolding is_taproot_control_block
internal_key-block w x h k =
    internal_key-last (w ++ x ∷ []) x (last_item-append w x)
    ∙ ap (λ (b : Bool). block_key b x)
        (a_block (length x) (length (w ++ x ∷ [])) h (omega (arith, length-append w (x ∷ []))))

extract_p2tr-other :
    (lib : Library) (input : Input) (key : List ℕ)
    → internal_key input.witness ≡ none
    → extract_p2tr lib input key ≡ ok (some (lib.even_key key))
unfolding extract_p2tr
extract_p2tr-other lib input key e = rw (e, extract_p2tr) refl

extract_p2tr-nums :
    (lib : Library) (input : Input) (key : List ℕ)
    → internal_key input.witness ≡ some nums_key
    → extract_p2tr lib input key ≡ ok none
unfolding extract_p2tr same_bytes
extract_p2tr-nums lib input key e = rw (e, extract_p2tr) refl

classify_control-nums :
    (control script : List ℕ)
    → is_taproot_control_block control ≡ true
    → slice control 1 33 ≡ nums_key
    → (classify_control control script).path ≡ script_nums
unfolding classify_control same_bytes
classify_control-nums control script h k =
    ap
      (λ (b : Bool).
        (if b
          then record {
            path =
                if same_bytes (slice control 1 33) nums_h_xonly
                then script_nums
                else script_non_nums;
            inscription = is_inscription_envelope script;
          }
          else key_spend).path)
      h
    ∙ ap
        (λ (bytes : List ℕ). if same_bytes bytes nums_h_xonly then script_nums else script_non_nums)
        k

classify_at-control :
    (w : List (List ℕ)) (control : List ℕ) (n : ℕ)
    → 2 ≤ n
    → get_elem? w (n - 1) ≡ some control
    → classify_at w n ≡ classify_control control (get_or w (n - 2) [])
unfolding classify_at
classify_at-control w control n h e =
    let long : ltb n 2 ≡ false = ground arith in rw (long, e, classify_at) refl

-- A script path with the unspendable key and an annex that is not of the length of a control block:
-- the statistics class it as unspendable by key, and so does the scan point without the annex; with
-- the annex the scan point takes the output key as an eligible input key.
pub annex_hides_unspendable_key :
    (lib : Library) (input : Input) (key : List ℕ) (items : List (List ℕ)) (control annex : List ℕ)
    → 0 < length items
    → is_taproot_control_block control ≡ true
    → is_taproot_annex control ≡ false
    → slice control 1 33 ≡ nums_key
    → is_taproot_annex annex ≡ true
    → is_taproot_control_block annex ≡ false
    → let plain = items ++ control ∷ [] in
      let annexed = plain ++ annex ∷ [] in
      ((classify_p2tr_spend annexed).path ≡ script_nums)
      × (extract_p2tr lib (record input { witness = plain }) key ≡ ok none)
      × (extract_p2tr lib (record input { witness = annexed }) key ≡ ok (some (lib.even_key key)))
annex_hides_unspendable_key lib input key items control annex some_items block not_annex nums
      is_annex not_block =
    let plain = items ++ control ∷ [] in
    let size : length plain ≡ length items + 1 =
      omega (arith, length-append items (control ∷ [])) in
    let at_last : get_elem? plain (length plain - 1) ≡ some control =
      ap (get_elem? plain) (omega (arith, size)) ∙ last-append items control in
    let class =
      classify_p2tr_spend-annex plain annex control is_annex at_last not_annex
      ∙ classify-at plain (length plain) (omega (arith, size))
          (stripped_len-plain plain control at_last not_annex)
      ∙ classify_at-control plain control (length plain) (omega (arith, size)) at_last in
    (
      ap (λ (c : SpendClass). c.path) class
          ∙ classify_control-nums control (get_or plain (length plain - 2) []) block nums,
      extract_p2tr-nums lib (record input { witness = plain }) key
          (internal_key-block items control block some_items ∙ ap some nums),
      extract_p2tr-other lib (record input { witness = plain ++ annex ∷ [] }) key
          (internal_key-other plain annex not_block),
    )
