-- ===== src/ScanPoint/Compute.antt =====
-- light-server/src/sp_tweak.rs: the keys of the inputs and the scan point.
use bitcoin_data.Base.{
  Bool, List, Option, Result, [], bytes_keyed, ensure, err, false, get_or, if◌then◌else◌, leb,
  length, ltb, none, not, ok, ok_or, same_bytes, some, suc, true, ℕ, ◌%◌, ◌&&◌, ◌++◌, ◌-◌, ◌==◌,
  ◌>>=◌, ◌>>◌, ◌||◌, ◌∷◌,
}
use mathlib.Core.List.{reverse}
use bitcoin_data.Helper.{slice, to_le_bytes}
use bitcoin_data.OutPoint.{is_coinbase}
use bitcoin_data.ScriptKinds
use bitcoin_data.ScriptKinds.{classify_script}
use bitcoin_data.LightBlock.Hashes.{digest_32}
use bitcoin_data.ScanPoint.{
  Library, Error, PrevoutScript, p2pkh, p2sh, p2wpkh, p2tr, witness_unknown, other, Input, Status,
  ineligible, missing_prevout, computed, no_eligible_inputs, witness_version_too_high, sum_infinity,
  empty_input_set, invalid_input_hash, scan_point_multiplication, invalid_compressed_key,
  missing_prevout_panic, inputs_tag_hash, nums_key,
}
use bitcoin_data.ScanPoint.Pushes.{parse_script_pushes}

-- The last item.
unfoldable pub last_item : List (List ℕ) → Option (List ℕ)
last_item [] = none
last_item (x ∷ []) = some x
last_item (x ∷ y ∷ xs) = last_item (y ∷ xs)

unfoldable pub internal_key : List (List ℕ) → Option (List ℕ)
unfolding last_item
internal_key witness = elim (last_item witness) [
  | none ↦ none
  | some control_block ↦
      if ltb (length control_block) 33
        || (not ((length control_block - 33) % 32 == 0) || ltb (length witness) 2)
      then none
      else some (slice control_block 1 33)
]

unfoldable pub all_coinbase : List Input → Bool
unfolding is_coinbase
all_coinbase [] = true
all_coinbase (input ∷ inputs) = is_coinbase input.previous_output && all_coinbase inputs

abbrev pub is_none : Option PrevoutScript → Bool
is_none none = true
is_none (some _) = false

unfoldable pub count_missing : List Input → ℕ
unfolding is_coinbase
count_missing [] = 0
count_missing (input ∷ inputs) =
    if not (is_coinbase input.previous_output) && is_none input.prevout
    then suc (count_missing inputs)
    else count_missing inputs

unfoldable pub is_later_version : Option PrevoutScript → Bool
is_later_version (some (witness_unknown version)) = leb 2 version && leb version 16
is_later_version _ = false

unfoldable pub spends_later_version : List Input → Bool
unfolding is_later_version
spends_later_version [] = false
spends_later_version (input ∷ inputs) =
    is_later_version input.prevout || spends_later_version inputs

abbrev pub serialize_outpoint : Input → List ℕ
serialize_outpoint input = input.previous_output.txid ++ to_le_bytes 4 input.previous_output.vout

-- The order of byte arrays.
unfoldable pub is_before : List ℕ → List ℕ → Bool
is_before [] ys = true
is_before (x ∷ xs) [] = false
is_before (x ∷ xs) (y ∷ ys) = ltb x y || (x == y && is_before xs ys)

abbrev pub smaller : List ℕ → Option (List ℕ) → List ℕ
smaller xs none = xs
smaller xs (some ys) = if is_before xs ys then xs else ys

unfoldable pub smallest_outpoint : List Input → Option (List ℕ)
unfolding is_coinbase is_before
smallest_outpoint [] = none
smallest_outpoint (input ∷ inputs) =
    let rest = smallest_outpoint inputs in
    if is_coinbase input.previous_output
    then rest
    else some (smaller (serialize_outpoint input) rest)

abbrev pub add_key : Option (List ℕ) → List (List ℕ) → List (List ℕ)
add_key none keys = keys
add_key (some key) keys = key ∷ keys

module _ (lib : Library) where
  unfoldable pub key_matching_hash : List ℕ → List ℕ → Result Error (Option (List ℕ))
  key_matching_hash bytes expected_hash =
      let first = get_or bytes 0 0 in
      if not (length bytes == 33) || not (first == 0x02 || first == 0x03)
      then ok none
      else if not (same_bytes (lib.hash160 bytes) expected_hash)
      then ok none
      else if lib.is_public_key bytes
      then ok (some bytes)
      else err invalid_compressed_key

  unfoldable pub extract_p2tr : Input → List ℕ → Result Error (Option (List ℕ))
  unfolding internal_key
  extract_p2tr input xonly_key = elim (internal_key input.witness) [
    | none ↦ ok (some (lib.even_key xonly_key))
    | some key ↦ if same_bytes key nums_key then ok none else ok (some (lib.even_key xonly_key))
  ]

  unfoldable pub extract_p2wpkh : Input → List ℕ → Result Error (Option (List ℕ))
  unfolding key_matching_hash last_item
  extract_p2wpkh input expected_hash = elim (last_item input.witness) [
    | none ↦ ok none
    | some bytes ↦ key_matching_hash bytes expected_hash
  ]

  -- The first push, from the last on, that is a witness key hash.
  unfoldable pub redeem_script : List (List ℕ) → Option (List ℕ)
  redeem_script [] = none
  redeem_script (push ∷ pushes) = elim (classify_script lib.templates push) [
    | ScriptKinds.ScriptKind.p2wpkh _ ↦ some push
    | _ ↦ redeem_script pushes
  ]

  unfoldable pub extract_p2sh : Input → List ℕ → Result Error (Option (List ℕ))
  unfolding redeem_script extract_p2wpkh
  extract_p2sh input expected_script_hash =
      elim (redeem_script (reverse (parse_script_pushes input.script_sig))) [
        | none ↦ ok none
        | some script ↦
            if same_bytes (lib.hash160 script) expected_script_hash
            then extract_p2wpkh input (slice script 2 22)
            else ok none
      ]

  unfoldable pub first_key : List (List ℕ) → List ℕ → Result Error (Option (List ℕ))
  unfolding key_matching_hash
  first_key [] expected_hash = ok none
  first_key (push ∷ pushes) expected_hash = elim (key_matching_hash push expected_hash) [
    | err e ↦ err e
    | ok (some key) ↦ ok (some key)
    | ok none ↦ first_key pushes expected_hash
  ]

  unfoldable pub extract_p2pkh : Input → List ℕ → Result Error (Option (List ℕ))
  unfolding first_key
  extract_p2pkh input expected_hash =
      first_key (reverse (parse_script_pushes input.script_sig)) expected_hash

  unfoldable pub extract_key : Input → PrevoutScript → Result Error (Option (List ℕ))
  unfolding extract_p2tr extract_p2wpkh extract_p2sh extract_p2pkh
  extract_key input (p2tr key) = extract_p2tr input key
  extract_key input (p2wpkh hash) = extract_p2wpkh input hash
  extract_key input (p2sh hash) = extract_p2sh input hash
  extract_key input (p2pkh hash) = extract_p2pkh input hash
  extract_key input (witness_unknown version) = ok none
  extract_key input other = ok none

  -- The key of one input; the earlier test leaves no input without its prevout.
  unfoldable pub input_key : Input → Result Error (Option (List ℕ))
  unfolding extract_key is_coinbase
  input_key input = if is_coinbase input.previous_output then ok none else elim input.prevout [
    | none ↦ err missing_prevout_panic
    | some prevout ↦ extract_key input prevout
  ]

  unfoldable pub eligible_keys : List Input → Result Error (List (List ℕ))
  unfolding input_key
  eligible_keys [] = ok []
  eligible_keys (input ∷ inputs) = do
    key ← input_key input
    keys ← eligible_keys inputs
    ok (add_key key keys)

  -- The point of a sum of keys.
  unfoldable pub scan_point : List Input → List ℕ → Result Error Status
  unfolding smallest_outpoint digest_32
  scan_point inputs sum = do
    outpoint ← ok_or (smallest_outpoint inputs) empty_input_set
    let input_hash = digest_32 lib.sha256 inputs_tag_hash (outpoint ++ sum)
    ensure (lib.is_scalar input_hash) invalid_input_hash
    point ← ok_or (lib.mul_tweak sum input_hash) scan_point_multiplication
    ok (computed point)

  unfoldable pub combine_and_compute : List Input → List (List ℕ) → Result Error Status
  unfolding scan_point
  combine_and_compute inputs keys =
      if length keys == 0
      then ok (ineligible no_eligible_inputs)
      else elim (lib.combine_keys keys) [
        | none ↦ ok (ineligible sum_infinity)
        | some sum ↦ scan_point inputs sum
      ]

  -- An empty list counts as all coinbase.
  unfoldable pub compute_tx_scan_point : List Input → Result Error Status
  unfolding all_coinbase count_missing spends_later_version eligible_keys combine_and_compute
  compute_tx_scan_point inputs =
      let keyed = (do keys ← eligible_keys inputs; combine_and_compute inputs keys) in
      if all_coinbase inputs
      then ok (ineligible no_eligible_inputs)
      else if ltb 0 (count_missing inputs)
      then ok (missing_prevout (count_missing inputs))
      else if spends_later_version inputs
      then ok (ineligible witness_version_too_high)
      else keyed
