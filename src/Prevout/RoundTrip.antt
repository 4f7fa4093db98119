-- ===== src/Prevout/RoundTrip.antt =====
-- light-server/src/prevout_store.rs: entries written and read back, in both layouts.
use bitcoin_data.Base.{
  List, [], ap, arith, bytes_keyed, drop, get_or, inl, inr, leb, length, length-append, ok, refl,
  subst, suc, true, ℕ, ◌++◌, ◌∷◌, ◌≡◌, ◌≤◌, ◌⊎◌,
}
use bitcoin_data.Prevout.{
  Curve, Script, pay_pubkey_hash, pay_script_hash, pay_witness_pubkey_hash, pay_taproot,
  skipped_input, later_witness, encode_prevout_entry, decode_prevout_entry, split_entry,
  kind_from_byte, decode_script, ScriptKind, p2pkh, p2sh, p2wpkh, p2tr, non_eligible, witness_gt_v1,
  hash160_from_payload, xonly_key_from_payload,
}

-- The lengths of the source's arrays, and a taproot key that decodes.
unfoldable pub IsStored : Curve → Script → Type 0
IsStored curve (pay_pubkey_hash hash) = length hash ≡ 20
IsStored curve (pay_script_hash hash) = length hash ≡ 20
IsStored curve (pay_witness_pubkey_hash hash) = length hash ≡ 20
IsStored curve (pay_taproot key) = (length key ≡ 32) × (curve.is_xonly_key key ≡ true)
IsStored curve skipped_input = Unit {0}
IsStored curve (later_witness version) = Unit {0}

hash160_from_payload-ok :
    (payload : List ℕ) (kind : ScriptKind)
    → length payload ≡ 20
    → hash160_from_payload payload kind ≡ ok payload
unfolding hash160_from_payload
hash160_from_payload-ok payload kind h = rw h refl

xonly_key_from_payload-ok :
    (curve : Curve) (payload : List ℕ)
    → length payload ≡ 32
    → curve.is_xonly_key payload ≡ true
    → xonly_key_from_payload curve payload ≡ ok payload
unfolding xonly_key_from_payload
xonly_key_from_payload-ok curve payload h valid = rw (h, valid) refl

-- The payload of a script, without the kind byte.
abbrev pub kind_of : Script → ScriptKind
kind_of (pay_pubkey_hash hash) = p2pkh
kind_of (pay_script_hash hash) = p2sh
kind_of (pay_witness_pubkey_hash hash) = p2wpkh
kind_of (pay_taproot key) = p2tr
kind_of skipped_input = non_eligible
kind_of (later_witness version) = witness_gt_v1

decode_script-payload :
    (curve : Curve) (s : Script)
    → IsStored curve s
    → decode_script curve (kind_of s) (drop 1 (encode_prevout_entry s)) ≡ ok s
unfolding IsStored decode_script encode_prevout_entry
decode_script-payload curve (pay_pubkey_hash hash) h =
    rw (hash160_from_payload-ok hash p2pkh h) refl
decode_script-payload curve (pay_script_hash hash) h = rw (hash160_from_payload-ok hash p2sh h) refl
decode_script-payload curve (pay_witness_pubkey_hash hash) h =
    rw (hash160_from_payload-ok hash p2wpkh h) refl
decode_script-payload curve (pay_taproot key) (h, valid) =
    rw (xonly_key_from_payload-ok curve key h valid) refl
decode_script-payload curve skipped_input h = refl
decode_script-payload curve (later_witness version) h = refl

kind_from_byte-encoded :
    (s : Script) → kind_from_byte (get_or (encode_prevout_entry s) 0 0) ≡ ok (kind_of s)
unfolding kind_from_byte encode_prevout_entry
kind_from_byte-encoded (pay_pubkey_hash hash) = refl
kind_from_byte-encoded (pay_script_hash hash) = refl
kind_from_byte-encoded (pay_witness_pubkey_hash hash) = refl
kind_from_byte-encoded (pay_taproot key) = refl
kind_from_byte-encoded skipped_input = refl
kind_from_byte-encoded (later_witness version) = refl

encode_prevout_entry-length :
    (curve : Curve) (s : Script)
    → IsStored curve s
    → let n = length (encode_prevout_entry s) in (n ≡ 1) ⊎ ((n ≡ 2) ⊎ ((n ≡ 21) ⊎ (n ≡ 33)))
unfolding IsStored encode_prevout_entry
encode_prevout_entry-length curve (pay_pubkey_hash hash) h = inr (inr (inl (ap suc h)))
encode_prevout_entry-length curve (pay_script_hash hash) h = inr (inr (inl (ap suc h)))
encode_prevout_entry-length curve (pay_witness_pubkey_hash hash) h = inr (inr (inl (ap suc h)))
encode_prevout_entry-length curve (pay_taproot key) (h, valid) = inr (inr (inr (ap suc h)))
encode_prevout_entry-length curve skipped_input h = inl refl
encode_prevout_entry-length curve (later_witness version) h = inr (inl refl)

split_entry_new :
    (bytes : List ℕ)
    → let n = length bytes in
      (n ≡ 1) ⊎ ((n ≡ 2) ⊎ ((n ≡ 21) ⊎ (n ≡ 33)))
      → (split_entry bytes ≡ ok (get_or bytes 0 0, drop 1 bytes)) × (leb 1 (length bytes) ≡ true)
unfolding split_entry
split_entry_new bytes (inl h) = rw h (refl, refl)
split_entry_new bytes (inr (inl h)) = rw h (refl, refl)
split_entry_new bytes (inr (inr (inl h))) = rw h (refl, refl)
split_entry_new bytes (inr (inr (inr h))) = rw h (refl, refl)

-- Every stored script is read back from its entry.
pub decode-encode_prevout_entry :
    (curve : Curve) (s : Script)
    → IsStored curve s
    → decode_prevout_entry curve (encode_prevout_entry s) ≡ ok s
unfolding decode_prevout_entry
decode-encode_prevout_entry curve s h =
    let (split, some_byte) =
      split_entry_new (encode_prevout_entry s) (encode_prevout_entry-length curve s h) in
    rw (some_byte, split, kind_from_byte-encoded s) (decode_script-payload curve s h)

behind :
    (pre payload : List ℕ) (byte : ℕ)
    → (get_or (pre ++ byte ∷ payload) (length pre) 0 ≡ byte)
      × (drop (suc (length pre)) (pre ++ byte ∷ payload) ≡ payload)
behind [] payload byte = (refl, refl)
behind (x ∷ pre) payload byte = behind pre payload byte

behind_value :
    (pre payload : List ℕ) (byte : ℕ)
    → length pre ≡ 8
    → (get_or (pre ++ byte ∷ payload) 8 0 ≡ byte) × (drop 9 (pre ++ byte ∷ payload) ≡ payload)
behind_value pre payload byte h =
    subst
      (λ (n : ℕ).
        (get_or (pre ++ byte ∷ payload) n 0 ≡ byte)
        × (drop (suc n) (pre ++ byte ∷ payload) ≡ payload))
      h (behind pre payload byte)

split_entry_old :
    (pre payload : List ℕ) (byte : ℕ)
    → length pre ≡ 8
    → (length payload ≡ 20) ⊎ (length payload ≡ 32)
    → (split_entry (pre ++ byte ∷ payload) ≡ ok (byte, payload))
      × (leb 1 (length (pre ++ byte ∷ payload)) ≡ true)
unfolding split_entry
split_entry_old pre payload byte h (inl p) =
    let n : length (pre ++ byte ∷ payload) ≡ 29 =
      omega (arith, length-append pre (byte ∷ payload)) in
    let (head, rest) = behind_value pre payload byte h in rw (n, head, rest) (refl, refl)
split_entry_old pre payload byte h (inr p) =
    let n : length (pre ++ byte ∷ payload) ≡ 41 =
      omega (arith, length-append pre (byte ∷ payload)) in
    let (head, rest) = behind_value pre payload byte h in rw (n, head, rest) (refl, refl)

decode_old :
    (curve : Curve) (pre payload : List ℕ) (byte : ℕ) (kind : ScriptKind) (s : Script)
    → length pre ≡ 8
    → (length payload ≡ 20) ⊎ (length payload ≡ 32)
    → kind_from_byte byte ≡ ok kind
    → decode_script curve kind payload ≡ ok s
    → decode_prevout_entry curve (pre ++ byte ∷ payload) ≡ ok s
unfolding decode_prevout_entry
decode_old curve pre payload byte kind s h p k d =
    let (split, some_byte) = split_entry_old pre payload byte h p in rw (some_byte, split, k) d

-- An entry of the earlier layout, with eight bytes of a value before the kind byte, is read as the
-- same script, for the scripts that the earlier layout had: those with a hash or a key.
pub decode_earlier_layout :
    (curve : Curve) (pre : List ℕ) (s : Script)
    → IsStored curve s
    → length pre ≡ 8
    → 21 ≤ length (encode_prevout_entry s)
    → decode_prevout_entry curve (pre ++ encode_prevout_entry s) ≡ ok s
unfolding IsStored encode_prevout_entry
decode_earlier_layout curve pre (pay_pubkey_hash hash) h p n =
    decode_old curve pre hash 0 p2pkh _ p (inl h) (kind_from_byte-encoded (pay_pubkey_hash hash))
      (decode_script-payload curve (pay_pubkey_hash hash) h)
decode_earlier_layout curve pre (pay_script_hash hash) h p n =
    decode_old curve pre hash 1 p2sh _ p (inl h) (kind_from_byte-encoded (pay_script_hash hash))
      (decode_script-payload curve (pay_script_hash hash) h)
decode_earlier_layout curve pre (pay_witness_pubkey_hash hash) h p n =
    decode_old curve pre hash 2 p2wpkh _ p (inl h)
      (kind_from_byte-encoded (pay_witness_pubkey_hash hash))
      (decode_script-payload curve (pay_witness_pubkey_hash hash) h)
decode_earlier_layout curve pre (pay_taproot key) h p n =
    decode_old curve pre key 3 p2tr _ p (inr h.0) (kind_from_byte-encoded (pay_taproot key))
      (decode_script-payload curve (pay_taproot key) h)
decode_earlier_layout curve pre skipped_input h p n = absurd (omega arith)
decode_earlier_layout curve pre (later_witness version) h p n = absurd (omega arith)
