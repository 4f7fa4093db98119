-- ===== src/Prevout.antt =====
-- light-server/src/prevout_store.rs: the spendable outputs that later blocks may spend, the pending
-- writes over the RocksDB store, and the encoding of its entries. A byte array is a list of numbers
-- below 256; RocksDB is a keyed map, and opening it, flushing and logging are left out.
pub mod RoundTrip
pub mod Pending
pub mod Overlay
pub mod Flush
pub mod Enrich
pub mod View
pub mod Refines
use bitcoin_data.Base.{
  Bool, List, Result, [], bytes_keyed, drop, ensure, err, get_or, if◌then◌else◌, leb, length, ok, ℕ,
  ◌==◌, ◌>>=◌, ◌>>◌, ◌||◌, ◌∷◌,
}
use bitcoin_data.Helper.{IsByte}

-- Secp256k1 point decoding, `XOnlyPublicKey::from_slice`, as the test whether it succeeds.
pub record Curve : Type 0 where
  pub is_xonly_key : List ℕ → Bool

pub data ScriptKind : Type 0 where
  p2pkh p2sh p2wpkh p2tr non_eligible witness_gt_v1 : ScriptKind

pub data Error : Type 0 where
  too_short invalid_key : Error
  unsupported_kind : ℕ → Error
  invalid_payload : ScriptKind → Error
  invalid_length : ℕ → Error

-- `CompactPrevoutScript`.
pub data Script : Type 0 where
  pay_pubkey_hash : List ℕ → Script
  pay_script_hash : List ℕ → Script
  pay_witness_pubkey_hash : List ℕ → Script
  pay_taproot : List ℕ → Script
  skipped_input : Script
  later_witness : ℕ → Script

unfoldable pub kind_from_byte : ℕ → Result Error ScriptKind
kind_from_byte byte =
    if byte == 0
    then ok p2pkh
    else if byte == 1
    then ok p2sh
    else if byte == 2
    then ok p2wpkh
    else if byte == 3
    then ok p2tr
    else if byte == 4
    then ok non_eligible
    else if byte == 5
    then ok witness_gt_v1
    else err (unsupported_kind byte)

unfoldable pub hash160_from_payload : List ℕ → ScriptKind → Result Error (List ℕ)
hash160_from_payload payload kind = do
  ensure (length payload == 20) (invalid_payload kind)
  ok payload

unfoldable pub xonly_key_from_payload : Curve → List ℕ → Result Error (List ℕ)
xonly_key_from_payload curve payload = do
  ensure (length payload == 32) (invalid_payload p2tr)
  ensure (curve.is_xonly_key payload) invalid_key
  ok payload

-- The bytes of `EncodedPrevoutEntry`, up to its length.
unfoldable pub encode_prevout_entry : Script → List ℕ
encode_prevout_entry (pay_pubkey_hash hash) = 0 ∷ hash
encode_prevout_entry (pay_script_hash hash) = 1 ∷ hash
encode_prevout_entry (pay_witness_pubkey_hash hash) = 2 ∷ hash
encode_prevout_entry (pay_taproot key) = 3 ∷ key
encode_prevout_entry skipped_input = 4 ∷ []
encode_prevout_entry (later_witness version) = 5 ∷ version ∷ []

-- The kind byte and the payload, for new entries and for those with a value before the kind.
unfoldable pub split_entry : List ℕ → Result Error (ℕ × List ℕ)
split_entry bytes =
    let len = length bytes in
    if len == 1 || len == 2 || len == 21 || len == 33
    then ok (get_or bytes 0 0, drop 1 bytes)
    else if len == 29 || len == 41
    then ok (get_or bytes 8 0, drop 9 bytes)
    else err (invalid_length len)

unfoldable pub decode_script : Curve → ScriptKind → List ℕ → Result Error Script
unfolding hash160_from_payload xonly_key_from_payload
decode_script curve p2pkh payload = do
  hash ← hash160_from_payload payload p2pkh
  ok (pay_pubkey_hash hash)
decode_script curve p2sh payload = do
  hash ← hash160_from_payload payload p2sh
  ok (pay_script_hash hash)
decode_script curve p2wpkh payload = do
  hash ← hash160_from_payload payload p2wpkh
  ok (pay_witness_pubkey_hash hash)
decode_script curve p2tr payload = do
  key ← xonly_key_from_payload curve payload
  ok (pay_taproot key)
decode_script curve non_eligible payload = ok skipped_input
decode_script curve witness_gt_v1 payload = do
  ensure (length payload == 1) (invalid_payload witness_gt_v1)
  ok (later_witness (get_or payload 0 0))

unfoldable pub decode_prevout_entry : Curve → List ℕ → Result Error Script
unfolding split_entry kind_from_byte decode_script
decode_prevout_entry curve bytes = do
  ensure (leb 1 (length bytes)) too_short
  (kind_byte, payload) ← split_entry bytes
  kind ← kind_from_byte kind_byte
  decode_script curve kind payload
