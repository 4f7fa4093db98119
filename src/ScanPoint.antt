-- ===== src/ScanPoint.antt =====
-- light-server/src/sp_tweak.rs: the public scan point of a transaction. Hashes, the curve and the
-- script templates are those of other libraries, and are parameters; a point is its compressed bytes.
pub mod Pushes
pub mod Compute
pub mod Ends
pub mod Annex
pub mod Folds
pub mod Order
pub mod Keys
pub mod AnyOrder
use bitcoin_data.Base.{Bool, List, Option, [], bytes_keyed, ℕ, ◌∷◌}
use bitcoin_data.OutPoint.{OutPoint}
use bitcoin_data.ScriptKinds.{Templates}

pub record Library : Type 0 where
  pub templates : Templates
  pub sha256 : List ℕ → List ℕ
  pub hash160 : List ℕ → List ℕ
  -- Whether `PublicKey::from_slice` accepts the bytes.
  pub is_public_key : List ℕ → Bool
  -- `XOnlyPublicKey::public_key` with the even parity.
  pub even_key : List ℕ → List ℕ
  -- `PublicKey::combine_keys`, which refuses a sum at infinity.
  pub combine_keys : List (List ℕ) → Option (List ℕ)
  -- Whether `Scalar::from_be_bytes` accepts the bytes.
  pub is_scalar : List ℕ → Bool
  pub mul_tweak : List ℕ → List ℕ → Option (List ℕ)

pub data Error : Type 0 where
  empty_input_set invalid_input_hash scan_point_multiplication : Error
  invalid_compressed_key missing_prevout_panic : Error

pub data PrevoutScript : Type 0 where
  p2pkh p2sh p2wpkh p2tr : List ℕ → PrevoutScript
  witness_unknown : ℕ → PrevoutScript
  other : PrevoutScript

pub record Input : Type 0 where
  pub previous_output : OutPoint
  pub script_sig : List ℕ
  pub witness : List (List ℕ)
  pub prevout : Option PrevoutScript

pub data Reason : Type 0 where
  no_eligible_inputs witness_version_too_high sum_infinity : Reason

pub data Status : Type 0 where
  ineligible : Reason → Status
  missing_prevout : ℕ → Status
  computed : List ℕ → Status

-- `BIP352_INPUTS_TAG_HASH`.
abbrev pub inputs_tag_hash : List ℕ
inputs_tag_hash =
    0x1e ∷ 0x7b ∷ 0x96 ∷ 0xeb ∷ 0x16 ∷ 0x0a ∷ 0x68 ∷ 0x81 ∷ 0x9f ∷ 0x97 ∷ 0x76 ∷ 0x4b ∷ 0x43 ∷ 0xd5
    ∷ 0xd7 ∷ 0x7e ∷ 0x66 ∷ 0x59 ∷ 0xd7 ∷ 0x58 ∷ 0x77 ∷ 0x9d ∷ 0x43 ∷ 0xa8 ∷ 0xa7 ∷ 0x75 ∷ 0x5f
    ∷ 0x5b ∷ 0xe4 ∷ 0x5a ∷ 0x7e ∷ 0x33 ∷ []

-- `TAPROOT_NUMS_H_XONLY`.
abbrev pub nums_key : List ℕ
nums_key =
    0x50 ∷ 0x92 ∷ 0x9b ∷ 0x74 ∷ 0xc1 ∷ 0xa0 ∷ 0x49 ∷ 0x54 ∷ 0xb7 ∷ 0x8b ∷ 0x4b ∷ 0x60 ∷ 0x35 ∷ 0xe9
    ∷ 0x7a ∷ 0x5e ∷ 0x07 ∷ 0x8a ∷ 0x5a ∷ 0x0f ∷ 0x28 ∷ 0xec ∷ 0x96 ∷ 0xd5 ∷ 0x47 ∷ 0xbf ∷ 0xee
    ∷ 0x9a ∷ 0xce ∷ 0x80 ∷ 0x3a ∷ 0xc0 ∷ []
