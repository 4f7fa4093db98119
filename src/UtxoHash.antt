-- ===== src/UtxoHash.antt =====
-- stats/src/utxo_hash.rs: the rolling hash over the output events of the last blocks. SHA-256 is a
-- parameter. A hash is a list of 32 bytes; the hexadecimal printing is left out.
pub mod Xor
pub mod Events
pub mod Window
use bitcoin_data.Base.{
  Bool, List, [], bit_xor, bytes_keyed, if◌then◌else◌, length, ltb, replicate, ℕ, ◌++◌, ◌∷◌,
}
use bitcoin_data.Helper.{to_be_bytes}

-- `xor_into`, byte by byte.
unfoldable pub xor_bytes : List ℕ → List ℕ → List ℕ
xor_bytes (x ∷ xs) (y ∷ ys) = bit_xor x y ∷ xor_bytes xs ys
xor_bytes xs _ = xs

abbrev pub zero_hash : List ℕ
zero_hash = replicate 32 0

pub record RollingUtxoHash : Type 0 where
  pub window : List (List ℕ)
  pub acc : List ℕ
  pub window_blocks : ℕ
  pub current_block : List ℕ

abbrev pub new_hash : ℕ → RollingUtxoHash
new_hash window_blocks = record {
  window = [];
  acc = zero_hash;
  window_blocks = window_blocks;
  current_block = zero_hash;
}

abbrev pub enabled : RollingUtxoHash → Bool
enabled h = ltb 0 h.window_blocks

abbrev pub add_tag : List ℕ
add_tag = b'a' ∷ b'd' ∷ b'd' ∷ []

abbrev pub rem_tag : List ℕ
rem_tag = b'r' ∷ b'e' ∷ b'm' ∷ []

module _ (sha256 : List ℕ → List ℕ) where
  -- An event of a tag and an output id.
  unfoldable pub mix_event : List ℕ → RollingUtxoHash → ℕ → RollingUtxoHash
  unfolding xor_bytes
  mix_event tag h global_id =
      if enabled h
      then record h {
        current_block = xor_bytes h.current_block (sha256 (tag ++ to_be_bytes 8 global_id));
      }
      else h

  unfoldable pub add_output : RollingUtxoHash → ℕ → RollingUtxoHash
  unfolding mix_event
  add_output h global_id = mix_event add_tag h global_id

  unfoldable pub remove_output : RollingUtxoHash → ℕ → RollingUtxoHash
  unfolding mix_event
  remove_output h global_id = mix_event rem_tag h global_id

-- `while self.window.len() > self.window_blocks`: every round drops the oldest block.
unfoldable pub evict : ℕ → List (List ℕ) → List ℕ → List (List ℕ) × List ℕ
unfolding xor_bytes
evict window_blocks [] acc = ([], acc)
evict window_blocks (old ∷ window) acc =
    let rest = evict window_blocks window (xor_bytes acc old) in
    if ltb window_blocks (length (old ∷ window)) then rest else (old ∷ window, acc)

unfoldable pub finalize_block : RollingUtxoHash → RollingUtxoHash
unfolding evict xor_bytes
finalize_block h =
    let kept =
      evict h.window_blocks (h.window ++ h.current_block ∷ []) (xor_bytes h.acc h.current_block) in
    if enabled h then record h { window = kept.0; acc = kept.1; current_block = zero_hash } else h
