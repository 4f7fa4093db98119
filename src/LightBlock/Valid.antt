-- ===== src/LightBlock/Valid.antt =====
-- light-server/src/index.rs: when `validate_light_block_input` accepts.
use bitcoin_data.Base.{
  ==_iff, All, List, [], arith, bytes_keyed, drop, ensure, false, if◌then◌else◌, inl, inr, length,
  length-drop, le→leb, ltb, lt→ltb, ok, refl, suc, sym, true, zero, ℕ, ◌+◌, ◌-◌, ◌<◌, ◌==◌, ◌^◌,
  ◌∷◌, ◌≡◌, ◌⊎◌,
}
use bitcoin_data.Bitmap
use bitcoin_data.SpentIds.{decode_spent_ids}
use bitcoin_data.LightBlock.{Error, TweakEntry, LightBlockInput, lift_bitmap, lift_spent}
use bitcoin_data.LightBlock.Hashes.{packed_len, choose_hash_bits}
use bitcoin_data.LightBlock.Tweaks.{tweak_payload}
use bitcoin_data.LightBlock.Validate.{
  output_total, check_payloads, validate_light_block, ensure_u16_len, decode_block_spent_ids,
}
use bitcoin_data.LightBlock.Filtering.{IsPoint}

pub check_payloads-points :
    (tweaks : List TweakEntry) → All IsPoint tweaks → check_payloads tweaks ≡ ok tt
unfolding check_payloads tweak_payload
check_payloads-points [] h = refl
check_payloads-points (entry ∷ tweaks) h =
    let size : (length (drop 1 entry.tweak) == 32) ≡ true =
      (==_iff (length (drop 1 entry.tweak)) 32).1 (omega (arith, length-drop 1 entry.tweak, h.0)) in
    rw size (check_payloads-points tweaks h.1)

-- The width of a hash is zero exactly where there are no outputs.
abbrev pub FitsTotal : ℕ → ℕ → Type 0
FitsTotal total bits = ((total ≡ 0) × (bits ≡ 0)) ⊎ ((0 < total) × (0 < bits))

pub choose_hash_bits-width :
    (n raw budget : ℕ)
    → 0 < raw
    → (choose_hash_bits n raw budget < 256) × FitsTotal n (choose_hash_bits n raw budget)
unfolding choose_hash_bits
choose_hash_bits-width zero raw budget h = (omega arith, inl (refl, refl))
choose_hash_bits-width (suc n) raw budget h =
    let outputs : (suc n == 0) ≡ false = ground arith in
    let bytes : (raw == 0) ≡ false = ground arith in
    rw (outputs, bytes) (omega arith, inr (omega arith, omega arith))

pub record IsSound (input : LightBlockInput) : Type 0 where
  pub skipped : ℕ
  pub uids : List ℕ
  pub accepted : Bitmap.validate input.tx_count input.skipped_txs ≡ ok tt
  pub counted : Bitmap.skipped_count input.tx_count input.skipped_txs ≡ ok skipped
  pub few : length input.tweaks < 2 ^ 16
  pub txs : input.tx_count ≡ skipped + length input.tweaks
  pub sized : length input.hashes ≡ packed_len (output_total input.tweaks) input.hash_bits
  pub width : FitsTotal (output_total input.tweaks) input.hash_bits
  pub points : All IsPoint input.tweaks
  pub read : decode_spent_ids input.spent_count input.spent_ids ≡ ok uids
  pub all_read : length uids ≡ input.spent_count

width_test :
    (total bits : ℕ) (e₁ e₂ : Error)
    → FitsTotal total bits
    → (if total == 0 then ensure (bits == 0) e₁ else ensure (ltb 0 bits) e₂) ≡ ok tt
width_test total bits e₁ e₂ (inl (z, z')) = rw (z, z') refl
width_test total bits e₁ e₂ (inr (p, p')) =
    let some_outputs : (total == 0) ≡ false = ground arith in
    rw (some_outputs, lt→ltb 0 bits p') refl

pub IsSound-validate :
    (input : LightBlockInput) → IsSound input → validate_light_block input ≡ ok tt
unfolding validate_light_block lift_bitmap ensure_u16_len decode_block_spent_ids lift_spent
IsSound-validate input w =
    let total = output_total input.tweaks in
    rw
      (
        w.accepted,
        w.counted,
        le→leb (length input.tweaks) (2 ^ 16 - 1) (omega (arith, w.few)),
        (==_iff input.tx_count (w.skipped + length input.tweaks)).1 w.txs,
        (==_iff (packed_len total input.hash_bits) (length input.hashes)).1 (sym w.sized),
        width_test total input.hash_bits _ _ w.width,
        check_payloads-points input.tweaks w.points,
        w.read,
        (==_iff (length w.uids) input.spent_count).1 w.all_read,
      )
      refl
