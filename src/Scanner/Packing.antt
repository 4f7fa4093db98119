-- ===== src/Scanner/Packing.antt =====
-- stats/src/scan.rs, `UtxoEntry`: the id and the script type are read back.
use bitcoin_data.Base.{
  ap, arith, bit_and, bit_and_15, bit_or, bit_or_low, bytes_keyed, ℕ, ◌*◌, ◌+◌, ◌<◌, ◌^◌, ◌∙◌, ◌≡◌,
}
use bitcoin_data.ScriptTypes.{ScriptType, to_u8, from_u8}
use bitcoin_data.ScriptTypes.Numbers.{from_u8-to_u8}
use bitcoin_data.Scanner.{new_entry, id_of, script_type_of}

packed_sum :
    (id : ℕ) (t : ScriptType) → id < 2 ^ 60 → (new_entry id t).packed ≡ id * 2 ^ 4 + to_u8 t
unfolding new_entry
packed_sum id t h =
    let small : to_u8 t < 2 ^ 4 = omega (arith, (from_u8-to_u8 t).1) in
    ap (λ (n : ℕ). bit_or n (to_u8 t)) (omega arith) ∙ bit_or_low 4 (to_u8 t) id small

pub id_of-new_entry : (id : ℕ) (t : ScriptType) → id < 2 ^ 60 → id_of (new_entry id t) ≡ id
unfolding id_of
id_of-new_entry id t h = omega (arith, packed_sum id t h, (from_u8-to_u8 t).1)

-- An entry gives back its id, below 2 ^ 60, and its script type.
pub new_entry_read :
    (id : ℕ) (t : ScriptType)
    → id < 2 ^ 60
    → (id_of (new_entry id t) ≡ id) × (script_type_of (new_entry id t) ≡ t)
unfolding script_type_of
new_entry_read id t h =
    let low : bit_and (new_entry id t).packed 15 ≡ to_u8 t =
      bit_and_15 (new_entry id t).packed ∙ omega (arith, packed_sum id t h, (from_u8-to_u8 t).1) in
    (id_of-new_entry id t h, ap from_u8 low ∙ (from_u8-to_u8 t).0)
