-- ===== src/Undo/RoundTrip.antt =====
-- core/src/block.rs, `decode_spent_txouts_payload`: the decoder on the format that its comment
-- states.
use bitcoin_data.Base.{
  All, List, [], ap, append-nil, append_assoc, arith, bytes_keyed, ensure, err, if◌then◌else◌,
  length, length-drop, lt→ltb, ok, refl, sym, ℕ, ◌*◌, ◌++◌, ◌<◌, ◌==◌, ◌>>◌, ◌^◌, ◌∙◌, ◌∷◌, ◌≡◌,
  ◌≤◌,
}
use bitcoin_data.Helper.{to_le_bytes}
use bitcoin_data.Undo.{
  capacity_overflow, trailing_bytes, remaining, decode_spent_txouts_payload, is_empty, SpentTxOut,
  BlockSpentTxOuts, Cursor, with_capacity, read_inputs, read_txs,
}
use bitcoin_data.Undo.Reading.{
  IsInside, ahead, Gives, compact_size, read_compact_size-compact_size, read_txout_value-to_le,
  read_raw_script-append,
}

-- The payload, written out: counts and script lengths as CompactSize, values in eight bytes.
abbrev pub put_txout : SpentTxOut → List ℕ
put_txout o =
    to_le_bytes 8 o.value_sat ++ (compact_size (length o.script_pubkey) ++ o.script_pubkey)

abbrev pub put_inputs : List SpentTxOut → List ℕ
put_inputs [] = []
put_inputs (o ∷ inputs) = put_txout o ++ put_inputs inputs

abbrev pub put_txs : List (List SpentTxOut) → List ℕ
put_txs [] = []
put_txs (inputs ∷ txs) = (compact_size (length inputs) ++ put_inputs inputs) ++ put_txs txs

unfoldable pub payload : BlockSpentTxOuts → List ℕ
payload u = compact_size (length u.txs) ++ put_txs u.txs

-- A value that is no negative `i64`, and sizes that the machine can hold.
abbrev pub OutFits : SpentTxOut → Type 0
OutFits o = (o.value_sat < 2 ^ 63) × (length o.script_pubkey < 2 ^ 64)

abbrev pub InputsFit : List SpentTxOut → Type 0
InputsFit inputs = (32 * length inputs < 2 ^ 63) × All OutFits inputs

abbrev pub UndoFits : BlockSpentTxOuts → Type 0
UndoFits u = (24 * length u.txs < 2 ^ 63) × All InputsFit u.txs

put_txout_split :
    (o : SpentTxOut) (rest : List ℕ)
    → put_txout o ++ rest
      ≡ to_le_bytes 8 o.value_sat
        ++ (compact_size (length o.script_pubkey) ++ (o.script_pubkey ++ rest))
put_txout_split o rest =
    ap (◌++◌ (to_le_bytes 8 o.value_sat))
      (append_assoc (compact_size (length o.script_pubkey)) o.script_pubkey rest)

read_inputs-put_inputs :
    (inputs done : List SpentTxOut) (c : Cursor) (rest : List ℕ)
    → All OutFits inputs
    → IsInside c
    → ahead c ≡ put_inputs inputs ++ rest
    → Gives (read_inputs (length inputs) done c) (done ++ inputs) rest
unfolding read_inputs
read_inputs-put_inputs [] done c rest h i e =
    (c, ap (λ (x : List SpentTxOut). ok (x, c)) (sym (append-nil done)), e, i)
read_inputs-put_inputs (o ∷ inputs) done c rest h i e =
    let tail = put_inputs inputs ++ rest in
    let script_tail = o.script_pubkey ++ tail in
    let (c₁, g₁, a₁, i₁) =
      read_txout_value-to_le o.value_sat c (compact_size (length o.script_pubkey) ++ script_tail) i
        h.0.0 (e ∙ append_assoc (put_txout o) (put_inputs inputs) rest ∙ put_txout_split o tail) in
    let (c₂, g₂, a₂, i₂) = read_raw_script-append o.script_pubkey c₁ tail h.0.1 a₁ in
    let (c₃, g₃, a₃, i₃) = read_inputs-put_inputs inputs (done ++ o ∷ []) c₂ rest h.1 i₂ a₂ in
    (
      c₃,
      rw (g₁, read_inputs, g₂)
          (g₃ ∙ ap (λ (x : List SpentTxOut). ok (x, c₃)) (append_assoc done (o ∷ []) inputs)),
      a₃,
      i₃,
    )

with_capacity-ok : (size count : ℕ) → size * count < 2 ^ 63 → with_capacity size count ≡ ok tt
with_capacity-ok size count h = rw (lt→ltb (size * count) (2 ^ 63) h)

read_txs-put_txs :
    (txs done : List (List SpentTxOut)) (c : Cursor) (rest : List ℕ)
    → All InputsFit txs
    → IsInside c
    → ahead c ≡ put_txs txs ++ rest
    → Gives (read_txs (length txs) done c) (done ++ txs) rest
unfolding read_txs
read_txs-put_txs [] done c rest h i e =
    (c, ap (λ (x : List (List SpentTxOut)). ok (x, c)) (sym (append-nil done)), e, i)
read_txs-put_txs (inputs ∷ txs) done c rest h i e =
    let tail = put_txs txs ++ rest in
    let (c₁, g₁, a₁, i₁) =
      read_compact_size-compact_size (length inputs) c (put_inputs inputs ++ tail)
        (omega (arith, h.0.0))
        (e
          ∙ append_assoc (compact_size (length inputs) ++ put_inputs inputs) (put_txs txs) rest
          ∙ append_assoc (compact_size (length inputs)) (put_inputs inputs) tail) in
    let (c₂, g₂, a₂, i₂) = read_inputs-put_inputs inputs [] c₁ tail h.0.1 i₁ a₁ in
    let (c₃, g₃, a₃, i₃) = read_txs-put_txs txs (done ++ inputs ∷ []) c₂ rest h.1 i₂ a₂ in
    (
      c₃,
      rw (g₁, read_txs, lt→ltb (32 * length inputs) (2 ^ 63) h.0.0, g₂)
          (g₃
            ∙ ap (λ (x : List (List SpentTxOut)). ok (x, c₃))
                (append_assoc done (inputs ∷ []) txs)),
      a₃,
      i₃,
    )

abbrev start : List ℕ → Cursor
start bytes = record { bytes = bytes; pos = 0 }

finish :
    (u : BlockSpentTxOuts) (c : Cursor) (rest : List ℕ)
    → ahead c ≡ rest
    → IsInside c
    → (ensure (is_empty c) (trailing_bytes (remaining c)) >> ok u)
      ≡ (if length rest == 0 then ok u else err (trailing_bytes (length rest)))
unfolding is_empty remaining
finish u c rest e i = ground (arith, ap length e, length-drop c.pos c.bytes)

-- On undo data that fits the machine, written as the comment states, with any bytes behind it: the
-- decoder returns that data where nothing is behind it, and otherwise refuses, with their number.
pub decode-payload :
    (u : BlockSpentTxOuts) (rest : List ℕ)
    → UndoFits u
    → decode_spent_txouts_payload (payload u ++ rest)
      ≡ (if length rest == 0 then ok u else err (trailing_bytes (length rest)))
unfolding decode_spent_txouts_payload payload
decode-payload u rest h =
    let bytes = (compact_size (length u.txs) ++ put_txs u.txs) ++ rest in
    let (c₁, g₁, a₁, i₁) =
      read_compact_size-compact_size (length u.txs) (start bytes) (put_txs u.txs ++ rest)
        (omega (arith, h.0)) (append_assoc (compact_size (length u.txs)) (put_txs u.txs) rest) in
    let (c₂, g₂, a₂, i₂) = read_txs-put_txs u.txs [] c₁ rest h.1 i₁ a₁ in
    rw (g₁, lt→ltb (24 * length u.txs) (2 ^ 63) h.0, g₂) (finish u c₂ rest a₂ i₂)

-- A count of transactions whose buffer would exceed `isize::MAX` bytes makes the decoder panic,
-- whatever bytes follow it.
pub decode_huge_count :
    (count : ℕ) (rest : List ℕ)
    → count < 2 ^ 64
    → 2 ^ 63 ≤ 24 * count
    → decode_spent_txouts_payload (compact_size count ++ rest) ≡ err capacity_overflow
unfolding decode_spent_txouts_payload
decode_huge_count count rest h big =
    let (c₁, g₁, a₁, i₁) =
      read_compact_size-compact_size count (start (compact_size count ++ rest)) rest h refl in
    rw g₁ (ground arith)
