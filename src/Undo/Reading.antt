-- ===== src/Undo/Reading.antt =====
-- core/src/block.rs, `Cursor`: each read takes its bytes from the front of what is ahead.
use bitcoin_data.Base.{
  Bool-cases, List, Result, [], ap, arith, bytes_keyed, drop, drop-cons_iff, if◌then◌else◌, inl,
  inr, leb, length, length-append, length-drop, le→leb, lt→ltb, ok, refl, ℕ, ◌++◌, ◌+◌, ◌-◌, ◌<◌,
  ◌^◌, ◌∙◌, ◌∷◌, ◌≡◌, ◌≤◌,
}
use bitcoin_data.Helper.{to_le_bytes}
use bitcoin_data.Helper.Endian.{length-to_le_bytes, from_le-to_le}
use native.Mathlib.Numerals.{add-one}
use bitcoin_data.Undo.{
  Error, Cursor, read_u8, read_exact, read_wide, read_compact_size, read_txout_value,
  read_raw_script,
}
use bitcoin_data.Range.Frame.{slice-drop}

abbrev pub ahead : Cursor → List ℕ
ahead c = drop c.pos c.bytes

abbrev pub IsInside : Cursor → Type 0
IsInside c = c.pos ≤ length c.bytes

-- The read returns `a`, leaves `rest` ahead, and stays within the bytes.
abbrev pub Gives {ℓ} : {A : Type ℓ} → Result Error (A × Cursor) → A → List ℕ → Type ℓ
Gives o a rest = (c : Cursor) × (o ≡ ok (a, c)) × (ahead c ≡ rest) × IsInside c

pub read_u8-cons :
    (c : Cursor) (b : ℕ) (rest : List ℕ) → ahead c ≡ b ∷ rest → Gives (read_u8 c) b rest
unfolding read_u8
read_u8-cons c b rest e =
    let (got, left, h) = drop-cons_iff c.bytes c.pos e in
    (record c { pos = c.pos + 1 }, rw (got, read_u8), rw add-one left, omega (arith, h))

pub read_exact-append :
    (n : ℕ) (c : Cursor) (xs rest : List ℕ)
    → IsInside c
    → ahead c ≡ xs ++ rest
    → length xs ≡ n
    → Gives (read_exact n c) xs rest
unfolding read_exact
read_exact-append n c xs rest i e l =
    let (s, d) = slice-drop c.bytes c.pos n xs rest e l in
    let b : n ≤ length c.bytes - c.pos =
      omega (arith, ap length e, length-drop c.pos c.bytes, length-append xs rest) in
    (record c { pos = c.pos + n }, rw (le→leb n (length c.bytes - c.pos) b, s), d, omega (arith, b))

-- Bitcoin's CompactSize, in its shortest form.
abbrev pub compact_size : ℕ → List ℕ
compact_size n =
    if leb n 0xfc
    then n ∷ []
    else (if leb n 0xffff
        then 0xfd ∷ to_le_bytes 2 n
        else (if leb n 0xffff_ffff then 0xfe ∷ to_le_bytes 4 n else 0xff ∷ to_le_bytes 8 n))

read_wide-to_le :
    (k limit n : ℕ) (c : Cursor) (rest : List ℕ)
    → IsInside c
    → ahead c ≡ to_le_bytes k n ++ rest
    → n < 256 ^ k
    → limit < n
    → length (to_le_bytes k n) ≡ k
    → Gives (read_wide k limit c) n rest
unfolding read_wide
read_wide-to_le k limit n c rest i e h l w =
    let (c', got, left, i') = read_exact-append k c (to_le_bytes k n) rest i e w in
    (c', rw (got, from_le-to_le k n h, lt→ltb limit n l), left, i')

wide_case :
    (k limit n first : ℕ) (c : Cursor) (rest : List ℕ)
    → ahead c ≡ (first ∷ to_le_bytes k n) ++ rest
    → n < 256 ^ k
    → limit < n
    → ((c₁ : Cursor) → read_u8 c ≡ ok (first, c₁) → read_compact_size c ≡ read_wide k limit c₁)
    → Gives (read_compact_size c) n rest
wide_case k limit n first c rest e h l reads =
    let (c₁, g₁, a₁, i₁) = read_u8-cons c first (to_le_bytes k n ++ rest) e in
    let (c₂, g₂, a₂, i₂) = read_wide-to_le k limit n c₁ rest i₁ a₁ h l (length-to_le_bytes k n) in
    (c₂, reads c₁ g₁ ∙ g₂, a₂, i₂)

-- A CompactSize in its shortest form is read back.
pub read_compact_size-compact_size :
    (n : ℕ) (c : Cursor) (rest : List ℕ)
    → n < 2 ^ 64
    → ahead c ≡ compact_size n ++ rest
    → Gives (read_compact_size c) n rest
unfolding read_compact_size
read_compact_size-compact_size n c rest h e = elim (Bool-cases (leb n 0xfc)) [
  | inl small ↦
      let (c₁, g, a, i) = read_u8-cons c n rest (rw small at e) in (c₁, rw (g, small), a, i)
  | inr large ↦ elim (Bool-cases (leb n 0xffff)) [
    | inl two ↦
        wide_case 2 0xfc n 0xfd c rest (rw (large, two) at e) (ground arith) (ground arith)
          (λ c₁ g. rw g)
    | inr more ↦ elim (Bool-cases (leb n 0xffff_ffff)) [
      | inl four ↦
          wide_case 4 0xffff n 0xfe c rest (rw (large, more, four) at e) (ground arith)
            (ground arith) (λ c₁ g. rw g)
      | inr eight ↦
          wide_case 8 0xffff_ffff n 0xff c rest (rw (large, more, eight) at e) (omega arith)
            (ground arith) (λ c₁ g. rw g)
    ]
  ]
]

pub read_txout_value-to_le :
    (v : ℕ) (c : Cursor) (rest : List ℕ)
    → IsInside c
    → v < 2 ^ 63
    → ahead c ≡ to_le_bytes 8 v ++ rest
    → Gives (read_txout_value c) v rest
unfolding read_txout_value
read_txout_value-to_le v c rest i h e =
    let (c', got, left, i') = read_exact-append 8 c (to_le_bytes 8 v) rest i e refl in
    (c', rw (got, from_le-to_le 8 v (omega arith), lt→ltb v (2 ^ 63) h), left, i')

pub read_raw_script-append :
    (script : List ℕ) (c : Cursor) (rest : List ℕ)
    → length script < 2 ^ 64
    → ahead c ≡ compact_size (length script) ++ (script ++ rest)
    → Gives (read_raw_script c) script rest
unfolding read_raw_script
read_raw_script-append script c rest h e =
    let (c₁, g₁, a₁, i₁) = read_compact_size-compact_size (length script) c (script ++ rest) h e in
    let (c₂, g₂, a₂, i₂) = read_exact-append (length script) c₁ script rest i₁ a₁ refl in
    (c₂, rw (g₁, g₂), a₂, i₂)
