-- ===== src/ScanPoint/Pushes.antt =====
-- light-server/src/sp_tweak.rs, `parse_script_pushes`: the pushes of a script.
use bitcoin_data.Base.{
  List, Option, [], bytes_keyed, false, get_or, if◌then◌else◌, leb, length, ltb, none, some, suc,
  true, zero, ℕ, ◌&&◌, ◌+◌, ◌==◌, ◌∷◌,
}
use bitcoin_data.Helper.{from_le_bytes, slice}

-- `&script[start..end]`; `none` is the panic on an end outside the script.
unfoldable pub slice_of : List ℕ → ℕ → ℕ → Option (List ℕ)
slice_of script start end = if leb end (length script) then some (slice script start end) else none

-- The length of a push behind its opcode at `i - 1`, and where its bytes start; or the panic on an
-- index of the length outside the script.
pub data PushHead : Type 0 where
  no_push : PushHead
  cut_off : PushHead
  out_of_bounds : PushHead
  push_of : ℕ → ℕ → PushHead

unfoldable pub long_push : List ℕ → ℕ → ℕ → PushHead
unfolding slice_of
long_push script i width =
    if ltb (length script) (i + width) then cut_off else elim (slice_of script i (i + width)) [
      | none ↦ out_of_bounds
      | some bytes ↦ push_of (from_le_bytes bytes) (i + width)
    ]

unfoldable pub push_head : List ℕ → ℕ → ℕ → PushHead
unfolding long_push
push_head script opcode i =
    if leb 0x01 opcode && leb opcode 0x4b
    then push_of opcode i
    else if opcode == 0x4c
    then long_push script i 1
    else if opcode == 0x4d
    then long_push script i 2
    else if opcode == 0x4e
    then long_push script i 4
    else no_push

-- `while i < script.len()`, on fuel; every round moves `i` on. `none` is a panic or no more fuel.
unfoldable pub pushes_from : ℕ → List ℕ → ℕ → Option (List (List ℕ))
unfolding push_head slice_of
pushes_from zero script i = none
pushes_from (suc fuel) script i = elim (ltb i (length script)) [
  | false ↦ some []
  | true ↦ elim (push_head script (get_or script i 0) (i + 1)) [
    | no_push ↦ pushes_from fuel script (i + 1)
    | cut_off ↦ some []
    | out_of_bounds ↦ none
    | push_of len start ↦ elim (ltb (length script) (start + len)) [
      | true ↦ some []
      | false ↦ elim (pushes_from fuel script (start + len)) [
        | none ↦ none
        | some pushes ↦ elim (slice_of script start (start + len)) [
          | none ↦ none
          | some push ↦ some (push ∷ pushes)
        ]
      ]
    ]
  ]
]

-- A script of `n` bytes takes at most `n` rounds and one to see its end.
unfoldable pub parse_script_pushes : List ℕ → List (List ℕ)
unfolding pushes_from
parse_script_pushes script = elim (pushes_from (length script + 1) script 0) [
  | none ↦ []
  | some pushes ↦ pushes
]
