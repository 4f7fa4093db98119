-- ===== src/ScanPoint/Ends.antt =====
-- light-server/src/sp_tweak.rs, `parse_script_pushes`: the loop ends.
use bitcoin_data.Base.{
  Bool-cases, List, [], arith, bytes_keyed, drop, false, get_or, inl, inr, leb, length, length-take,
  le→leb, ltb, ltb→lt, refl, some, suc, true, zero, ℕ, ◌&&◌, ◌+◌, ◌-◌, ◌<◌, ◌==◌, ◌∷◌, ◌≡◌, ◌≤◌,
}
use bitcoin_data.Helper.{slice}
use bitcoin_data.ScanPoint.Pushes.{
  PushHead, no_push, cut_off, out_of_bounds, slice_of, push_of, push_head, long_push, pushes_from,
}

abbrev pub total : List (List ℕ) → ℕ
total [] = 0
total (push ∷ pushes) = length push + total pushes

-- A push starts behind its opcode, and its length is read within the script.
StartsAfter : ℕ → PushHead → Type 0
StartsAfter i no_push = Unit {0}
StartsAfter i cut_off = Unit {0}
StartsAfter i out_of_bounds = 1 ≤ 0
StartsAfter i (push_of len start) = i ≤ start

slice_of-inside :
    (script : List ℕ) (start end : ℕ)
    → end ≤ length script
    → slice_of script start end ≡ some (slice script start end)
unfolding slice_of
slice_of-inside script start end h = rw (le→leb end (length script) h) refl

long_push-StartsAfter : (script : List ℕ) (i width : ℕ) → StartsAfter i (long_push script i width)
unfolding long_push StartsAfter
long_push-StartsAfter script i width = elim (Bool-cases (ltb (length script) (i + width))) [
  | inl cut ↦ rw cut tt
  | inr inside ↦
      let sliced = slice_of-inside script i (i + width) (ground arith) in
      rw (inside, sliced) (omega arith)
]

push_head-StartsAfter : (script : List ℕ) (opcode i : ℕ) → StartsAfter i (push_head script opcode i)
unfolding push_head StartsAfter
push_head-StartsAfter script opcode i = elim (Bool-cases (leb 0x01 opcode && leb opcode 0x4b)) [
  | inl short ↦ rw short (omega arith)
  | inr long ↦ rw long (elim (Bool-cases (opcode == 0x4c)) [
    | inl one ↦ rw one (long_push-StartsAfter script i 1)
    | inr not_one ↦ rw not_one (elim (Bool-cases (opcode == 0x4d)) [
      | inl two ↦ rw two (long_push-StartsAfter script i 2)
      | inr not_two ↦ rw not_two (elim (Bool-cases (opcode == 0x4e)) [
        | inl four ↦ rw four (long_push-StartsAfter script i 4)
        | inr none_of_these ↦ rw none_of_these tt
      ])
    ])
  ])
]

-- What the loop gives from `i` on.
abbrev Ends : ℕ → List ℕ → ℕ → Type 0
Ends fuel script i =
    (pushes : List (List ℕ)) × (pushes_from fuel script i ≡ some pushes)
    × (i + total pushes + length pushes ≤ i + (length script - i))

stops_at :
    (fuel : ℕ) (script : List ℕ) (i : ℕ) → ltb i (length script) ≡ false → Ends (suc fuel) script i
unfolding pushes_from
stops_at fuel script i h = ([], rw (h, pushes_from) refl, omega arith)

pushes_from-head :
    (fuel : ℕ) (script : List ℕ) (i : ℕ)
    → ltb i (length script) ≡ true
    → (head : PushHead) → push_head script (get_or script i 0) (i + 1) ≡ head
    → StartsAfter (i + 1) head
    → ((j : ℕ) → i < j → j ≤ length script → Ends fuel script j)
    → Ends (suc fuel) script i
unfolding pushes_from StartsAfter
pushes_from-head fuel script i h no_push e after go =
    let (pushes, made, fits) =
      go (i + 1) (omega arith) (omega (arith, ltb→lt i (length script) h)) in
    (pushes, rw (h, e, pushes_from) made, omega (arith, fits, ltb→lt i (length script) h))
pushes_from-head fuel script i h cut_off e after go =
    ([], rw (h, e, pushes_from) refl, omega (arith, ltb→lt i (length script) h))
pushes_from-head fuel script i h out_of_bounds e after go = absurd (omega (arith, after))
pushes_from-head fuel script i h (push_of len start) e after go =
    elim (Bool-cases (ltb (length script) (start + len))) [
      | inl cut ↦ ([], rw (h, e, cut, pushes_from) refl, omega (arith, ltb→lt i (length script) h))
      | inr inside ↦
          let ended : start + len ≤ length script = ground arith in
          let (pushes, made, fits) = go (start + len) (omega (arith, after)) ended in
          let size : length (slice script start (start + len)) ≤ len =
            omega (arith, length-take (start + len - start) (drop start script)) in
          let sliced = slice_of-inside script start (start + len) ended in
          (
            slice script start (start + len) ∷ pushes,
            rw (h, e, inside, made, sliced, pushes_from) refl,
            omega (arith, fits, size, after, ended),
          )
    ]

stops_from :
    (fuel : ℕ) (script : List ℕ) (i : ℕ)
    → i ≤ length script
    → length script < i + fuel
    → Ends fuel script i
unfolding pushes_from
stops_from zero script i inside h = absurd (omega arith)
stops_from (suc fuel) script i inside h = elim (Bool-cases (ltb i (length script))) [
  | inl more ↦
      pushes_from-head fuel script i more (push_head script (get_or script i 0) (i + 1)) refl
        (push_head-StartsAfter script (get_or script i 0) (i + 1))
        (λ j k l. stops_from fuel script j l (omega arith))
  | inr done ↦ stops_at fuel script i done
]

-- The loop over a script ends within its fuel, one more than the bytes of the script, with no index
-- and no slice outside the script, and the pushes, with a byte for each opcode, fit into the script.
pub parse_script_pushes_ends :
    (script : List ℕ)
    → (pushes : List (List ℕ)) × (pushes_from (length script + 1) script 0 ≡ some pushes)
      × (total pushes + length pushes ≤ length script)
parse_script_pushes_ends script =
    let (pushes, made, fits) =
      stops_from (length script + 1) script 0 (omega arith) (omega arith) in
    (pushes, made, omega (arith, fits))
