-- ===== src/Spend/Proper.antt =====
-- stats/src/transaction.rs: the classes that `classify_p2tr_spend` gives.
use bitcoin_data.Base.{
  Bool, List, Option, [], ap, bytes_keyed, false, get_elem?, get_or, if◌then◌else◌, length, ltb,
  none, refl, same_bytes, some, true, ℕ, ◌-◌, ◌==◌, ◌≡◌,
}
use mathlib.Core.Bool.{false≢true}
use bitcoin_data.Helper.{slice}
use bitcoin_data.Spend.{
  SpendPath, SpendClass, key, script_nums, script_non_nums, key_spend, classify_control,
  classify_at, classify_p2tr_spend, stripped_len, is_taproot_control_block, is_inscription_envelope,
  nums_h_xonly,
}

-- A key-path spend has no inscription.
unfoldable pub IsClass : SpendClass → Type 0
IsClass class = class.path ≡ key → class.inscription ≡ false

abbrev is_key : SpendPath → Bool
is_key key = true
is_key _ = false

if-IsClass : (b : Bool) (x y : SpendClass) → IsClass x → IsClass y → IsClass (if b then x else y)
if-IsClass true x y p q = p
if-IsClass false x y p q = q

key_spend-IsClass : IsClass key_spend
unfolding IsClass
key_spend-IsClass h = refl

script-IsClass :
    (nums inscription : Bool)
    → IsClass
        (record { path = if nums then script_nums else script_non_nums; inscription = inscription })
unfolding IsClass
script-IsClass true inscription h = absurd (false≢true (ap is_key h))
script-IsClass false inscription h = absurd (false≢true (ap is_key h))

classify_control-IsClass : (control script : List ℕ) → IsClass (classify_control control script)
unfolding classify_control
classify_control-IsClass control script =
    if-IsClass (is_taproot_control_block control) _ key_spend
      (script-IsClass (same_bytes (slice control 1 33) nums_h_xonly)
        (is_inscription_envelope script))
      key_spend-IsClass

chosen-IsClass :
    (item : Option (List ℕ)) (script : List ℕ)
    → IsClass (elim item [ none ↦ key_spend | some control ↦ classify_control control script ])
chosen-IsClass none script = key_spend-IsClass
chosen-IsClass (some control) script = classify_control-IsClass control script

classify_at-IsClass : (witness : List (List ℕ)) (len : ℕ) → IsClass (classify_at witness len)
unfolding classify_at
classify_at-IsClass witness len =
    if-IsClass (ltb len 2) key_spend _ key_spend-IsClass
      (chosen-IsClass (get_elem? witness (len - 1)) (get_or witness (len - 2) []))

pub classify_p2tr_spend-IsClass : (witness : List (List ℕ)) → IsClass (classify_p2tr_spend witness)
unfolding classify_p2tr_spend
classify_p2tr_spend-IsClass witness =
    if-IsClass (length witness == 0) key_spend _ key_spend-IsClass
      (classify_at-IsClass witness (stripped_len witness))
