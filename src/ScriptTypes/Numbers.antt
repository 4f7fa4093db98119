-- ===== src/ScriptTypes/Numbers.antt =====
-- stats/src/script.rs: the numbers of the script types.
use bitcoin_data.Base.{arith, bytes_keyed, refl, ◌≡◌, ◌≤◌}
use bitcoin_data.ScriptTypes.{
  ScriptType, to_u8, from_u8, p2pk, p2pkh, p2sh, p2wpkh, p2wsh, p2tr, p2a, op_return, unknown,
}

-- A script type is read back from its number, which is at most 8.
pub from_u8-to_u8 : (t : ScriptType) → (from_u8 (to_u8 t) ≡ t) × (to_u8 t ≤ 8)
unfolding from_u8 to_u8
from_u8-to_u8 p2pk = (refl, omega arith)
from_u8-to_u8 p2pkh = (refl, omega arith)
from_u8-to_u8 p2sh = (refl, omega arith)
from_u8-to_u8 p2wpkh = (refl, omega arith)
from_u8-to_u8 p2wsh = (refl, omega arith)
from_u8-to_u8 p2tr = (refl, omega arith)
from_u8-to_u8 p2a = (refl, omega arith)
from_u8-to_u8 op_return = (refl, omega arith)
from_u8-to_u8 unknown = (refl, omega arith)
