-- ===== src/Script/Builder.antt =====
-- Building scripts: `HathorScript` and the `create_output_script` and `create_input_data` of the
-- script classes of hathor/transaction/scripts.py. A script under construction is its `data`.
pub mod Laws
use khathor.Script.Opcode
use khathor.Script.Data.{Item, int, bytes}
use khathor.Bytes.{Bytes, index, be, slice}
use khathor.Prelude.{
  ℕ, Option, List, ◌++◌, Bool, ◌∷◌, false, if◌then◌else◌, [], ltb, length, some, none, ◌^◌, leb,
  ◌==◌, suc, true, zero, ◌-◌,
}
use khathor.Crypto.{Platform}
use khathor.Errors.{
  Result, ok, ◌>>◌, ◌>>=◌, guard, err, script_error, value_error, assertion_error, struct_error,
}

unfoldable pub add_opcode : ℕ → Bytes → Bytes
add_opcode opcode script = script ++ opcode ∷ []

-- bytes([n]), which refuses a number that is no byte
unfoldable pub one_byte : ℕ → Result Bytes
one_byte n = if ltb n 256 then ok (n ∷ []) else err value_error

-- The bytes of a number in the smallest of the four formats that holds it.
unfoldable pub pack_int : ℕ → Result Bytes
pack_int n =
    if ltb 4294967295 n
    then (if ltb n (2 ^ 64) then ok (be 8 n) else err struct_error)
    else if ltb 65535 n
    then ok (be 4 n)
    else if ltb 255 n
    then ok (be 2 n)
    else ok (be 1 n)

-- pushData of bytes
unfoldable pub push_bytes : Bytes → Bytes → Result Bytes
push_bytes pushed script = do
  len ← one_byte (length pushed)
  if leb (length pushed) 75
      then ok (script ++ (len ++ pushed))
      else ok (script ++ (Opcode.op_pushdata1 ∷ (len ++ pushed)))

unfoldable pub push_data : Item → Bytes → Result Bytes
push_data (int n) script = do packed ← pack_int n; push_bytes packed script
push_data (bytes b) script = push_bytes b script

-- The truth of a timelock: neither None, nor 0, nor empty.
unfoldable pub is_set : Option Item → Bool
is_set none = false
is_set (some (int zero)) = false
is_set (some (int (suc n))) = true
is_set (some (bytes [])) = false
is_set (some (bytes (x ∷ xs))) = true

-- if timelock: s.pushData(timelock); s.addOpcode(Opcode.OP_GREATERTHAN_TIMESTAMP)
unfoldable pub timelock_prefix : Option Item → Result Bytes
timelock_prefix none = ok []
timelock_prefix (some t) =
    if is_set (some t)
    then (do s ← push_data t []; ok (add_opcode Opcode.op_greaterthan_timestamp s))
    else ok []

-- P2PKH.create_output_script
unfoldable pub p2pkh_output_script : Bytes → Option Item → Result Bytes
p2pkh_output_script address timelock = do
  guard (length address == 25) assertion_error
  let public_key_hash = slice 1 (length address - 5) address
  locked ← timelock_prefix timelock
  hashed ←
      push_bytes public_key_hash (add_opcode Opcode.op_hash160 (add_opcode Opcode.op_dup locked))
  ok (add_opcode Opcode.op_checksig (add_opcode Opcode.op_equalverify hashed))

-- P2PKH.create_input_data
unfoldable pub p2pkh_input_data : Bytes → Bytes → Result Bytes
p2pkh_input_data public_key_bytes signature = do
  s ← push_bytes signature []
  push_bytes public_key_bytes s

-- MultiSig.create_output_script
unfoldable pub multisig_output_script : Bytes → Option Item → Result Bytes
multisig_output_script address timelock = do
  guard (length address == 25) assertion_error
  let redeem_script_hash = slice 1 (length address - 5) address
  locked ← timelock_prefix timelock
  hashed ← push_bytes redeem_script_hash (add_opcode Opcode.op_hash160 locked)
  ok (add_opcode Opcode.op_equal hashed)

-- for signature in signatures: s.pushData(signature)
unfoldable pub push_all : List Bytes → Bytes → Result Bytes
push_all [] s = ok s
push_all (x ∷ xs) s = do s' ← push_bytes x s; push_all xs s'

-- MultiSig.create_input_data
unfoldable pub multisig_input_data : Bytes → List Bytes → Result Bytes
multisig_input_data redeem_script signatures = do
  s ← push_all signatures []
  push_bytes redeem_script s

-- The module's create_output_script picks the class by the version byte. `binary_to_int` of the
-- settings' byte is its value.
unfoldable pub create_output_script : Platform → Bytes → Option Item → Result Bytes
create_output_script p address timelock = do
  version ← index address 0
  if version == p.p2pkh_version_byte
      then p2pkh_output_script address timelock
      else if version == p.multisig_version_byte
      then multisig_output_script address timelock
      else err script_error
