-- ===== src/Script/Machine.antt =====
-- The opcodes that work on the stack: the `op_` functions of hathor/transaction/scripts.py.
-- An opcode takes the stack and the log and returns both, or raises.
pub mod Data
pub mod Multisig
use khathor.Script.Opcode
use khathor.Script.Data.{Item, int, bytes, Stack}
use khathor.Prelude.{
  ℕ, Bool, false, List, suc, true, length, leb, ◌&&◌, ◌==◌, ◌∷◌, zero, if◌then◌else◌, ◌-◌, [], ◌++◌,
  ltb,
}
use khathor.Errors.{
  Result, ◌>>=◌, ◌>>◌, err, guard, missing_stack_items, value_error, index_error, assertion_error,
  struct_error, ok, equal_verify_failed, script_error, time_locked,
}
use khathor.Bytes.{Bytes, bytes_eq, from_be}
use khathor.Crypto.{Platform, get_hash160}
use khathor.Tx.Base.{Tx, get_sighash_all}
use khathor.Tx.Input.{TxInput}

-- `ScriptExtras`
pub record ScriptExtras : Type 0 where
  pub tx : Tx
  pub txin : TxInput
  pub spent_tx : Tx

-- The messages of the log.
pub data LogEntry : Type 0 where
  equal_failed : Bytes → Bytes → LogEntry
  checksig_failed stack_left_false : LogEntry

-- What an opcode changes.
pub record Vm : Type 0 where
  pub stack : Stack
  pub log : List LogEntry

-- Python's truth of an element.
unfoldable pub is_truthy : Item → Bool
is_truthy (int zero) = false
is_truthy (int (suc n)) = true
is_truthy (bytes []) = false
is_truthy (bytes (x ∷ xs)) = true

unfoldable pub dup_of : Stack → List LogEntry → Result Vm
dup_of [] log = err missing_stack_items
dup_of (x ∷ s) log = ok (record { stack = x ∷ x ∷ s; log = log })

unfoldable pub op_dup : Vm → Result Vm
op_dup vm = dup_of vm.stack vm.log

-- struct.unpack('!I', buf), and the comparison with the transaction's timestamp
unfoldable pub check_timelock : ℕ → Bytes → Result (Unit {0})
check_timelock timestamp buf = do
  guard (length buf == 4) struct_error
  guard (ltb (from_be 0 buf) timestamp) time_locked

unfoldable pub greaterthan_timestamp_of : ℕ → Stack → List LogEntry → Result Vm
greaterthan_timestamp_of timestamp [] log = err missing_stack_items
greaterthan_timestamp_of timestamp (int n ∷ s) log = err assertion_error
greaterthan_timestamp_of timestamp (bytes buf ∷ s) log = do
  check_timelock timestamp buf
  ok (record { stack = s; log = log })

unfoldable pub op_greaterthan_timestamp : ScriptExtras → Vm → Result Vm
op_greaterthan_timestamp extras vm = greaterthan_timestamp_of extras.tx.timestamp vm.stack vm.log

unfoldable pub equal_of : Stack → List LogEntry → Result Vm
equal_of (bytes elem1 ∷ bytes elem2 ∷ s) log =
    if bytes_eq elem1 elem2
    then ok (record { stack = int 1 ∷ s; log = log })
    else ok (record { stack = int 0 ∷ s; log = log ++ equal_failed elem1 elem2 ∷ [] })
equal_of (x ∷ y ∷ s) log = err assertion_error
equal_of _ log = err missing_stack_items

unfoldable pub op_equal : Vm → Result Vm
op_equal vm = equal_of vm.stack vm.log

-- is_equal = stack.pop(), and the test of it
unfoldable pub verify_top : Stack → List LogEntry → Result Vm
verify_top [] log = err index_error
verify_top (x ∷ s) log =
    if is_truthy x then ok (record { stack = s; log = log }) else err equal_verify_failed

unfoldable pub op_equalverify : Vm → Result Vm
op_equalverify vm = do vm' ← op_equal vm; verify_top vm'.stack vm'.log

module _ (p : Platform) (extras : ScriptExtras) where
  -- Does the signature of the transaction verify with the public key?
  unfoldable pub check_signature : Bytes → Bytes → Result Bool
  check_signature pubkey signature = do
    guard (p.valid_point pubkey) value_error
    data_to_sign ← get_sighash_all true extras.tx
    let hashed_data = p.sha256 data_to_sign
    ok (p.ecdsa_verify pubkey signature hashed_data)

  unfoldable pub checksig_of : Stack → List LogEntry → Result Vm
  checksig_of (bytes pubkey ∷ bytes signature ∷ s) log = do
    valid ← check_signature pubkey signature
    if valid
        then ok (record { stack = int 1 ∷ s; log = log })
        else ok (record { stack = int 0 ∷ s; log = log ++ checksig_failed ∷ [] })
  checksig_of (x ∷ y ∷ s) log = err assertion_error
  checksig_of _ log = err missing_stack_items

  unfoldable pub op_checksig : Vm → Result Vm
  op_checksig vm = checksig_of vm.stack vm.log

unfoldable pub hash160_of : Platform → Stack → List LogEntry → Result Vm
hash160_of p [] log = err missing_stack_items
hash160_of p (int n ∷ s) log = err assertion_error
hash160_of p (bytes elem1 ∷ s) log =
    ok (record { stack = bytes (get_hash160 p elem1) ∷ s; log = log })

unfoldable pub op_hash160 : Platform → Vm → Result Vm
op_hash160 p vm = hash160_of p vm.stack vm.log

unfoldable pub op_integer : ℕ → Vm → Result Vm
op_integer opcode vm = do
  guard (leb Opcode.op_0 opcode && leb (opcode - Opcode.op_0) 16) script_error
  ok (record vm { stack = int (opcode - Opcode.op_0) ∷ vm.stack })
