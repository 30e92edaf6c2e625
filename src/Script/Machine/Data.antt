-- ===== src/Script/Machine/Data.antt =====
-- The opcodes on data that an oracle signed, and `op_find_p2pkh`, of hathor/transaction/scripts.py.
use khathor.Script.Data.{Item, int, bytes, Stack, binary_to_int, get_data_value}
use khathor.Script.Machine.{ScriptExtras, LogEntry, Vm}
use khathor.Script.Pattern.{p2pkh, parse_p2pkh}
use khathor.Tx.Output.{TxOutput}
use khathor.Prelude.{
  ℕ, List, Bool, false, if◌then◌else◌, ◌&&◌, ◌∷◌, ◌==◌, suc, [], zero, leb, ltb, some, ◌*◌, true,
  ◌+◌, length,
}
use khathor.Errors.{
  Result, err, ok, Exn, missing_stack_items, verify_failed, assertion_error, value_error, ◌>>=◌,
  ◌>>◌, guard, index_error, type_error, oracle_checksig_failed,
}
use khathor.Bytes.{Bytes, index, bytes_eq}
use khathor.Crypto.{Platform, get_address_b58_from_bytes}

unfoldable pub checkdatasig_of : Platform → Stack → List LogEntry → Result Vm
checkdatasig_of p (bytes pubkey ∷ bytes signature ∷ bytes signed ∷ s) log = do
  guard (p.valid_point pubkey) value_error
  guard (p.ecdsa_verify pubkey signature signed) oracle_checksig_failed
  ok (record { stack = bytes signed ∷ s; log = log })
checkdatasig_of p (x ∷ y ∷ z ∷ s) log = err assertion_error
checkdatasig_of p _ log = err missing_stack_items

unfoldable pub op_checkdatasig : Platform → Vm → Result Vm
op_checkdatasig p vm = checkdatasig_of p vm.stack vm.log

-- The message of VerifyFailed decodes both values as UTF-8, which may raise UnicodeDecodeError, a
-- ValueError.
unfoldable pub strequal_error : Platform → Bytes → Bytes → Exn
strequal_error p data_value value =
    if p.valid_utf8 data_value && p.valid_utf8 value then verify_failed else value_error

unfoldable pub data_strequal_of : Platform → Stack → List LogEntry → Result Vm
data_strequal_of p (bytes value ∷ int data_k ∷ bytes packed ∷ s) log = do
  data_value ← get_data_value data_k packed
  guard (bytes_eq data_value value) (strequal_error p data_value value)
  ok (record { stack = bytes packed ∷ s; log = log })
data_strequal_of p (bytes value ∷ bytes data_k ∷ bytes packed ∷ s) log = err verify_failed
data_strequal_of p (x ∷ y ∷ z ∷ s) log = err assertion_error
data_strequal_of p _ log = err missing_stack_items

unfoldable pub op_data_strequal : Platform → Vm → Result Vm
op_data_strequal p vm = data_strequal_of p vm.stack vm.log

-- try: binary_to_int(..), with its struct.error turned into VerifyFailed
unfoldable pub verified_int : Bytes → Result ℕ
verified_int b = elim (binary_to_int b) [ ok n ↦ ok n | err e ↦ err verify_failed ]

unfoldable pub data_greaterthan_of : Stack → List LogEntry → Result Vm
data_greaterthan_of (bytes value ∷ int data_k ∷ bytes packed ∷ s) log = do
  data_value ← get_data_value data_k packed
  data_int ← verified_int data_value
  value_int ← verified_int value
  guard (ltb value_int data_int) verify_failed
  ok (record { stack = bytes packed ∷ s; log = log })
data_greaterthan_of (bytes value ∷ bytes data_k ∷ bytes packed ∷ s) log = err verify_failed
data_greaterthan_of (x ∷ y ∷ z ∷ s) log = err assertion_error
data_greaterthan_of _ log = err missing_stack_items

unfoldable pub op_data_greaterthan : Vm → Result Vm
op_data_greaterthan vm = data_greaterthan_of vm.stack vm.log

-- The table from values to public keys; a later entry replaces an earlier one, so the newest is
-- first.
unfoldable pub value_lookup : ℕ → List (ℕ × Item) → Item → Item
value_lookup k [] default = default
value_lookup k ((j, v) ∷ items) default = if j == k then v else value_lookup k items default

-- The loop over the n pairs of a public key and a value below the count.
unfoldable pub pop_values : ℕ → Stack → List (ℕ × Item) → Result (List (ℕ × Item) × Stack)
pop_values zero s items = ok (items, s)
pop_values (suc n) (bytes pubkey ∷ bytes buf ∷ s) items = do
  value ← verified_int buf
  pop_values n s ((value, bytes pubkey) ∷ items)
pop_values (suc n) (x ∷ y ∷ s) items = err assertion_error
pop_values (suc n) _ items = err index_error

unfoldable pub match_winner : List (ℕ × Item) → Stack → List LogEntry → Result Vm
match_winner items (last_pubkey ∷ int data_k ∷ bytes packed ∷ s) log = do
  data_value ← get_data_value data_k packed
  data_int ← binary_to_int data_value
  elim (value_lookup data_int items last_pubkey) [
    | int n ↦ err assertion_error
    | bytes winner ↦ ok (record { stack = bytes winner ∷ s; log = log })
  ]
match_winner items (x ∷ y ∷ z ∷ s) log = err assertion_error
match_winner items _ log = err index_error

unfoldable pub data_match_value_of : Stack → List LogEntry → Result Vm
data_match_value_of [] log = err missing_stack_items
data_match_value_of (int n ∷ s) log = err assertion_error
data_match_value_of (bytes data_n_items ∷ s) log = do
  n_items ← index data_n_items 0
  guard (leb (2 * n_items + 3) (length s)) missing_stack_items
  (items, rest) ← pop_values n_items s []
  match_winner items rest log

unfoldable pub op_data_match_value : Vm → Result Vm
op_data_match_value vm = data_match_value_of vm.stack vm.log

module _ (p : Platform) (extras : ScriptExtras) where
  -- The outputs are searched for a P2PKH script of the address and of the contract's value.
  unfoldable pub pays_to : Bytes → ℕ → List TxOutput → Result Bool
  pays_to address_b58 contract_value [] = ok false
  pays_to address_b58 contract_value (output ∷ outputs) = do
    parsed ← parse_p2pkh p output.script
    let later = pays_to address_b58 contract_value outputs
    elim parsed [
      | some (p2pkh address _) ↦
          if bytes_eq address address_b58 && output.value == contract_value then ok true else later
      | _ ↦ later
    ]

  unfoldable pub find_p2pkh_of : Stack → List LogEntry → Result Vm
  find_p2pkh_of [] log = err missing_stack_items
  find_p2pkh_of (x ∷ s) log = do
    spent ← index extras.spent_tx.outputs extras.txin.index
    elim x [
      | int n ↦ err type_error
      | bytes address ↦ (do
        found ← pays_to (get_address_b58_from_bytes p address) spent.value extras.tx.outputs
        guard found verify_failed
        ok (record { stack = int 1 ∷ s; log = log }))
    ]

  unfoldable pub op_find_p2pkh : Vm → Result Vm
  op_find_p2pkh vm = find_p2pkh_of vm.stack vm.log
