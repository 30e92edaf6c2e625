-- ===== src/Script/Machine/Multisig.antt =====
-- `op_checkmultisig` of hathor/transaction/scripts.py.
pub mod Laws
pub mod Decides
use khathor.Script.Data.{Item, int, bytes, Stack}
use khathor.Script.Machine.{ScriptExtras, LogEntry, Vm, checksig_of}
use khathor.Prelude.{
  ℕ, List, Option, Bool, none, true, [], if◌then◌else◌, ◌∷◌, ◌==◌, suc, zero, false, some, leb,
  length,
}
use khathor.Crypto.{Platform}
use khathor.Errors.{
  Result, err, ok, ◌>>=◌, index_error, missing_stack_items, invalid_stack_data, ◌>>◌, guard,
}

-- for _ in range(n): popped.append(stack.pop())
unfoldable pub pop_many : ℕ → Stack → Result (List Item × Stack)
pop_many zero s = ok ([], s)
pop_many (suc n) [] = err index_error
pop_many (suc n) (x ∷ s) = do (xs, rest) ← pop_many n s; ok (x ∷ xs, rest)

-- A count on the stack, and as many elements below it.
unfoldable pub pop_counted : Stack → Result (List Item × Stack)
pop_counted [] = err missing_stack_items
pop_counted (bytes b ∷ s) = err invalid_stack_data
pop_counted (int n ∷ s) = do guard (leb n (length s)) missing_stack_items; pop_many n s

-- result == 1
unfoldable pub is_one : Stack → Result Bool
is_one [] = err index_error
is_one (int n ∷ s) = ok (n == 1)
is_one (bytes b ∷ s) = ok false

module _ (p : Platform) (extras : ScriptExtras) where
  -- The inner loop: the public keys behind the first that verifies the signature, if there is one.
  unfoldable pub find_key :
      Item → List Item → List LogEntry → Result (Option (List Item) × List LogEntry)
  find_key signature [] log = ok (none, log)
  find_key signature (pubkey ∷ pubkeys) log = do
    vm ← checksig_of p extras (pubkey ∷ signature ∷ []) log
    valid ← is_one vm.stack
    let later = find_key signature pubkeys vm.log
    if valid then ok (some pubkeys, vm.log) else later

  -- The outer loop: does each signature find its key?
  unfoldable pub match_signatures :
      List Item → List Item → List LogEntry → Result (Bool × List LogEntry)
  match_signatures [] pubkeys log = ok (true, log)
  match_signatures (signature ∷ signatures) pubkeys log = do
    (found, log') ← find_key signature pubkeys log
    elim found [ none ↦ ok (false, log') | some rest ↦ match_signatures signatures rest log' ]

  unfoldable pub checkmultisig_of : Stack → List LogEntry → Result Vm
  checkmultisig_of stack log = do
    (pubkeys, below) ← pop_counted stack
    (signatures, rest) ← pop_counted below
    (valid, log') ← match_signatures signatures pubkeys log
    ok (record { stack = int (if valid then 1 else 0) ∷ rest; log = log' })

  unfoldable pub op_checkmultisig : Vm → Result Vm
  op_checkmultisig vm = checkmultisig_of vm.stack vm.log
