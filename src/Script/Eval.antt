-- ===== src/Script/Eval.antt =====
-- Evaluating scripts: `execute_eval`, `evaluate_final_stack`, `MultiSig.get_multisig_data` and
-- `script_eval` of hathor/transaction/scripts.py. The loops take fuel, and `none` is a loop that is
-- still running when the fuel is used up.
pub mod Termination
pub mod Stuck
use khathor.Script.Opcode
use khathor.Script.Data.{Item, int, bytes, Stack, op_pushdata, op_pushdata1}
use khathor.Script.Machine.{
  ScriptExtras, LogEntry, Vm, op_integer, op_dup, op_equal, op_equalverify, op_checksig, op_hash160,
  op_greaterthan_timestamp,
}
use khathor.Prelude.{
  Option, ℕ, List, ◌∷◌, if◌then◌else◌, none, some, ltb, ◌==◌, [], length, take, leb, ◌++◌, suc,
  false, ◌&&◌, zero, true, ◌+◌,
}
use khathor.Bytes.{Bytes, index}
use khathor.Crypto.{Platform}
use khathor.Errors.{Result, err, ok, ◌>>=◌, index_error, final_stack_invalid, script_error}
use khathor.Tx.Base.{Tx}
use khathor.Tx.Input.{TxInput}
use khathor.Script.Pattern.{match_multisig}
use khathor.Script.Machine.Multisig.{op_checkmultisig}
use khathor.Script.Machine.Data.{
  op_data_strequal, op_data_greaterthan, op_data_match_value, op_checkdatasig, op_find_p2pkh,
}

-- A call that may run on: `none` is still running.
abbrev pub Run : Type 0 → Type 0
Run A = Option (Result A)

module _ (p : Platform) (extras : ScriptExtras) where
  -- MAP_OPCODE_TO_FN.get(opcode, None), applied
  unfoldable pub call_opcode : ℕ → Vm → Result Vm
  call_opcode opcode vm =
      if opcode == Opcode.op_dup
      then op_dup vm
      else if opcode == Opcode.op_equal
      then op_equal vm
      else if opcode == Opcode.op_equalverify
      then op_equalverify vm
      else if opcode == Opcode.op_checksig
      then op_checksig p extras vm
      else if opcode == Opcode.op_hash160
      then op_hash160 p vm
      else if opcode == Opcode.op_greaterthan_timestamp
      then op_greaterthan_timestamp extras vm
      else if opcode == Opcode.op_checkmultisig
      then op_checkmultisig p extras vm
      else if opcode == Opcode.op_data_strequal
      then op_data_strequal p vm
      else if opcode == Opcode.op_data_greaterthan
      then op_data_greaterthan vm
      else if opcode == Opcode.op_data_match_value
      then op_data_match_value vm
      else if opcode == Opcode.op_checkdatasig
      then op_checkdatasig p vm
      else if opcode == Opcode.op_find_p2pkh
      then op_find_p2pkh p extras vm
      else err script_error

  -- the stack after a push, and the new position
  abbrev pub push : Vm → Bytes × ℕ → Vm × ℕ
  push vm (b, pos) = (record vm { stack = bytes b ∷ vm.stack }, pos)

  -- One round of the loop of execute_eval, at a position inside the data.
  unfoldable pub step : Bytes → ℕ → Vm → Result (Vm × ℕ)
  step script pos vm = do
    opcode ← index script pos
    if leb 1 opcode && leb opcode 75
        then (do r ← op_pushdata pos script; ok (push vm r))
        else if opcode == Opcode.op_pushdata1
        then (do r ← op_pushdata1 pos script; ok (push vm r))
        else if leb Opcode.op_0 opcode && leb opcode Opcode.op_16
        then (do vm' ← op_integer opcode vm; ok (vm', pos + 1))
        else do vm' ← call_opcode opcode vm; ok (vm', pos + 1)

  unfoldable pub eval_loop : ℕ → Bytes → ℕ → Vm → Run Vm
  eval_loop zero script pos vm = if ltb pos (length script) then none else some (ok vm)
  eval_loop (suc fuel) script pos vm = elim (ltb pos (length script)) [
    | false ↦ some (ok vm)
    | true ↦ elim (step script pos vm) [
      | err e ↦ some (err e)
      | ok (vm', pos') ↦ eval_loop fuel script pos' vm'
    ]
  ]

  -- The log of an evaluation that left no false value on top.
  unfoldable pub final_stack_of : Stack → List LogEntry → Result (List LogEntry)
  final_stack_of [] log = ok log
  final_stack_of (int zero ∷ s) log = err final_stack_invalid
  final_stack_of (x ∷ s) log = ok log

  unfoldable pub evaluate_final_stack : Vm → Result (List LogEntry)
  evaluate_final_stack vm = final_stack_of vm.stack vm.log

  unfoldable pub execute_eval : ℕ → Bytes → List LogEntry → Run (List LogEntry)
  execute_eval fuel script log = elim (eval_loop fuel script 0 (record { stack = []; log = log })) [
    | none ↦ none
    | some r ↦ some (r >>= evaluate_final_stack)
  ]

-- The loop of get_multisig_data: it keeps the position of the last push and its data. There is no
-- branch for an opcode that pushes nothing, and then the position stays.
unfoldable pub multisig_loop : ℕ → Bytes → ℕ → ℕ → Option Bytes → Run (ℕ × Option Bytes)
multisig_loop zero input_data pos last_pos top =
    if ltb pos (length input_data) then none else some (ok (last_pos, top))
multisig_loop (suc fuel) input_data pos last_pos top = elim (ltb pos (length input_data)) [
  | false ↦ some (ok (last_pos, top))
  | true ↦ elim (index input_data pos) [
    | err e ↦ some (err e)
    | ok opcode ↦ elim (leb 1 opcode && leb opcode 75) [
      | true ↦ elim (op_pushdata pos input_data) [
        | err e ↦ some (err e)
        | ok (b, pos') ↦ multisig_loop fuel input_data pos' pos (some b)
      ]
      | false ↦ elim (opcode == Opcode.op_pushdata1) [
        | true ↦ elim (op_pushdata1 pos input_data) [
          | err e ↦ some (err e)
          | ok (b, pos') ↦ multisig_loop fuel input_data pos' pos (some b)
        ]
        | false ↦ multisig_loop fuel input_data pos pos top
      ]
    ]
  ]
]

-- input_data[:last_pos] + stack[-1]
unfoldable pub multisig_data_of : Bytes → ℕ × Option Bytes → Result Bytes
multisig_data_of input_data (last_pos, none) = err index_error
multisig_data_of input_data (last_pos, some redeem_script) =
    ok (take last_pos input_data ++ redeem_script)

unfoldable pub get_multisig_data : ℕ → Bytes → Run Bytes
get_multisig_data fuel input_data = elim (multisig_loop fuel input_data 0 0 none) [
  | none ↦ none
  | some r ↦ some (r >>= multisig_data_of input_data)
]

infixl 5 ◌>>>◌
abbrev pub ◌>>>◌ : {A B : Type 0} → Run A → (A → Run B) → Run B
none >>> k = none
some (err e) >>> k = some (err e)
some (ok a) >>> k = k a

-- The evaluation of the input's data with the output's script, and then, for a MultiSig output, of
-- the signatures with the redeem script.
unfoldable pub script_eval : Platform → ℕ → Tx → TxInput → Tx → Run (Unit {0})
script_eval p fuel tx txin spent_tx = some (index spent_tx.outputs txin.index) >>> λ output.
    let extras : ScriptExtras = record { tx = tx; txin = txin; spent_tx = spent_tx } in
    execute_eval p extras fuel (txin.unlock ++ output.script) [] >>> λ log.
    elim (match_multisig output.script) [
      | none ↦ some (ok tt)
      | some _ ↦ get_multisig_data fuel txin.unlock >>> λ multisig_data.
          execute_eval p extras fuel multisig_data log >>> λ _. some (ok tt)
    ]
