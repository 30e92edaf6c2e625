-- ===== src/Script/Program.antt =====
-- A script as a list of instructions, a view of `execute_eval` of hathor/transaction/scripts.py
-- without positions.
pub mod Push
pub mod Run
use khathor.Script.Opcode
use khathor.Script.Data.{Item, int, bytes}
use khathor.Script.Machine.{ScriptExtras, Vm, LogEntry, op_integer}
use khathor.Prelude.{
  ◌<◌, List, ℕ, length, ◌∷◌, leb, [], ◌++◌, if◌then◌else◌, ◌&&◌, ◌≡◌, false, ◌==◌,
}
use khathor.Crypto.{Platform}
use khathor.Bytes.{Bytes}
use khathor.Errors.{Result, ok, ◌>>=◌}
use khathor.Script.Builder.Laws.{pushed_form}
use khathor.Script.Eval.{evaluate_final_stack, call_opcode}

pub data Instr : Type 0 where
  push : Bytes → Instr
  op : ℕ → Instr

-- The bytes of an instruction, with data pushed as `pushData` does.
abbrev pub encode : Instr → Bytes
encode (push b) = pushed_form b
encode (op opcode) = opcode ∷ []

abbrev pub assemble : List Instr → Bytes
assemble [] = []
assemble (i ∷ is) = encode i ++ assemble is

-- Data of 1 to 255 bytes, and an opcode that is no push.
abbrev pub IsInstr : Instr → Type 0
IsInstr (push b) = (0 < length b) × (length b < 256)
IsInstr (op opcode) =
    ((leb 1 opcode && leb opcode 75) ≡ false) × ((opcode == Opcode.op_pushdata1) ≡ false)

module _ (p : Platform) (extras : ScriptExtras) where
  unfoldable pub exec : Instr → Vm → Result Vm
  exec (push b) vm = ok (record vm { stack = bytes b ∷ vm.stack })
  exec (op opcode) vm =
      if leb Opcode.op_0 opcode && leb opcode Opcode.op_16
      then op_integer opcode vm
      else call_opcode p extras opcode vm

  unfoldable pub run : List Instr → Vm → Result Vm
  run [] vm = ok vm
  run (i ∷ is) vm = do vm' ← exec i vm; run is vm'

-- The instructions of a script are run in order, on an empty stack.
unfoldable pub evaluate :
    Platform → ScriptExtras → List Instr → List LogEntry → Result (List LogEntry)
evaluate p extras prog log = do
  vm ← run p extras prog (record { stack = []; log = log })
  evaluate_final_stack p extras vm
