-- ===== src/Script/Spend.antt =====
-- Spending an output: what `script_eval` of hathor/transaction/scripts.py is to decide, said
-- without the stack machine.
pub mod P2pkh
pub mod Hang
use khathor.Script.Opcode
use khathor.Script.Machine.{ScriptExtras}
use khathor.Script.Program.{Instr, push, op}
use khathor.Prelude.{Option, List, [], some, ◌∷◌, none, ltb}
use khathor.Bytes.{Bytes, from_be}
use khathor.Errors.{Result, ok, guard, time_locked}

-- The lock, if there is one, has to be over.
abbrev pub lock_over : ScriptExtras → Option Bytes → Result (Unit {0})
lock_over extras none = ok tt
lock_over extras (some b) = guard (ltb (from_be 0 b) extras.tx.timestamp) time_locked

-- The instructions that stand before the body of an output script.
abbrev pub lock_program : Option Bytes → List Instr
lock_program none = []
lock_program (some b) = push b ∷ op Opcode.op_greaterthan_timestamp ∷ []
