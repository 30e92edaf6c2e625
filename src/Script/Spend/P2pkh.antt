-- ===== src/Script/Spend/P2pkh.antt =====
-- Spending an output of the class `P2PKH` of hathor/transaction/scripts.py.
use native.Mathlib.Nat.{le_trans}
use khathor.Script.Opcode
use khathor.Script.Machine.{
  ScriptExtras, LogEntry, op_dup, dup_of, op_hash160, check_signature, hash160_of, op_equalverify,
  op_equal, equal_of, verify_top, is_truthy, op_checksig, checksig_of, op_greaterthan_timestamp,
  greaterthan_timestamp_of, check_timelock,
}
use khathor.Script.Program.{Instr, push, op, run, evaluate, exec, assemble, IsInstr}
use khathor.Script.Spend.{lock_over, lock_program}
use khathor.Prelude.{
  Option, List, ◌∷◌, ◌++◌, [], none, ◌≡◌, arith, ◌<◌, length, some, ℕ, All, append_assoc, ◌≤◌, refl,
  sym, ◌∙◌, ap₂, ap,
}
use khathor.Crypto.{Platform, get_hash160}
use khathor.Bytes.{Bytes, bytes_eq, index}
use khathor.Errors.{
  Result, ◌>>◌, guard, equal_verify_failed, ◌>>=◌, final_stack_invalid, ok, err, ok-injective,
}
use khathor.Script.Eval.{
  call_opcode, evaluate_final_stack, final_stack_of, script_eval, execute_eval,
}
use khathor.Script.Builder.{p2pkh_input_data, p2pkh_output_script}
use khathor.Script.Builder.Laws.{
  pushed_form, push_bytes_lem, lock_prefix, p2pkh_form, pushed_form-short, Locks, hash_of,
  length-hash_of, p2pkh_output_script_lem,
}
use khathor.Tx.Base.{Tx}
use khathor.Script.Pattern.Laws.{IsLock, Locks-IsLock, match_multisig-p2pkh_form}
use khathor.Tx.Input.{TxInput}
use khathor.Tx.Output.{TxOutput}
use khathor.Script.Data.{Item}
use khathor.Script.Pattern.{match_multisig}
use khathor.Script.Program.Run.{execute_eval-assemble}

-- Who may spend: after the lock, the holder of the key with the output's hash, by a valid signature.
abbrev pub p2pkh_outcome :
    Platform → ScriptExtras → Option Bytes → Bytes → Bytes → Bytes → Result (Unit {0})
p2pkh_outcome p extras lock hash pubkey signature = do
  lock_over extras lock
  guard (bytes_eq hash (get_hash160 p pubkey)) equal_verify_failed
  valid ← check_signature p extras pubkey signature
  guard valid final_stack_invalid

abbrev p2pkh_program : Option Bytes → Bytes → Bytes → Bytes → List Instr
p2pkh_program lock hash pubkey signature =
    push signature
    ∷ push pubkey
    ∷ (lock_program lock
        ++ op Opcode.op_dup
          ∷ op Opcode.op_hash160
          ∷ push hash
          ∷ op Opcode.op_equalverify
          ∷ op Opcode.op_checksig
          ∷ [])

module _ (p : Platform) (extras : ScriptExtras) (hash pubkey signature : Bytes)
    (log : List LogEntry) where
  evaluate-unlocked :
      evaluate p extras (p2pkh_program none hash pubkey signature) log
      ≡ (p2pkh_outcome p extras none hash pubkey signature >>= λ _. ok log)
  unfolding evaluate run exec call_opcode op_dup dup_of op_hash160 hash160_of op_equalverify
      op_equal equal_of verify_top is_truthy op_checksig checksig_of evaluate_final_stack
      final_stack_of
  evaluate-unlocked = ground arith

  evaluate-locked :
      (b : Bytes)
      → length b ≡ 4
      → evaluate p extras (p2pkh_program (some b) hash pubkey signature) log
        ≡ (p2pkh_outcome p extras (some b) hash pubkey signature >>= λ _. ok log)
  unfolding evaluate run exec call_opcode op_dup dup_of op_hash160 hash160_of op_equalverify
      op_equal equal_of verify_top is_truthy op_checksig checksig_of evaluate_final_stack
      final_stack_of op_greaterthan_timestamp greaterthan_timestamp_of check_timelock
  evaluate-locked b h = ground arith

  evaluate-p2pkh :
      (lock : Option Bytes)
      → IsLock lock
      → evaluate p extras (p2pkh_program lock hash pubkey signature) log
        ≡ (p2pkh_outcome p extras lock hash pubkey signature >>= λ _. ok log)
  evaluate-p2pkh none l = evaluate-unlocked
  evaluate-p2pkh (some b) l = evaluate-locked b l

-- The bytes of the program are the input's data followed by the output's script.
assemble-p2pkh :
    (lock : Option Bytes) (hash pubkey signature : Bytes)
    → IsLock lock
    → length hash ≡ 20
    → assemble (p2pkh_program lock hash pubkey signature)
      ≡ (pushed_form signature ++ pushed_form pubkey) ++ (lock_prefix lock ++ p2pkh_form hash)
assemble-p2pkh none hash pubkey signature l h =
    rw (pushed_form-short hash (omega (arith, h))) (rw h (simp append_assoc))
assemble-p2pkh (some b) hash pubkey signature l h =
    rw (pushed_form-short hash (omega (arith, h)))
      (rw (pushed_form-short b (omega (arith, l))) (rw (h, l) (simp append_assoc)))

abbrev pub IsPushable : Bytes → Type 0
IsPushable b = (0 < length b) × (length b < 256)

p2pkh_program-IsInstr :
    (lock : Option Bytes) (hash pubkey signature : Bytes)
    → IsLock lock
    → length hash ≡ 20
    → IsPushable pubkey
    → IsPushable signature
    → All IsInstr (p2pkh_program lock hash pubkey signature)
p2pkh_program-IsInstr none hash pubkey signature l h a b = ground arith
p2pkh_program-IsInstr (some t) hash pubkey signature l h a b = ground arith

length-p2pkh_program :
    (lock : Option Bytes) (hash pubkey signature : Bytes)
    → length (p2pkh_program lock hash pubkey signature) ≤ 9
length-p2pkh_program none hash pubkey signature = omega arith
length-p2pkh_program (some b) hash pubkey signature = omega arith

pub p2pkh_input_data_lem :
    (pubkey signature : Bytes)
    → length pubkey < 256
    → length signature < 256
    → p2pkh_input_data pubkey signature ≡ ok (pushed_form signature ++ pushed_form pubkey)
unfolding p2pkh_input_data
p2pkh_input_data_lem pubkey signature a b =
    rw (push_bytes_lem signature [] b) (push_bytes_lem pubkey (pushed_form signature) a)

script_eval-single :
    (p : Platform) (fuel : ℕ) (tx : Tx) (txin : TxInput) (spent_tx : Tx) (output : TxOutput)
    (r : Result (Unit {0}))
    → index spent_tx.outputs txin.index ≡ ok output
    → match_multisig output.script ≡ none
    → execute_eval p
        (record { tx = tx; txin = txin; spent_tx = spent_tx })
        fuel
        (txin.unlock ++ output.script)
        []
      ≡ some (r >>= λ _. ok [])
    → script_eval p fuel tx txin spent_tx ≡ some r
unfolding script_eval
script_eval-single p fuel tx txin spent_tx output (ok a) o m e = rw (o, e, m, script_eval) refl
script_eval-single p fuel tx txin spent_tx output (err x) o m e = rw (o, e, script_eval) refl

-- An output that pays to the address, spent with a public key and a signature, is decided as
-- `p2pkh_outcome` says, with every error; nine rounds of fuel are enough.
pub p2pkh_spend :
    (p : Platform) (tx : Tx) (txin : TxInput) (spent_tx : Tx) (output : TxOutput) (address : Bytes)
    (timelock : Option Item) (lock : Option Bytes) (pubkey signature : Bytes) (fuel : ℕ)
    → length address ≡ 25
    → Locks timelock lock
    → IsPushable pubkey
    → IsPushable signature
    → index spent_tx.outputs txin.index ≡ ok output
    → p2pkh_output_script address timelock ≡ ok output.script
    → p2pkh_input_data pubkey signature ≡ ok txin.unlock
    → 9 ≤ fuel
    → script_eval p fuel tx txin spent_tx
      ≡ some (
          p2pkh_outcome p
            (record { tx = tx; txin = txin; spent_tx = spent_tx })
            lock
            (hash_of address)
            pubkey
            signature)
p2pkh_spend p tx txin spent_tx output address timelock lock pubkey signature fuel e l a b o w u f =
    let extras : ScriptExtras = record { tx = tx; txin = txin; spent_tx = spent_tx } in
    let hash = hash_of address in
    let k = length-hash_of address e in
    let i = Locks-IsLock lock l in
    let script : lock_prefix lock ++ p2pkh_form hash ≡ output.script =
      ok-injective (sym (p2pkh_output_script_lem address timelock lock e l) ∙ w) in
    let unlock : pushed_form signature ++ pushed_form pubkey ≡ txin.unlock =
      ok-injective (sym (p2pkh_input_data_lem pubkey signature a.1 b.1) ∙ u) in
    let program = p2pkh_program lock hash pubkey signature in
    let bytes : assemble program ≡ txin.unlock ++ output.script =
      assemble-p2pkh lock hash pubkey signature i k ∙ ap₂ (λ x y. x ++ y) unlock script in
    script_eval-single p fuel tx txin spent_tx output _ o
      (rw script at (match_multisig-p2pkh_form lock hash i k))
      (rw (← bytes) (
        execute_eval-assemble p extras program fuel []
          (p2pkh_program-IsInstr lock hash pubkey signature i k a b)
          (le_trans (length-p2pkh_program lock hash pubkey signature) f)
        ∙ ap some (evaluate-p2pkh p extras hash pubkey signature [] lock i)))
