-- ===== src/Script/Spend/Hang.antt =====
-- `script_eval` of hathor/transaction/scripts.py on a MultiSig output and an input whose data push more
-- than the redeem script.
use khathor.Script.Opcode
use khathor.Script.Program.{Instr, push, op, evaluate, run, exec, assemble}
use khathor.Prelude.{
  ◌∷◌, [], refl, ◌++◌, length, List, ℕ, ◌≡◌, ◌≤◌, arith, none, some, ◌∙◌, ap₂, sym, ap,
}
use khathor.Bytes.{Bytes, index}
use khathor.Script.Eval.{
  script_eval, call_opcode, execute_eval, evaluate_final_stack, get_multisig_data, final_stack_of,
}
use khathor.Crypto.{Platform, get_hash160}
use khathor.Tx.Base.{Tx}
use khathor.Tx.Input.{TxInput}
use khathor.Tx.Output.{TxOutput}
use khathor.Script.Builder.Laws.{pushed_form, multisig_form, pushed_form-short}
use khathor.Script.Pattern.{Groups, match_multisig}
use khathor.Script.Machine.{op_integer, op_hash160, hash160_of, op_equal, equal_of, ScriptExtras}
use khathor.Script.Spend.P2pkh.{IsPushable}
use khathor.Errors.{ok}
use khathor.Bytes.Laws.{bytes_eq_refl}
use khathor.Script.Pattern.Laws.{match_multisig-form}
use khathor.Script.Program.Run.{execute_eval-assemble}
use khathor.Script.Eval.Stuck.{get_multisig_data_runs_on}

abbrev hang_program : Bytes → Bytes → List Instr
hang_program redeem hash =
    op Opcode.op_1 ∷ push redeem ∷ op Opcode.op_hash160 ∷ push hash ∷ op Opcode.op_equal ∷ []

assemble-hang_program :
    (redeem hash : Bytes)
    → length hash ≡ 20
    → assemble (hang_program redeem hash) ≡ (Opcode.op_1 ∷ pushed_form redeem) ++ multisig_form hash
assemble-hang_program redeem hash h = rw (pushed_form-short hash (omega (arith, h))) (rw h refl)

evaluate-hang_program :
    (p : Platform) (extras : ScriptExtras) (redeem hash : Bytes)
    → get_hash160 p redeem ≡ hash
    → evaluate p extras (hang_program redeem hash) [] ≡ ok []
unfolding evaluate run exec call_opcode op_integer op_hash160 hash160_of op_equal equal_of
    evaluate_final_stack final_stack_of
evaluate-hang_program p extras redeem hash h = rw h (rw (bytes_eq_refl hash) refl)

script_eval-multisig :
    (p : Platform) (fuel : ℕ) (tx : Tx) (txin : TxInput) (spent_tx : Tx) (output : TxOutput)
    (g : Groups)
    → index spent_tx.outputs txin.index ≡ ok output
    → match_multisig output.script ≡ some g
    → execute_eval p
        (record { tx = tx; txin = txin; spent_tx = spent_tx })
        fuel
        (txin.unlock ++ output.script)
        []
      ≡ some (ok [])
    → get_multisig_data fuel txin.unlock ≡ none
    → script_eval p fuel tx txin spent_tx ≡ none
unfolding script_eval
script_eval-multisig p fuel tx txin spent_tx output g o m e d = rw (o, e, m, d, script_eval) refl

-- For an output with the script of a MultiSig address, an input whose data are OP_1 and the pushed
-- redeem script passes the first evaluation, and then `script_eval` returns with no amount of fuel.
pub script_eval_runs_on :
    (p : Platform) (tx : Tx) (txin : TxInput) (spent_tx : Tx) (output : TxOutput)
    (redeem hash : Bytes) (fuel : ℕ)
    → length hash ≡ 20
    → get_hash160 p redeem ≡ hash
    → IsPushable redeem
    → index spent_tx.outputs txin.index ≡ ok output
    → output.script ≡ multisig_form hash
    → txin.unlock ≡ Opcode.op_1 ∷ pushed_form redeem
    → 5 ≤ fuel
    → script_eval p fuel tx txin spent_tx ≡ none
script_eval_runs_on p tx txin spent_tx output redeem hash fuel l h r o w u f =
    let extras : ScriptExtras = record { tx = tx; txin = txin; spent_tx = spent_tx } in
    let program = hang_program redeem hash in
    let bytes : assemble program ≡ txin.unlock ++ output.script =
      assemble-hang_program redeem hash l ∙ ap₂ (λ x y. x ++ y) (sym u) (sym w) in
    script_eval-multisig p fuel tx txin spent_tx output (none, 20 ∷ hash) o
      (rw w (match_multisig-form none hash tt l))
      (rw (← bytes) (
        execute_eval-assemble p extras program fuel []
          (
            (refl, refl),
            (r, ((refl, refl), ((omega (arith, l), omega (arith, l)), ((refl, refl), tt)))),
          )
          f
        ∙ ap some (evaluate-hang_program p extras redeem hash h)))
      (rw u (get_multisig_data_runs_on fuel Opcode.op_1 (pushed_form redeem) (refl, refl)))
