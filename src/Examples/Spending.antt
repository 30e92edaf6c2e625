-- ===== src/Examples/Spending.antt =====
-- Spending outputs, by the functions of hathor/transaction/scripts.py.
use khathor.Script.Opcode
use khathor.Tx.Input.{get_sighash_bytes}
use khathor.Tx.Output.{to_bytes}
use khathor.Script.Program.{push, op, assemble, evaluate}
use khathor.Script.Data.{int, bytes}
use khathor.Script.Eval.{script_eval, execute_eval}
use khathor.Bytes.{Bytes, be, int_to_bytes, index}
use khathor.Script.Machine.Multisig.Decides.{op_checkmultisig_iff}
use khathor.Examples.{
  demo, spending_tx, pubkey, input_of, spent_tx, output_of, some_address, some_tx_id, pad,
}
use khathor.Script.Builder.Laws.{
  lock_prefix, pushed_form, p2pkh_form, hash_of, locked_int, p2pkh_output_script_lem, multisig_form,
}
use khathor.Script.Machine.{ScriptExtras, LogEntry}
use khathor.Prelude.{
  [], some, ◌++◌, ◌∷◌, ◌≡◌, arith, refl, Bool, List, map, true, if◌then◌else◌, ◌↔◌, none,
}
use khathor.Script.Spend.P2pkh.{p2pkh_outcome, p2pkh_spend, p2pkh_input_data_lem}
use khathor.Script.Program.Run.{execute_eval-assemble}
use khathor.Tx.Base.{get_sighash_all, pack_uint, concat_bytes}
use khathor.Script.Machine.Multisig.{op_checkmultisig}
use khathor.Errors.{ok}
use khathor.Tx.Value.{output_value_to_bytes}
use khathor.Script.Machine.Multisig.Laws.{Signed}
use khathor.Crypto.{get_hash160}
use khathor.Script.Spend.Hang.{script_eval_runs_on}

abbrev p2pkh_unlock : Bytes
p2pkh_unlock = pushed_form pubkey ++ pushed_form pubkey

abbrev p2pkh_script : Bytes
p2pkh_script = lock_prefix (some (be 4 70000)) ++ p2pkh_form (hash_of some_address)

abbrev extras_of : Bytes → Bytes → ScriptExtras
extras_of unlock script = record {
  tx = spending_tx;
  txin = input_of unlock;
  spent_tx = spent_tx (output_of script);
}

p2pkh_spend_example :
    script_eval demo 9 spending_tx (input_of p2pkh_unlock) (spent_tx (output_of p2pkh_script))
    ≡ some (
        p2pkh_outcome demo
          (extras_of p2pkh_unlock p2pkh_script)
          (some (be 4 70000))
          (hash_of some_address)
          pubkey
          pubkey)
unfolding index
p2pkh_spend_example =
    p2pkh_spend demo spending_tx (input_of p2pkh_unlock) (spent_tx (output_of p2pkh_script))
      (output_of p2pkh_script) some_address (some (int 70000)) (some (be 4 70000)) pubkey pubkey 9
      refl (locked_int 70000 (omega arith) (omega arith)) (omega arith, omega arith)
      (omega arith, omega arith) refl
      (p2pkh_output_script_lem some_address (some (int 70000)) (some (be 4 70000)) refl
        (locked_int 70000 (omega arith) (omega arith)))
      (p2pkh_input_data_lem pubkey pubkey (omega arith) (omega arith)) (omega arith)

execute_eval-assemble_example :
    execute_eval demo
      (extras_of [] [])
      3
      (assemble (push (7 ∷ []) ∷ op Opcode.op_dup ∷ op Opcode.op_equal ∷ []))
      []
    ≡ some (
        evaluate demo
          (extras_of [] [])
          (push (7 ∷ []) ∷ op Opcode.op_dup ∷ op Opcode.op_equal ∷ [])
          [])
execute_eval-assemble_example =
    execute_eval-assemble demo (extras_of [] [])
      (push (7 ∷ []) ∷ op Opcode.op_dup ∷ op Opcode.op_equal ∷ []) 3 []
      ((omega arith, omega arith), ((refl, refl), ((refl, refl), tt))) (omega arith)

abbrev spending_sighash : Bytes
spending_sighash = 0 ∷ 1 ∷ 0 ∷ 1 ∷ 1 ∷ (some_tx_id ++ 0 ∷ 0 ∷ 0 ∷ 0 ∷ 0 ∷ 0 ∷ 5 ∷ 0 ∷ 0 ∷ 0 ∷ [])

spending_tx-sighash : get_sighash_all true spending_tx ≡ ok spending_sighash
unfolding get_sighash_all pack_uint concat_bytes get_sighash_bytes int_to_bytes to_bytes
    output_value_to_bytes be
spending_tx-sighash = refl

abbrev keys : List Bytes
keys = (1 ∷ []) ∷ (2 ∷ []) ∷ (3 ∷ []) ∷ []

abbrev signatures : List Bytes
signatures = (1 ∷ []) ∷ (3 ∷ []) ∷ []

op_checkmultisig_iff_example :
    (v : Bool) × (log' : List LogEntry) × (op_checkmultisig demo (extras_of [] []) (record {
      stack = int 3 ∷ (map bytes keys ++ (int 2 ∷ (map bytes signatures ++ [])));
      log = [];
    })
      ≡ ok (record { stack = int (if v then 1 else 0) ∷ []; log = log' }))
    × ((v ≡ true) ↔ Signed demo (demo.sha256 spending_sighash) signatures keys)
op_checkmultisig_iff_example =
    op_checkmultisig_iff demo (extras_of [] []) spending_sighash spending_tx-sighash keys signatures
      [] [] (refl, (refl, (refl, tt)))

abbrev redeem_hash : Bytes
redeem_hash = pad 20 (7 ∷ [])

script_eval_runs_on_example :
    script_eval demo 1000 spending_tx
      (input_of (Opcode.op_1 ∷ pushed_form (7 ∷ [])))
      (spent_tx (output_of (multisig_form redeem_hash)))
    ≡ none
unfolding index get_hash160
script_eval_runs_on_example =
    script_eval_runs_on demo spending_tx (input_of (Opcode.op_1 ∷ pushed_form (7 ∷ [])))
      (spent_tx (output_of (multisig_form redeem_hash))) (output_of (multisig_form redeem_hash))
      (7 ∷ []) redeem_hash 1000 refl refl (omega arith, omega arith) refl refl refl (omega arith)
