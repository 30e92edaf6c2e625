-- ===== src/Examples/Scripts.antt =====
-- Evaluating, building and parsing scripts of hathor/transaction/scripts.py.
use mathlib.Core.Option
use khathor.Errors.{Result, ok}
use khathor.Script.Machine.{ScriptExtras, LogEntry}
use khathor.Bytes.{Bytes, from_be, be}
use khathor.Script.Eval.{execute_eval}
use khathor.Prelude.{List, ◌∷◌, [], none, ◌≡◌, some, refl, arith}
use khathor.Script.Builder.{multisig_output_script, p2pkh_output_script}
use khathor.Examples.{spending_tx, input_of, some_address, spent_tx, output_of, demo}
use khathor.Script.Data.{int}
use khathor.Script.Pattern.{parse_p2pkh, parse_multisig, multisig, p2pkh, parse_address_script}
use khathor.Script.Eval.Termination.{execute_eval_terminates}
use khathor.Crypto.{get_address_b58_from_redeem_script_hash, get_address_b58_from_public_key_hash}
use khathor.Script.Builder.Laws.{hash_of, locked_int, unlocked}
use khathor.Script.Pattern.Laws.{multisig_round_trip, p2pkh_round_trip}

abbrev extras : ScriptExtras
extras = record { tx = spending_tx; txin = input_of []; spent_tx = spent_tx (output_of []) }

execute_eval_terminates_example :
    (r : Result (List LogEntry)) × (execute_eval demo extras 3 (1 ∷ 7 ∷ 118 ∷ []) [] ≡ some r)
    × (execute_eval demo extras 5 (1 ∷ 7 ∷ 118 ∷ []) [] ≡ some r)
execute_eval_terminates_example =
    execute_eval_terminates demo extras (1 ∷ 7 ∷ 118 ∷ []) [] 5 (omega arith)

p2pkh_round_trip_example :
    (script : Bytes) × (p2pkh_output_script some_address (some (int 70000)) ≡ ok script)
    × (parse_p2pkh demo script
        ≡ ok (
            some (
              p2pkh
                (get_address_b58_from_public_key_hash demo (hash_of some_address))
                (Option.map (from_be 0) (some (be 4 70000))))))
    × (parse_address_script demo script ≡ parse_p2pkh demo script)
p2pkh_round_trip_example =
    p2pkh_round_trip demo some_address (some (int 70000)) (some (be 4 70000)) refl
      (locked_int 70000 (omega arith) (omega arith))

multisig_round_trip_example :
    (script : Bytes) × (multisig_output_script some_address none ≡ ok script)
    × (parse_multisig demo script
        ≡ ok (
            some (
              multisig
                (get_address_b58_from_redeem_script_hash demo (hash_of some_address))
                (Option.map (from_be 0) none))))
    × (parse_address_script demo script ≡ parse_multisig demo script)
multisig_round_trip_example = multisig_round_trip demo some_address none none refl unlocked
