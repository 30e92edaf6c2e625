-- ===== src/Examples/Verification.antt =====
-- The verification of hathor/transaction/transaction.py and base_transaction.py on a transaction that
-- spends a block's reward.
use khathor.Script.Opcode
use khathor.Script.Pattern.{with_timelock, pushed, sized, multisig_body, match_multisig}
use khathor.Script.Eval.{
  evaluate_final_stack, final_stack_of, script_eval, execute_eval, eval_loop, step,
}
use khathor.Prelude.{
  [], ◌∷◌, refl, some, true, if◌then◌else◌, ℕ, ◌/◌, ◌+◌, ◌≡◌, ◌↔◌, arith, List, map, ◌++◌, All,
  length, ◌≤◌, ◌<◌,
}
use khathor.Errors.{ok}
use khathor.Tx.Verify.{
  Network, verify_parents, set_size, elem, parents_loop, parent_round, except_missing, check_parent,
  tx_parent, before, is_genesis, has_hash, verify_pow, verify_number_of_inputs,
  verify_number_of_outputs, is_block, verify_block, verify_block_without_storage, verify_no_inputs,
  verify_block_outputs, without_tokens, verify_data, block_parent, too_far, min_loop,
}
use khathor.Tx.Base.{Tx, block}
use khathor.Tx.Output.{
  TxOutput, get_token_index, can_mint_token, is_token_authority, can_melt_token,
}
use khathor.Bytes.{Bytes, bytes_eq, index, from_be}
use khathor.Inputs.{
  ChainView, verify_inputs, best_height, verify_without_storage, verify_transaction, outpoint,
}
use khathor.Tx.Tokens.{
  Storage, get_transaction, verify_sum, get_token_info_from_inputs, spent_output, get_spent_tx,
  get_token_uid, verify_outputs, outputs_valid, update_token_info_from_outputs, outputs_loop,
  create_output, get_info, spend_output, set_info, created_info, check_authorities_and_deposit,
  check_token, info_of, spent_info, tokens_loop, inputs_loop,
}
use khathor.Examples.{spent_tx, spending_tx, some_tx_id, demo, input_of}
use khathor.Inputs.Round.{IsSpendable}
use khathor.Tx.Tokens.Sum.{has_mint, output_amount, input_amount}
use khathor.Tx.Verify.Sets.{NoRepeat}
use khathor.Inputs.Laws.{verify_inputs_iff}
use khathor.Script.Machine.{op_integer}
use khathor.Tx.Verify.ParentRound.{IsBlockParent, IsTxParent}
use khathor.Tx.Verify.Parents.{verify_parents_iff}
use khathor.Inputs.Whole.{verified_mints_nothing}
use khathor.Prelude.Int.{◌+ℤ◌, ◌-ℤ◌}
use khathor.Consensus.{spenders_at, Ledger, mark_inputs_as_used}
use khathor.Consensus.Total.{IsClosed, verified_inputs_marked}
use khathor.Examples.Conflicts.{fresh_metadata}
use khathor.Inputs.Bounds.{IsValidOutput, verify_without_storage_bounds}
use khathor.Tx.Verify.Blocks.{IsValidBlock, verified_block}

abbrev network : Network
network = record {
  genesis = [];
  max_distance_between_blocks = 4500;
  max_num_inputs = 255;
  max_num_outputs = 255;
  block_data_max_size = 100;
  reward_spend_min_blocks = 300;
  get_target = λ weight. ok 1000;
  token_settings = record {
    hathor_token_uid = 0 ∷ [];
    get_deposit_amount = λ n. n / 100 + 1;
    get_withdraw_amount = λ n. n / 100;
  };
}

-- An output that its script accepts whatever the input's data are: the constant 1.
abbrev open_output : TxOutput
open_output = record { value = 5; script = Opcode.op_1 ∷ []; token_data = 0 }

abbrev reward : Tx
reward = record (spent_tx open_output) { kind = block; hash = some some_tx_id; nonce = 0 }

abbrev parent : Bytes → ℕ → Tx
parent h timestamp = record (spent_tx open_output) { hash = some h; timestamp = timestamp }

abbrev payment : Tx
payment = record spending_tx { hash = some (9 ∷ []); parents = (1 ∷ []) ∷ (2 ∷ []) ∷ [] }

abbrev stored : Storage
stored h =
    if bytes_eq h (1 ∷ [])
    then some (parent (1 ∷ []) 70)
    else if bytes_eq h (2 ∷ [])
    then some (parent (2 ∷ []) 80)
    else if bytes_eq h (3 ∷ [])
    then some (record reward { nonce = 400; timestamp = 70000 })
    else some reward

abbrev view : ChainView
view = record { storage = stored; best_block_tips = λ t. (3 ∷ []) ∷ []; height = λ tx. tx.nonce }

payment-parents : verify_parents network stored payment ≡ ok tt
unfolding verify_parents set_size elem parents_loop parent_round except_missing get_transaction
    check_parent tx_parent before bytes_eq
payment-parents = refl

payment-script : script_eval demo 9 payment (input_of []) reward ≡ some (ok tt)
unfolding script_eval index execute_eval eval_loop step match_multisig op_integer
    evaluate_final_stack final_stack_of multisig_body with_timelock pushed sized
payment-script = refl

payment-IsSpendable : IsSpendable demo network view payment 9 (input_of [])
unfolding best_height get_transaction bytes_eq
payment-IsSpendable = record {
  spent = reward;
  stored = refl;
  hashed = refl;
  in_range = omega arith;
  older = omega arith;
  mature = λ _. record { best = 400; measured = refl; old_enough = omega arith };
  unlocked = payment-script;
}

payment-inputs : verify_inputs demo network view payment 9 ≡ some (ok tt)
payment-inputs =
    (verify_inputs_iff demo network view payment 9).1 ((tt, tt), (payment-IsSpendable, tt))

payment-sum : verify_sum network.token_settings stored payment ≡ ok tt
unfolding verify_sum get_token_info_from_inputs inputs_loop spent_output get_spent_tx
    get_transaction index get_token_uid get_token_index update_token_info_from_outputs outputs_loop
    create_output get_info spend_output set_info bytes_eq created_info can_mint_token can_melt_token
    is_token_authority ◌+ℤ◌ ◌-ℤ◌ check_authorities_and_deposit check_token info_of spent_info
    tokens_loop
payment-sum = refl

payment-alone : verify_without_storage demo network view payment ≡ ok tt
unfolding verify_without_storage verify_pow verify_number_of_inputs verify_number_of_outputs
    verify_outputs outputs_valid from_be is_genesis elem get_token_index is_token_authority
payment-alone = refl

payment-verify : verify_transaction demo network view payment 9 ≡ some (ok tt)
unfolding verify_transaction is_genesis elem
payment-verify = rw payment-alone (rw payment-inputs (rw payment-parents (rw payment-sum refl)))

verified_mints_nothing_example :
    NoRepeat (map outpoint payment.inputs)
    × All (IsSpendable demo network view payment 9) payment.inputs
    × (output_amount network.token_settings stored (7 ∷ []) payment payment.outputs
        ≤ input_amount network.token_settings stored (7 ∷ []) payment.inputs)
unfolding is_genesis elem has_mint spent_output get_spent_tx get_transaction index get_token_uid
    get_token_index bytes_eq can_mint_token is_token_authority
verified_mints_nothing_example =
    verified_mints_nothing demo network view payment 9 (7 ∷ []) refl payment-verify
      (λ e. ground arith) refl

verify_inputs_iff_example : (verify_inputs demo network view payment 9 ≡ some (ok tt)) ↔ (
    NoRepeat (map outpoint payment.inputs)
    × All (IsSpendable demo network view payment 9) payment.inputs)
verify_inputs_iff_example = verify_inputs_iff demo network view payment 9

verify_parents_iff_example : (verify_parents network stored payment ≡ ok tt) ↔ (
    (has_hash payment ≡ true)
    × NoRepeat payment.parents
    × (bs : List Bytes) × (ts : List Bytes) × (payment.parents ≡ bs ++ ts)
    × All (IsBlockParent network stored payment) bs
    × All (IsTxParent network stored payment) ts
    × (length bs ≡ (if is_block payment then 1 else 0))
    × (length ts ≡ 2))
verify_parents_iff_example = verify_parents_iff network stored payment

abbrev ledger : Ledger
ledger = record { storage = stored; metadata = λ h. fresh_metadata }

ledger-IsClosed : IsClosed ledger
unfolding elem spenders_at
ledger-IsClosed t i x e = cc

verified_inputs_marked_example : (s' : Ledger) × (mark_inputs_as_used payment ledger ≡ ok s')
unfolding elem spenders_at bytes_eq
verified_inputs_marked_example =
    verified_inputs_marked demo network view payment 9 (9 ∷ []) ledger payment-inputs refl refl
      (reward, refl) ledger-IsClosed (refl, tt)

verify_without_storage_bounds_example :
    (h : Bytes) × (target : ℕ) × (payment.hash ≡ some h)
    × (network.get_target payment.weight ≡ ok target)
    × (from_be 0 h < target)
    × (0 < length payment.inputs)
    × (length payment.inputs ≤ network.max_num_inputs)
    × (length payment.outputs ≤ network.max_num_outputs)
    × All (IsValidOutput payment) payment.outputs
unfolding is_genesis elem
verify_without_storage_bounds_example =
    verify_without_storage_bounds demo network view payment refl payment-alone

abbrev mined : Tx
mined = record (spent_tx open_output) {
  kind = block;
  hash = some (9 ∷ []);
  timestamp = 70100;
  parents = (3 ∷ []) ∷ (1 ∷ []) ∷ (2 ∷ []) ∷ [];
}

mined-verify : verify_block network mined stored ≡ ok tt
unfolding verify_block is_genesis elem verify_block_without_storage verify_pow from_be
    verify_no_inputs verify_block_outputs verify_number_of_outputs without_tokens get_token_index
    verify_data verify_parents set_size parents_loop parent_round except_missing get_transaction
    check_parent tx_parent block_parent too_far min_loop before bytes_eq
mined-verify = refl

verified_block_example :
    (h : Bytes) × (target : ℕ) × (mined.hash ≡ some h)
    × (network.get_target mined.weight ≡ ok target)
    × (from_be 0 h < target)
    × IsValidBlock network mined
    × NoRepeat mined.parents
    × (b : Bytes) × (t : Bytes) × (u : Bytes) × (mined.parents ≡ b ∷ t ∷ u ∷ [])
    × IsBlockParent network stored mined b
    × IsTxParent network stored mined t
    × IsTxParent network stored mined u
unfolding is_genesis elem
verified_block_example = verified_block network mined stored refl refl mined-verify
