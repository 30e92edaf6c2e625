-- ===== src/Inputs.antt =====
-- The verification of a transaction's inputs and of the whole transaction: `verify_inputs`,
-- `verify_spent_reward`, `verify_script`, `verify_without_storage` and `verify` of
-- hathor/transaction/transaction.py. As for scripts, `none` is a script that is still running.
pub mod Keys
pub mod Round
pub mod Laws
pub mod Whole
pub mod Bounds
use khathor.Prelude.{
  [], ◌∷◌, refl, List, ℕ, if◌then◌else◌, Bool, false, ◌-◌, Option, some, suc, zero, ◌&&◌, not, ltb,
  leb, ◌==◌, ◌+◌, length, ◌||◌, none,
}
use khathor.Errors.{
  ok, err, Exn, Result, inexistent_input, transaction_does_not_exist, is_script_error,
  invalid_input_data, ◌>>◌, ◌>>=◌, guard, assertion_error, conflicting_inputs, timestamp_error,
  reward_locked,
}
use khathor.Crypto.{Platform}
use khathor.Bytes.{Bytes, bytes_eq}
use khathor.Tx.Tokens.{Storage, get_spent_tx, get_transaction, verify_sum, verify_outputs}
use khathor.Tx.Input.{TxInput}
use khathor.Tx.Verify.{
  Network, is_block, verify_pow, is_genesis, verify_parents, has_hash, verify_number_of_inputs,
  verify_number_of_outputs,
}
use khathor.Tx.Base.{Tx}
use khathor.Script.Eval.{Run, ◌>>>◌, script_eval}

-- What the code reads of the storage: the transactions, the heads of the best chains up to a
-- timestamp, and the height in the metadata.
pub record ChainView : Type 0 where
  pub storage : Storage
  pub best_block_tips : ℕ → List Bytes
  pub height : Tx → ℕ

-- The set `spent_outputs` and `_height_cache`, where 0 counts as unset.
pub record InputState : Type 0 where
  pub spent_outputs : List (Bytes × ℕ)
  pub height_cache : ℕ

abbrev pub outpoint : TxInput → Bytes × ℕ
outpoint txin = (txin.tx_id, txin.index)

-- key in spent_outputs
unfoldable pub elem_key : Bytes × ℕ → List (Bytes × ℕ) → Bool
elem_key key [] = false
elem_key key (k ∷ keys) = (bytes_eq key.0 k.0 && key.1 == k.1) || elem_key key keys

-- `except TransactionDoesNotExist: raise InexistentInput`
unfoldable pub missing_input : Exn → Exn
missing_input transaction_does_not_exist = inexistent_input
missing_input e = e

unfoldable pub except_inexistent : {A : Type 0} → Result A → Result A
except_inexistent (ok a) = ok a
except_inexistent (err e) = err (missing_input e)

-- `except ScriptError as e: raise InvalidInputData(e)`
unfoldable pub except_script : Result (Unit {0}) → Result (Unit {0})
except_script (ok a) = ok a
except_script (err e) = err (if is_script_error e then invalid_input_data else e)

unfoldable pub verify_script : Platform → ℕ → Tx → TxInput → Tx → Run (Unit {0})
verify_script p fuel tx input_tx spent_tx = elim (script_eval p fuel tx input_tx spent_tx) [
  | none ↦ none
  | some r ↦ some (except_script r)
]

module _ (p : Platform) (n : Network) (view : ChainView) (tx : Tx) where
  -- The height of the head of the best chain before the transaction.
  unfoldable pub best_height : Result ℕ
  best_height = elim (view.best_block_tips (tx.timestamp - 1)) [
    | [] ↦ err assertion_error
    | tip_hash ∷ tips ↦ (do
      tip ← get_transaction view.storage tip_hash
      guard (ltb tip.timestamp tx.timestamp) assertion_error
      ok (view.height tip))
  ]

  -- best_height - spent_height < REWARD_SPEND_MIN_BLOCKS, over the integers
  unfoldable pub check_reward : Tx → ℕ → Result ℕ
  check_reward spent_block best = do
    guard (not (ltb best (view.height spent_block + n.reward_spend_min_blocks))) reward_locked
    ok best

  -- The result is the cache.
  unfoldable pub verify_spent_reward : Tx → ℕ → Result ℕ
  verify_spent_reward spent_block zero = do best ← best_height; check_reward spent_block best
  verify_spent_reward spent_block (suc cached) = check_reward spent_block (suc cached)

  unfoldable pub existing_output : TxInput → Result Tx
  existing_output input_tx = except_inexistent (do
    spent_tx ← get_spent_tx view.storage input_tx
    guard (has_hash spent_tx) assertion_error
    guard (not (leb (length spent_tx.outputs) input_tx.index)) inexistent_input
    ok spent_tx)

  -- One round of the loop over the inputs: before the script, and behind it.
  unfoldable pub reward_cache : Tx → ℕ → Result ℕ
  reward_cache spent_tx cache =
      if is_block spent_tx then verify_spent_reward spent_tx cache else ok cache

  unfoldable pub check_input : TxInput → ℕ → Result (Tx × ℕ)
  check_input input_tx cache = do
    spent_tx ← existing_output input_tx
    guard (not (leb tx.timestamp spent_tx.timestamp)) timestamp_error
    cache' ← reward_cache spent_tx cache
    ok (spent_tx, cache')

  unfoldable pub add_key : TxInput → List (Bytes × ℕ) → ℕ → Result InputState
  add_key input_tx spent_outputs cache = do
    guard (not (elem_key (outpoint input_tx) spent_outputs)) conflicting_inputs
    ok (record { spent_outputs = outpoint input_tx ∷ spent_outputs; height_cache = cache })

  unfoldable pub input_round : ℕ → TxInput → InputState → Run InputState
  input_round fuel input_tx state = some (check_input input_tx state.height_cache) >>> λ checked.
      verify_script p fuel tx input_tx checked.0 >>> λ _.
      some (add_key input_tx state.spent_outputs checked.1)

  unfoldable pub verify_inputs_loop : ℕ → List TxInput → InputState → Run InputState
  verify_inputs_loop fuel [] state = some (ok state)
  verify_inputs_loop fuel (input_tx ∷ inputs) state =
      input_round fuel input_tx state >>> verify_inputs_loop fuel inputs

  unfoldable pub verify_inputs : ℕ → Run (Unit {0})
  verify_inputs fuel =
      verify_inputs_loop fuel tx.inputs (record { spent_outputs = []; height_cache = 0 }) >>> λ _.
      some (ok tt)

  unfoldable pub verify_without_storage : Result (Unit {0})
  verify_without_storage = do
    verify_pow n tx
    verify_number_of_inputs n tx
    verify_number_of_outputs n tx
    verify_outputs tx

  unfoldable pub verify_transaction : ℕ → Run (Unit {0})
  verify_transaction fuel =
      if is_genesis n tx
      then some (ok tt)
      else some verify_without_storage >>> λ _. verify_inputs fuel >>> λ _.
          some (do verify_parents n view.storage tx; verify_sum n.token_settings view.storage tx)
