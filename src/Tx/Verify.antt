-- ===== src/Tx/Verify.antt =====
-- The verification of transactions and blocks without their inputs and sums: `verify_parents`,
-- `verify_pow` and `verify_number_of_outputs` of hathor/transaction/base_transaction.py,
-- `verify_number_of_inputs` of hathor/transaction/transaction.py, and the verification of
-- hathor/transaction/block.py.
pub mod Sets
pub mod ParentRound
pub mod Parents
pub mod Blocks
use khathor.Prelude.{
  [], ◌∷◌, Option, ℕ, List, none, some, if◌then◌else◌, Bool, ◌&&◌, length, false, not, ltb, suc,
  ◌-◌, true, leb, ◌==◌, ◌||◌,
}
use khathor.Errors.{
  ok, err, Result, parent_does_not_exist, guard, ◌>>◌, ◌>>=◌, transaction_does_not_exist,
  assertion_error, too_many_outputs, too_many_inputs, transaction_data_error, duplicated_parents,
  block_with_inputs, block_with_tokens, incorrect_parents, timestamp_error, no_input_error,
  pow_error, Exn,
}
use khathor.Tx.Tokens.{Storage, TokenSettings, get_transaction}
use khathor.Tx.Base.{Tx, block, transaction}
use khathor.Bytes.{Bytes, bytes_eq, from_be}
use khathor.Tx.Output.{TxOutput, get_token_index}

-- What the code takes from the settings of the network: the hashes of the genesis transactions, the
-- limits, and `get_target`, which works with floating point numbers, on the bits of a weight.
pub record Network : Type 0 where
  pub genesis : List Bytes
  pub max_distance_between_blocks : ℕ
  pub max_num_inputs : ℕ
  pub max_num_outputs : ℕ
  pub block_data_max_size : ℕ
  pub reward_spend_min_blocks : ℕ
  pub get_target : ℕ → Result ℕ
  pub token_settings : TokenSettings

-- hash in hashes
unfoldable pub elem : Bytes → List Bytes → Bool
elem h [] = false
elem h (x ∷ xs) = bytes_eq h x || elem h xs

-- len(set(hashes))
unfoldable pub set_size : List Bytes → ℕ
set_size [] = 0
set_size (h ∷ hashes) = if elem h hashes then set_size hashes else suc (set_size hashes)

abbrev pub is_block : Tx → Bool
is_block tx = elim tx.kind [ block ↦ true | transaction ↦ false ]

-- tx.hash is not None
abbrev pub has_hash : Tx → Bool
has_hash tx = elim tx.hash [ none ↦ false | some h ↦ true ]

unfoldable pub is_genesis : Network → Tx → Bool
is_genesis n tx = elim tx.hash [ none ↦ false | some h ↦ elem h n.genesis ]

-- The three variables of the loop over the parents.
pub record ParentCount : Type 0 where
  pub txs : ℕ
  pub blocks : ℕ
  pub min_timestamp : Option ℕ

-- `except TransactionDoesNotExist: raise ParentDoesNotExist`
unfoldable pub missing_parent : Exn → Exn
missing_parent transaction_does_not_exist = parent_does_not_exist
missing_parent e = e

unfoldable pub except_missing : {A : Type 0} → Result A → Result A
except_missing (ok a) = ok a
except_missing (err e) = err (missing_parent e)

unfoldable pub min_of : Option ℕ → ℕ → Option ℕ
min_of none timestamp = some timestamp
min_of (some m) timestamp = some (if ltb timestamp m then timestamp else m)

-- for pi_hash in parent.parents: the code loads `parent_hash` in each round
unfoldable pub min_loop : Storage → Bytes → List Bytes → Option ℕ → Result (Option ℕ)
min_loop storage parent_hash [] min_timestamp = ok min_timestamp
min_loop storage parent_hash (pi_hash ∷ parents) min_timestamp = do
  pi ← get_transaction storage parent_hash
  min_loop storage parent_hash parents
      (if is_block pi then min_timestamp else min_of min_timestamp pi.timestamp)

-- `if min_timestamp and parent.timestamp < min_timestamp`: 0 is false too
unfoldable pub before : ℕ → Option ℕ → Bool
before timestamp none = false
before timestamp (some m) = ltb 0 m && ltb timestamp m

module _ (n : Network) (storage : Storage) (tx : Tx) where
  unfoldable pub too_far : Tx → Bool
  too_far parent =
      is_block tx
      && not (is_genesis n parent)
      && ltb n.max_distance_between_blocks (tx.timestamp - parent.timestamp)

  -- The two branches of the loop over the parents, and its round.
  unfoldable pub block_parent : Bytes → Tx → ParentCount → Result ParentCount
  block_parent parent_hash parent count = do
    guard (not (too_far parent)) timestamp_error
    guard (not (ltb 0 count.txs)) incorrect_parents
    min_timestamp ← min_loop storage parent_hash parent.parents count.min_timestamp
    ok (record { txs = count.txs; blocks = suc count.blocks; min_timestamp = min_timestamp })

  unfoldable pub tx_parent : Tx → ParentCount → Result ParentCount
  tx_parent parent count = do
    guard (not (before parent.timestamp count.min_timestamp)) timestamp_error
    ok (record count { txs = suc count.txs })

  unfoldable pub check_parent : Bytes → Tx → ParentCount → Result ParentCount
  check_parent parent_hash parent count = do
    guard (has_hash parent) assertion_error
    guard (not (leb tx.timestamp parent.timestamp)) timestamp_error
    elim parent.kind [
      | block ↦ block_parent parent_hash parent count
      | transaction ↦ tx_parent parent count
    ]

  unfoldable pub parent_round : Bytes → ParentCount → Result ParentCount
  parent_round parent_hash count =
      except_missing
        (do parent ← get_transaction storage parent_hash; check_parent parent_hash parent count)

  unfoldable pub parents_loop : List Bytes → ParentCount → Result ParentCount
  parents_loop [] count = ok count
  parents_loop (parent_hash ∷ parents) count = do
    count' ← parent_round parent_hash count
    parents_loop parents count'

  abbrev pub parents_blocks : ℕ
  parents_blocks = if is_block tx then 1 else 0

  abbrev pub parents_txs : ℕ
  parents_txs = 2

  unfoldable pub verify_parents : Result (Unit {0})
  verify_parents = do
    guard (has_hash tx) assertion_error
    guard (not (ltb (set_size tx.parents) (length tx.parents))) duplicated_parents
    count ← parents_loop tx.parents (record { txs = 0; blocks = 0; min_timestamp = none })
    guard (count.blocks == parents_blocks) incorrect_parents
    guard (count.txs == parents_txs) incorrect_parents

module _ (n : Network) (tx : Tx) where
  unfoldable pub verify_pow : Result (Unit {0})
  verify_pow = elim tx.hash [
    | none ↦ err assertion_error
    | some h ↦ (do
      minimum_target ← n.get_target tx.weight
      guard (not (leb minimum_target (from_be 0 h))) pow_error)
  ]

  unfoldable pub verify_number_of_outputs : Result (Unit {0})
  verify_number_of_outputs =
      guard (not (ltb n.max_num_outputs (length tx.outputs))) too_many_outputs

  unfoldable pub verify_number_of_inputs : Result (Unit {0})
  verify_number_of_inputs = do
    guard (not (ltb n.max_num_inputs (length tx.inputs))) too_many_inputs
    guard (not (length tx.inputs == 0) || is_genesis n tx) no_input_error

-- Block: verify_no_inputs, verify_outputs, verify_data, verify_without_storage and verify.
unfoldable pub verify_no_inputs : Tx → Result (Unit {0})
verify_no_inputs tx = guard (length tx.inputs == 0) block_with_inputs

unfoldable pub without_tokens : List TxOutput → Result (Unit {0})
without_tokens [] = ok tt
without_tokens (output ∷ outputs) = do
  guard (not (ltb 0 (get_token_index output))) block_with_tokens
  without_tokens outputs

module _ (n : Network) (tx : Tx) where
  unfoldable pub verify_block_outputs : Result (Unit {0})
  verify_block_outputs = do verify_number_of_outputs n tx; without_tokens tx.outputs

  unfoldable pub verify_data : Result (Unit {0})
  verify_data =
      guard (not (ltb n.block_data_max_size (length tx.block_data))) transaction_data_error

  unfoldable pub verify_block_without_storage : Result (Unit {0})
  verify_block_without_storage = do
    verify_pow n tx
    verify_no_inputs tx
    verify_block_outputs
    verify_data

  unfoldable pub verify_block : Storage → Result (Unit {0})
  verify_block storage =
      if is_genesis n tx
      then ok tt
      else do verify_block_without_storage; verify_parents n storage tx
