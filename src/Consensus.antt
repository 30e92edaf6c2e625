-- ===== src/Consensus.antt =====
-- The metadata of hathor/transaction/transaction_metadata.py, the part of hathor/consensus.py that
-- marks the inputs of a transaction as used, and `is_double_spending` of
-- hathor/transaction/transaction.py. The objects of the storage are shared, so a change of a metadata
-- object is a change of the ledger.
pub mod Steps
pub mod Conflicts
pub mod Total
pub mod DoubleSpend
use khathor.Prelude.{
  [], ◌∷◌, refl, none, some, true, false, ℕ, ◌++◌, List, if◌then◌else◌, Option, ◌==◌, not, Bool,
  length,
}
use khathor.Errors.{ok, err, Result, assertion_error, ◌>>=◌, ◌>>◌, guard}
use khathor.Bytes.{Bytes, bytes_eq}
use khathor.Tx.Base.{Tx}
use khathor.Tx.Tokens.{Storage, get_transaction}
use khathor.Tx.Input.{TxInput}
use khathor.Tx.Verify.{elem}

-- `None` and an empty list or set are one value here: the code tests them alike. `voided_by` is a set.
-- The weights are the bits of floats.
pub record TransactionMetadata : Type 0 where
  pub spent_outputs : List (ℕ × List Bytes)
  pub conflict_with : List Bytes
  pub voided_by : List Bytes
  pub received_by : List ℕ
  pub children : List Bytes
  pub twins : List Bytes
  pub accumulated_weight : ℕ
  pub score : ℕ
  pub first_block : Option Bytes
  pub height : ℕ

-- The transactions that are stored, and the metadata of each.
pub record Ledger : Type 0 where
  pub storage : Storage
  pub metadata : Bytes → TransactionMetadata

-- A change of the metadata of one transaction.
unfoldable pub modify : Bytes → (TransactionMetadata → TransactionMetadata) → Ledger → Ledger
modify h f ledger = record ledger {
  metadata = λ k. if bytes_eq k h then f (ledger.metadata k) else ledger.metadata k;
}

-- voided_by.add(h)
unfoldable pub add_hash : Bytes → List Bytes → List Bytes
add_hash h hashes = if elem h hashes then hashes else h ∷ hashes

-- spent_outputs[index], of a defaultdict
unfoldable pub spenders_at : ℕ → List (ℕ × List Bytes) → List Bytes
spenders_at index [] = []
spenders_at index ((i, hashes) ∷ spent_outputs) =
    if index == i then hashes else spenders_at index spent_outputs

-- spent_outputs[index].append(h)
unfoldable pub append_spender : ℕ → Bytes → List (ℕ × List Bytes) → List (ℕ × List Bytes)
append_spender index h [] = (index, h ∷ []) ∷ []
append_spender index h ((i, hashes) ∷ spent_outputs) =
    let rest = append_spender index h spent_outputs in
    if index == i then (i, hashes ++ h ∷ []) ∷ spent_outputs else (i, hashes) ∷ rest

-- chain(*spent_outputs.values())
unfoldable pub all_spenders : List (ℕ × List Bytes) → List Bytes
all_spenders [] = []
all_spenders ((i, hashes) ∷ spent_outputs) = hashes ++ all_spenders spent_outputs

abbrev pub spent_by_of : Ledger → Bytes → ℕ → List Bytes
spent_by_of ledger h index = spenders_at index (ledger.metadata h).spent_outputs

abbrev pub conflict_with_of : Ledger → Bytes → List Bytes
conflict_with_of ledger h = (ledger.metadata h).conflict_with

abbrev pub voided_by_of : Ledger → Bytes → List Bytes
voided_by_of ledger h = (ledger.metadata h).voided_by

-- `if spent_by:` the transaction voids itself and takes over the conflicts.
unfoldable pub void_itself : Bytes → List Bytes → TransactionMetadata → TransactionMetadata
void_itself h [] meta = meta
void_itself h (x ∷ spent_by) meta = record meta {
  voided_by = add_hash h meta.voided_by;
  conflict_with = meta.conflict_with ++ x ∷ spent_by;
}

unfoldable pub add_conflict : Bytes → TransactionMetadata → TransactionMetadata
add_conflict h meta = record meta { conflict_with = meta.conflict_with ++ h ∷ [] }

-- spent_by.append(tx.hash)
unfoldable pub add_spender : Bytes → ℕ → TransactionMetadata → TransactionMetadata
add_spender h index meta = record meta { spent_outputs = append_spender index h meta.spent_outputs }

-- for h in spent_by
unfoldable pub mark_conflicts : Bytes → List Bytes → Ledger → Result Ledger
mark_conflicts tx_hash [] ledger = ok ledger
mark_conflicts tx_hash (h ∷ spent_by) ledger = do
  conflict_tx ← get_transaction ledger.storage h
  mark_conflicts tx_hash spent_by (modify h (add_conflict tx_hash) ledger)

-- mark_input_as_used, of a transaction with this hash
unfoldable pub mark_used_by : Bytes → TxInput → Ledger → Result Ledger
mark_used_by h txin ledger = do
  spent_tx ← get_transaction ledger.storage txin.tx_id
  let spent_by = spent_by_of ledger txin.tx_id txin.index
  guard (not (elem h spent_by)) assertion_error
  ledger' ← mark_conflicts h spent_by (modify h (void_itself h spent_by) ledger)
  ok (modify txin.tx_id (add_spender h txin.index) ledger')

unfoldable pub mark_input_as_used : Tx → TxInput → Ledger → Result Ledger
mark_input_as_used tx txin ledger = elim tx.hash [
  | none ↦ err assertion_error
  | some h ↦ mark_used_by h txin ledger
]

unfoldable pub mark_inputs_loop : Tx → List TxInput → Ledger → Result Ledger
mark_inputs_loop tx [] ledger = ok ledger
mark_inputs_loop tx (txin ∷ inputs) ledger = do
  ledger' ← mark_input_as_used tx txin ledger
  mark_inputs_loop tx inputs ledger'

unfoldable pub mark_inputs_as_used : Tx → Ledger → Result Ledger
mark_inputs_as_used tx = mark_inputs_loop tx tx.inputs

-- `if tx2_meta.voided_by`
unfoldable pub is_voided : Ledger → Bytes → Bool
is_voided ledger h = not (length (voided_by_of ledger h) == 0)

-- The loop of get_output_spent_by; a stored transaction has the hash under which it is stored.
unfoldable pub spent_by_loop : Ledger → List Bytes → Option Bytes → Result (Option Bytes)
spent_by_loop ledger [] spent_by = ok spent_by
spent_by_loop ledger (h ∷ spent_set) spent_by = do
  tx2 ← get_transaction ledger.storage h
  spent_by' ←
      (if is_voided ledger h
        then ok spent_by
        else elim spent_by [ none ↦ ok (some h) | some _ ↦ err assertion_error ])
  spent_by_loop ledger spent_set spent_by'

unfoldable pub get_output_spent_by : Ledger → Bytes → ℕ → Result (Option Bytes)
get_output_spent_by ledger h index = spent_by_loop ledger (spent_by_of ledger h index) none

-- `spent_by and spent_by != self.hash`
unfoldable pub is_other : Tx → Option Bytes → Bool
is_other tx none = false
is_other tx (some h) = elim tx.hash [ none ↦ true | some own ↦ not (bytes_eq h own) ]

unfoldable pub double_spending_loop : Ledger → Tx → List TxInput → Result Bool
double_spending_loop ledger tx [] = ok false
double_spending_loop ledger tx (tx_in ∷ inputs) = do
  spent_tx ← get_transaction ledger.storage tx_in.tx_id
  spent_by ← get_output_spent_by ledger tx_in.tx_id tx_in.index
  if is_other tx spent_by then ok true else double_spending_loop ledger tx inputs

unfoldable pub is_double_spending : Ledger → Tx → Result Bool
is_double_spending ledger tx = double_spending_loop ledger tx tx.inputs
