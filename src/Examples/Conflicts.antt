-- ===== src/Examples/Conflicts.antt =====
-- The marking of hathor/consensus.py on a transaction that spends an output for the second time.
use khathor.Prelude.{
  [], ◌∷◌, refl, none, some, true, ◌≡◌, All, arith, if◌then◌else◌, inl, ◌∙◌, sym, inr, ap, ℕ, ◌⊎◌,
  false, ◌↔◌,
}
use khathor.Errors.{ok}
use khathor.Tx.Base.{Tx}
use khathor.Bytes.{Bytes, bytes_eq}
use khathor.Consensus.{
  TransactionMetadata, mark_inputs_as_used, Ledger, mark_inputs_loop, modify, mark_input_as_used,
  add_spender, mark_used_by, add_conflict, void_itself, mark_conflicts, spent_by_of, spenders_at,
  is_double_spending,
}
use khathor.Consensus.Conflicts.{IsConflictClosed, IsMarked, mark_inputs-IsConflictClosed}
use khathor.Tx.Verify.{elem}
use khathor.Examples.{spending_tx, spent_tx, output_of, some_tx_id}
use khathor.Bytes.Laws.{bytes_eq_iff}
use khathor.Tx.Tokens.{get_transaction}
use khathor.Consensus.DoubleSpend.{IsOwn, is_double_spending_iff}

abbrev pub fresh_metadata : TransactionMetadata
fresh_metadata = record {
  spent_outputs = [];
  conflict_with = [];
  voided_by = [];
  received_by = [];
  children = [];
  twins = [];
  accumulated_weight = 0;
  score = 0;
  first_block = none;
  height = 0;
}

abbrev first_spender : Bytes
first_spender = 1 ∷ []

abbrev second_spender : Tx
second_spender = record spending_tx { hash = some (9 ∷ []) }

abbrev ledger : Ledger
ledger = record {
  storage = λ h. some (spent_tx (output_of []));
  metadata = λ h.
      if bytes_eq h some_tx_id
      then record fresh_metadata { spent_outputs = (0, first_spender ∷ []) ∷ [] }
      else fresh_metadata;
}

only_member : (a b : Bytes) → elem a (b ∷ []) ≡ true → a ≡ b
unfolding elem
only_member a b e = ground (arith, bytes_eq_iff a b)

no_member : (a : Bytes) → elem a [] ≡ true → ⊥
unfolding elem
no_member a e = cc

ledger_spenders :
    (t : Bytes) (i : ℕ)
    → (spent_by_of ledger t i ≡ first_spender ∷ []) ⊎ (spent_by_of ledger t i ≡ [])
unfolding spenders_at
ledger_spenders t i = ground (arith, bytes_eq_iff t some_tx_id)

ledger-IsConflictClosed : IsConflictClosed ledger
ledger-IsConflictClosed = record {
  recorded = λ t i a b ea eb ne. elim (ledger_spenders t i) [
    | inl q ↦
        let pa = only_member a first_spender (ap (elem a) (sym q) ∙ ea) in
        absurd (ne (pa ∙ sym (only_member b first_spender (ap (elem b) (sym q) ∙ eb))))
    | inr q ↦ absurd (no_member a (ap (elem a) (sym q) ∙ ea))
  ];
}

abbrev marked : Ledger
marked = modify some_tx_id (add_spender (9 ∷ []) 0) (
    modify first_spender (add_conflict (9 ∷ []))
      (modify (9 ∷ []) (void_itself (9 ∷ []) (first_spender ∷ [])) ledger))

second_spender-marked : mark_inputs_as_used second_spender ledger ≡ ok marked
unfolding mark_inputs_as_used mark_inputs_loop mark_input_as_used mark_used_by get_transaction
    mark_conflicts bytes_eq elem modify spenders_at
second_spender-marked = refl

mark_inputs-IsConflictClosed_example :
    IsConflictClosed marked × All (IsMarked (9 ∷ []) marked) second_spender.inputs
mark_inputs-IsConflictClosed_example =
    mark_inputs-IsConflictClosed second_spender (9 ∷ []) ledger marked refl ledger-IsConflictClosed
      second_spender-marked

is_double_spending_iff_example :
    (is_double_spending marked second_spender ≡ ok false)
    ↔ All (IsOwn marked second_spender) second_spender.inputs
is_double_spending_iff_example = is_double_spending_iff marked second_spender
