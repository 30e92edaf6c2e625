-- ===== src/Consensus/Total.antt =====
-- `mark_inputs_as_used` of hathor/consensus.py does not fail on a new transaction.
use khathor.Prelude.{
  [], ◌∷◌, refl, some, true, false, ℕ, List, ◌≡◌, All, arith, subst, ◌≢◌, sym, map, inl, ap, ◌∙◌,
  inr, ap₂, All-both, All_unit,
}
use khathor.Errors.{ok}
use khathor.Tx.Tokens.{get_transaction, Storage}
use khathor.Bytes.{Bytes}
use khathor.Consensus.{
  mark_conflicts, Ledger, mark_used_by, modify, spent_by_of, void_itself, add_conflict, add_spender,
  mark_inputs_as_used, mark_inputs_loop, mark_input_as_used,
}
use khathor.Tx.Input.{TxInput}
use khathor.Tx.Base.{Tx}
use khathor.Tx.Verify.{elem, Network}
use khathor.Consensus.Steps.{elem_refl, elem_more, Used, mark_used_by-Used}
use khathor.Tx.Verify.Sets.{Absent, NoRepeat}
use khathor.Crypto.{Platform}
use khathor.Inputs.{outpoint, ChainView, verify_inputs}
use khathor.Inputs.Laws.{verify_inputs_iff}
use khathor.Consensus.Conflicts.{elem_joined}
use khathor.Inputs.Round.{IsSpendable}

abbrev pub IsStored : Storage → Bytes → Type 0
IsStored storage h = (t : Tx) × (storage h ≡ some t)

-- Every transaction that spends an output is stored.
abbrev pub IsClosed : Ledger → Type 0
IsClosed s =
    (t : Bytes) (i : ℕ) (x : Bytes) → elem x (spent_by_of s t i) ≡ true → IsStored s.storage x

-- The transaction does not spend the output yet.
abbrev pub IsNew : Bytes → Ledger → TxInput → Type 0
IsNew h s txin = elem h (spent_by_of s txin.tx_id txin.index) ≡ false

found :
    (storage : Storage) (h : Bytes)
    → IsStored storage h
    → (t : Tx) × (get_transaction storage h ≡ ok t)
unfolding get_transaction
found storage h (t, e) = (t, ground arith)

mark_conflicts-total :
    (h : Bytes) (xs : List Bytes) (s : Ledger)
    → ((x : Bytes) → elem x xs ≡ true → IsStored s.storage x)
    → (s' : Ledger) × (mark_conflicts h xs s ≡ ok s')
unfolding mark_conflicts modify
mark_conflicts-total h [] s f = (s, refl)
mark_conflicts-total h (x ∷ xs) s f =
    let (t, e) = found s.storage x (f x (elem_refl x xs)) in
    let (s', q) =
      mark_conflicts-total h xs (modify x (add_conflict h) s) (λ k m. f k (elem_more k x xs m)) in
    (s', rw e q)

mark_used_by-total :
    (h : Bytes) (txin : TxInput) (s : Ledger)
    → IsClosed s
    → IsStored s.storage txin.tx_id
    → IsNew h s txin
    → (s' : Ledger) × (mark_used_by h txin s ≡ ok s')
unfolding mark_used_by modify
mark_used_by-total h txin s c st n =
    let l = spent_by_of s txin.tx_id txin.index in
    let (t, e) = found s.storage txin.tx_id st in
    let (s₂, q) =
      mark_conflicts-total h l (modify h (void_itself h l) s) (c txin.tx_id txin.index) in
    (modify txin.tx_id (add_spender h txin.index) s₂, rw e (rw n (rw q refl)))

-- Another output than the one of the step is as new as before.
step-IsNew :
    (h : Bytes) (txin other : TxInput) (s s' : Ledger)
    → Used h txin.tx_id txin.index (spent_by_of s txin.tx_id txin.index) s s'
    → outpoint txin ≢ outpoint other
    → IsNew h s other
    → IsNew h s' other
step-IsNew h txin other s s' u ne n = elim (u.spenders other.tx_id other.index) [
  | inl q ↦ ap (elem h) q ∙ n
  | inr (p, r, _) ↦ absurd (ne (ap₂ (λ a b. (a, b)) (sym p) (sym r)))
]

steps-IsNew :
    (h : Bytes) (txin : TxInput) (others : List TxInput) (s s' : Ledger)
    → Used h txin.tx_id txin.index (spent_by_of s txin.tx_id txin.index) s s'
    → Absent (outpoint txin) (map outpoint others)
    → All (IsNew h s) others
    → All (IsNew h s') others
steps-IsNew h txin [] s s' u ne n = tt
steps-IsNew h txin (o ∷ others) s s' u ne n =
    (step-IsNew h txin o s s' u ne.0 n.0, steps-IsNew h txin others s s' u ne.1 n.1)

step-IsClosed :
    (h t : Bytes) (i : ℕ) (s s' : Ledger)
    → Used h t i (spent_by_of s t i) s s'
    → IsStored s.storage h
    → IsClosed s
    → IsClosed s'
step-IsClosed h t i s s' u own c k j x e =
    subst (λ storage. IsStored storage x) (sym u.stored)
      (elim (u.spenders k j) [
        | inl q ↦ c k j x (ap (elem x) (sym q) ∙ e)
        | inr (_, _, q) ↦ elim (elem_joined x h (spent_by_of s t i) (ap (elem x) (sym q) ∙ e)) [
          | inl m ↦ c t i x m
          | inr p ↦ subst (IsStored s.storage) (sym p) own
        ]
      ])

All-IsStored :
    (s s' : Ledger) (txins : List TxInput)
    → s'.storage ≡ s.storage
    → All (λ i. IsStored s.storage i.tx_id) txins
    → All (λ i. IsStored s'.storage i.tx_id) txins
All-IsStored s s' txins q a = subst (λ storage. All (λ i. IsStored storage i.tx_id) txins) (sym q) a

loop-total :
    (tx : Tx) (h : Bytes) (txins : List TxInput) (s : Ledger)
    → tx.hash ≡ some h
    → IsStored s.storage h
    → IsClosed s
    → NoRepeat (map outpoint txins)
    → All (λ i. IsStored s.storage i.tx_id) txins
    → All (IsNew h s) txins
    → (s' : Ledger) × (mark_inputs_loop tx txins s ≡ ok s')
unfolding mark_inputs_loop mark_input_as_used
loop-total tx h [] s q own c d st n = (s, refl)
loop-total tx h (txin ∷ txins) s q own c d st n =
    let (s₁, e) = mark_used_by-total h txin s c st.0 n.0 in
    let u = mark_used_by-Used h txin s s₁ e in
    let (s', r) =
      loop-total tx h txins s₁ q (subst (λ x. IsStored x h) (sym u.stored) own)
        (step-IsClosed h txin.tx_id txin.index s s₁ u own c) d.1
        (All-IsStored s s₁ txins u.stored st.1) (steps-IsNew h txin txins s s₁ u d.0 n.1) in
    (s', rw q (rw e r))

-- The inputs of a stored transaction that `verify_inputs` accepts, and that spends nothing in the
-- ledger yet, are marked without an error, when every transaction that spends something there is
-- stored.
pub verified_inputs_marked :
    (p : Platform) (n : Network) (view : ChainView) (tx : Tx) (fuel : ℕ) (h : Bytes) (s : Ledger)
    → verify_inputs p n view tx fuel ≡ some (ok tt)
    → view.storage ≡ s.storage
    → tx.hash ≡ some h
    → IsStored s.storage h
    → IsClosed s
    → All (IsNew h s) tx.inputs
    → (s' : Ledger) × (mark_inputs_as_used tx s ≡ ok s')
unfolding mark_inputs_as_used
verified_inputs_marked p n view tx fuel h s e same q own c new =
    let (distinct, spendable) = (verify_inputs_iff p n view tx fuel).0 e in
    loop-total tx h tx.inputs s q own c distinct
      (subst (λ x. All (λ i. IsStored x i.tx_id) tx.inputs) same
        (All-both (IsSpendable p n view tx fuel) (λ i. Unit {0})
          (λ i. IsStored view.storage i.tx_id) tx.inputs (λ i a _. (a.spent, a.stored)) spendable
          (All_unit tx.inputs)))
      new
