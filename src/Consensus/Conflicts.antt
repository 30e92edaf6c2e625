-- ===== src/Consensus/Conflicts.antt =====
-- `mark_inputs_as_used` of hathor/consensus.py.
use khathor.Prelude.{
  [], ◌∷◌, some, true, inl, inr, ℕ, List, ◌≡◌, ◌++◌, ap, All, ◌⊎◌, sym, ◌≢◌, ◌∙◌, arith, subst,
}
use khathor.Errors.{ok, ok-injective, >>=-eq-ok}
use khathor.Consensus.{
  mark_inputs_as_used, Ledger, mark_inputs_loop, mark_input_as_used, spent_by_of, conflict_with_of,
  voided_by_of,
}
use khathor.Bytes.{Bytes}
use khathor.Tx.Verify.{elem}
use khathor.Tx.Base.{Tx}
use khathor.Tx.Input.{TxInput}
use khathor.Consensus.Steps.{Used, mark_used_by-Used, elem-append, elem_refl}
use khathor.Bytes.Laws.{bytes_eq_iff}

-- Any two transactions that spend the same output have each other among their conflicts.
pub record IsConflictClosed (ledger : Ledger) : Type 0 where
  pub recorded :
      (t : Bytes) (i : ℕ) (a b : Bytes)
      → elem a (spent_by_of ledger t i) ≡ true
      → elem b (spent_by_of ledger t i) ≡ true
      → a ≢ b
      → elem b (conflict_with_of ledger a) ≡ true

pub elem_joined :
    (a h : Bytes) (l : List Bytes) → elem a (l ++ h ∷ []) ≡ true → (elem a l ≡ true) ⊎ (a ≡ h)
unfolding elem
elem_joined a h l e = ground (arith, elem-append a l (h ∷ []), bytes_eq_iff a h)

-- One step keeps the conflicts recorded.
Used-IsConflictClosed :
    (h t : Bytes) (i : ℕ) (s s' : Ledger)
    → IsConflictClosed s
    → Used h t i (spent_by_of s t i) s s'
    → IsConflictClosed s'
Used-IsConflictClosed h t i s s' c u = record {
  recorded = λ k j a b ea eb ne. elim (u.spenders k j) [
    | inl q ↦
        u.kept a b (c.recorded k j a b (ap (elem a) (sym q) ∙ ea) (ap (elem b) (sym q) ∙ eb) ne)
    | inr (_, _, q) ↦ elim (elem_joined a h (spent_by_of s t i) (ap (elem a) (sym q) ∙ ea)) [
      | inl p ↦ elim (elem_joined b h (spent_by_of s t i) (ap (elem b) (sym q) ∙ eb)) [
        | inl r ↦ u.kept a b (c.recorded t i a b p r ne)
        | inr r ↦ subst (λ x. elem x (conflict_with_of s' a) ≡ true) (sym r) (u.theirs a p)
      ]
      | inr p ↦ elim (elem_joined b h (spent_by_of s t i) (ap (elem b) (sym q) ∙ eb)) [
        | inl r ↦ subst (λ x. elem b (conflict_with_of s' x) ≡ true) (sym p) (u.mine b r)
        | inr r ↦ absurd (ne (p ∙ sym r))
      ]
    ]
  ];
}

-- The transaction is among the spenders, and it is voided by itself where another is too.
pub record IsMarked (h : Bytes) (s : Ledger) (txin : TxInput) : Type 0 where
  pub spender : elem h (spent_by_of s txin.tx_id txin.index) ≡ true
  pub voided :
      (x : Bytes)
      → elem x (spent_by_of s txin.tx_id txin.index) ≡ true
      → x ≢ h
      → elem h (voided_by_of s h) ≡ true

joined-elem : (h : Bytes) (l : List Bytes) → elem h (l ++ h ∷ []) ≡ true
joined-elem h l = ground (arith, elem-append h l (h ∷ []), elem_refl h [])

module _ (h t : Bytes) (i : ℕ) (s s' : Ledger) (u : Used h t i (spent_by_of s t i) s s') where
  -- Another spender of an output that the step changed.
  voided_by_step :
      (l : List Bytes) (x : Bytes)
      → l ≡ spent_by_of s t i ++ h ∷ []
      → elem x l ≡ true
      → x ≢ h
      → elem h (voided_by_of s' h) ≡ true
  voided_by_step l x q e ne = elim (elem_joined x h (spent_by_of s t i) (ap (elem x) (sym q) ∙ e)) [
    | inl p ↦ u.voided x p
    | inr p ↦ absurd (ne p)
  ]

  Used-IsMarked : (txin : TxInput) → IsMarked h s txin → IsMarked h s' txin
  Used-IsMarked txin m = record {
    spender = u.others txin.tx_id txin.index h m.spender;
    voided = λ x e ne. elim (u.spenders txin.tx_id txin.index) [
      | inl q ↦ u.still_voided h h (m.voided x (ap (elem x) (sym q) ∙ e) ne)
      | inr (_, _, q) ↦ voided_by_step (spent_by_of s' txin.tx_id txin.index) x q e ne
    ];
  }

  All-Used-IsMarked : (txins : List TxInput) → All (IsMarked h s) txins → All (IsMarked h s') txins
  All-Used-IsMarked [] m = tt
  All-Used-IsMarked (txin ∷ txins) m = (Used-IsMarked txin m.0, All-Used-IsMarked txins m.1)

mark_input_as_used-Used :
    (tx : Tx) (h : Bytes) (txin : TxInput) (s s' : Ledger)
    → tx.hash ≡ some h
    → mark_input_as_used tx txin s ≡ ok s'
    → Used h txin.tx_id txin.index (spent_by_of s txin.tx_id txin.index) s s'
unfolding mark_input_as_used
mark_input_as_used-Used tx h txin s s' q e = mark_used_by-Used h txin s s' (rw q at e)

mark_input_as_used-IsMarked :
    (tx : Tx) (h : Bytes) (txin : TxInput) (s s' : Ledger)
    → tx.hash ≡ some h
    → mark_input_as_used tx txin s ≡ ok s'
    → IsMarked h s' txin
mark_input_as_used-IsMarked tx h txin s s' q e =
    let u = mark_input_as_used-Used tx h txin s s' q e in
    record {
      spender = ap (elem h) u.spender ∙ joined-elem h (spent_by_of s txin.tx_id txin.index);
      voided = λ x e' ne.
          voided_by_step h txin.tx_id txin.index s s' u (spent_by_of s' txin.tx_id txin.index) x
            u.spender e' ne;
    }

mark_inputs_loop-IsMarked :
    (tx : Tx) (h : Bytes) (done txins : List TxInput) (s s' : Ledger)
    → tx.hash ≡ some h
    → IsConflictClosed s
    → All (IsMarked h s) done
    → mark_inputs_loop tx txins s ≡ ok s'
    → IsConflictClosed s' × All (IsMarked h s') done × All (IsMarked h s') txins
unfolding mark_inputs_loop
mark_inputs_loop-IsMarked tx h done [] s s' q c m e =
    let r = ok-injective e in
    (subst IsConflictClosed r c, subst (λ l. All (IsMarked h l) done) r m, tt)
mark_inputs_loop-IsMarked tx h done (txin ∷ txins) s s' q c m e =
    let (next, e₁, e₂) = >>=-eq-ok (mark_input_as_used tx txin s) _ e in
    let u = mark_input_as_used-Used tx h txin s next q e₁ in
    let (c', m', m'') =
      mark_inputs_loop-IsMarked tx h (txin ∷ done) txins next s' q
        (Used-IsConflictClosed h txin.tx_id txin.index s next c u)
        (
          mark_input_as_used-IsMarked tx h txin s next q e₁,
          All-Used-IsMarked h txin.tx_id txin.index s next u done m,
        )
        e₂ in
    (c', m'.1, (m'.0, m''))

-- Marking the inputs of a transaction keeps every conflict recorded on both sides. Afterwards the
-- transaction is among the spenders of each of its inputs, and where another transaction is too, it
-- is voided by itself.
pub mark_inputs-IsConflictClosed :
    (tx : Tx) (h : Bytes) (s s' : Ledger)
    → tx.hash ≡ some h
    → IsConflictClosed s
    → mark_inputs_as_used tx s ≡ ok s'
    → IsConflictClosed s' × All (IsMarked h s') tx.inputs
unfolding mark_inputs_as_used
mark_inputs-IsConflictClosed tx h s s' q c e =
    let (c', _, m) = mark_inputs_loop-IsMarked tx h [] tx.inputs s s' q c tt e in (c', m)
