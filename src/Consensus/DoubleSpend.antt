-- ===== src/Consensus/DoubleSpend.antt =====
-- `is_double_spending` of hathor/transaction/transaction.py and `get_output_spent_by` of
-- hathor/transaction/transaction_metadata.py.
use khathor.Prelude.{
  [], ◌∷◌, refl, none, some, false, inl, inr, Option, List, ◌≡◌, if◌then◌else◌, ◌↔◌, All, arith,
  ◌++◌, Bool-cases, Bool, ℕ, ◌⊎◌, true, Option-cases, true_ne_false, ◌∙◌, ap, sym,
}
use khathor.Errors.{ok, err, >>=-eq-ok, Result, assertion_error, ◌>>=◌, ok-injective}
use khathor.Tx.Tokens.{get_transaction}
use khathor.Consensus.{
  Ledger, spent_by_loop, is_voided, get_output_spent_by, double_spending_loop, is_double_spending,
  is_other, spent_by_of,
}
use khathor.Bytes.{Bytes}
use khathor.Tx.Base.{Tx}
use khathor.Consensus.Total.{IsStored}
use khathor.Tx.Input.{TxInput}
use khathor.Bytes.Laws.{bytes_eq_refl, bytes_eq_iff}

-- The spenders that are not voided.
abbrev pub executed : Ledger → List Bytes → List Bytes
executed s [] = []
executed s (h ∷ hashes) = if is_voided s h then executed s hashes else h ∷ executed s hashes

abbrev pub as_list : Option Bytes → List Bytes
as_list none = []
as_list (some h) = h ∷ []

found_iff :
    (s : Ledger) (h : Bytes) (t : Tx)
    → (get_transaction s.storage h ≡ ok t) ↔ (s.storage h ≡ some t)
unfolding get_transaction
found_iff s h t = ground arith

-- A spender that is not voided is the only one so far.
executed_step :
    (s : Ledger) (h : Bytes) (hs : List Bytes) (acc r : Option Bytes)
    → ((if false then ok acc else elim acc as (λ _. Result (Option Bytes)) [
      | none ↦ ok (some h)
      | some _ ↦ err assertion_error
    ])
        >>= spent_by_loop s hs)
      ≡ ok r
    → (acc ≡ none) × (spent_by_loop s hs (some h) ≡ ok r)
executed_step s h hs none r e = (refl, e)
executed_step s h hs (some x) r e = cc

single :
    (acc : Option Bytes) (h : Bytes) (l : List Bytes) (r : Option Bytes)
    → as_list acc ++ h ∷ l ≡ as_list r
    → acc ≡ none
single none h l r q = refl
single (some x) h l none q = ground arith
single (some x) h l (some y) q = ground arith

spent_by_loop_iff :
    (s : Ledger) (hs : List Bytes) (acc r : Option Bytes)
    → (spent_by_loop s hs acc ≡ ok r)
      ↔ (All (IsStored s.storage) hs × (as_list acc ++ executed s hs ≡ as_list r))
unfolding spent_by_loop
spent_by_loop_iff s [] none none = ground arith
spent_by_loop_iff s [] none (some y) = ground arith
spent_by_loop_iff s [] (some x) none = ground arith
spent_by_loop_iff s [] (some x) (some y) = ground arith
spent_by_loop_iff s (h ∷ hs) acc r = (
  λ e.
      let (t, g, e₁) = >>=-eq-ok (get_transaction s.storage h) _ e in
      let st = (found_iff s h t).0 g in
      elim (Bool-cases (is_voided s h)) [
        | inl b ↦
            let (a, q) = (spent_by_loop_iff s hs acc r).0 (rw b at e₁) in (((t, st), a), rw b q)
        | inr b ↦
            let (o, k) = executed_step s h hs acc r (rw b at e₁) in
            let (a, q) = (spent_by_loop_iff s hs (some h) r).0 k in (((t, st), a), rw (o, b) q)
      ],
  λ (a, q). rw ((found_iff s h a.0.0).1 a.0.1) (elim (Bool-cases (is_voided s h)) [
    | inl b ↦ rw b ((spent_by_loop_iff s hs acc r).1 (a.1, rw b at q))
    | inr b ↦
        let o = single acc h (executed s hs) r (rw b at q) in
        rw (o, b) ((spent_by_loop_iff s hs (some h) r).1 (a.1, rw (o, b) at q))
  ]),
)

output_spent_by_iff :
    (s : Ledger) (h : Bytes) (i : ℕ) (r : Option Bytes)
    → (get_output_spent_by s h i ≡ ok r) ↔ (
        All (IsStored s.storage) (spent_by_of s h i) × (executed s (spent_by_of s h i) ≡ as_list r))
unfolding get_output_spent_by
output_spent_by_iff s h i r = spent_by_loop_iff s (spent_by_of s h i) none r

-- The output is spent by no executed transaction but the one itself.
pub record IsOwn (s : Ledger) (tx : Tx) (txin : TxInput) : Type 0 where
  pub source : IsStored s.storage txin.tx_id
  pub spenders : All (IsStored s.storage) (spent_by_of s txin.tx_id txin.index)
  pub own :
      (executed s (spent_by_of s txin.tx_id txin.index) ≡ [])
      ⊎ ((h : Bytes) × (executed s (spent_by_of s txin.tx_id txin.index) ≡ h ∷ [])
          × (tx.hash ≡ some h))

is_other_lem :
    (tx : Tx) (r : Option Bytes) (l : List Bytes)
    → l ≡ as_list r
    → is_other tx r ≡ false
    → (l ≡ []) ⊎ ((h : Bytes) × (l ≡ h ∷ []) × (tx.hash ≡ some h))
unfolding is_other
is_other_lem tx none l q e = inl q
is_other_lem tx (some h) l q e = elim (Option-cases tx.hash) [
  | inl n ↦ absurd (true_ne_false (rw n at e))
  | inr (own, o) ↦
      inr (h, q, o ∙ ap (λ x. some x) (sym ((bytes_eq_iff h own).0 (ground (arith, rw o at e)))))
]

is_other_own :
    (tx : Tx) (l : List Bytes)
    → (l ≡ []) ⊎ ((h : Bytes) × (l ≡ h ∷ []) × (tx.hash ≡ some h))
    → (r : Option Bytes) × (l ≡ as_list r) × (is_other tx r ≡ false)
unfolding is_other
is_other_own tx l (inl q) = (none, q, refl)
is_other_own tx l (inr (h, q, o)) = (some h, q, rw o (rw (bytes_eq_refl h) refl))

goes_on :
    (b : Bool) (rest : Result Bool)
    → (if b then ok true else rest) ≡ ok false
    → (b ≡ false) × (rest ≡ ok false)
goes_on true rest e = absurd (true_ne_false (ok-injective e))
goes_on false rest e = (refl, e)

double_spending_loop_iff :
    (s : Ledger) (tx : Tx) (txins : List TxInput)
    → (double_spending_loop s tx txins ≡ ok false) ↔ All (IsOwn s tx) txins
unfolding double_spending_loop
double_spending_loop_iff s tx [] = (λ _. tt, λ _. refl)
double_spending_loop_iff s tx (txin ∷ txins) = (
  λ e.
      let (t, g, e₁) = >>=-eq-ok (get_transaction s.storage txin.tx_id) _ e in
      let (r, e₂, e₃) = >>=-eq-ok (get_output_spent_by s txin.tx_id txin.index) _ e₁ in
      let (a, q) = (output_spent_by_iff s txin.tx_id txin.index r).0 e₂ in
      let (b, e₄) = goes_on (is_other tx r) (double_spending_loop s tx txins) e₃ in
      (
        record {
          source = (t, (found_iff s txin.tx_id t).0 g);
          spenders = a;
          own = is_other_lem tx r (executed s (spent_by_of s txin.tx_id txin.index)) q b;
        },
        (double_spending_loop_iff s tx txins).0 e₄,
      ),
  λ (own, rest).
      let (r, q, b) = is_other_own tx (executed s (spent_by_of s txin.tx_id txin.index)) own.own in
      rw ((found_iff s txin.tx_id own.source.0).1 own.source.1) (
        rw ((output_spent_by_iff s txin.tx_id txin.index r).1 (own.spenders, q))
          (rw b ((double_spending_loop_iff s tx txins).1 rest))),
)

-- `is_double_spending` is false exactly when every input's transaction is stored, and among the
-- spenders of the output, which are all stored too, none is executed or only the transaction itself.
pub is_double_spending_iff :
    (s : Ledger) (tx : Tx) → (is_double_spending s tx ≡ ok false) ↔ All (IsOwn s tx) tx.inputs
unfolding is_double_spending
is_double_spending_iff s tx = double_spending_loop_iff s tx tx.inputs
