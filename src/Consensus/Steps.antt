-- ===== src/Consensus/Steps.antt =====
-- What the steps of `mark_input_as_used` of hathor/consensus.py do to the metadata.
use khathor.Prelude.{
  [], ◌∷◌, refl, true, false, inl, inr, ◌≡◌, ℕ, List, arith, ◌++◌, ◌||◌, subst, ◌⊎◌, ◌∙◌, ap,
  Bool-cases, ap₂, not, if◌then◌else◌, ◌==◌, or_true,
}
use khathor.Errors.{ok, ok-injective, >>=-eq-ok, guard-ok, assertion_error}
use khathor.Consensus.{
  add_hash, mark_used_by, mark_conflicts, modify, void_itself, add_spender, add_conflict, Ledger,
  conflict_with_of, spent_by_of, voided_by_of, spenders_at, append_spender,
}
use khathor.Tx.Verify.{elem}
use khathor.Bytes.{Bytes, bytes_eq}
use khathor.Tx.Input.{TxInput}
use khathor.Bytes.Laws.{bytes_eq_refl, bytes_eq_iff}
use khathor.Tx.Tokens.{get_transaction}

pub elem-append : (x : Bytes) (xs ys : List Bytes) → elem x (xs ++ ys) ≡ (elem x xs || elem x ys)
unfolding elem
elem-append x [] ys = refl
elem-append x (y ∷ xs) ys = ground (arith, elem-append x xs ys)

pub elem_more : (k h : Bytes) (hs : List Bytes) → elem k hs ≡ true → elem k (h ∷ hs) ≡ true
unfolding elem
elem_more k h hs e = rw e (or_true (bytes_eq k h))

pub elem_refl : (x : Bytes) (xs : List Bytes) → elem x (x ∷ xs) ≡ true
unfolding elem
elem_refl x xs = rw (bytes_eq_refl x) refl

-- What the loop over the other spenders does to a ledger.
record Marked (h : Bytes) (spent_by : List Bytes) (s s' : Ledger) : Type 0 where
  stored : s'.storage ≡ s.storage
  spenders : (k : Bytes) (i : ℕ) → spent_by_of s' k i ≡ spent_by_of s k i
  voided : (k : Bytes) → voided_by_of s' k ≡ voided_by_of s k
  kept :
      (k x : Bytes) → elem x (conflict_with_of s k) ≡ true → elem x (conflict_with_of s' k) ≡ true
  added : (k : Bytes) → elem k spent_by ≡ true → elem h (conflict_with_of s' k) ≡ true

Marked-one : (h x : Bytes) (s : Ledger) → Marked h (x ∷ []) s (modify x (add_conflict h) s)
unfolding modify add_conflict elem
Marked-one h x s = record {
  stored = refl;
  spenders = λ k i. ground arith;
  voided = λ k. ground arith;
  kept = λ k y e. ground (arith, elem-append y (conflict_with_of s k) (h ∷ []));
  added = λ k e. ground (arith, elem-append h (conflict_with_of s k) (h ∷ []), elem_refl h []);
}

nothing_in : (k : Bytes) → elem k [] ≡ true → ⊥
unfolding elem
nothing_in k q = cc

one_of :
    (k x : Bytes) (xs : List Bytes)
    → elem k (x ∷ xs) ≡ true
    → elem k xs ≡ false
    → elem k (x ∷ []) ≡ true
unfolding elem
one_of k x xs q b = ground arith

mark_conflicts-Marked :
    (h : Bytes) (spent_by : List Bytes) (s s' : Ledger)
    → mark_conflicts h spent_by s ≡ ok s'
    → Marked h spent_by s s'
unfolding mark_conflicts
mark_conflicts-Marked h [] s s' e = subst (Marked h [] s) (ok-injective e) (record {
  stored = refl;
  spenders = λ k i. refl;
  voided = λ k. refl;
  kept = λ k x q. q;
  added = λ k q. absurd (nothing_in k q);
})
mark_conflicts-Marked h (x ∷ spent_by) s s' e =
    let (t, _, e') = >>=-eq-ok (get_transaction s.storage x) _ e in
    let one = Marked-one h x s in
    let r = mark_conflicts-Marked h spent_by (modify x (add_conflict h) s) s' e' in
    record {
      stored = r.stored ∙ one.stored;
      spenders = λ k i. r.spenders k i ∙ one.spenders k i;
      voided = λ k. r.voided k ∙ one.voided k;
      kept = λ k y q. r.kept k y (one.kept k y q);
      added = λ k q. elim (Bool-cases (elem k spent_by)) [
        | inl b ↦ r.added k b
        | inr b ↦ r.kept k h (one.added k (one_of k x spent_by q b))
      ];
    }

-- What marking one input as used does, where `spent_by` spent the output before.
pub record Used (h t : Bytes) (i : ℕ) (spent_by : List Bytes) (s s' : Ledger) : Type 0 where
  pub stored : s'.storage ≡ s.storage
  pub spenders :
      (k : Bytes) (j : ℕ)
      → (spent_by_of s' k j ≡ spent_by_of s k j)
        ⊎ ((k ≡ t) × (j ≡ i) × (spent_by_of s' k j ≡ spent_by ++ h ∷ []))
  pub spender : spent_by_of s' t i ≡ spent_by ++ h ∷ []
  pub others :
      (k : Bytes) (j : ℕ) (x : Bytes)
      → elem x (spent_by_of s k j) ≡ true
      → elem x (spent_by_of s' k j) ≡ true
  pub kept :
      (k x : Bytes) → elem x (conflict_with_of s k) ≡ true → elem x (conflict_with_of s' k) ≡ true
  pub mine : (x : Bytes) → elem x spent_by ≡ true → elem x (conflict_with_of s' h) ≡ true
  pub theirs : (x : Bytes) → elem x spent_by ≡ true → elem h (conflict_with_of s' x) ≡ true
  pub voided : (x : Bytes) → elem x spent_by ≡ true → elem h (voided_by_of s' h) ≡ true
  pub still_voided :
      (k x : Bytes) → elem x (voided_by_of s k) ≡ true → elem x (voided_by_of s' k) ≡ true

-- The ledger in which the transaction has voided itself.
record SelfVoided (h : Bytes) (spent_by : List Bytes) (s s' : Ledger) : Type 0 where
  stored : s'.storage ≡ s.storage
  spenders : (k : Bytes) (j : ℕ) → spent_by_of s' k j ≡ spent_by_of s k j
  kept :
      (k x : Bytes) → elem x (conflict_with_of s k) ≡ true → elem x (conflict_with_of s' k) ≡ true
  mine : (x : Bytes) → elem x spent_by ≡ true → elem x (conflict_with_of s' h) ≡ true
  voided : (x : Bytes) → elem x spent_by ≡ true → elem h (voided_by_of s' h) ≡ true
  still_voided :
      (k x : Bytes) → elem x (voided_by_of s k) ≡ true → elem x (voided_by_of s' k) ≡ true

elem-add_hash : (x h : Bytes) (xs : List Bytes) → elem x xs ≡ true → elem x (add_hash h xs) ≡ true
unfolding add_hash elem
elem-add_hash x h xs e = ground arith

add_hash-elem : (h : Bytes) (xs : List Bytes) → elem h (add_hash h xs) ≡ true
unfolding add_hash
add_hash-elem h xs = ground (arith, elem_refl h xs)

void_itself-SelfVoided :
    (h : Bytes) (spent_by : List Bytes) (s : Ledger)
    → SelfVoided h spent_by s (modify h (void_itself h spent_by) s)
unfolding modify void_itself
void_itself-SelfVoided h [] s = record {
  stored = refl;
  spenders = λ k j. ground arith;
  kept = λ k x e. ground arith;
  mine = λ x e. absurd (nothing_in x e);
  voided = λ x e. absurd (nothing_in x e);
  still_voided = λ k x e. ground arith;
}
void_itself-SelfVoided h (y ∷ ys) s = record {
  stored = refl;
  spenders = λ k j. ground arith;
  kept = λ k x e. ground (arith, elem-append x (conflict_with_of s k) (y ∷ ys));
  mine = λ x e. ground (arith, bytes_eq_refl h, elem-append x (conflict_with_of s h) (y ∷ ys));
  voided = λ x e. ground (arith, bytes_eq_refl h, add_hash-elem h (voided_by_of s h));
  still_voided = λ k x e. ground (arith, elem-add_hash x h (voided_by_of s k));
}

-- The ledger in which the transaction has joined the spenders.
record Joined (h t : Bytes) (i : ℕ) (s s' : Ledger) : Type 0 where
  stored : s'.storage ≡ s.storage
  spenders :
      (k : Bytes) (j : ℕ)
      → (spent_by_of s' k j ≡ spent_by_of s k j)
        ⊎ ((k ≡ t) × (j ≡ i) × (spent_by_of s' k j ≡ spent_by_of s k j ++ h ∷ []))
  spender : spent_by_of s' t i ≡ spent_by_of s t i ++ h ∷ []
  conflicts : (k : Bytes) → conflict_with_of s' k ≡ conflict_with_of s k
  voided : (k : Bytes) → voided_by_of s' k ≡ voided_by_of s k

spenders_at-append_spender :
    (j i : ℕ) (h : Bytes) (d : List (ℕ × List Bytes))
    → spenders_at j (append_spender i h d)
      ≡ (if j == i then spenders_at j d ++ h ∷ [] else spenders_at j d)
unfolding spenders_at append_spender
spenders_at-append_spender j i h [] = ground arith
spenders_at-append_spender j i h ((k, l) ∷ d) = ground (arith, spenders_at-append_spender j i h d)

add_spender-Joined :
    (h t : Bytes) (i : ℕ) (s : Ledger) → Joined h t i s (modify t (add_spender h i) s)
unfolding modify add_spender
add_spender-Joined h t i s = record {
  stored = refl;
  spenders = λ k j.
      ground
        (arith, bytes_eq_iff k t, spenders_at-append_spender j i h (s.metadata k).spent_outputs);
  spender =
      ground
        (arith, bytes_eq_refl t, spenders_at-append_spender i i h (s.metadata t).spent_outputs);
  conflicts = λ k. ground arith;
  voided = λ k. ground arith;
}

steps-Used :
    (h t : Bytes) (i : ℕ) (s s₁ s₂ s' : Ledger)
    → SelfVoided h (spent_by_of s t i) s s₁
    → Marked h (spent_by_of s t i) s₁ s₂
    → Joined h t i s₂ s'
    → Used h t i (spent_by_of s t i) s s'
steps-Used h t i s s₁ s₂ s' a b c =
    let same : (k : Bytes) (j : ℕ) → spent_by_of s₂ k j ≡ spent_by_of s k j =
      λ k j. b.spenders k j ∙ a.spenders k j in
    record {
      stored = c.stored ∙ (b.stored ∙ a.stored);
      spenders = λ k j. elim (c.spenders k j) [
        | inl q ↦ inl (q ∙ same k j)
        | inr (q, r, u) ↦ inr (q, r, u ∙ ap (λ l. l ++ h ∷ []) (same k j ∙ ap₂ (spent_by_of s) q r))
      ];
      spender = c.spender ∙ ap (λ l. l ++ h ∷ []) (same t i);
      others = λ k j x e. elim (c.spenders k j) [
        | inl q ↦ ap (elem x) (q ∙ same k j) ∙ e
        | inr (_, _, u) ↦
            ap (elem x) (u ∙ ap (λ l. l ++ h ∷ []) (same k j))
            ∙ (elem-append x (spent_by_of s k j) (h ∷ []) ∙ rw e refl)
      ];
      kept = λ k x e. ap (elem x) (c.conflicts k) ∙ b.kept k x (a.kept k x e);
      mine = λ x e. ap (elem x) (c.conflicts h) ∙ b.kept h x (a.mine x e);
      theirs = λ x e. ap (elem h) (c.conflicts x) ∙ b.added x e;
      voided = λ x e. ap (elem h) (c.voided h ∙ b.voided h) ∙ a.voided x e;
      still_voided = λ k x e. ap (elem x) (c.voided k ∙ b.voided k) ∙ a.still_voided k x e;
    }

pub mark_used_by-Used :
    (h : Bytes) (txin : TxInput) (s s' : Ledger)
    → mark_used_by h txin s ≡ ok s'
    → Used h txin.tx_id txin.index (spent_by_of s txin.tx_id txin.index) s s'
unfolding mark_used_by
mark_used_by-Used h txin s s' e =
    let t = txin.tx_id in
    let i = txin.index in
    let l = spent_by_of s t i in
    let s₁ = modify h (void_itself h l) s in
    let (_, _, e₁) = >>=-eq-ok (get_transaction s.storage t) _ e in
    let (_, e₂) = guard-ok (not (elem h l)) assertion_error _ e₁ in
    let (s₂, e₃, e₄) = >>=-eq-ok (mark_conflicts h l s₁) _ e₂ in
    subst (Used h t i l s) (ok-injective e₄) (
      steps-Used h t i s s₁ s₂ (modify t (add_spender h i) s₂) (void_itself-SelfVoided h l s)
        (mark_conflicts-Marked h l s₁ s₂ e₃) (add_spender-Joined h t i s₂))
