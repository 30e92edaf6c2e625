-- ===== src/Tx/Verify/ParentRound.antt =====
-- One round of the loop of `verify_parents` of hathor/transaction/base_transaction.py.
use khathor.Prelude.{
  [], ◌∷◌, refl, none, some, true, false, suc, inl, inr, ℕ, Bool, not, ◌≡◌, ◌⊎◌, arith, List,
  lt→leb, ◌<◌, leb, sym,
}
use khathor.Errors.{
  ok, err, Result, >>=-eq-ok, guard-ok, ok-injective, assertion_error, timestamp_error,
}
use khathor.Tx.Base.{block, transaction, Kind, Tx}
use khathor.Tx.Verify.{
  Network, except_missing, ParentCount, check_parent, tx_parent, block_parent, min_loop,
  parent_round, has_hash, too_far, before,
}
use khathor.Tx.Tokens.{Storage, get_transaction}
use khathor.Bytes.{Bytes}

abbrev pub count_of : ℕ → ℕ → ParentCount
count_of a b = record { txs = a; blocks = b; min_timestamp = none }

pub eq_false_of_not : (b : Bool) → not b ≡ true → b ≡ false
eq_false_of_not b h = ground arith

except_missing-ok : {A : Type 0} (r : Result A) (a : A) → except_missing r ≡ ok a → r ≡ ok a
unfolding except_missing
except_missing-ok (ok x) a e = e
except_missing-ok (err x) a e = cc

Kind-cases : (k : Kind) → (k ≡ block) ⊎ (k ≡ transaction)
Kind-cases block = inl refl
Kind-cases transaction = inr refl

module _ (n : Network) (storage : Storage) (tx : Tx) where
  -- What a parent of each kind has to be.
  pub record IsBlockParent (h : Bytes) : Type 0 where
    pub parent : Tx
    pub stored : storage h ≡ some parent
    pub hashed : has_hash parent ≡ true
    pub kind : parent.kind ≡ block
    pub older : parent.timestamp < tx.timestamp
    pub near : too_far n storage tx parent ≡ false

  pub record IsTxParent (h : Bytes) : Type 0 where
    pub parent : Tx
    pub stored : storage h ≡ some parent
    pub hashed : has_hash parent ≡ true
    pub kind : parent.kind ≡ transaction
    pub older : parent.timestamp < tx.timestamp

  -- The loop over the parents of a block parent changes nothing.
  min_loop_block :
      (h : Bytes) (p : Tx) (hs : List Bytes)
      → get_transaction storage h ≡ ok p
      → p.kind ≡ block
      → min_loop storage h hs none ≡ ok none
  unfolding min_loop
  min_loop_block h p [] e k = refl
  min_loop_block h p (x ∷ hs) e k = rw e (rw k (min_loop_block h p hs e k))

  stored-get : (h : Bytes) (p : Tx) → storage h ≡ some p → get_transaction storage h ≡ ok p
  unfolding get_transaction
  stored-get h p e = ground arith

  get-stored : (h : Bytes) (p : Tx) → get_transaction storage h ≡ ok p → storage h ≡ some p
  unfolding get_transaction
  get-stored h p e = ground arith

  pub block_round :
      (h : Bytes) (b : ℕ)
      → IsBlockParent h
      → parent_round n storage tx h (count_of 0 b) ≡ ok (count_of 0 (suc b))
  unfolding parent_round except_missing check_parent block_parent
  block_round h b p =
      let g = stored-get h p.parent p.stored in
      rw g (
        rw (p.hashed, lt→leb tx.timestamp p.parent.timestamp p.older)
          (rw p.kind (rw (p.near, min_loop_block h p.parent p.parent.parents g p.kind) refl)))

  pub tx_round :
      (h : Bytes) (a b : ℕ)
      → IsTxParent h
      → parent_round n storage tx h (count_of a b) ≡ ok (count_of (suc a) b)
  unfolding parent_round except_missing check_parent tx_parent before
  tx_round h a b p =
      let g = stored-get h p.parent p.stored in
      rw g (rw (p.hashed, lt→leb tx.timestamp p.parent.timestamp p.older) (rw p.kind refl))

  block_parent_lem :
      (h : Bytes) (p : Tx) (a b : ℕ) (c : ParentCount)
      → get_transaction storage h ≡ ok p
      → p.kind ≡ block
      → block_parent n storage tx h p (count_of a b) ≡ ok c
      → (too_far n storage tx p ≡ false) × (a ≡ 0) × (c ≡ count_of 0 (suc b))
  unfolding block_parent
  block_parent_lem h p a b c g k e =
      let e' = rw (min_loop_block h p p.parents g k) at e in ground arith

  tx_parent_lem :
      (p : Tx) (a b : ℕ) (c : ParentCount)
      → tx_parent n storage tx p (count_of a b) ≡ ok c
      → c ≡ count_of (suc a) b
  unfolding tx_parent before
  tx_parent_lem p a b c e = ok-injective (sym e)

  check_parent_lem :
      (h : Bytes) (p : Tx) (a b : ℕ) (c : ParentCount)
      → get_transaction storage h ≡ ok p
      → check_parent n storage tx h p (count_of a b) ≡ ok c
      → (IsBlockParent h × (a ≡ 0) × (c ≡ count_of 0 (suc b)))
        ⊎ (IsTxParent h × (c ≡ count_of (suc a) b))
  unfolding check_parent
  check_parent_lem h p a b c g e =
      let (hashed, e₂) = guard-ok (has_hash p) assertion_error _ e in
      let (older, e₃) = guard-ok (not (leb tx.timestamp p.timestamp)) timestamp_error _ e₂ in
      let older' : p.timestamp < tx.timestamp = ground arith in
      elim (Kind-cases p.kind) [
        | inl k ↦
            let (near, z, c') = block_parent_lem h p a b c g k (rw k at e₃) in
            inl (
              record {
                parent = p;
                stored = get-stored h p g;
                hashed = hashed;
                kind = k;
                older = older';
                near = near;
              },
              z,
              c',
            )
        | inr k ↦ inr (
          record {
            parent = p;
            stored = get-stored h p g;
            hashed = hashed;
            kind = k;
            older = older';
          },
          tx_parent_lem p a b c (rw k at e₃),
        )
      ]

  pub round_cases :
      (h : Bytes) (a b : ℕ) (c : ParentCount)
      → parent_round n storage tx h (count_of a b) ≡ ok c
      → (IsBlockParent h × (a ≡ 0) × (c ≡ count_of 0 (suc b)))
        ⊎ (IsTxParent h × (c ≡ count_of (suc a) b))
  unfolding parent_round
  round_cases h a b c e =
      let (p, g, e₁) = >>=-eq-ok (get_transaction storage h) _ (except_missing-ok _ c e) in
      check_parent_lem h p a b c g e₁
