-- ===== src/Tx/Verify/Parents.antt =====
-- `verify_parents` of hathor/transaction/base_transaction.py.
use khathor.Prelude.{
  [], ◌∷◌, refl, true, suc, inl, inr, List, Bool, ℕ, ◌≡◌, All, ◌↔◌, ◌+◌, ◌++◌, length, arith, ◌==◌,
  ◌⊎◌, sym, ap, if◌then◌else◌, ◌∙◌, ap₂, not, ltb,
}
use khathor.Errors.{
  ok, guard, ok-injective, incorrect_parents, ◌>>◌, guard-ok, assertion_error, >>=-eq-ok,
  duplicated_parents,
}
use khathor.Tx.Base.{Tx}
use khathor.Tx.Verify.{
  Network, parents_loop, verify_parents, ParentCount, has_hash, is_block, parent_round, set_size,
}
use khathor.Tx.Tokens.{Storage}
use khathor.Bytes.{Bytes}
use khathor.Tx.Verify.ParentRound.{
  IsBlockParent, IsTxParent, count_of, block_round, tx_round, round_cases, eq_false_of_not,
}
use khathor.Tx.Verify.Sets.{NoRepeat, set_size-NoRepeat}

module _ (n : Network) (storage : Storage) (tx : Tx) where
  blocks_loop :
      (bs ts : List Bytes) (b : ℕ)
      → All (IsBlockParent n storage tx) bs
      → parents_loop n storage tx (bs ++ ts) (count_of 0 b)
        ≡ parents_loop n storage tx ts (count_of 0 (b + length bs))
  unfolding parents_loop
  blocks_loop [] ts b h = ap (λ k. parents_loop n storage tx ts (count_of 0 k)) (omega arith)
  blocks_loop (x ∷ bs) ts b h = rw (block_round n storage tx x b h.0) (
      blocks_loop bs ts (suc b) h.1
      ∙ ap (λ k. parents_loop n storage tx ts (count_of 0 k)) (omega arith))

  txs_loop :
      (ts : List Bytes) (a b : ℕ)
      → All (IsTxParent n storage tx) ts
      → parents_loop n storage tx ts (count_of a b) ≡ ok (count_of (a + length ts) b)
  unfolding parents_loop
  txs_loop [] a b h = ap (λ k. ok (count_of k b)) (omega arith)
  txs_loop (x ∷ ts) a b h =
      rw (tx_round n storage tx x a b h.0)
        (txs_loop ts (suc a) b h.1 ∙ ap (λ k. ok (count_of k b)) (omega arith))

  -- Blocks come first, then transactions.
  pub record Split (hashes : List Bytes) (a b : ℕ) (c : ParentCount) : Type 0 where
    pub blocks : List Bytes
    pub txs : List Bytes
    pub order : hashes ≡ blocks ++ txs
    pub block_parents : All (IsBlockParent n storage tx) blocks
    pub tx_parents : All (IsTxParent n storage tx) txs
    pub first : (a ≡ 0) ⊎ (blocks ≡ [])
    pub count : c ≡ count_of (a + length txs) (b + length blocks)

  no_blocks :
      (x : Bytes) (hs : List Bytes) (a b : ℕ) (c : ParentCount)
      → (IsTxParent n storage tx) x
      → Split hs (suc a) b c
      → Split (x ∷ hs) a b c
  no_blocks x hs a b c p r = elim r.first [
    | inl z ↦ absurd (omega arith)
    | inr z ↦ record {
      blocks = [];
      txs = x ∷ r.txs;
      order = ap (λ l. x ∷ l) (rw z at r.order);
      block_parents = tt;
      tx_parents = (p, r.tx_parents);
      first = inr refl;
      count = (rw z at r.count) ∙ ap₂ count_of (omega arith) (omega arith);
    }
  ]

  parents_loop-Split :
      (hs : List Bytes) (a b : ℕ) (c : ParentCount)
      → parents_loop n storage tx hs (count_of a b) ≡ ok c
      → Split hs a b c
  unfolding parents_loop
  parents_loop-Split [] a b c e = record {
    blocks = [];
    txs = [];
    order = refl;
    block_parents = tt;
    tx_parents = tt;
    first = inr refl;
    count = ok-injective (sym e) ∙ ap₂ count_of (omega arith) (omega arith);
  }
  parents_loop-Split (x ∷ hs) a b c e =
      let (c', e₁, e₂) = >>=-eq-ok (parent_round n storage tx x (count_of a b)) _ e in
      elim (round_cases n storage tx x a b c' e₁) [
        | inl (p, z, q) ↦
            let r = parents_loop-Split hs 0 (suc b) c (rw q at e₂) in
            record {
              blocks = x ∷ r.blocks;
              txs = r.txs;
              order = ap (λ l. x ∷ l) r.order;
              block_parents = (p, r.block_parents);
              tx_parents = r.tx_parents;
              first = inl z;
              count = r.count ∙ ap₂ count_of (omega arith) (omega arith);
            }
        | inr (p, q) ↦ no_blocks x hs a b c p (parents_loop-Split hs (suc a) b c (rw q at e₂))
      ]

  count_lem :
      (is_block : Bool) (c : ParentCount) (bs ts : List Bytes)
      → c ≡ count_of (0 + length ts) (0 + length bs)
      → (guard (c.blocks == (if is_block then 1 else 0)) incorrect_parents
          >> guard (c.txs == 2) incorrect_parents)
        ≡ ok tt
      → (length bs ≡ (if is_block then 1 else 0)) × (length ts ≡ 2)
  count_lem is_block c bs ts q e = let e' = rw q at e in ground arith

  count_right :
      (k : ℕ)
      → (guard ((0 + k) == k) incorrect_parents >> guard ((0 + 2) == 2) incorrect_parents) ≡ ok tt
  count_right k = ground arith

  -- `verify_parents` accepts exactly the transactions and blocks that have a hash, no parent twice,
  -- and as parents first one block in the case of a block and none in the case of a transaction,
  -- then two transactions; all of them are stored and older, and a block's parent block is not too
  -- far back.
  pub verify_parents_iff : (verify_parents n storage tx ≡ ok tt) ↔ (
      (has_hash tx ≡ true)
      × NoRepeat tx.parents
      × (bs : List Bytes) × (ts : List Bytes) × (tx.parents ≡ bs ++ ts)
      × All (IsBlockParent n storage tx) bs
      × All (IsTxParent n storage tx) ts
      × (length bs ≡ (if is_block tx then 1 else 0))
      × (length ts ≡ 2))
  unfolding verify_parents
  verify_parents_iff = (
    λ e.
        let (hashed, e₁) = guard-ok (has_hash tx) assertion_error _ e in
        let (distinct, e₂) =
          guard-ok (not (ltb (set_size tx.parents) (length tx.parents))) duplicated_parents _ e₁ in
        let (c, e₃, e₄) = >>=-eq-ok (parents_loop n storage tx tx.parents (count_of 0 0)) _ e₂ in
        let r = parents_loop-Split tx.parents 0 0 c e₃ in
        let (q₁, q₂) = count_lem (is_block tx) c r.blocks r.txs r.count e₄ in
        (
          hashed,
          (set_size-NoRepeat tx.parents).0 (eq_false_of_not _ distinct),
          r.blocks,
          r.txs,
          r.order,
          r.block_parents,
          r.tx_parents,
          q₁,
          q₂,
        ),
    λ h.
        let (hashed, distinct, bs, ts, order, hb, ht, lb, lt) = h in
        let e : parents_loop n storage tx tx.parents (count_of 0 0)
            ≡ ok (count_of (0 + length ts) (0 + length bs)) =
          ap (λ hs. parents_loop n storage tx hs (count_of 0 0)) order
          ∙ (blocks_loop bs ts 0 hb ∙ txs_loop ts 0 (0 + length bs) ht) in
        rw (hashed, (set_size-NoRepeat tx.parents).1 distinct)
          (rw e (rw (lb, lt) (count_right (if is_block tx then 1 else 0)))),
  )
