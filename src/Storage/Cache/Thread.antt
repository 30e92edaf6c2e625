-- ===== src/Storage/Cache/Thread.antt =====
-- The flush of hathor/transaction/storage/cache_storage.py in the thread that `start` sets up: a call
-- of the main thread may come between the two steps of a round.
use khathor.Prelude.{
  refl, none, some, false, suc, Option, ℕ, ◌≡◌, ◌≤◌, length, ◌∷◌, le→leb, ap, ◌∙◌, sym,
  if◌then◌else◌, Bool-cases, inl, inr,
}
use khathor.Errors.{ok, err, transaction_does_not_exist}
use khathor.Dict.{Dict, is_some, lookup, insert, member, discard, add}
use khathor.Dict.Laws.{Distinct, lookup-insert, member-discard}
use khathor.Storage.{Store, IsStore, asserted}
use khathor.Storage.Cache.{
  Cache, flush_take, flush_put, save_transaction, get_transaction, transaction_exists, update_cache,
  place, make_room, evict, write_back, store_save,
}
use khathor.Storage.Cache.Invariant.{IsWellFormed}
use khathor.Bytes.{Bytes, bytes_eq}
use khathor.Bytes.Laws.{bytes_eq_refl, eq_of_bytes_eq}

module _ {A : Type 0} (hash : A → Option Bytes) (below : Store A) (law : IsStore hash below)
    (capacity : ℕ) where
  -- The cache whose entry used longest ago is the transaction `tx` at `h`.
  abbrev pub oldest : Bytes → A → Dict A → Cache A below.State → Cache A below.State
  oldest h tx rest self = record self { cache = (h, tx) ∷ rest }

  -- The state behind the first step of the round for `h` and a save of `tx'` at `h'`.
  abbrev pub overtaken : Bytes → Bytes → A → Dict A → Cache A below.State → Cache A below.State
  overtaken h h' tx' rest self = record self {
    cache = insert h' tx' rest;
    dirty_txs = add h' (discard h self.dirty_txs);
  }

  module _ (self : Cache A below.State) (h h' : Bytes) (tx tx' : A) (rest : Dict A) where
    take_oldest :
        flush_take hash below h (oldest h tx rest self)
        ≡ (some tx, record (oldest h tx rest self) { dirty_txs = discard h self.dirty_txs })
    unfolding flush_take lookup
    take_oldest = rw (bytes_eq_refl h, flush_take) refl

    -- The transaction is no longer dirty, so it leaves the cache unwritten.
    save_evicts :
        hash tx ≡ some h
        → hash tx' ≡ some h'
        → lookup h' ((h, tx) ∷ rest) ≡ none
        → capacity ≤ suc (length rest)
        → save_transaction hash below capacity tx'
            (record (oldest h tx rest self) { dirty_txs = discard h self.dirty_txs })
          ≡ ok (overtaken h h' tx' rest self)
    unfolding save_transaction asserted update_cache place make_room evict write_back
    save_evicts e e' n full =
        let clean : member h (discard h self.dirty_txs) ≡ false =
          member-discard h h self.dirty_txs
          ∙ ap (λ b. if b then false else member h self.dirty_txs) (bytes_eq_refl h) in
        rw (e', asserted)
          (rw (n, place)
            (rw (le→leb capacity (suc (length rest)) full) (rw (e, write_back) (rw clean refl))))

    lookup_oldest : lookup h ((h, tx) ∷ rest) ≡ some tx
    unfolding lookup
    lookup_oldest = rw (bytes_eq_refl h) refl

    other_hash : lookup h' ((h, tx) ∷ rest) ≡ none → bytes_eq h h' ≡ false
    other_hash n = elim (Bool-cases (bytes_eq h h')) [
      | inl q ↦
          let c : none ≡ some tx =
            sym n
            ∙ ap (λ b. lookup b ((h, tx) ∷ rest)) (sym (eq_of_bytes_eq h h' q))
            ∙ lookup_oldest in
          cc
      | inr q ↦ q
    ]

    lookup_overtaken :
        lookup h rest ≡ none → bytes_eq h h' ≡ false → lookup h (insert h' tx' rest) ≡ none
    lookup_overtaken d q =
        lookup-insert h h' tx' rest ∙ ap (λ b. if b then some tx' else lookup h rest) q ∙ d

    exists_overtaken :
        lookup h rest ≡ none
        → bytes_eq h h' ≡ false
        → below.get_transaction h self.store ≡ none
        → transaction_exists hash below h (overtaken h h' tx' rest self) ≡ false
    unfolding transaction_exists is_some
    exists_overtaken d q n = rw (lookup_overtaken d q) (law.exists-get h self.store ∙ ap is_some n)

    get_overtaken :
        lookup h rest ≡ none
        → bytes_eq h h' ≡ false
        → below.get_transaction h self.store ≡ none
        → get_transaction hash below capacity none h (overtaken h h' tx' rest self)
          ≡ err transaction_does_not_exist
    unfolding get_transaction
    get_overtaken d q n = rw (lookup_overtaken d q, get_transaction) (rw n refl)

    -- Between the two steps of a round of the flush, a save of a new transaction evicts the one that is
    -- being written, where the cache is full, that one is the oldest in it and the storage below does
    -- not have it. From then on it does not exist for `transaction_exists`, and where the weak
    -- references give no object of it, reading it raises TransactionDoesNotExist; once the round
    -- writes it, the storage below has it.
    pub flush_thread_hides_transaction :
        IsWellFormed hash below capacity (oldest h tx rest self)
        → below.get_transaction h self.store ≡ none
        → hash tx' ≡ some h'
        → lookup h' ((h, tx) ∷ rest) ≡ none
        → capacity ≤ suc (length rest)
        → (self' : Cache A below.State) × (self'' : Cache A below.State) × (save_transaction hash
              below capacity tx'
              (flush_take hash below h (oldest h tx rest self)).1
            ≡ ok self')
          × (transaction_exists hash below h self' ≡ false)
          × (get_transaction hash below capacity none h self' ≡ err transaction_does_not_exist)
          × (flush_put hash below (flush_take hash below h (oldest h tx rest self)).0 self'
              ≡ ok self'')
          × (below.get_transaction h self''.store ≡ some tx)
    unfolding flush_put store_save Distinct
    flush_thread_hides_transaction w n e' new full =
        let e = w.keyed h tx lookup_oldest in
        let (s, f) = law.save-total tx h self.store e in
        (
          overtaken h h' tx' rest self,
          record (overtaken h h' tx' rest self) { store = s },
          rw take_oldest (save_evicts e e' new full),
          exists_overtaken w.distinct.0 (other_hash new) n,
          get_overtaken w.distinct.0 (other_hash new) n,
          rw take_oldest (rw f refl),
          law.get-save tx h h self.store s e f
              ∙ ap (λ b. if b then some tx else below.get_transaction h self.store)
                  (bytes_eq_refl h),
        )
