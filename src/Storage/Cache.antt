-- ===== src/Storage/Cache.antt =====
-- `TransactionCacheStorage` of hathor/transaction/storage/cache_storage.py, without the indexes and the
-- events of the methods that it extends.
pub mod Invariant
pub mod Evict
pub mod Update
pub mod Refines
pub mod Read
pub mod Flush
pub mod Runs
pub mod Remove
pub mod Thread
use khathor.Prelude.{
  [], ◌∷◌, none, some, suc, Option, List, ℕ, Bool, if◌then◌else◌, ◌||◌, leb, length,
}
use khathor.Errors.{ok, err, Result, key_error, transaction_does_not_exist, ◌>>=◌}
use khathor.Dict.{Dict, lookup, insert, erase, move_to_end, is_some, member, add, discard}
use khathor.Storage.{Store, asserted}
use khathor.Bytes.{Bytes}

-- `S` is what the storage below keeps. The first entry of `cache` is the one used longest ago.
pub record Cache (A S : Type 0) : Type 0 where
  pub cache : Dict A
  pub dirty_txs : List Bytes
  pub store : S
  pub hit : ℕ
  pub miss : ℕ

module _ {A : Type 0} (hash : A → Option Bytes) (below : Store A) where
  -- self.store.save_transaction(tx)
  unfoldable pub store_save : A → Cache A below.State → Result (Cache A below.State)
  store_save tx self = do
    store ← below.save_transaction tx self.store
    ok (record self { store = store })

  -- A transaction that leaves the cache is written when it is dirty.
  unfoldable pub write_back : A → Cache A below.State → Result (Cache A below.State)
  write_back removed_tx self = elim (hash removed_tx) [
    | none ↦ ok self
    | some h ↦
        if member h self.dirty_txs
        then store_save removed_tx (record self { dirty_txs = discard h self.dirty_txs })
        else ok self
  ]

  -- (_, removed_tx) = self.cache.popitem(last=False), and what follows
  unfoldable pub evict : Cache A below.State → Result (Cache A below.State)
  evict self = elim self.cache [
    | [] ↦ err key_error
    | (key, removed_tx) ∷ rest ↦ write_back removed_tx (record self { cache = rest })
  ]

  unfoldable pub transaction_exists : Bytes → Cache A below.State → Bool
  transaction_exists hash_bytes self =
      is_some (lookup hash_bytes self.cache) || below.transaction_exists hash_bytes self.store

  unfoldable pub remove_transaction : A → Cache A below.State → Result (Cache A below.State)
  remove_transaction tx self = do
    h ← asserted (hash tx)
    ok (record self { cache = erase h self.cache; dirty_txs = discard h self.dirty_txs })

  -- A round of `_flush_to_storage` up to the write: the clone to be written, if there is one.
  unfoldable pub flush_take : Bytes → Cache A below.State → Option A × Cache A below.State
  flush_take tx_hash self = elim (lookup tx_hash self.cache) [
    | none ↦ (none, self)
    | some tx ↦ (some tx, record self { dirty_txs = discard tx_hash self.dirty_txs })
  ]

  -- self.store._save_transaction(tx)
  unfoldable pub flush_put : Option A → Cache A below.State → Result (Cache A below.State)
  flush_put none self = ok self
  flush_put (some tx) self = store_save tx self

  -- The whole round, which nothing interrupts when the main thread flushes.
  unfoldable pub flush_one : Bytes → Cache A below.State → Result (Cache A below.State)
  flush_one tx_hash self = let taken = flush_take tx_hash self in flush_put taken.0 taken.1

  unfoldable pub flush_to_storage : List Bytes → Cache A below.State → Result (Cache A below.State)
  flush_to_storage [] self = ok self
  flush_to_storage (tx_hash ∷ dirty_txs_copy) self = do
    self' ← flush_one tx_hash self
    flush_to_storage dirty_txs_copy self'

  -- What `get_all_transactions` and `get_count_tx_blocks` start with.
  unfoldable pub flush_all : Cache A below.State → Result (Cache A below.State)
  flush_all self = flush_to_storage self.dirty_txs self

module _ {A : Type 0} (hash : A → Option Bytes) (below : Store A) (capacity : ℕ) where
  unfoldable pub make_room : Cache A below.State → Result (Cache A below.State)
  make_room self = if leb capacity (length self.cache) then evict hash below self else ok self

  -- `update_cache` behind the assertion on the hash.
  unfoldable pub place : A → Bytes → Cache A below.State → Result (Cache A below.State)
  place tx h self = elim (lookup h self.cache) [
    | none ↦ (do self' ← make_room self; ok (record self' { cache = insert h tx self'.cache }))
    | some _ ↦ ok (record self { cache = move_to_end h (insert h tx self.cache) })
  ]

  unfoldable pub update_cache : A → Cache A below.State → Result (Cache A below.State)
  update_cache tx self = do h ← asserted (hash tx); place tx h self

  -- _save_transaction
  unfoldable pub save_transaction : A → Cache A below.State → Result (Cache A below.State)
  save_transaction tx self = do
    h ← asserted (hash tx)
    self' ← update_cache tx self
    ok (record self' { dirty_txs = add h self'.dirty_txs })

  -- What `_get_transaction` does with a transaction that is not in the cache.
  unfoldable pub cached : A → Cache A below.State → Result (A × Cache A below.State)
  cached tx self = do self' ← update_cache tx self; ok (tx, self')

  -- `live` is what the weak references give: an object that the program still holds.
  unfoldable pub get_transaction :
      Option A → Bytes → Cache A below.State → Result (A × Cache A below.State)
  get_transaction live hash_bytes self = elim (lookup hash_bytes self.cache) [
    | some tx ↦
        ok (tx, record self { cache = move_to_end hash_bytes self.cache; hit = suc self.hit })
    | none ↦ elim live [
      | some tx ↦ cached tx (record self { hit = suc self.hit })
      | none ↦ elim (below.get_transaction hash_bytes self.store) [
        | none ↦ err transaction_does_not_exist
        | some tx ↦ cached tx (record self { miss = suc self.miss })
      ]
    ]
  ]
