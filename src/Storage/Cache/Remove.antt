-- ===== src/Storage/Cache/Remove.antt =====
-- `remove_transaction` of hathor/transaction/storage/cache_storage.py.
use khathor.Prelude.{refl, none, some, Option, ◌≡◌, ◌∙◌, ap, if◌then◌else◌, ◌||◌}
use khathor.Errors.{ok}
use khathor.Dict.{lookup, erase, is_some, discard}
use khathor.Dict.Laws.{lookup-erase}
use khathor.Storage.{Store, IsStore, asserted}
use khathor.Storage.Cache.{Cache, remove_transaction, transaction_exists}
use khathor.Storage.Cache.Invariant.{view, view-below}
use khathor.Bytes.{Bytes}
use khathor.Bytes.Laws.{bytes_eq_refl}

module _ {A : Type 0} (hash : A → Option Bytes) (below : Store A) (law : IsStore hash below) where
  -- Removing a transaction takes it from the cache alone: it returns, and afterwards the storage has
  -- at its hash what the storage below has, and says that it exists exactly when that one has it.
  pub remove_transaction_keeps_stored :
      (self : Cache A below.State) (h : Bytes) (tx : A)
      → hash tx ≡ some h
      → (self' : Cache A below.State) × (remove_transaction hash below tx self ≡ ok self')
        × (view hash below self' h ≡ below.get_transaction h self.store)
        × (transaction_exists hash below h self' ≡ is_some (below.get_transaction h self.store))
  unfolding remove_transaction asserted transaction_exists is_some
  remove_transaction_keeps_stored self h tx e =
      let self' : Cache A below.State = record self {
        cache = erase h self.cache;
        dirty_txs = discard h self.dirty_txs;
      } in
      let n : lookup h self'.cache ≡ none =
        lookup-erase h h self.cache
        ∙ ap (λ b. if b then none else lookup h self.cache) (bytes_eq_refl h) in
      (
        self',
        rw (e, asserted) refl,
        view-below hash below self' h n,
        ap (λ o. is_some o || below.transaction_exists h self.store) n
            ∙ law.exists-get h self.store,
      )
