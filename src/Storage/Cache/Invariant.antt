-- ===== src/Storage/Cache/Invariant.antt =====
-- What the cache of hathor/transaction/storage/cache_storage.py keeps true: its size, the keys of its
-- entries, and that a transaction that is not dirty is written.
use khathor.Prelude.{refl, none, some, true, false, suc, Option, ℕ, ◌≡◌, length, ◌≤◌, ap₂}
use khathor.Dict.{lookup, is_some, member}
use khathor.Dict.Laws.{Distinct}
use khathor.Storage.{Store}
use khathor.Storage.Cache.{Cache}
use khathor.Bytes.{Bytes}

unfoldable pub either_of : {A : Type 0} → Option A → Option A → Option A
either_of none b = b
either_of (some a) b = some a

module _ {A : Type 0} (hash : A → Option Bytes) (below : Store A) where
  -- The transaction that the storage has at a hash: that of the cache before that of the storage
  -- below.
  unfoldable pub view : Cache A below.State → Bytes → Option A
  view self k = either_of (lookup k self.cache) (below.get_transaction k self.store)

  pub record IsWellFormed (capacity : ℕ) (self : Cache A below.State) : Type 0 where
    pub distinct : Distinct self.cache
    pub bounded : length self.cache ≤ capacity
    pub keyed : (k : Bytes) (tx : A) → lookup k self.cache ≡ some tx → hash tx ≡ some k
    pub clean :
        (k : Bytes) (tx : A)
        → lookup k self.cache ≡ some tx
        → member k self.dirty_txs ≡ false
        → below.get_transaction k self.store ≡ some tx
    pub dirty_cached :
        (k : Bytes) → member k self.dirty_txs ≡ true → is_some (lookup k self.cache) ≡ true

  pub view-cached :
      (self : Cache A below.State) (k : Bytes) (tx : A)
      → lookup k self.cache ≡ some tx
      → view self k ≡ some tx
  unfolding view either_of
  view-cached self k tx g = rw g refl

  pub view-below :
      (self : Cache A below.State) (k : Bytes)
      → lookup k self.cache ≡ none
      → view self k ≡ below.get_transaction k self.store
  unfolding view either_of
  view-below self k n = rw n refl

  pub view-eq :
      (self self' : Cache A below.State) (k : Bytes)
      → lookup k self'.cache ≡ lookup k self.cache
      → below.get_transaction k self'.store ≡ below.get_transaction k self.store
      → view self' k ≡ view self k
  unfolding view
  view-eq self self' k p q = ap₂ either_of p q

  -- What making room changes: the view stays, nothing enters the cache, and there is a free place.
  pub record MadeRoom (capacity : ℕ) (self self' : Cache A below.State) : Type 0 where
    pub well_formed : IsWellFormed capacity self'
    pub same_view : (k : Bytes) → view self' k ≡ view self k
    pub absent : (k : Bytes) → lookup k self.cache ≡ none → lookup k self'.cache ≡ none
    pub free : suc (length self'.cache) ≤ capacity
