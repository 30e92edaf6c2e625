-- ===== src/Storage/Cache/Refines.antt =====
-- The cache of hathor/transaction/storage/cache_storage.py as a map from hashes to transactions.
use khathor.Prelude.{refl, some, Option, ℕ, ◌<◌, ◌≡◌, if◌then◌else◌, ap, ◌∙◌}
use khathor.Errors.{ok}
use khathor.Storage.{Store, IsStore, asserted}
use khathor.Storage.Cache.{save_transaction, Cache}
use khathor.Storage.Cache.Invariant.{view, IsWellFormed}
use khathor.Bytes.{Bytes, bytes_eq}
use khathor.Storage.Cache.Update.{
  place-Updated, update_cache-place, dirty, dirty-IsWellFormed, dirty-view,
}

module _ {A : Type 0} (hash : A → Option Bytes) (below : Store A) (law : IsStore hash below)
    (capacity : ℕ) (pos : 0 < capacity) where
  -- Saving a transaction that has a hash changes the map at that hash, to the transaction, and nowhere
  -- else, and keeps the invariant of the cache, whatever it has to evict.
  pub save_transaction_refines :
      (self : Cache A below.State) (h : Bytes) (tx : A)
      → hash tx ≡ some h
      → IsWellFormed hash below capacity self
      → (self' : Cache A below.State) × (save_transaction hash below capacity tx self ≡ ok self')
        × IsWellFormed hash below capacity self'
        × ((k : Bytes)
            → view hash below self' k ≡ (if bytes_eq k h then some tx else view hash below self k))
  unfolding save_transaction asserted dirty
  save_transaction_refines self h tx e w =
      let (base, self', f, u, v, n) = place-Updated hash below law capacity pos self h tx e w in
      (
        dirty hash below law capacity pos base self' h tx e u,
        rw (e, asserted) (rw (update_cache-place hash below law capacity pos self h tx e ∙ f) refl),
        dirty-IsWellFormed hash below law capacity pos base self' h tx e u,
        λ k.
            dirty-view hash below law capacity pos base self' h tx e u k
            ∙ ap (λ o. if bytes_eq k h then some tx else o) (v k),
      )
