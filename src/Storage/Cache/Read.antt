-- ===== src/Storage/Cache/Read.antt =====
-- Reading from the cache of hathor/transaction/storage/cache_storage.py.
use khathor.Prelude.{
  refl, none, some, Option, ℕ, ◌<◌, ◌≡◌, if◌then◌else◌, ap, ◌∙◌, sym, arith, suc, Option-cases, inr,
  inl, some_injective,
}
use khathor.Errors.{ok, err, transaction_does_not_exist}
use khathor.Dict.{lookup, move_to_end, is_some}
use khathor.Dict.Laws.{at_key, move_to_end-Distinct, length-move_to_end, lookup-move_to_end}
use khathor.Storage.{Store, IsStore}
use khathor.Storage.Cache.{get_transaction, Cache, cached}
use khathor.Storage.Cache.Invariant.{view, IsWellFormed, view-below, view-eq, view-cached}
use khathor.Bytes.{Bytes, bytes_eq}
use khathor.Storage.Cache.Update.{
  place-Updated, update_cache-place, clean-IsWellFormed, updated-view,
}

module _ {A : Type 0} (hash : A → Option Bytes) (below : Store A) (law : IsStore hash below)
    (capacity : ℕ) (pos : 0 < capacity) where
  -- What a transaction that the map has already does when it enters the cache.
  cached-keeps :
      (self : Cache A below.State) (h : Bytes) (tx : A)
      → hash tx ≡ some h
      → lookup h self.cache ≡ none
      → view hash below self h ≡ some tx
      → IsWellFormed hash below capacity self
      → (self' : Cache A below.State) × (cached hash below capacity tx self ≡ ok (tx, self'))
        × IsWellFormed hash below capacity self'
        × ((k : Bytes) → view hash below self' k ≡ view hash below self k)
  unfolding cached
  cached-keeps self h tx e n g w =
      let (base, self', f, u, v, absent) =
        place-Updated hash below law capacity pos self h tx e w in
      let stored : below.get_transaction h base.store ≡ some tx =
        sym (view-below hash below base h (absent n)) ∙ v h ∙ g in
      (
        self',
        rw (update_cache-place hash below law capacity pos self h tx e ∙ f) refl,
        clean-IsWellFormed hash below law capacity pos base self' h tx e u stored,
        λ k.
            updated-view hash below law capacity pos base self' h tx e u k
            ∙ ap (λ o. if bytes_eq k h then some tx else o) (v k)
            ∙ sym (at_key (view hash below self) k h (some tx) g),
      )

  counted-IsWellFormed :
      (self : Cache A below.State) (hit miss : ℕ)
      → IsWellFormed hash below capacity self
      → IsWellFormed hash below capacity (record self { hit = hit; miss = miss })
  counted-IsWellFormed self hit miss w = record {
    distinct = w.distinct;
    bounded = w.bounded;
    keyed = w.keyed;
    clean = w.clean;
    dirty_cached = w.dirty_cached;
  }

  counted-keeps :
      (self : Cache A below.State) (hit miss : ℕ) (h : Bytes) (tx : A)
      → hash tx ≡ some h
      → lookup h self.cache ≡ none
      → view hash below self h ≡ some tx
      → IsWellFormed hash below capacity self
      → (self' : Cache A below.State) × (cached hash below capacity tx
            (record self { hit = hit; miss = miss })
          ≡ ok (tx, self'))
        × IsWellFormed hash below capacity self'
        × ((k : Bytes) → view hash below self' k ≡ view hash below self k)
  unfolding view
  counted-keeps self hit miss h tx e n g w =
      cached-keeps (record self { hit = hit; miss = miss }) h tx e n g
        (counted-IsWellFormed self hit miss w)

  -- A hit only moves the entry behind the others.
  moved : Cache A below.State → Bytes → Cache A below.State
  moved self h = record self { cache = move_to_end h self.cache; hit = suc self.hit }

  moved-IsWellFormed :
      (self : Cache A below.State) (h : Bytes)
      → IsWellFormed hash below capacity self
      → IsWellFormed hash below capacity (moved self h)
  unfolding moved
  moved-IsWellFormed self h w = record {
    distinct = move_to_end-Distinct h self.cache w.distinct;
    bounded = omega (arith, length-move_to_end h self.cache, w.bounded);
    keyed = λ k tx g. w.keyed k tx (sym (lookup-move_to_end k h self.cache) ∙ g);
    clean = λ k tx g m. w.clean k tx (sym (lookup-move_to_end k h self.cache) ∙ g) m;
    dirty_cached = λ k m. ap is_some (lookup-move_to_end k h self.cache) ∙ w.dirty_cached k m;
  }

  moved-view :
      (self : Cache A below.State) (h k : Bytes)
      → view hash below (moved self h) k ≡ view hash below self k
  unfolding moved
  moved-view self h k =
      view-eq hash below self (moved self h) k (lookup-move_to_end k h self.cache) refl

  get-hit :
      (self : Cache A below.State) (live : Option A) (h : Bytes) (x y : A)
      → lookup h self.cache ≡ some y
      → view hash below self h ≡ some x
      → get_transaction hash below capacity live h self ≡ ok (x, moved self h)
  unfolding get_transaction moved
  get-hit self live h x y c g =
      let same : x ≡ y = some_injective (sym g ∙ view-cached hash below self h y c) in
      rw (c, get_transaction) (rw same refl)

  -- Where the map has a transaction of that hash, reading it returns it, keeps the invariant and
  -- changes nothing in the map. An object that is still alive is the one that the map has.
  pub get_transaction-found :
      (self : Cache A below.State) (live : Option A) (h : Bytes) (x : A)
      → IsWellFormed hash below capacity self
      → ((y : A) → live ≡ some y → view hash below self h ≡ some y)
      → hash x ≡ some h
      → view hash below self h ≡ some x
      → (self' : Cache A below.State) × (get_transaction hash below capacity live h self
          ≡ ok (x, self'))
        × IsWellFormed hash below capacity self'
        × ((k : Bytes) → view hash below self' k ≡ view hash below self k)
  unfolding get_transaction
  get_transaction-found self live h x w agrees e g = elim (Option-cases (lookup h self.cache)) [
    | inr (y, c) ↦
        (moved self h, get-hit self live h x y c g, moved-IsWellFormed self h w, moved-view self h)
    | inl n ↦ elim (Option-cases live) [
      | inr (y, l) ↦
          let same : y ≡ x = some_injective (sym (agrees y l) ∙ g) in
          let (self', f, w', v) = counted-keeps self (suc self.hit) self.miss h x e n g w in
          (self', rw (n, get_transaction) (rw l (rw same f)), w', v)
      | inl l ↦
          let (self', f, w', v) = counted-keeps self self.hit (suc self.miss) h x e n g w in
          (
            self',
            rw (n, get_transaction) (rw l (rw (sym (view-below hash below self h n) ∙ g) f)),
            w',
            v,
          )
    ]
  ]

  -- Where the map has none, reading raises TransactionDoesNotExist.
  pub get_transaction-missing :
      (self : Cache A below.State) (live : Option A) (h : Bytes)
      → ((y : A) → live ≡ some y → view hash below self h ≡ some y)
      → view hash below self h ≡ none
      → get_transaction hash below capacity live h self ≡ err transaction_does_not_exist
  unfolding get_transaction
  get_transaction-missing self live h agrees g = elim (Option-cases (lookup h self.cache)) [
    | inr (y, c) ↦ let c' : none ≡ some y = sym g ∙ view-cached hash below self h y c in cc
    | inl n ↦ elim (Option-cases live) [
      | inr (y, l) ↦ let c' : none ≡ some y = sym g ∙ agrees y l in cc
      | inl l ↦ rw (n, get_transaction) (rw l (rw (sym (view-below hash below self h n) ∙ g) refl))
    ]
  ]
