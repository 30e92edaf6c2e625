-- ===== src/Storage/Cache/Update.antt =====
-- The state behind `_update_cache` of hathor/transaction/storage/cache_storage.py.
use khathor.Prelude.{
  refl, none, some, true, false, inl, inr, Option, ℕ, ◌<◌, ◌≡◌, length, ◌≤◌, Bool-cases,
  if◌then◌else◌, ◌⊎◌, ap, some_injective, ◌∙◌, sym, or_false, Option-cases, arith, true_ne_false,
}
use khathor.Errors.{ok}
use khathor.Dict.{lookup, insert, move_to_end, is_some, member, add}
use khathor.Dict.Laws.{
  Distinct, lookup-insert, lookup-move_to_end, member-add, insert-Distinct, move_to_end-Distinct,
  length-move_to_end, length-insert_found, length-insert,
}
use khathor.Storage.{Store, IsStore, asserted}
use khathor.Storage.Cache.{Cache, update_cache, place}
use khathor.Storage.Cache.Invariant.{view, IsWellFormed, view-cached, view-eq}
use khathor.Storage.Cache.Evict.{make_room-MadeRoom}
use khathor.Bytes.{Bytes, bytes_eq}
use khathor.Bytes.Laws.{eq_of_bytes_eq}

module _ {A : Type 0} (hash : A → Option Bytes) (below : Store A) (law : IsStore hash below)
    (capacity : ℕ) (pos : 0 < capacity) where
  -- The state behind `update_cache`, in terms of one that has the same view: the transaction `tx` of
  -- the hash `h` is in the cache, and nothing else enters it.
  pub record Updated (base self' : Cache A below.State) (h : Bytes) (tx : A) : Type 0 where
    pub base_well_formed : IsWellFormed hash below capacity base
    pub distinct : Distinct self'.cache
    pub bounded : length self'.cache ≤ capacity
    pub entries :
        (k : Bytes) → lookup k self'.cache ≡ (if bytes_eq k h then some tx else lookup k base.cache)
    pub same_store : self'.store ≡ base.store
    pub same_dirty : self'.dirty_txs ≡ base.dirty_txs

  module _ (base self' : Cache A below.State) (h : Bytes) (tx : A) (e : hash tx ≡ some h)
      (u : Updated base self' h tx) where
    entry :
        (k : Bytes) (x : A)
        → lookup k self'.cache ≡ some x
        → ((bytes_eq k h ≡ true) × (x ≡ tx))
          ⊎ ((bytes_eq k h ≡ false) × (lookup k base.cache ≡ some x))
    entry k x g = elim (Bool-cases (bytes_eq k h)) [
      | inl q ↦ inl (q, some_injective (sym g ∙ rw q at (u.entries k)))
      | inr q ↦ inr (q, sym (rw q at (u.entries k)) ∙ g)
    ]

    below_same :
        (k : Bytes) → below.get_transaction k self'.store ≡ below.get_transaction k base.store
    below_same k = ap (below.get_transaction k) u.same_store

    dirty_same : (k : Bytes) → member k self'.dirty_txs ≡ member k base.dirty_txs
    dirty_same k = ap (member k) u.same_dirty

    updated_keyed : (k : Bytes) (x : A) → lookup k self'.cache ≡ some x → hash x ≡ some k
    updated_keyed k x g = elim (entry k x g) [
      | inl (p, q) ↦ rw (eq_of_bytes_eq k h p, q) e
      | inr (q, f) ↦ u.base_well_formed.keyed k x f
    ]

    stays :
        (k : Bytes) → is_some (lookup k base.cache) ≡ true → is_some (lookup k self'.cache) ≡ true
    unfolding is_some
    stays k g = elim (Bool-cases (bytes_eq k h)) [
      | inl q ↦ ap is_some (rw q at (u.entries k))
      | inr q ↦ ap is_some (rw q at (u.entries k)) ∙ g
    ]

    kept_clean :
        (k : Bytes) (x : A)
        → lookup k base.cache ≡ some x
        → member k self'.dirty_txs ≡ false
        → below.get_transaction k self'.store ≡ some x
    kept_clean k x f m = below_same k ∙ u.base_well_formed.clean k x f (sym (dirty_same k) ∙ m)

    pub updated-view :
        (k : Bytes)
        → view hash below self' k ≡ (if bytes_eq k h then some tx else view hash below base k)
    updated-view k = elim (Bool-cases (bytes_eq k h)) [
      | inl q ↦ rw q (view-cached hash below self' k tx (rw q at (u.entries k)))
      | inr q ↦ rw q (view-eq hash below base self' k (rw q at (u.entries k)) (below_same k))
    ]

    -- Marked as dirty, the state keeps the invariant.
    unfoldable pub dirty : Cache A below.State
    dirty = record self' { dirty_txs = add h self'.dirty_txs }

    pub dirty-IsWellFormed : IsWellFormed hash below capacity dirty
    unfolding dirty is_some
    dirty-IsWellFormed = record {
      distinct = u.distinct;
      bounded = u.bounded;
      keyed = updated_keyed;
      clean = λ k x g m.
          let (a, b) = or_false _ _ (sym (member-add k h self'.dirty_txs) ∙ m) in
          elim (entry k x g) [
            | inl (t, q) ↦ absurd (true_ne_false (sym t ∙ a))
            | inr (q, f) ↦ kept_clean k x f b
          ];
      dirty_cached = λ k m. elim (Bool-cases (bytes_eq k h)) [
        | inl q ↦ ap is_some (rw q at (u.entries k))
        | inr q ↦ stays k (
            u.base_well_formed.dirty_cached k
              (sym (dirty_same k) ∙ sym (rw q at (member-add k h self'.dirty_txs)) ∙ m))
      ];
    }

    pub dirty-view :
        (k : Bytes)
        → view hash below dirty k ≡ (if bytes_eq k h then some tx else view hash below base k)
    unfolding dirty view
    dirty-view k = updated-view k

    -- Where the storage below has the transaction already, it need not be dirty.
    pub clean-IsWellFormed :
        below.get_transaction h base.store ≡ some tx → IsWellFormed hash below capacity self'
    clean-IsWellFormed g = record {
      distinct = u.distinct;
      bounded = u.bounded;
      keyed = updated_keyed;
      clean = λ k x f m. elim (entry k x f) [
        | inl (t, q) ↦ below_same k ∙ rw (eq_of_bytes_eq k h t, q) g
        | inr (q, f') ↦ kept_clean k x f' m
      ];
      dirty_cached = λ k m. stays k (u.base_well_formed.dirty_cached k (sym (dirty_same k) ∙ m));
    }

  -- `place` returns such a state.
  pub place-Updated :
      (self : Cache A below.State) (h : Bytes) (tx : A)
      → hash tx ≡ some h
      → IsWellFormed hash below capacity self
      → (base : Cache A below.State) × (self' : Cache A below.State) × (place hash below capacity tx
            h self
          ≡ ok self')
        × Updated base self' h tx
        × ((k : Bytes) → view hash below base k ≡ view hash below self k)
        × (lookup h self.cache ≡ none → lookup h base.cache ≡ none)
  unfolding place
  place-Updated self h tx e w = elim (Option-cases (lookup h self.cache)) [
    | inl n ↦
        let (base, f, r) = make_room-MadeRoom hash below law capacity self pos w in
        (
          base,
          record base { cache = insert h tx base.cache },
          rw (n, place) (rw f refl),
          record {
            base_well_formed = r.well_formed;
            distinct = insert-Distinct h tx base.cache r.well_formed.distinct;
            bounded = omega (arith, length-insert h tx base.cache, r.free);
            entries = λ k. lookup-insert k h tx base.cache;
            same_store = refl;
            same_dirty = refl;
          },
          r.same_view,
          r.absent h,
        )
    | inr (x, g) ↦ (
      self,
      record self { cache = move_to_end h (insert h tx self.cache) },
      rw (g, place) refl,
      record {
        base_well_formed = w;
        distinct =
            move_to_end-Distinct h (insert h tx self.cache)
              (insert-Distinct h tx self.cache w.distinct);
        bounded = omega (
          arith,
          length-move_to_end h (insert h tx self.cache),
          length-insert_found h tx self.cache x g,
          w.bounded,
        );
        entries =
            λ k. lookup-move_to_end k h (insert h tx self.cache) ∙ lookup-insert k h tx self.cache;
        same_store = refl;
        same_dirty = refl;
      },
      λ k. refl,
      λ n. n,
    )
  ]

  pub update_cache-place :
      (self : Cache A below.State) (h : Bytes) (tx : A)
      → hash tx ≡ some h
      → update_cache hash below capacity tx self ≡ place hash below capacity tx h self
  unfolding update_cache asserted
  update_cache-place self h tx e = rw (e, asserted) refl
