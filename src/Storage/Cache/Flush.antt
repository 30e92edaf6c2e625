-- ===== src/Storage/Cache/Flush.antt =====
-- The writing of the dirty transactions of hathor/transaction/storage/cache_storage.py.
use khathor.Prelude.{
  refl, none, some, Option, ℕ, ◌≡◌, if◌then◌else◌, ap, ◌∙◌, sym, Option-cases, inr, inl, Bool-cases,
  some_injective, List, false, true_ne_false, true, ◌∷◌, [],
}
use khathor.Errors.{ok}
use khathor.Dict.{lookup, is_some, discard, member}
use khathor.Dict.Laws.{at_key, member-discard}
use khathor.Storage.{Store, IsStore}
use khathor.Storage.Cache.{
  flush_one, flush_take, flush_put, flush_to_storage, flush_all, Cache, store_save,
}
use khathor.Storage.Cache.Invariant.{view, IsWellFormed, view-below, view-cached, view-eq}
use khathor.Bytes.{Bytes, bytes_eq}
use khathor.Bytes.Laws.{eq_of_bytes_eq}

module _ {A : Type 0} (hash : A → Option Bytes) (below : Store A) (law : IsStore hash below)
    (capacity : ℕ) where
  -- The state behind one round, for the hash `h`.
  record Flushed (self self' : Cache A below.State) (h : Bytes) : Type 0 where
    well_formed : IsWellFormed hash below capacity self'
    same_view : (k : Bytes) → view hash below self' k ≡ view hash below self k
    not_dirty :
        (k : Bytes)
        → member k self'.dirty_txs ≡ (if bytes_eq k h then false else member k self.dirty_txs)

  module _ (self : Cache A below.State) (h : Bytes) (tx : A) (s : below.State)
      (w : IsWellFormed hash below capacity self) (c : lookup h self.cache ≡ some tx)
      (f : below.save_transaction tx self.store ≡ ok s) where
    written : Cache A below.State
    written = record self { dirty_txs = discard h self.dirty_txs; store = s }

    stored :
        (k : Bytes)
        → below.get_transaction k s
          ≡ (if bytes_eq k h then some tx else below.get_transaction k self.store)
    stored k = law.get-save tx h k self.store s (w.keyed h tx c) f

    written-view : (k : Bytes) → view hash below written k ≡ view hash below self k
    unfolding written
    written-view k = elim (Bool-cases (bytes_eq k h)) [
      | inl q ↦
          let g : lookup k self.cache ≡ some tx =
            ap (λ b. lookup b self.cache) (eq_of_bytes_eq k h q) ∙ c in
          view-cached hash below written k tx g ∙ sym (view-cached hash below self k tx g)
      | inr q ↦ view-eq hash below self written k refl (rw q at (stored k))
    ]

    written-Flushed : Flushed self written h
    unfolding written
    written-Flushed = record {
      well_formed = record {
        distinct = w.distinct;
        bounded = w.bounded;
        keyed = w.keyed;
        clean = λ k x g m. elim (Bool-cases (bytes_eq k h)) [
          | inl q ↦
              let same : x ≡ tx =
                some_injective (sym g ∙ ap (λ b. lookup b self.cache) (eq_of_bytes_eq k h q) ∙ c) in
              rw q at (stored k) ∙ ap some (sym same)
          | inr q ↦
              rw q at (stored k)
              ∙ w.clean k x g (sym (rw q at (member-discard k h self.dirty_txs)) ∙ m)
        ];
        dirty_cached = λ k m. elim (Bool-cases (bytes_eq k h)) [
          | inl q ↦ absurd (true_ne_false (sym m ∙ rw q at (member-discard k h self.dirty_txs)))
          | inr q ↦ w.dirty_cached k (sym (rw q at (member-discard k h self.dirty_txs)) ∙ m)
        ];
      };
      same_view = written-view;
      not_dirty = λ k. member-discard k h self.dirty_txs;
    }

  absent-Flushed :
      (self : Cache A below.State) (h : Bytes)
      → IsWellFormed hash below capacity self
      → lookup h self.cache ≡ none
      → Flushed self self h
  unfolding is_some
  absent-Flushed self h w n =
      let clean : member h self.dirty_txs ≡ false = elim (Bool-cases (member h self.dirty_txs)) [
        | inl m ↦ absurd (true_ne_false (sym (w.dirty_cached h m) ∙ ap is_some n))
        | inr m ↦ m
      ] in
      record {
        well_formed = w;
        same_view = λ k. refl;
        not_dirty = λ k. at_key (λ b. member b self.dirty_txs) k h false clean;
      }

  flush_one-Flushed :
      (self : Cache A below.State) (h : Bytes)
      → IsWellFormed hash below capacity self
      → (self' : Cache A below.State) × (flush_one hash below h self ≡ ok self')
        × Flushed self self' h
  unfolding flush_one flush_take flush_put store_save written
  flush_one-Flushed self h w = elim (Option-cases (lookup h self.cache)) [
    | inl n ↦ (self, rw (n, flush_one, flush_take) refl, absent-Flushed self h w n)
    | inr (tx, c) ↦
        let (s, f) = law.save-total tx h self.store (w.keyed h tx c) in
        (
          written self h tx s w c f,
          rw (c, flush_one, flush_take) (rw f refl),
          written-Flushed self h tx s w c f,
        )
  ]

  flush_loop :
      (hashes : List Bytes) (self : Cache A below.State)
      → IsWellFormed hash below capacity self
      → (self' : Cache A below.State) × (flush_to_storage hash below hashes self ≡ ok self')
        × IsWellFormed hash below capacity self'
        × ((k : Bytes) → view hash below self' k ≡ view hash below self k)
        × ((k : Bytes)
            → member k self'.dirty_txs ≡ true
            → (member k self.dirty_txs ≡ true) × (member k hashes ≡ false))
  unfolding flush_to_storage member
  flush_loop [] self w = (self, refl, w, λ k. refl, λ k m. (m, refl))
  flush_loop (h ∷ hashes) self w =
      let (self₁, f, r) = flush_one-Flushed self h w in
      let (self₂, g, w₂, v, d) = flush_loop hashes self₁ r.well_formed in
      (
        self₂,
        rw f g,
        w₂,
        λ k. v k ∙ r.same_view k,
        λ k m.
            let (x, y) = d k m in
            elim (Bool-cases (bytes_eq k h)) [
              | inl q ↦ absurd (true_ne_false (sym x ∙ rw q at (r.not_dirty k)))
              | inr q ↦ (sym (rw q at (r.not_dirty k)) ∙ x, rw q y)
            ],
      )

  -- The flush changes nothing that can be read.
  pub flush_all-view :
      (self : Cache A below.State)
      → IsWellFormed hash below capacity self
      → (self' : Cache A below.State) × (flush_all hash below self ≡ ok self')
        × IsWellFormed hash below capacity self'
        × ((k : Bytes) → view hash below self' k ≡ view hash below self k)
  unfolding flush_all
  flush_all-view self w =
      let (self', f, w', v, _) = flush_loop self.dirty_txs self w in (self', f, w', v)

  -- Flushing the dirty transactions loses nothing: it returns without an error, the storage below has
  -- from then on the transaction of every hash that the storage had, cached or not, none is dirty,
  -- and the invariant holds on.
  pub flush_all_writes_everything :
      (self : Cache A below.State)
      → IsWellFormed hash below capacity self
      → (self' : Cache A below.State) × (flush_all hash below self ≡ ok self')
        × IsWellFormed hash below capacity self'
        × ((k : Bytes) → member k self'.dirty_txs ≡ false)
        × ((k : Bytes) → below.get_transaction k self'.store ≡ view hash below self k)
  unfolding flush_all
  flush_all_writes_everything self w =
      let (self', f, w', v, d) = flush_loop self.dirty_txs self w in
      let none_dirty : (k : Bytes) → member k self'.dirty_txs ≡ false = λ k.
        elim (Bool-cases (member k self'.dirty_txs)) [
          | inl m ↦ let (x, y) = d k m in absurd (true_ne_false (sym x ∙ y))
          | inr m ↦ m
        ] in
      (
        self',
        f,
        w',
        none_dirty,
        λ k.
            elim (Option-cases (lookup k self'.cache)) [
              | inl n ↦ sym (view-below hash below self' k n)
              | inr (x, g) ↦
                  w'.clean k x g (none_dirty k) ∙ sym (view-cached hash below self' k x g)
            ]
            ∙ v k,
      )
