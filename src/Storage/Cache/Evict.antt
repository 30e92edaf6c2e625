-- ===== src/Storage/Cache/Evict.antt =====
-- Making room in the cache of hathor/transaction/storage/cache_storage.py: what an eviction keeps.
use khathor.Prelude.{
  ◌∷◌, refl, none, some, false, suc, inl, inr, Option, ℕ, List, ◌≡◌, Bool-cases, ◌<◌, if◌then◌else◌,
  leb, ◌≤◌, length, leb→le, ◌∙◌, sym, ap, List-cases, true_ne_false, arith,
}
use khathor.Errors.{ok}
use khathor.Dict.{Dict, lookup, is_some, member, discard}
use khathor.Dict.Laws.{Distinct, at_key, member-discard}
use khathor.Storage.{Store, IsStore}
use khathor.Storage.Cache.{Cache, store_save, write_back, evict, make_room}
use khathor.Storage.Cache.Invariant.{view, IsWellFormed, view-cached, view-below, view-eq, MadeRoom}
use khathor.Bytes.{Bytes, bytes_eq}
use khathor.Bytes.Laws.{bytes_eq_refl, eq_of_bytes_eq}

module _ {A : Type 0} (hash : A → Option Bytes) (below : Store A) (law : IsStore hash below) where
  -- The state behind the writing of the transaction `tx` of the hash `h`.
  record Written (self : Cache A below.State) (h : Bytes) (tx : A) (d : List Bytes)
      (s : below.State) : Type 0 where
    not_dirty : (k : Bytes) → member k d ≡ (if bytes_eq k h then false else member k self.dirty_txs)
    stored :
        (k : Bytes)
        → below.get_transaction k s
          ≡ (if bytes_eq k h then some tx else below.get_transaction k self.store)

  write_back-Written :
      (self : Cache A below.State) (h : Bytes) (tx : A)
      → hash tx ≡ some h
      → (member h self.dirty_txs ≡ false → below.get_transaction h self.store ≡ some tx)
      → (d : List Bytes) × (s : below.State) × (write_back hash below tx self
          ≡ ok (record self { dirty_txs = d; store = s }))
        × Written self h tx d s
  unfolding write_back store_save
  write_back-Written self h tx e clean = elim (Bool-cases (member h self.dirty_txs)) [
    | inl m ↦
        let (s, f) = law.save-total tx h self.store e in
        (
          discard h self.dirty_txs,
          s,
          rw (e, write_back) (rw m (rw f refl)),
          record {
            not_dirty = λ k. member-discard k h self.dirty_txs;
            stored = λ k. law.get-save tx h k self.store s e f;
          },
        )
    | inr m ↦ (
      self.dirty_txs,
      self.store,
      rw (e, write_back) (rw m refl),
      record {
        not_dirty = λ k. at_key (λ b. member b self.dirty_txs) k h false m;
        stored = λ k. at_key (λ b. below.get_transaction b self.store) k h (some tx) (clean m);
      },
    )
  ]

  first : (h : Bytes) (tx : A) (rest : Dict A) → lookup h ((h, tx) ∷ rest) ≡ some tx
  unfolding lookup
  first h tx rest = rw (bytes_eq_refl h) refl

  -- The entries behind the first one.
  behind :
      (k h : Bytes) (tx : A) (rest : Dict A)
      → lookup h rest ≡ none
      → lookup k rest ≡ (if bytes_eq k h then none else lookup k ((h, tx) ∷ rest))
  unfolding lookup
  behind k h tx rest n = elim (Bool-cases (bytes_eq k h)) [
    | inl e ↦ rw e (ap (λ b. lookup b rest) (eq_of_bytes_eq k h e) ∙ n)
    | inr e ↦ rw e refl
  ]

  module _ (self : Cache A below.State) (h : Bytes) (tx : A) (rest : Dict A) (d : List Bytes)
      (s : below.State)
      (erased : (k : Bytes) → lookup k rest ≡ (if bytes_eq k h then none else lookup k self.cache))
      (r : Written self h tx d s) where
    popped : Cache A below.State
    popped = record self { cache = rest; dirty_txs = d; store = s }

    found :
        (k : Bytes) (x : A)
        → lookup k rest ≡ some x
        → (bytes_eq k h ≡ false) × (lookup k self.cache ≡ some x)
    found k x g = elim (Bool-cases (bytes_eq k h)) [
      | inl e ↦ let c : none ≡ some x = sym (rw e at (erased k)) ∙ g in cc
      | inr e ↦ (e, sym (rw e at (erased k)) ∙ g)
    ]

    popped-IsWellFormed :
        (capacity : ℕ)
        → length rest ≤ capacity
        → Distinct rest
        → IsWellFormed hash below capacity self
        → IsWellFormed hash below capacity popped
    unfolding popped
    popped-IsWellFormed capacity short distinct w = record {
      distinct = distinct;
      bounded = short;
      keyed = λ k x g. w.keyed k x (found k x g).1;
      clean = λ k x g m.
          let (e, f) = found k x g in
          rw (r.stored k) (rw e (w.clean k x f (sym (rw e at (r.not_dirty k)) ∙ m)));
      dirty_cached = λ k m. elim (Bool-cases (bytes_eq k h)) [
        | inl e ↦ absurd (true_ne_false (sym m ∙ rw e at (r.not_dirty k)))
        | inr e ↦
            ap is_some (rw e at (erased k)) ∙ w.dirty_cached k (sym (rw e at (r.not_dirty k)) ∙ m)
      ];
    }

    popped-view :
        lookup h self.cache ≡ some tx
        → (k : Bytes) → view hash below popped k ≡ view hash below self k
    unfolding popped
    popped-view g k = elim (Bool-cases (bytes_eq k h)) [
      | inl e ↦
          view-below hash below popped k (rw e at (erased k))
          ∙ rw e at (r.stored k)
          ∙ sym (view-cached hash below self k tx (rw (← eq_of_bytes_eq k h e) at g))
      | inr e ↦ view-eq hash below self popped k (rw e at (erased k)) (rw e at (r.stored k))
    ]

  evict_first :
      (capacity : ℕ) (self : Cache A below.State)
      → 0 < capacity
      → IsWellFormed hash below capacity self
      → (h : Bytes) (tx : A) (rest : Dict A) → self.cache ≡ (h, tx) ∷ rest
      → (self' : Cache A below.State) × (evict hash below self ≡ ok self')
        × MadeRoom hash below capacity self self'
  unfolding evict Distinct popped
  evict_first capacity self pos w h tx rest e =
      let u : Distinct ((h, tx) ∷ rest) = rw e at w.distinct in
      let g : lookup h self.cache ≡ some tx = rw e (first h tx rest) in
      let short : suc (length rest) ≤ capacity =
        let l : length self.cache ≡ suc (length rest) = ap length e in
        omega (arith, w.bounded, l) in
      let erased : (k : Bytes)
          → lookup k rest ≡ (if bytes_eq k h then none else lookup k self.cache) =
        λ k. behind k h tx rest u.0 ∙ ap (λ c. if bytes_eq k h then none else lookup k c) (sym e) in
      let (d, s, f, r) =
        write_back-Written (record self { cache = rest }) h tx (w.keyed h tx g) (w.clean h tx g) in
      let r' : Written self h tx d s = record { not_dirty = r.not_dirty; stored = r.stored } in
      (
        popped self h tx rest d s erased r',
        rw (e, evict) f,
        record {
          well_formed =
              popped-IsWellFormed self h tx rest d s erased r' capacity (omega (arith, short)) u.1
                w;
          same_view = popped-view self h tx rest d s erased r' g;
          absent = λ k n. rw n at (erased k) ∙ sym (at_key (λ _. none) k h none refl);
          free = short;
        },
      )

  pub evict-MadeRoom :
      (capacity : ℕ) (self : Cache A below.State)
      → 0 < capacity
      → capacity ≤ length self.cache
      → IsWellFormed hash below capacity self
      → (self' : Cache A below.State) × (evict hash below self ≡ ok self')
        × MadeRoom hash below capacity self self'
  evict-MadeRoom capacity self pos full w = elim (List-cases self.cache) [
    | inl e ↦ let n : length self.cache ≡ 0 = ap length e in absurd (omega (arith, n))
    | inr ((h, tx), rest, e) ↦ evict_first capacity self pos w h tx rest e
  ]

  -- Room for one more, where the cache is full.
  pub make_room-MadeRoom :
      (capacity : ℕ) (self : Cache A below.State)
      → 0 < capacity
      → IsWellFormed hash below capacity self
      → (self' : Cache A below.State) × (make_room hash below capacity self ≡ ok self')
        × MadeRoom hash below capacity self self'
  unfolding make_room
  make_room-MadeRoom capacity self pos w = elim (Bool-cases (leb capacity (length self.cache))) [
    | inl full ↦ rw full (evict-MadeRoom capacity self pos (leb→le _ _ full) w)
    | inr room ↦ rw room (
      self,
      refl,
      record {
        well_formed = w;
        same_view = λ k. refl;
        absent = λ k n. n;
        free = ground (arith, room);
      },
    )
  ]
