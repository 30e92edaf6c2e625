-- ===== src/Traversal/Heap.antt =====
-- The heap of `BFSWalk` of hathor/transaction/storage/traversal.py.
use khathor.Prelude.{
  [], ◌∷◌, some, true, false, Bool, List, ◌≡◌, ℕ, All, ◌≢◌, Bool-cases, get_elem?, subst, inl, inr,
  or_true, true_ne_false, arith, sym, ◌∙◌, ap, some_injective, All-both, All_unit,
}
use khathor.Errors.{ok, ok-injective, >>=-eq-ok}
use khathor.Tx.Tokens.{Storage, get_transaction}
use khathor.Traversal.{
  add_neighbors, Walk, add_neighbor, push_visit, Vertex, key_lt, pop_visit, remove_hash,
}
use khathor.Tx.Verify.{elem}
use khathor.Bytes.{Bytes, bytes_eq}
use khathor.Traversal.Order.{
  Distinct, NotLater, Distinct-without, All-without, without, key_lt-NotLater, elem-remove_hash,
}
use khathor.Tx.Base.{Tx}
use khathor.Consensus.Steps.{elem_refl, elem_more}

-- What `heapq` documents: it pops an item that is not larger than any other.
pub record IsLeast (d : Bool) (least : List Vertex → ℕ) : Type 0 where
  pub popped :
      (x : Vertex) (xs : List Vertex)
      → (v : Vertex) × (get_elem? (x ∷ xs) (least (x ∷ xs)) ≡ some v)
        × All (λ w. key_lt d w.1.timestamp v.1.timestamp ≡ false) (x ∷ xs)

module _ (storage : Storage) where
  -- The heap holds stored vertices, none twice, and their hashes are seen.
  pub record Sound (walk : Walk) : Type 0 where
    pub distinct : Distinct walk.to_visit
    pub known : All (λ v. elem v.0 walk.seen ≡ true) walk.to_visit
    pub stored : All (λ v. storage v.0 ≡ some v.1) walk.to_visit

  unseen :
      (h : Bytes) (seen : List Bytes) (vs : List Vertex)
      → elem h seen ≡ false
      → All (λ v. elem v.0 seen ≡ true) vs
      → All (λ v. h ≢ v.0) vs
  unseen h seen [] e k = tt
  unseen h seen (v ∷ vs) e k =
      (λ q. true_ne_false (sym k.0 ∙ (ap (λ x. elem x seen) (sym q) ∙ e)), unseen h seen vs e k.1)

  seen_more :
      (h : Bytes) (seen : List Bytes) (vs : List Vertex)
      → All (λ v. elem v.0 seen ≡ true) vs
      → All (λ v. elem v.0 (h ∷ seen) ≡ true) vs
  unfolding elem
  seen_more h seen [] k = tt
  seen_more h seen (v ∷ vs) k = (rw k.0 (or_true (bytes_eq v.0 h)), seen_more h seen vs k.1)

  pub push-Sound :
      (h : Bytes) (t : Tx) (walk : Walk)
      → Sound walk
      → elem h walk.seen ≡ false
      → storage h ≡ some t
      → Sound (push_visit (h, t) (record walk { seen = h ∷ walk.seen }))
  unfolding push_visit
  push-Sound h t walk w e q = record {
    distinct = (unseen h walk.seen walk.to_visit e w.known, w.distinct);
    known = (elem_refl h walk.seen, seen_more h walk.seen walk.to_visit w.known);
    stored = (q, w.stored);
  }

  get-stored : (h : Bytes) (t : Tx) → get_transaction storage h ≡ ok t → storage h ≡ some t
  unfolding get_transaction
  get-stored h t e = ground arith

  -- A property of the vertices of the heap that the added ones have too.
  add_neighbor_lem :
      (Q : Vertex → Type 0) (h : Bytes) (walk walk' : Walk)
      → Sound walk
      → All Q walk.to_visit
      → ((t : Tx) → storage h ≡ some t → Q (h, t))
      → add_neighbor storage h walk ≡ ok walk'
      → Sound walk' × All Q walk'.to_visit
  unfolding add_neighbor push_visit
  add_neighbor_lem Q h walk walk' w a f e = elim (Bool-cases (elem h walk.seen)) [
    | inl b ↦
        let q = ok-injective (rw b at e) in (subst Sound q w, subst (λ x. All Q x.to_visit) q a)
    | inr b ↦
        let (t, g, e') = >>=-eq-ok (get_transaction storage h) _ (rw b at e) in
        let q = ok-injective e' in
        let st = get-stored h t g in
        (subst Sound q (push-Sound h t walk w b st), subst (λ x. All Q x.to_visit) q (f t st, a))
  ]

  pub add_neighbors_lem :
      (Q : Vertex → Type 0) (hs : List Bytes) (walk walk' : Walk)
      → Sound walk
      → All Q walk.to_visit
      → ((h : Bytes) (t : Tx) → elem h hs ≡ true → storage h ≡ some t → Q (h, t))
      → add_neighbors storage hs walk ≡ ok walk'
      → Sound walk' × All Q walk'.to_visit
  unfolding add_neighbors
  add_neighbors_lem Q [] walk walk' w a f e =
      let q = ok-injective e in (subst Sound q w, subst (λ x. All Q x.to_visit) q a)
  add_neighbors_lem Q (h ∷ hs) walk walk' w a f e =
      let (next, e₁, e₂) = >>=-eq-ok (add_neighbor storage h walk) _ e in
      let (w', a') = add_neighbor_lem Q h walk next w a (λ t q. f h t (elem_refl h hs) q) e₁ in
      add_neighbors_lem Q hs next walk' w' a' (λ k t m q. f k t (elem_more k h hs m) q) e₂

  module _ (d : Bool) (least : List Vertex → ℕ) (heap : IsLeast d least) where
    -- What the pop of a vertex leaves, and what it knows of the vertex.
    pub record Popped (walk : Walk) (v : Vertex) (walk' : Walk) : Type 0 where
      pub sound : Sound walk'
      pub stored : storage v.0 ≡ some v.1
      pub fresh : All (λ w. v.0 ≢ w.0) walk'.to_visit
      pub first : All (λ w. NotLater d v.1.timestamp w.1.timestamp) walk'.to_visit

    pub pop_visit_lem :
        (walk walk' : Walk) (v : Vertex)
        → pop_visit least walk ≡ some (v, walk')
        → (get_elem? walk.to_visit (least walk.to_visit) ≡ some v)
          × (walk' ≡ record {
            seen = remove_hash v.0 walk.seen;
            to_visit = without (least walk.to_visit) walk.to_visit;
          })
    unfolding pop_visit
    pop_visit_lem walk walk' v e = ground arith

    pop_least :
        (vs : List Vertex) (v : Vertex)
        → get_elem? vs (least vs) ≡ some v
        → All (λ w. NotLater d v.1.timestamp w.1.timestamp) vs
    pop_least [] v e = tt
    pop_least (x ∷ xs) v e =
        let (u, e', a) = heap.popped x xs in
        let q = some_injective (sym e' ∙ e) in
        subst (λ z. All (λ w. NotLater d z.1.timestamp w.1.timestamp) (x ∷ xs)) q
          (All-both (λ w. key_lt d w.1.timestamp u.1.timestamp ≡ false) (λ w. Unit {0})
            (λ w. NotLater d u.1.timestamp w.1.timestamp) (x ∷ xs)
            (λ w k _. key_lt-NotLater d u.1.timestamp w.1.timestamp k) a (All_unit (x ∷ xs)))

    pub pop-Popped :
        (walk walk' : Walk) (v : Vertex)
        → Sound walk
        → pop_visit least walk ≡ some (v, walk')
        → Popped walk v walk'
    pop-Popped walk walk' v w e =
        let (g, q) = pop_visit_lem walk walk' v e in
        let i = least walk.to_visit in
        let (fresh, distinct) = Distinct-without i walk.to_visit v g w.distinct in
        let (_, known) = All-without (λ u. elem u.0 walk.seen ≡ true) i walk.to_visit v g w.known in
        let (st, stored) = All-without (λ u. storage u.0 ≡ some u.1) i walk.to_visit v g w.stored in
        let (_, first) =
          All-without (λ u. NotLater d v.1.timestamp u.1.timestamp) i walk.to_visit v g
            (pop_least walk.to_visit v g) in
        subst (Popped walk v) (sym q) (record {
          sound = record {
            distinct = distinct;
            known =
                All-both (λ u. v.0 ≢ u.0) (λ u. elem u.0 walk.seen ≡ true)
                  (λ u. elem u.0 (remove_hash v.0 walk.seen) ≡ true) (without i walk.to_visit)
                  (λ u ne k. elem-remove_hash u.0 v.0 walk.seen ne k) fresh known;
            stored = stored;
          };
          stored = st;
          fresh = fresh;
          first = first;
        })
