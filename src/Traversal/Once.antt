-- ===== src/Traversal/Once.antt =====
-- The visits of `BFSWalk` of hathor/transaction/storage/traversal.py.
use khathor.Prelude.{
  [], ◌∷◌, some, true, Bool, List, ℕ, ◌≡◌, ◌≢◌, All, some_injective, sym, ◌∙◌, if◌then◌else◌, ap,
  subst, Bool-cases, inl, inr, suc, ◌⊎◌, arith, zero, Option, none, refl, false, All-both,
}
use khathor.Errors.{ok, Result, >>=-eq-ok, ok-injective}
use khathor.Tx.Tokens.{Storage}
use khathor.Traversal.{
  Vertex, walk_step, Walk, add_neighbors, walk_loop, pop_visit, visit_popped, walk_run, push_visit,
}
use khathor.Traversal.Heap.{IsLeast, Sound, add_neighbors_lem, pop-Popped, pop_visit_lem}
use khathor.Bytes.{Bytes}
use khathor.Tx.Base.{Tx}
use khathor.Tx.Verify.{elem}
use khathor.Traversal.Order.{
  Sooner, NotLater, Sooner-irrefl, NotLater-trans, Sooner-weaken, Distinct, All-without,
  NotLater-refl, Ordered,
}
use khathor.Script.Eval.{Run}
use khathor.Inputs.Round.{>>>-eq-ok}
use khathor.Consensus.Steps.{elem_refl}

module _ (storage : Storage) (d : Bool) (least : List Vertex → ℕ) (heap : IsLeast d least)
    {S : Type 0} (visit : S → Vertex → Result (S × Bool)) (neighbors_at : S → Vertex → List Bytes)
    (later : (s : S) (v : Vertex)
      → storage v.0 ≡ some v.1
      → (h : Bytes) (t : Tx) → elem h (neighbors_at s v) ≡ true
      → storage h ≡ some t
      → Sooner d v.1.timestamp t.timestamp) where
  -- Another vertex, that is not visited sooner.
  abbrev pub Behind : Vertex → Vertex → Type 0
  Behind y u = (y.0 ≢ u.0) × NotLater d y.1.timestamp u.1.timestamp

  pub step_lem :
      (Q : Vertex → Type 0) (v : Vertex) (walk walk' : Walk) (s s' : S)
      → Sound storage walk
      → All Q walk.to_visit
      → ((t : S) (h : Bytes) (tx : Tx)
          → elem h (neighbors_at t v) ≡ true
          → storage h ≡ some tx
          → Q (h, tx))
      → walk_step least visit neighbors_at storage v walk s ≡ ok (s', walk')
      → Sound storage walk' × All Q walk'.to_visit
  unfolding walk_step
  step_lem Q v walk walk' s s' w a f e =
      let ((t, skip), e₁, e₂) = >>=-eq-ok (visit s v) _ e in
      let (next, e₃, e₄) =
        >>=-eq-ok (if skip then ok walk else add_neighbors storage (neighbors_at t v) walk) _ e₂ in
      let q : next ≡ walk' = ap (λ x. x.1) (ok-injective e₄) in
      elim (Bool-cases skip) [
        | inl b ↦
            let r = ok-injective (rw b at e₃) ∙ q in
            (subst (Sound storage) r w, subst (λ x. All Q x.to_visit) r a)
        | inr b ↦
            let (w', a') =
              add_neighbors_lem storage Q (neighbors_at t v) walk next w a (f t) (rw b at e₃) in
            (subst (Sound storage) q w', subst (λ x. All Q x.to_visit) q a')
      ]

  -- The neighbors of a vertex behind another one are behind it.
  pub neighbors-Behind :
      (y v : Vertex)
      → storage y.0 ≡ some y.1
      → storage v.0 ≡ some v.1
      → NotLater d y.1.timestamp v.1.timestamp
      → (t : S) (h : Bytes) (tx : Tx) → elem h (neighbors_at t v) ≡ true
      → storage h ≡ some tx
      → Behind y (h, tx)
  neighbors-Behind y v ys vs n t h tx m st =
      let s = later t v vs h tx m st in
      (
        λ q.
            let same : tx ≡ y.1 = some_injective (sym st ∙ (ap storage (sym q) ∙ ys)) in
            Sooner-irrefl d y.1.timestamp v.1.timestamp n
              (subst (λ x. Sooner d v.1.timestamp x.timestamp) same s),
        NotLater-trans d y.1.timestamp v.1.timestamp tx.timestamp n
            (Sooner-weaken d v.1.timestamp tx.timestamp s),
      )

  abbrev loop : ℕ → Walk → S → Run (S × List Vertex)
  loop = walk_loop least visit neighbors_at storage

  -- A round of the loop that visits a vertex.
  record Visit (fuel : ℕ) (walk : Walk) (s s' : S) (vs : List Vertex) : Type 0 where
    vertex : Vertex
    heap_left : Walk
    state : S
    walk_left : Walk
    others : List Vertex
    pops : pop_visit least walk ≡ some (vertex, heap_left)
    steps : walk_step least visit neighbors_at storage vertex heap_left s ≡ ok (state, walk_left)
    goes_on : loop fuel walk_left state ≡ some (ok (s', others))
    visits : vs ≡ vertex ∷ others

  popped_cases :
      (fuel : ℕ) (walk : Walk) (s s' : S) (vs : List Vertex) (o : Option (Vertex × Walk))
      → pop_visit least walk ≡ o
      → visit_popped least visit neighbors_at storage (loop fuel) s o ≡ some (ok (s', vs))
      → (vs ≡ []) ⊎ Visit fuel walk s s' vs
  unfolding visit_popped
  popped_cases fuel walk s s' vs none p e =
      inl (ap (λ x. x.1) (ok-injective (some_injective (sym e))))
  popped_cases fuel walk s s' vs (some (v, walk')) p e =
      let ((t, walk''), e₁, e₂) =
        >>>-eq-ok (some (walk_step least visit neighbors_at storage v walk' s)) _ (s', vs) e in
      let ((u, vs'), e₃, e₄) = >>>-eq-ok (loop fuel walk'' t) _ (s', vs) e₂ in
      let q = ok-injective (some_injective e₄) in
      inr (record {
        vertex = v;
        heap_left = walk';
        state = t;
        walk_left = walk'';
        others = vs';
        pops = p;
        steps = some_injective e₁;
        goes_on = subst (λ x. loop fuel walk'' t ≡ some (ok (x, vs'))) (ap (λ x. x.0) q) e₃;
        visits = sym (ap (λ x. x.1) q);
      })

  loop_cases :
      (fuel : ℕ) (walk : Walk) (s s' : S) (vs : List Vertex)
      → loop (suc fuel) walk s ≡ some (ok (s', vs))
      → (vs ≡ []) ⊎ Visit fuel walk s s' vs
  unfolding walk_loop
  loop_cases fuel walk s s' vs e = popped_cases fuel walk s s' vs (pop_visit least walk) refl e

  loop_zero :
      (walk : Walk) (s s' : S) (vs : List Vertex) → loop 0 walk s ≡ some (ok (s', vs)) → vs ≡ []
  unfolding walk_loop
  loop_zero walk s s' vs e = ground arith

  -- The vertices behind a vertex stay behind it.
  loop-Behind :
      (y : Vertex) (fuel : ℕ) (walk : Walk) (s s' : S) (vs : List Vertex)
      → storage y.0 ≡ some y.1
      → Sound storage walk
      → All (Behind y) walk.to_visit
      → loop fuel walk s ≡ some (ok (s', vs))
      → All (Behind y) vs
  loop-Behind y zero walk s s' vs ys w a e =
      subst (All (Behind y)) (sym (loop_zero walk s s' vs e)) tt
  loop-Behind y (suc fuel) walk s s' vs ys w a e = elim (loop_cases fuel walk s s' vs e) [
    | inl q ↦ subst (All (Behind y)) (sym q) tt
    | inr r ↦
        let p = pop-Popped storage d least heap walk r.heap_left r.vertex w r.pops in
        let (g, q) = pop_visit_lem storage d least heap walk r.heap_left r.vertex r.pops in
        let (b, bs) = All-without (Behind y) (least walk.to_visit) walk.to_visit r.vertex g a in
        let (w', a') =
          step_lem (Behind y) r.vertex r.heap_left r.walk_left s r.state p.sound
            (subst (λ x. All (Behind y) x.to_visit) (sym q) bs)
            (neighbors-Behind y r.vertex ys p.stored b.1) r.steps in
        subst (All (Behind y)) (sym r.visits)
          (b, loop-Behind y fuel r.walk_left r.state s' r.others ys w' a' r.goes_on)
  ]

  All-Behind_split :
      (y : Vertex) (vs : List Vertex)
      → All (Behind y) vs
      → All (λ w. y.0 ≢ w.0) vs × All (λ w. NotLater d y.1.timestamp w.1.timestamp) vs
  All-Behind_split y [] a = (tt, tt)
  All-Behind_split y (v ∷ vs) a = let (b, c) = All-Behind_split y vs a.1 in ((a.0.0, b), (a.0.1, c))

  loop-Ordered :
      (fuel : ℕ) (walk : Walk) (s s' : S) (vs : List Vertex)
      → Sound storage walk
      → loop fuel walk s ≡ some (ok (s', vs))
      → Distinct vs × Ordered d vs
  loop-Ordered zero walk s s' vs w e =
      subst (λ l. Distinct l × Ordered d l) (sym (loop_zero walk s s' vs e)) (tt, tt)
  loop-Ordered (suc fuel) walk s s' vs w e = elim (loop_cases fuel walk s s' vs e) [
    | inl q ↦ subst (λ l. Distinct l × Ordered d l) (sym q) (tt, tt)
    | inr r ↦
        let v = r.vertex in
        let p = pop-Popped storage d least heap walk r.heap_left v w r.pops in
        let behind =
          All-both (λ u. v.0 ≢ u.0) (λ u. NotLater d v.1.timestamp u.1.timestamp) (Behind v)
            r.heap_left.to_visit (λ u a b. (a, b)) p.fresh p.first in
        let (w', a') =
          step_lem (Behind v) v r.heap_left r.walk_left s r.state p.sound behind
            (neighbors-Behind v v p.stored p.stored (NotLater-refl d v.1.timestamp)) r.steps in
        let (x, y) =
          All-Behind_split v r.others
            (loop-Behind v fuel r.walk_left r.state s' r.others p.stored w' a' r.goes_on) in
        let (dis, ord) = loop-Ordered fuel r.walk_left r.state s' r.others w' r.goes_on in
        subst (λ l. Distinct l × Ordered d l) (sym r.visits) ((x, dis), (y, ord))
  ]

  pub start-Sound :
      (h : Bytes) (root : Tx)
      → storage h ≡ some root
      → Sound storage (push_visit (h, root) (record { seen = h ∷ []; to_visit = [] }))
  unfolding push_visit
  start-Sound h root q = record {
    distinct = (tt, tt);
    known = (elem_refl h [], tt);
    stored = (q, tt);
  }

  -- A walk from a stored vertex in a DAG whose timestamps grow in its direction visits no vertex
  -- twice, and visits them in the order of their timestamps, whatever the visitor skips and changes.
  pub bfs_visits_once :
      (fuel : ℕ) (h : Bytes) (root : Tx) (skip_root : Bool) (s s' : S) (vs : List Vertex)
      → storage h ≡ some root
      → walk_run least visit neighbors_at storage fuel h root skip_root s ≡ some (ok (s', vs))
      → Distinct vs × Ordered d vs
  unfolding walk_run
  bfs_visits_once fuel h root true s s' vs q e =
      let start : Walk = record { seen = h ∷ []; to_visit = [] } in
      let (walk, e₁, e₂) =
        >>>-eq-ok (some (add_neighbors storage (neighbors_at s (h, root)) start)) _ (s', vs) e in
      let (w, _) =
        add_neighbors_lem storage (λ _. Unit {0}) (neighbors_at s (h, root)) start walk
          (record { distinct = tt; known = tt; stored = tt }) tt (λ k t m st. tt)
          (some_injective e₁) in
      loop-Ordered fuel walk s s' vs w e₂
  bfs_visits_once fuel h root false s s' vs q e =
      loop-Ordered fuel (push_visit (h, root) (record { seen = h ∷ []; to_visit = [] })) s s' vs
        (start-Sound h root q) e
