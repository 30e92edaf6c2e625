-- ===== src/Traversal/Terminates.antt =====
-- The end of a walk of hathor/transaction/storage/traversal.py.
use khathor.Prelude.{
  [], ◌∷◌, refl, none, some, true, List, Bool, ◌≡◌, ℕ, length, All, ◌≤◌, ◌<◌, arith, ◌≢◌, Option,
  some_injective, sym, ◌+◌, suc, zero, subst, false, All-both,
}
use khathor.Errors.{ok, err, Result}
use khathor.Tx.Tokens.{Storage}
use khathor.Script.Eval.{Run, ◌>>>◌}
use khathor.Traversal.{
  remove_hash, Vertex, visit_popped, Walk, walk_step, pop_visit, walk_loop, walk_run, add_neighbors,
  push_visit,
}
use khathor.Tx.Verify.{elem}
use khathor.Bytes.{Bytes}
use khathor.Traversal.Order.{
  Distinct, Sooner, elem-remove_hash, NotLater, All-without, NotLater-refl,
}
use khathor.Traversal.Heap.{IsLeast, Sound, pop-Popped, pop_visit_lem, add_neighbors_lem}
use khathor.Tx.Base.{Tx}
use khathor.Traversal.Once.{Behind, step_lem, start-Sound, neighbors-Behind}

length-remove_hash : (h : Bytes) (hs : List Bytes) → length (remove_hash h hs) ≤ length hs
unfolding remove_hash
length-remove_hash h [] = omega arith
length-remove_hash h (x ∷ hs) = ground (arith, length-remove_hash h hs)

length-remove_hash_lt :
    (h : Bytes) (hs : List Bytes) → elem h hs ≡ true → length (remove_hash h hs) < length hs
unfolding remove_hash elem
length-remove_hash_lt h [] e = cc
length-remove_hash_lt h (x ∷ hs) e =
    ground (arith, length-remove_hash h hs, length-remove_hash_lt h hs)

-- Different vertices whose hashes are in a list are not more than the list has elements.
length-Distinct :
    (vs : List Vertex) (hs : List Bytes)
    → Distinct vs
    → All (λ v. elem v.0 hs ≡ true) vs
    → length vs ≤ length hs
length-Distinct [] hs d a = omega arith
length-Distinct (v ∷ vs) hs d a =
    let rest = length-Distinct vs (remove_hash v.0 hs) d.1 (
      All-both (λ w. v.0 ≢ w.0) (λ w. elem w.0 hs ≡ true)
        (λ w. elem w.0 (remove_hash v.0 hs) ≡ true) vs (λ w ne k. elem-remove_hash w.0 v.0 hs ne k)
        d.0 a.1) in
    omega (arith, rest, length-remove_hash_lt v.0 hs a.0)

abbrev pub Returns : {A : Type 0} → Run A → Type 0
Returns {A} r = (x : Result A) × (r ≡ some x)

>>>-Returns :
    {A B : Type 0} (r : Run A) (k : A → Run B)
    → Returns r
    → ((a : A) → r ≡ some (ok a) → Returns (k a))
    → Returns (r >>> k)
>>>-Returns none k (x, q) f = cc
>>>-Returns (some (err e)) k h f = (err e, refl)
>>>-Returns (some (ok a)) k h f = f a refl

module _ (storage : Storage) (d : Bool) (least : List Vertex → ℕ) (heap : IsLeast d least)
    {S : Type 0} (visit : S → Vertex → Result (S × Bool)) (neighbors_at : S → Vertex → List Bytes)
    (later : (s : S) (v : Vertex)
      → storage v.0 ≡ some v.1
      → (h : Bytes) (t : Tx) → elem h (neighbors_at s v) ≡ true
      → storage h ≡ some t
      → Sooner d v.1.timestamp t.timestamp)
    (hashes : List Bytes)
    (finite : (h : Bytes) (t : Tx) → storage h ≡ some t → elem h hashes ≡ true) where
  visit_popped-Returns :
      (rest : Walk → S → Run (S × List Vertex)) (s : S) (o : Option (Vertex × Walk))
      → ((v : Vertex) (walk : Walk) (s' : S) (walk' : Walk)
          → o ≡ some (v, walk)
          → walk_step least visit neighbors_at storage v walk s ≡ ok (s', walk')
          → Returns (rest walk' s'))
      → Returns (visit_popped least visit neighbors_at storage rest s o)
  unfolding visit_popped
  visit_popped-Returns rest s none f = (ok (s, []), refl)
  visit_popped-Returns rest s (some (v, walk)) f =
      >>>-Returns (some (walk_step least visit neighbors_at storage v walk s)) _
        (walk_step least visit neighbors_at storage v walk s, refl)
        (λ (s', walk') q.
          >>>-Returns (rest walk' s') _ (f v walk s' walk' refl (some_injective q))
            (λ (s'', vs) r. (ok (s'', v ∷ vs), refl)))

  -- The vertices that were visited before: different, stored, and before all that are left.
  record History (done : List Vertex) (walk : Walk) : Type 0 where
    distinct : Distinct done
    stored : All (λ v. storage v.0 ≡ some v.1) done
    behind :
        All (λ y. All (Behind storage d least heap visit neighbors_at later y) walk.to_visit) done

  -- A round of the loop, as a record of its steps.
  record Round (walk : Walk) (v : Vertex) (left : Walk) (walk' : Walk) : Type 0 where
    before_state : S
    after_state : S
    pops : pop_visit least walk ≡ some (v, left)
    steps : walk_step least visit neighbors_at storage v left before_state ≡ ok (after_state, walk')

  Behind-Round :
      (y v : Vertex) (walk left walk' : Walk)
      → Round walk v left walk'
      → Sound storage walk
      → storage y.0 ≡ some y.1
      → All (Behind storage d least heap visit neighbors_at later y) walk.to_visit
      → (y.0 ≢ v.0) × All (Behind storage d least heap visit neighbors_at later y) walk'.to_visit
  Behind-Round y v walk left walk' r w ys a =
      let B = Behind storage d least heap visit neighbors_at later y in
      let p = pop-Popped storage d least heap walk left v w r.pops in
      let (g, q) = pop_visit_lem storage d least heap walk left v r.pops in
      let (b, bs) = All-without B (least walk.to_visit) walk.to_visit v g a in
      let (_, a') =
        step_lem storage d least heap visit neighbors_at later B v left walk' r.before_state
          r.after_state p.sound (subst (λ x. All B x.to_visit) (sym q) bs)
          (neighbors-Behind storage d least heap visit neighbors_at later y v ys p.stored b.1)
          r.steps in
      (b.0, a')

  visited-Round :
      (v : Vertex) (walk left walk' : Walk)
      → Round walk v left walk'
      → Sound storage walk
      → Sound storage walk'
        × (storage v.0 ≡ some v.1)
        × All (Behind storage d least heap visit neighbors_at later v) walk'.to_visit
  visited-Round v walk left walk' r w =
      let B = Behind storage d least heap visit neighbors_at later v in
      let p = pop-Popped storage d least heap walk left v w r.pops in
      let behind =
        All-both (λ u. v.0 ≢ u.0) (λ u. NotLater d v.1.timestamp u.1.timestamp) B left.to_visit
          (λ u a b. (a, b)) p.fresh p.first in
      let (w', a') =
        step_lem storage d least heap visit neighbors_at later B v left walk' r.before_state
          r.after_state p.sound behind
          (neighbors-Behind storage d least heap visit neighbors_at later v v p.stored p.stored
            (NotLater-refl d v.1.timestamp))
          r.steps in
      (w', p.stored, a')

  History-Round :
      (done : List Vertex) (v : Vertex) (walk left walk' : Walk)
      → Round walk v left walk'
      → Sound storage walk
      → History done walk
      → Sound storage walk' × History (v ∷ done) walk'
  History-Round done v walk left walk' r w h =
      let B = λ (y : Vertex). Behind storage d least heap visit neighbors_at later y in
      let (w', vs, b) = visited-Round v walk left walk' r w in
      (
        w',
        record {
          distinct = (
            All-both (λ y. storage y.0 ≡ some y.1) (λ y. All (B y) walk.to_visit) (λ y. v.0 ≢ y.0)
                done (λ y ys a e. (Behind-Round y v walk left walk' r w ys a).0 (sym e)) h.stored
                h.behind,
            h.distinct,
          );
          stored = (vs, h.stored);
          behind = (
            b,
            All-both (λ y. storage y.0 ≡ some y.1) (λ y. All (B y) walk.to_visit)
                (λ y. All (B y) walk'.to_visit) done
                (λ y ys a. (Behind-Round y v walk left walk' r w ys a).1) h.stored h.behind,
          );
        },
      )

  History-size :
      (done : List Vertex) (walk : Walk) → History done walk → length done ≤ length hashes
  History-size done walk h = length-Distinct done hashes h.distinct (
      All-both (λ y. storage y.0 ≡ some y.1) (λ y. storage y.0 ≡ some y.1)
        (λ y. elem y.0 hashes ≡ true) done (λ y a _. finite y.0 y.1 a) h.stored h.stored)

  walk_loop-Returns :
      (fuel : ℕ) (walk : Walk) (s : S) (done : List Vertex)
      → Sound storage walk
      → History done walk
      → length hashes < fuel + length done
      → Returns (walk_loop least visit neighbors_at storage fuel walk s)
  unfolding walk_loop
  walk_loop-Returns zero walk s done w h k = absurd (omega (arith, History-size done walk h, k))
  walk_loop-Returns (suc fuel) walk s done w h k =
      visit_popped-Returns (walk_loop least visit neighbors_at storage fuel) s
        (pop_visit least walk)
        (λ v left s' walk' p e.
          let (w', h') =
            History-Round done v walk left walk'
              (record { before_state = s; after_state = s'; pops = p; steps = e }) w h in
          walk_loop-Returns fuel walk' s' (v ∷ done) w' h' (omega (arith, k)))

  -- A walk from a stored vertex in a finite DAG whose timestamps grow in its direction ends, with more
  -- rounds than there are vertices: it raises what the visitor or the storage raises, or returns.
  pub bfs_terminates :
      (fuel : ℕ) (h : Bytes) (root : Tx) (skip_root : Bool) (s : S)
      → storage h ≡ some root
      → length hashes < fuel
      → Returns (walk_run least visit neighbors_at storage fuel h root skip_root s)
  unfolding walk_run
  bfs_terminates fuel h root true s q k =
      let start : Walk = record { seen = h ∷ []; to_visit = [] } in
      >>>-Returns (some (add_neighbors storage (neighbors_at s (h, root)) start)) _
        (add_neighbors storage (neighbors_at s (h, root)) start, refl)
        (λ walk e.
          let (w, _) =
            add_neighbors_lem storage (λ _. Unit {0}) (neighbors_at s (h, root)) start walk
              (record { distinct = tt; known = tt; stored = tt }) tt (λ x t m st. tt)
              (some_injective e) in
          walk_loop-Returns fuel walk s [] w (record { distinct = tt; stored = tt; behind = tt })
            (omega (arith, k)))
  bfs_terminates fuel h root false s q k =
      walk_loop-Returns fuel (push_visit (h, root) (record { seen = h ∷ []; to_visit = [] })) s []
        (start-Sound storage d least heap visit neighbors_at later h root q)
        (record { distinct = tt; stored = tt; behind = tt }) (omega (arith, k))
