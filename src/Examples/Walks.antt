-- ===== src/Examples/Walks.antt =====
-- A walk of hathor/transaction/storage/traversal.py on three transactions.
use khathor.Prelude.{
  [], ◌∷◌, refl, none, some, true, false, suc, List, ℕ, if◌then◌else◌, ◌≡◌, get_elem?, All, ltb,
  Bool, Bool-cases, ◌⊎◌, arith, inl, inr, All-both,
}
use khathor.Errors.{ok, Result}
use khathor.Traversal.{
  walk_run, Vertex, Direction, walk_loop, push_visit, neighbors, key_lt, visit_popped, pop_visit,
  remove_hash, walk_step, add_neighbors, add_neighbor,
}
use khathor.Tx.Tokens.{Storage, get_transaction}
use khathor.Bytes.{Bytes, bytes_eq}
use khathor.Tx.Base.{Tx}
use khathor.Tx.Verify.{elem}
use khathor.Examples.{spending_tx}
use khathor.Traversal.Order.{Sooner, Distinct, Ordered}
use khathor.Traversal.Heap.{IsLeast}
use khathor.Bytes.Laws.{bytes_eq_iff}
use khathor.Examples.Conflicts.{fresh_metadata}
use khathor.Traversal.Once.{bfs_visits_once}
use khathor.Traversal.Terminates.{Returns, bfs_terminates}

abbrev vertex_at : ℕ → List Bytes → Tx
vertex_at timestamp parents = record spending_tx { timestamp = timestamp; parents = parents }

-- The vertices 3 → 2 → 1 and 3 → 1.
abbrev dag : Storage
dag h =
    if bytes_eq h (1 ∷ [])
    then some (vertex_at 10 [])
    else if bytes_eq h (2 ∷ [])
    then some (vertex_at 20 ((1 ∷ []) ∷ []))
    else if bytes_eq h (3 ∷ [])
    then some (vertex_at 30 ((2 ∷ []) ∷ (1 ∷ []) ∷ []))
    else none

-- The position of the latest vertex.
abbrev latest : List Vertex → ℕ × ℕ
latest [] = (0, 0)
latest (v ∷ vs) =
    let (i, t) = latest vs in if ltb v.1.timestamp t then (suc i, t) else (0, v.1.timestamp)

abbrev latest_position : List Vertex → ℕ
latest_position vs = (latest vs).0

abbrev to_genesis : Direction
to_genesis = record { is_dag_funds = false; is_dag_verifications = true; is_left_to_right = false }

abbrev parents_at : Unit {0} → Vertex → List Bytes
parents_at s v = neighbors to_genesis fresh_metadata v.1

abbrev visit_all : Unit {0} → Vertex → Result (Unit {0} × Bool)
visit_all s v = ok (tt, false)

abbrev visits : List Vertex
visits =
    (3 ∷ [], vertex_at 30 ((2 ∷ []) ∷ (1 ∷ []) ∷ []))
    ∷ (2 ∷ [], vertex_at 20 ((1 ∷ []) ∷ []))
    ∷ (1 ∷ [], vertex_at 10 [])
    ∷ []

dag_walk :
    walk_run latest_position visit_all parents_at dag 5
      (3 ∷ [])
      (vertex_at 30 ((2 ∷ []) ∷ (1 ∷ []) ∷ []))
      false
      tt
    ≡ some (ok (tt, visits))
unfolding walk_run walk_loop push_visit visit_popped pop_visit remove_hash walk_step add_neighbors
    add_neighbor elem bytes_eq get_transaction neighbors
dag_walk = refl

-- One more vertex in front.
latest_cons :
    (x v : Vertex) (xs : List Vertex)
    → get_elem? xs (latest xs).0 ≡ some v
    → v.1.timestamp ≡ (latest xs).1
    → All (λ w. key_lt false w.1.timestamp v.1.timestamp ≡ false) xs
    → (u : Vertex) × (get_elem? (x ∷ xs) (latest (x ∷ xs)).0 ≡ some u)
      × (u.1.timestamp ≡ (latest (x ∷ xs)).1)
      × All (λ w. key_lt false w.1.timestamp u.1.timestamp ≡ false) (x ∷ xs)
unfolding key_lt
latest_cons x v xs g t a = elim (Bool-cases (ltb x.1.timestamp (latest xs).1)) [
  | inl b ↦ (v, rw b g, rw b t, (ground arith, a))
  | inr b ↦ (
    x,
    rw b refl,
    rw b refl,
    (
      ground arith,
      All-both (λ w. ltb v.1.timestamp w.1.timestamp ≡ false)
          (λ w. ltb v.1.timestamp w.1.timestamp ≡ false)
          (λ w. ltb x.1.timestamp w.1.timestamp ≡ false) xs (λ w p _. ground arith) a a,
    ),
  )
]

latest_lem :
    (x : Vertex) (xs : List Vertex)
    → (v : Vertex) × (get_elem? (x ∷ xs) (latest (x ∷ xs)).0 ≡ some v)
      × (v.1.timestamp ≡ (latest (x ∷ xs)).1)
      × All (λ w. key_lt false w.1.timestamp v.1.timestamp ≡ false) (x ∷ xs)
unfolding key_lt
latest_lem x [] =
    let b : ltb x.1.timestamp 0 ≡ false = ground arith in
    (x, rw b refl, rw b refl, (ground arith, tt))
latest_lem x (y ∷ xs) = let (v, g, t, a) = latest_lem y xs in latest_cons x v (y ∷ xs) g t a

latest-IsLeast : IsLeast false latest_position
latest-IsLeast = record { popped = λ x xs. let (v, g, _, a) = latest_lem x xs in (v, g, a) }

dag_cases :
    (h : Bytes) (t : Tx)
    → dag h ≡ some t
    → ((t.timestamp ≡ 10) × (t.parents ≡ []) × (h ≡ 1 ∷ []))
      ⊎ ((t.timestamp ≡ 20) × (t.parents ≡ (1 ∷ []) ∷ []) × (h ≡ 2 ∷ []))
      ⊎ ((t.timestamp ≡ 30) × (t.parents ≡ (2 ∷ []) ∷ (1 ∷ []) ∷ []) × (h ≡ 3 ∷ []))
dag_cases h t e =
    ground (arith, bytes_eq_iff h (1 ∷ []), bytes_eq_iff h (2 ∷ []), bytes_eq_iff h (3 ∷ []))

dag_later :
    (s : Unit {0}) (v : Vertex)
    → dag v.0 ≡ some v.1
    → (h : Bytes) (t : Tx) → elem h (parents_at s v) ≡ true
    → dag h ≡ some t
    → Sooner false v.1.timestamp t.timestamp
unfolding neighbors elem bytes_eq
dag_later s v q h t m r = elim (dag_cases v.0 v.1 q) [
  | inl (p, l, _) ↦ cc
  | inr (inl (p, l, _)) ↦ let m' = rw l at m in ground (arith, dag_cases h t r)
  | inr (inr (p, l, _)) ↦ let m' = rw l at m in ground (arith, dag_cases h t r)
]

bfs_visits_once_example : Distinct visits × Ordered false visits
unfolding bytes_eq
bfs_visits_once_example =
    bfs_visits_once dag false latest_position latest-IsLeast visit_all parents_at dag_later 5
      (3 ∷ []) (vertex_at 30 ((2 ∷ []) ∷ (1 ∷ []) ∷ [])) false tt tt visits refl dag_walk

abbrev dag_hashes : List Bytes
dag_hashes = (1 ∷ []) ∷ (2 ∷ []) ∷ (3 ∷ []) ∷ []

dag_finite : (h : Bytes) (t : Tx) → dag h ≡ some t → elem h dag_hashes ≡ true
unfolding elem
dag_finite h t e = ground (
  arith,
  dag_cases h t e,
  bytes_eq_iff h (1 ∷ []),
  bytes_eq_iff h (2 ∷ []),
  bytes_eq_iff h (3 ∷ []),
)

bfs_terminates_example : Returns (
    walk_run latest_position visit_all parents_at dag 4
      (3 ∷ [])
      (vertex_at 30 ((2 ∷ []) ∷ (1 ∷ []) ∷ []))
      true
      tt)
unfolding bytes_eq
bfs_terminates_example =
    bfs_terminates dag false latest_position latest-IsLeast visit_all parents_at dag_later
      dag_hashes dag_finite 4 (3 ∷ []) (vertex_at 30 ((2 ∷ []) ∷ (1 ∷ []) ∷ [])) true tt refl
      (omega arith)
