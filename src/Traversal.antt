-- ===== src/Traversal.antt =====
-- Walks on the DAG: `GenericWalk` and `BFSWalk` of hathor/transaction/storage/traversal.py. The code
-- that runs the walk is a visitor with a state of its own, which may skip the neighbors of the vertex
-- it is at. A walk runs on fuel, and `none` is a walk that is not done.
pub mod Order
pub mod Heap
pub mod Once
pub mod Terminates
use khathor.Prelude.{
  [], ◌∷◌, refl, none, some, true, false, zero, suc, Bool, List, ℕ, if◌then◌else◌, Option, ltb,
  ◌++◌, get_elem?, map, take, drop,
}
use khathor.Errors.{ok, err, Result, ◌>>=◌}
use khathor.Bytes.{Bytes, bytes_eq}
use khathor.Consensus.{TransactionMetadata, all_spenders}
use khathor.Tx.Tokens.{Storage, get_transaction}
use khathor.Tx.Base.{Tx}
use khathor.Script.Eval.{Run, ◌>>>◌}
use khathor.Tx.Verify.{elem}

-- A vertex with its hash.
abbrev pub Vertex : Type 0
Vertex = Bytes × Tx

pub record Direction : Type 0 where
  pub is_dag_funds : Bool
  pub is_dag_verifications : Bool
  pub is_left_to_right : Bool

-- The iterator of add_neighbors.
unfoldable pub neighbors : Direction → TransactionMetadata → Tx → List Bytes
neighbors d meta tx =
    (if d.is_dag_verifications
      then (if d.is_left_to_right then meta.children else tx.parents)
      else [])
    ++ (if d.is_dag_funds
        then (if d.is_left_to_right
            then all_spenders meta.spent_outputs
            else map (λ txin. txin.tx_id) tx.inputs)
        else [])

pub record Walk : Type 0 where
  pub seen : List Bytes
  pub to_visit : List Vertex

-- seen.remove(h), of a set; `pop_visit` removes the hash of a vertex that was pushed, so it is there
unfoldable pub remove_hash : Bytes → List Bytes → List Bytes
remove_hash h [] = []
remove_hash h (x ∷ seen) = let rest = remove_hash h seen in if bytes_eq h x then rest else x ∷ rest

-- HeapItem.__lt__: the smaller key is visited first
unfoldable pub key_lt : Bool → ℕ → ℕ → Bool
key_lt true a b = ltb a b
key_lt false a b = ltb b a

-- `heapq` keeps the vertices; `least` is the position of the one that it pops.
module _ (least : List Vertex → ℕ) where
  unfoldable pub pop_visit : Walk → Option (Vertex × Walk)
  pop_visit walk =
      let i = least walk.to_visit in
      elim (get_elem? walk.to_visit i) [
        | none ↦ none
        | some v ↦ some (
          v,
          record {
            seen = remove_hash v.0 walk.seen;
            to_visit = take i walk.to_visit ++ drop (suc i) walk.to_visit;
          },
        )
      ]

unfoldable pub push_visit : Vertex → Walk → Walk
push_visit v walk = record walk { to_visit = v ∷ walk.to_visit }

-- The body of the loop of add_neighbors, and the loop.
unfoldable pub add_neighbor : Storage → Bytes → Walk → Result Walk
add_neighbor storage h walk = if elem h walk.seen then ok walk else do
  neighbor ← get_transaction storage h
  ok (push_visit (h, neighbor) (record walk { seen = h ∷ walk.seen }))

unfoldable pub add_neighbors : Storage → List Bytes → Walk → Result Walk
add_neighbors storage [] walk = ok walk
add_neighbors storage (h ∷ hashes) walk = do
  walk' ← add_neighbor storage h walk
  add_neighbors storage hashes walk'

module _ {S : Type 0} (least : List Vertex → ℕ) (visit : S → Vertex → Result (S × Bool))
    (neighbors_at : S → Vertex → List Bytes) (storage : Storage) where
  -- The vertex is yielded; its neighbors are added unless they are skipped.
  unfoldable pub walk_step : Vertex → Walk → S → Result (S × Walk)
  walk_step v walk s = do
    (s', skip) ← visit s v
    walk' ← (if skip then ok walk else add_neighbors storage (neighbors_at s' v) walk)
    ok (s', walk')

  -- The vertex that is popped, and then the rest of the loop.
  unfoldable pub visit_popped :
      (Walk → S → Run (S × List Vertex)) → S → Option (Vertex × Walk) → Run (S × List Vertex)
  visit_popped rest s none = some (ok (s, []))
  visit_popped rest s (some (v, walk')) = some (walk_step v walk' s) >>> λ (s', walk'').
      rest walk'' s' >>> λ (s'', vs). some (ok (s'', v ∷ vs))

  -- The result is the visitor's state and the vertices in the order of the visits.
  unfoldable pub walk_loop : ℕ → Walk → S → Run (S × List Vertex)
  walk_loop zero walk s = elim walk.to_visit [ [] ↦ some (ok (s, [])) | _ ∷ _ ↦ none ]
  walk_loop (suc fuel) walk s = visit_popped (walk_loop fuel) s (pop_visit least walk)

  unfoldable pub walk_run : ℕ → Bytes → Tx → Bool → S → Run (S × List Vertex)
  walk_run fuel h root skip_root s =
      let start : Walk = record { seen = h ∷ []; to_visit = [] } in
      elim skip_root [
        | true ↦ some (add_neighbors storage (neighbors_at s (h, root)) start) >>> λ walk.
            walk_loop fuel walk s
        | false ↦ walk_loop fuel (push_visit (h, root) start) s
      ]
