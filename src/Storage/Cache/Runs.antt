-- ===== src/Storage/Cache/Runs.antt =====
-- Sequences of calls of the cache of hathor/transaction/storage/cache_storage.py, among them those that
-- write the dirty transactions, against a map from hashes to transactions. The thread that `start`
-- sets up does not run here: its steps are in Thread.
use khathor.Prelude.{
  [], ◌∷◌, refl, none, some, inl, inr, Option, List, if◌then◌else◌, ℕ, ◌≡◌, ◌<◌, ◌∙◌, Option-cases,
  ap, Bool-cases, sym, some_injective,
}
use khathor.Errors.{ok, err, Result, transaction_does_not_exist, ◌>>=◌}
use khathor.Storage.{Store, IsStore}
use khathor.Storage.Cache.{Cache, save_transaction, get_transaction, flush_all}
use khathor.Storage.Cache.Invariant.{view, IsWellFormed}
use khathor.Storage.Cache.Refines.{save_transaction_refines}
use khathor.Storage.Cache.Read.{get_transaction-found, get_transaction-missing}
use khathor.Storage.Cache.Flush.{flush_all-view}
use khathor.Bytes.{Bytes, bytes_eq}
use khathor.Bytes.Laws.{eq_of_bytes_eq}

-- A call. A reading comes with the object that is still alive; `flush` is the flush that
-- `get_all_transactions` and `get_count_tx_blocks` run before they read.
pub data Call (A : Type 0) : Type 0 where
  save : A → Call A
  get : Option A → Bytes → Call A
  flush : Call A

-- What a call answers: `none` for TransactionDoesNotExist.
unfoldable pub answer :
    {A S : Type 0} → Result (A × Cache A S) → Cache A S → Result (Option A × Cache A S)
answer (ok (tx, self')) self = ok (some tx, self')
answer (err transaction_does_not_exist) self = ok (none, self)
answer (err e) self = err e

module _ {A : Type 0} (hash : A → Option Bytes) (below : Store A) (capacity : ℕ) where
  unfoldable pub call : Call A → Cache A below.State → Result (Option A × Cache A below.State)
  call (save tx) self = do self' ← save_transaction hash below capacity tx self; ok (none, self')
  call (get live h) self = answer (get_transaction hash below capacity live h self) self
  call flush self = do self' ← flush_all hash below self; ok (none, self')

  unfoldable pub calls : List (Call A) → Cache A below.State → Result (List (Option A))
  calls [] self = ok []
  calls (c ∷ cs) self = do (a, self') ← call c self; answers ← calls cs self'; ok (a ∷ answers)

-- The same calls of a map.
module _ {A : Type 0} (hash : A → Option Bytes) where
  unfoldable pub map_answer : Call A → (Bytes → Option A) → Option A
  map_answer (get live h) m = m h
  map_answer _ m = none

  unfoldable pub map_after : Call A → (Bytes → Option A) → Bytes → Option A
  map_after (save tx) m k = elim (hash tx) [
    | none ↦ m k
    | some h ↦ if bytes_eq k h then some tx else m k
  ]
  map_after _ m k = m k

  unfoldable pub map_answers : List (Call A) → (Bytes → Option A) → List (Option A)
  map_answers [] m = []
  map_answers (c ∷ cs) m = map_answer c m ∷ map_answers cs (map_after c m)

  -- What is saved has a hash, and what is still alive is what was saved last at its hash.
  unfoldable pub IsAdmissible : List (Call A) → (Bytes → Option A) → Type 0
  IsAdmissible [] m = Unit
  IsAdmissible (save tx ∷ cs) m =
      ((h : Bytes) × (hash tx ≡ some h)) × IsAdmissible cs (map_after (save tx) m)
  IsAdmissible (get live h ∷ cs) m =
      ((x : A) → live ≡ some x → m h ≡ some x) × IsAdmissible cs (map_after (get live h) m)
  IsAdmissible (flush ∷ cs) m = IsAdmissible cs (map_after flush m)

module _ {A : Type 0} (hash : A → Option Bytes) (below : Store A) (law : IsStore hash below)
    (capacity : ℕ) (pos : 0 < capacity) where
  -- The cache stands for the map, whose transactions are kept at their hashes.
  pub record Implements (self : Cache A below.State) (m : Bytes → Option A) : Type 0 where
    pub well_formed : IsWellFormed hash below capacity self
    pub same : (k : Bytes) → view hash below self k ≡ m k
    pub keyed : (k : Bytes) (x : A) → m k ≡ some x → hash x ≡ some k

  map_after-save :
      (h : Bytes) (tx : A) (m : Bytes → Option A)
      → hash tx ≡ some h
      → (k : Bytes) → map_after hash (save tx) m k ≡ (if bytes_eq k h then some tx else m k)
  unfolding map_after
  map_after-save h tx m e k = rw (e, map_after) refl

  saved-Implements :
      (self self' : Cache A below.State) (h : Bytes) (tx : A) (m : Bytes → Option A)
      → Implements self m
      → hash tx ≡ some h
      → IsWellFormed hash below capacity self'
      → ((k : Bytes)
          → view hash below self' k ≡ (if bytes_eq k h then some tx else view hash below self k))
      → Implements self' (map_after hash (save tx) m)
  saved-Implements self self' h tx m i e w v = record {
    well_formed = w;
    same = λ k.
        v k
        ∙ ap (λ o. if bytes_eq k h then some tx else o) (i.same k)
        ∙ sym (map_after-save h tx m e k);
    keyed = λ k x g. elim (Bool-cases (bytes_eq k h)) [
      | inl q ↦
          let same : x ≡ tx = some_injective (sym g ∙ rw q at (map_after-save h tx m e k)) in
          rw (same, eq_of_bytes_eq k h q) e
      | inr q ↦ i.keyed k x (sym (rw q at (map_after-save h tx m e k)) ∙ g)
    ];
  }

  -- Every sequence of saves, readings and flushes that get_all_transactions or get_count_tx_blocks
  -- start returns, and answers what the map answers, where the cache stands for the map: whatever is
  -- evicted, and whichever objects are still alive. The thread of `start` does not run between them.
  pub calls_refine_map :
      (cs : List (Call A)) (self : Cache A below.State) (m : Bytes → Option A)
      → Implements self m
      → IsAdmissible hash cs m
      → calls hash below capacity cs self ≡ ok (map_answers hash cs m)
  unfolding calls call map_answers map_answer map_after IsAdmissible answer
  calls_refine_map [] self m i a = refl
  calls_refine_map (save tx ∷ cs) self m i ((h, e), a) =
      let (self', f, w, v) =
        save_transaction_refines hash below law capacity pos self h tx e i.well_formed in
      let i' = saved-Implements self self' h tx m i e w v in
      rw f (rw (calls_refine_map cs self' _ i' a) refl)
  calls_refine_map (get live h ∷ cs) self m i (l, a) = elim (Option-cases (m h)) [
    | inl n ↦
        let f =
          get_transaction-missing hash below law capacity pos self live h (λ x q. i.same h ∙ l x q)
            (i.same h ∙ n) in
        rw f (rw (calls_refine_map cs self m i a) (rw n refl))
    | inr (x, g) ↦
        let (self', f, w, v) =
          get_transaction-found hash below law capacity pos self live h x i.well_formed
            (λ y q. i.same h ∙ l y q) (i.keyed h x g) (i.same h ∙ g) in
        let i' : Implements self' m = record {
          well_formed = w;
          same = λ k. v k ∙ i.same k;
          keyed = i.keyed;
        } in
        rw f (rw (calls_refine_map cs self' m i' a) (rw g refl))
  ]
  calls_refine_map (flush ∷ cs) self m i a =
      let (self', f, w, v) = flush_all-view hash below law capacity self i.well_formed in
      let i' : Implements self' m = record {
        well_formed = w;
        same = λ k. v k ∙ i.same k;
        keyed = i.keyed;
      } in
      rw f (rw (calls_refine_map cs self' m i' a) refl)
