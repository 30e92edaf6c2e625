-- ===== src/Examples/Storage.antt =====
-- The cache of hathor/transaction/storage/cache_storage.py, of one entry, over the storage in memory.
use khathor.Prelude.{
  [], ◌∷◌, refl, none, some, true, false, inl, inr, ℕ, List, ◌≡◌, arith, if◌then◌else◌, ap,
  Bool-cases, sym, some_injective, ◌∙◌, true_ne_false,
}
use khathor.Errors.{ok, err, transaction_does_not_exist}
use khathor.Examples.{spending_tx}
use khathor.Dict.{lookup, member, is_some}
use khathor.Dict.Laws.{Distinct}
use khathor.Storage.{Store, IsStore, asserted}
use khathor.Storage.Memory.{
  Memory, StoredTx, hash_of, memory_store, memory-IsStore, joined, with_metadata,
}
use khathor.Storage.Cache.{
  Cache, save_transaction, get_transaction, flush_take, flush_put, flush_all, remove_transaction,
  transaction_exists,
}
use khathor.Storage.Cache.Invariant.{view, either_of, IsWellFormed}
use khathor.Storage.Cache.Refines.{save_transaction_refines}
use khathor.Storage.Cache.Runs.{
  Call, save, get, flush, calls, map_answers, IsAdmissible, Implements, calls_refine_map,
}
use khathor.Storage.Cache.Flush.{flush_all_writes_everything}
use khathor.Storage.Cache.Thread.{flush_thread_hides_transaction}
use khathor.Storage.Cache.Remove.{remove_transaction_keeps_stored}
use khathor.Bytes.{Bytes, bytes_eq}
use khathor.Bytes.Laws.{eq_of_bytes_eq}

abbrev object : Bytes → StoredTx ℕ
object h = record { tx = record spending_tx { hash = some h }; metadata = 0 }

abbrev first : Bytes
first = 1 ∷ []

abbrev second : Bytes
second = 2 ∷ []

abbrev empty : Cache (StoredTx ℕ) (Memory ℕ)
empty = record {
  cache = [];
  dirty_txs = [];
  store = record { transactions = []; metadata = [] };
  hit = 0;
  miss = 0;
}

empty-IsWellFormed : IsWellFormed hash_of (memory_store ℕ) 1 empty
unfolding Distinct lookup member
empty-IsWellFormed = record {
  distinct = tt;
  bounded = omega arith;
  keyed = λ k tx g. cc;
  clean = λ k tx g m. cc;
  dirty_cached = λ k m. cc;
}

empty-Implements :
    Implements hash_of (memory_store ℕ) (memory-IsStore ℕ) 1 (omega arith) empty (λ k. none)
unfolding view either_of lookup joined khathor.Storage.Memory.get_transaction
empty-Implements = record {
  well_formed = empty-IsWellFormed;
  same = λ k. refl;
  keyed = λ k x g. cc;
}

-- The second save evicts the first transaction, and reading that one evicts the other.
abbrev some_calls : List (Call (StoredTx ℕ))
some_calls =
    save (object first)
    ∷ save (object second)
    ∷ get none first
    ∷ flush
    ∷ get none second
    ∷ get none (3 ∷ [])
    ∷ []

some_calls-IsAdmissible : IsAdmissible hash_of some_calls (λ k. none)
unfolding IsAdmissible
some_calls-IsAdmissible =
    ((first, refl), ((second, refl), ((λ x e. cc), ((λ x e. cc), ((λ x e. cc), tt)))))

calls_refine_map_example :
    calls hash_of (memory_store ℕ) 1 some_calls empty
    ≡ ok (map_answers hash_of some_calls (λ k. none))
calls_refine_map_example =
    calls_refine_map hash_of (memory_store ℕ) (memory-IsStore ℕ) 1 (omega arith) some_calls empty
      (λ k. none) empty-Implements some_calls-IsAdmissible

save_transaction_refines_example :
    (self' : Cache (StoredTx ℕ) (Memory ℕ)) × (save_transaction hash_of
        (memory_store ℕ)
        1
        (object first)
        empty
      ≡ ok self')
    × IsWellFormed hash_of (memory_store ℕ) 1 self'
    × ((k : Bytes)
        → view hash_of (memory_store ℕ) self' k ≡ (
            if bytes_eq k first
            then some (object first)
            else view hash_of (memory_store ℕ) empty k))
save_transaction_refines_example =
    save_transaction_refines hash_of (memory_store ℕ) (memory-IsStore ℕ) 1 (omega arith) empty first
      (object first) refl empty-IsWellFormed

-- The first transaction is written, the second one is not.
abbrev half_written : Cache (StoredTx ℕ) (Memory ℕ)
half_written = record {
  cache = (second, object second) ∷ [];
  dirty_txs = second ∷ [];
  store = record { transactions = (first, object first) ∷ []; metadata = (first, 0) ∷ [] };
  hit = 0;
  miss = 0;
}

only_entry :
    (k : Bytes) (tx : StoredTx ℕ)
    → lookup k half_written.cache ≡ some tx
    → (bytes_eq k second ≡ true) × (object second ≡ tx)
unfolding lookup
only_entry k tx g = elim (Bool-cases (bytes_eq k second)) [
  | inl q ↦ (q, some_injective (rw q at g))
  | inr q ↦ let c : none ≡ some tx = rw q at g in cc
]

half_written-IsWellFormed : IsWellFormed hash_of (memory_store ℕ) 1 half_written
unfolding Distinct lookup member is_some
half_written-IsWellFormed = record {
  distinct = (refl, tt);
  bounded = omega arith;
  keyed = λ k tx g.
      let (q, e) = only_entry k tx g in
      ap hash_of (sym e) ∙ ap some (sym (eq_of_bytes_eq k second q));
  clean = λ k tx g m.
      let (q, e) = only_entry k tx g in
      let c : true ≡ false = rw q at m in absurd (true_ne_false c);
  dirty_cached = λ k m. elim (Bool-cases (bytes_eq k second)) [
    | inl q ↦ rw q refl
    | inr q ↦ let c : false ≡ true = rw q at m in absurd (true_ne_false (sym c))
  ];
}

flush_all_writes_everything_example :
    (self' : Cache (StoredTx ℕ) (Memory ℕ)) × (flush_all hash_of (memory_store ℕ) half_written
      ≡ ok self')
    × IsWellFormed hash_of (memory_store ℕ) 1 self'
    × ((k : Bytes) → member k self'.dirty_txs ≡ false)
    × ((k : Bytes)
        → khathor.Storage.Memory.get_transaction k self'.store
          ≡ view hash_of (memory_store ℕ) half_written k)
flush_all_writes_everything_example =
    flush_all_writes_everything hash_of (memory_store ℕ) (memory-IsStore ℕ) 1 half_written
      half_written-IsWellFormed

-- The first transaction, which is in the storage below, still exists when it is removed.
remove_transaction_keeps_stored_example :
    (self' : Cache (StoredTx ℕ) (Memory ℕ)) × (remove_transaction hash_of
        (memory_store ℕ)
        (object first)
        half_written
      ≡ ok self')
    × (view hash_of (memory_store ℕ) self' first
        ≡ khathor.Storage.Memory.get_transaction first half_written.store)
    × (transaction_exists hash_of (memory_store ℕ) first self'
        ≡ is_some (khathor.Storage.Memory.get_transaction first half_written.store))
remove_transaction_keeps_stored_example =
    remove_transaction_keeps_stored hash_of (memory_store ℕ) (memory-IsStore ℕ) half_written first
      (object first) refl

-- The flush takes the second transaction, and a third one is saved before it is written.
flush_thread_hides_transaction_example :
    (self' : Cache (StoredTx ℕ) (Memory ℕ)) × (self'' : Cache (StoredTx ℕ) (Memory ℕ))
    × (save_transaction hash_of
          (memory_store ℕ)
          1
          (object (3 ∷ []))
          (flush_take hash_of (memory_store ℕ) second half_written).1
        ≡ ok self')
    × (transaction_exists hash_of (memory_store ℕ) second self' ≡ false)
    × (get_transaction hash_of (memory_store ℕ) 1 none second self'
        ≡ err transaction_does_not_exist)
    × (flush_put hash_of
          (memory_store ℕ)
          (flush_take hash_of (memory_store ℕ) second half_written).0
          self'
        ≡ ok self'')
    × (khathor.Storage.Memory.get_transaction second self''.store ≡ some (object second))
unfolding lookup bytes_eq joined khathor.Storage.Memory.get_transaction
flush_thread_hides_transaction_example =
    flush_thread_hides_transaction hash_of (memory_store ℕ) (memory-IsStore ℕ) 1 half_written second
      (3 ∷ []) (object second) (object (3 ∷ [])) [] half_written-IsWellFormed refl refl refl
      (omega arith)
