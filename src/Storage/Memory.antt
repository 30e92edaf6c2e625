-- ===== src/Storage/Memory.antt =====
-- `TransactionMemoryStorage` of hathor/transaction/storage/memory_storage.py, without the indexes and
-- the events of the methods that it extends. Saving reads the metadata first, which creates it, so a
-- stored object has some.
use khathor.Prelude.{
  [], ◌∷◌, none, some, false, ℕ, Option, Bool, List, length, if◌then◌else◌, ◌≡◌, Bool-cases, refl,
  sym, inl, ◌∙◌, inr,
}
use khathor.Errors.{ok, Result, ◌>>=◌, ok-injective}
use khathor.Dict.{Dict, lookup, insert, erase, is_some}
use khathor.Storage.{Store, asserted, IsStore}
use khathor.Tx.Base.{Tx}
use khathor.Bytes.{Bytes, bytes_eq}
use khathor.Dict.Laws.{lookup-insert}

-- An object with the metadata that it carries.
pub record StoredTx (M : Type 0) : Type 0 where
  pub tx : Tx
  pub metadata : M

pub record Memory (M : Type 0) : Type 0 where
  pub transactions : Dict (StoredTx M)
  pub metadata : Dict M

module _ {M : Type 0} where
  abbrev pub hash_of : StoredTx M → Option Bytes
  hash_of object = object.tx.hash

  unfoldable pub save_transaction : Bool → StoredTx M → Memory M → Result (Memory M)
  save_transaction only_metadata object self = do
    h ← asserted (hash_of object)
    let transactions =
        (if only_metadata then self.transactions else insert h object self.transactions)
    ok (record { transactions = transactions; metadata = insert h object.metadata self.metadata })

  unfoldable pub remove_transaction : StoredTx M → Memory M → Result (Memory M)
  remove_transaction object self = do
    h ← asserted (hash_of object)
    ok (record { transactions = erase h self.transactions; metadata = erase h self.metadata })

  unfoldable pub transaction_exists : Bytes → Memory M → Bool
  transaction_exists hash_bytes self = is_some (lookup hash_bytes self.transactions)

  -- The metadata that was saved last replaces that of the object.
  unfoldable pub with_metadata : Option M → StoredTx M → StoredTx M
  with_metadata none object = object
  with_metadata (some meta) object = record object { metadata = meta }

  unfoldable pub joined : Option (StoredTx M) → Option M → Option (StoredTx M)
  joined none meta = none
  joined (some object) meta = some (with_metadata meta object)

  unfoldable pub get_transaction : Bytes → Memory M → Option (StoredTx M)
  get_transaction hash_bytes self =
      joined (lookup hash_bytes self.transactions) (lookup hash_bytes self.metadata)

  -- The metadata of an object, where its hash has some.
  unfoldable pub saved_metadata : Option Bytes → Dict M → Option M
  saved_metadata none metadata = none
  saved_metadata (some h) metadata = lookup h metadata

  unfoldable pub with_all_metadata : Dict M → Dict (StoredTx M) → List (StoredTx M)
  with_all_metadata metadata [] = []
  with_all_metadata metadata ((h, object) ∷ rest) =
      with_metadata (saved_metadata (hash_of object) metadata) object
      ∷ with_all_metadata metadata rest

  unfoldable pub get_all_transactions : Memory M → List (StoredTx M)
  get_all_transactions self = with_all_metadata self.metadata self.transactions

  unfoldable pub get_count_tx_blocks : Memory M → ℕ
  get_count_tx_blocks self = length self.transactions

abbrev pub memory_store : (M : Type 0) → Store (StoredTx M)
memory_store M = record {
  State = Memory M;
  save_transaction = save_transaction false;
  transaction_exists = transaction_exists;
  get_transaction = get_transaction;
}

get-inserted :
    {M : Type 0} (object : StoredTx M) (h k : Bytes) (s : Memory M)
    → get_transaction k (record {
      transactions = insert h object s.transactions;
      metadata = insert h object.metadata s.metadata;
    })
      ≡ (if bytes_eq k h then some object else get_transaction k s)
unfolding get_transaction with_metadata joined
get-inserted object h k s =
    rw (lookup-insert k h object s.transactions, lookup-insert k h object.metadata s.metadata)
      (elim (Bool-cases (bytes_eq k h)) [ inl e ↦ rw e refl | inr e ↦ rw e refl ])

saved :
    {M : Type 0} (object : StoredTx M) (h : Bytes) (s : Memory M)
    → hash_of object ≡ some h
    → save_transaction false object s
      ≡ ok (record {
        transactions = insert h object s.transactions;
        metadata = insert h object.metadata s.metadata;
      })
unfolding save_transaction asserted
saved object h s e = rw (e, asserted) refl

joined-is_some :
    {M : Type 0} (object : Option (StoredTx M)) (meta : Option M)
    → is_some object ≡ is_some (joined object meta)
unfolding joined is_some
joined-is_some none meta = refl
joined-is_some (some object) meta = refl

-- The storage in memory keeps what the cache asks for.
pub memory-IsStore : (M : Type 0) → IsStore hash_of (memory_store M)
unfolding transaction_exists get_transaction
memory-IsStore M = record {
  save-total = λ object h s e. (_, saved object h s e);
  get-save = λ object h k s s' e f.
      rw (← ok-injective (sym (saved object h s e) ∙ f)) (get-inserted object h k s);
  exists-get = λ k s. joined-is_some (lookup k s.transactions) (lookup k s.metadata);
}
