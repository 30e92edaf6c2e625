-- ===== src/Storage.antt =====
-- The storages of transactions, of hathor/transaction/storage/: what the cache asks of the storage
-- below it. An object is a value, so a clone is the object itself.
pub mod Memory
pub mod Cache
use khathor.Prelude.{
  [], ◌∷◌, refl, none, some, true, false, zero, suc, inl, inr, Option, ◌≡◌, Bool, if◌then◌else◌,
}
use khathor.Errors.{ok, err, Result, assertion_error}
use khathor.Dict.{is_some}
use khathor.Bytes.{Bytes, bytes_eq}

-- The methods of `BaseTransactionStorage` that the cache calls. `get_transaction` is `none` where the
-- method raises TransactionDoesNotExist.
pub record Store (A : Type 0) : Type 1 where
  pub State : Type 0
  pub save_transaction : A → State → Result State
  pub transaction_exists : Bytes → State → Bool
  pub get_transaction : Bytes → State → Option A

-- A transaction that has a hash is saved without an error, is read back by its hash, and changes
-- nothing at any other hash.
pub record IsStore {A : Type 0} (hash : A → Option Bytes) (store : Store A) : Type 0 where
  pub save-total :
      (tx : A) (h : Bytes) (s : store.State)
      → hash tx ≡ some h
      → (s' : store.State) × (store.save_transaction tx s ≡ ok s')
  pub get-save :
      (tx : A) (h k : Bytes) (s s' : store.State)
      → hash tx ≡ some h
      → store.save_transaction tx s ≡ ok s'
      → store.get_transaction k s' ≡ (if bytes_eq k h then some tx else store.get_transaction k s)
  pub exists-get :
      (k : Bytes) (s : store.State)
      → store.transaction_exists k s ≡ is_some (store.get_transaction k s)

-- assert tx.hash is not None
unfoldable pub asserted : Option Bytes → Result Bytes
asserted none = err assertion_error
asserted (some h) = ok h
