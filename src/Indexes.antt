-- ===== src/Indexes.antt =====
-- The index of transactions by their timestamps: `TransactionsIndex` of hathor/indexes.py and the
-- functions that it calls. Its `SortedKeyList`, of the package sortedcontainers, is the list of its
-- elements, with the operations that search it as a parameter.
pub mod Order
pub mod Change
pub mod Pages
use khathor.Prelude.{
  [], ◌∷◌, refl, none, some, true, false, zero, suc, inl, inr, Bool, ℕ, List, take, map, Option,
  ◌==◌, length, drop, ltb, if◌then◌else◌, ◌||◌, get_elem?, ◌-◌, ◌+◌, leb, ◌++◌, ◌&&◌, reverse, not,
}
use khathor.Errors.{ok, err}
use khathor.Bytes.{Bytes, bytes_eq}

-- TransactionIndexElement, whose two fields are also its key.
abbrev pub Element : Type 0
Element = ℕ × Bytes

-- a < b on byte strings
unfoldable pub bytes_lt : Bytes → Bytes → Bool
bytes_lt [] [] = false
bytes_lt [] (y ∷ ys) = true
bytes_lt (x ∷ xs) [] = false
bytes_lt (x ∷ xs) (y ∷ ys) = ltb x y || (x == y && bytes_lt xs ys)

-- a < b on the tuples of a timestamp and a hash
unfoldable pub element_lt : Element → Element → Bool
element_lt (s, g) (t, h) = ltb s t || (s == t && bytes_lt g h)

unfoldable pub same_element : Element → Element → Bool
same_element (s, g) (t, h) = s == t && bytes_eq g h

-- The operations of `SortedKeyList` that look for a key.
pub record SortedKeyList : Type 0 where
  pub insert_sorted : Element → List Element → List Element
  pub bisect_key_left : Element → List Element → ℕ

-- element in key_list
unfoldable pub has_element : Element → List Element → Bool
has_element element [] = false
has_element element (x ∷ key_list) = same_element element x || has_element element key_list

-- key_list.pop(idx)
unfoldable pub pop_at : ℕ → List Element → List Element
pop_at idx key_list = take idx key_list ++ drop (suc idx) key_list

-- key_list[-count:], which is the whole list for 0
unfoldable pub last_elements : ℕ → List Element → List Element
last_elements zero key_list = key_list
last_elements (suc n) key_list = drop (length key_list - suc n) key_list

abbrev pub hash_of : Element → Bytes
hash_of element = element.1

unfoldable pub get_newest_sorted_key_list : List Element → ℕ → List Bytes × Bool
get_newest_sorted_key_list key_list count =
    (map hash_of (reverse (last_elements count key_list)), not (leb (length key_list) count))

module _ (sorted : SortedKeyList) where
  -- key_list[first_idx:idx], where first_idx = max(0, idx - count)
  unfoldable pub get_older_sorted_key_list : List Element → ℕ → Bytes → ℕ → List Bytes × Bool
  get_older_sorted_key_list key_list timestamp hash_bytes count =
      let idx = sorted.bisect_key_left (timestamp, hash_bytes) key_list in
      let first_idx = idx - count in
      (map hash_of (reverse (take (idx - first_idx) (drop first_idx key_list))), ltb 0 first_idx)

  unfoldable pub min_nat : ℕ → ℕ → ℕ
  min_nat a b = if leb a b then a else b

  unfoldable pub get_newer_sorted_key_list : List Element → ℕ → Bytes → ℕ → List Bytes × Bool
  get_newer_sorted_key_list key_list timestamp hash_bytes count =
      let idx = sorted.bisect_key_left (timestamp, hash_bytes) key_list in
      let last_idx = min_nat (length key_list) (idx + 1 + count) in
      (
        map hash_of (reverse (take (last_idx - (idx + 1)) (drop (idx + 1) key_list))),
        ltb last_idx (length key_list),
      )

  unfoldable pub add_tx : ℕ → Bytes → List Element → Bool × List Element
  add_tx timestamp hash transactions =
      if has_element (timestamp, hash) transactions
      then (false, transactions)
      else (true, sorted.insert_sorted (timestamp, hash) transactions)

  -- idx < len(self.transactions) and self.transactions[idx].hash == tx.hash
  unfoldable pub has_hash_at : ℕ → Bytes → List Element → Bool
  has_hash_at idx hash transactions = elim (get_elem? transactions idx) [
    | none ↦ false
    | some element ↦ bytes_eq (hash_of element) hash
  ]

  unfoldable pub del_tx : ℕ → Bytes → List Element → List Element
  del_tx timestamp hash transactions =
      let idx = sorted.bisect_key_left (timestamp, hash) transactions in
      if has_hash_at idx hash transactions then pop_at idx transactions else transactions

  unfoldable pub find_tx_index : ℕ → Bytes → List Element → Option ℕ
  find_tx_index timestamp hash transactions =
      let idx = sorted.bisect_key_left (timestamp, hash) transactions in
      if has_hash_at idx hash transactions then some idx else none

  unfoldable pub find_first_at_timestamp : ℕ → List Element → ℕ
  find_first_at_timestamp timestamp transactions =
      sorted.bisect_key_left (timestamp, []) transactions
