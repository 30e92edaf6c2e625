-- ===== src/Script/Data.antt =====
-- Data in scripts: what a stack holds, and the readers of length-prefixed data of
-- hathor/transaction/scripts.py (get_pushdata, get_data_value, binary_to_int, op_pushdata,
-- op_pushdata1).
use khathor.Prelude.{
  List, ℕ, ◌+◌, length, if◌then◌else◌, ◌==◌, ◌||◌, ltb, ◌∷◌, leb, suc, true, zero, take, drop, [],
  false,
}
use khathor.Bytes.{Bytes, index, slice, from_be}
use khathor.Errors.{
  Result, err, ◌>>=◌, data_index_error, ◌>>◌, guard, ok, out_of_data, assertion_error, struct_error,
}

-- An element of the stack. (`str`, the third member of the source's Union, is never pushed.)
pub data Item : Type 0 where
  int : ℕ → Item
  bytes : Bytes → Item

-- A stack, its top first.
abbrev pub Stack : Type 0
Stack = List Item

unfoldable pub binary_to_int : Bytes → Result ℕ
binary_to_int binary =
    if length binary == 1 || length binary == 2 || length binary == 4 || length binary == 8
    then ok (from_be 0 binary)
    else err struct_error

unfoldable pub get_pushdata : Bytes → Result Bytes
get_pushdata pushed = do
  head ← index pushed 0
  if ltb 75 head
      then (do length ← index pushed 1; ok (slice 2 length pushed))
      else ok (slice 1 head pushed)

-- The loop of get_data_value: `rest` is data[position:], `k` the values still to skip. The fuel is
-- the number of bytes left.
unfoldable pub data_value_loop : ℕ → ℕ → Bytes → Result Bytes
data_value_loop fuel k [] = err data_index_error
data_value_loop zero k (len ∷ rest) = err data_index_error
data_value_loop (suc fuel) k (len ∷ rest) = elim (ltb (length rest) len) [
  | true ↦ err out_of_data
  | false ↦ elim k [ zero ↦ ok (take len rest) | suc j ↦ data_value_loop fuel j (drop len rest) ]
]

-- The kth of the values that are packed in `packed`, each behind a byte with its length.
unfoldable pub get_data_value : ℕ → Bytes → Result Bytes
get_data_value k packed = data_value_loop (length packed) k packed

-- Both return the data that they push, and the new position.
unfoldable pub op_pushdata : ℕ → Bytes → Result (Bytes × ℕ)
op_pushdata position full_data = do
  len ← index full_data position
  guard (leb len 75) assertion_error
  let start = position + 1
  guard (leb (start + len) (length full_data)) out_of_data
  ok (slice start len full_data, start + len)

unfoldable pub op_pushdata1 : ℕ → Bytes → Result (Bytes × ℕ)
op_pushdata1 position full_data = do
  let at = position + 1
  guard (ltb at (length full_data)) out_of_data
  len ← index full_data at
  guard (ltb (at + len) (length full_data)) out_of_data
  let start = at + 1
  ok (slice start len full_data, start + len)
