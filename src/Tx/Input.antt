-- ===== src/Tx/Input.antt =====
-- `TxInput` of hathor/transaction/base_transaction.py.
pub mod Laws
use khathor.Prelude.{true, false, ℕ, Bool, length, ◌++◌}
use khathor.Bytes.{Bytes, unpack_len, int_to_bytes, unpack, from_be, slice}
use khathor.Errors.{Result, ◌>>=◌, ok}

abbrev pub tx_hash_size : ℕ
tx_hash_size = 32

pub record TxInput : Type 0 where
  pub tx_id : Bytes
  pub index : ℕ
  -- `data` in the source
  pub unlock : Bytes

-- bytes(txin)
unfoldable pub to_bytes : TxInput → Result Bytes
to_bytes txin = do
  index_bytes ← int_to_bytes txin.index 1
  data_len ← int_to_bytes (length txin.unlock) 2
  ok (txin.tx_id ++ (index_bytes ++ (data_len ++ txin.unlock)))

unfoldable pub get_sighash_bytes : TxInput → Bool → Result Bytes
get_sighash_bytes txin false = to_bytes txin
get_sighash_bytes txin true = do
  index_bytes ← int_to_bytes txin.index 1
  data_len ← int_to_bytes 0 2
  ok (txin.tx_id ++ (index_bytes ++ data_len))

unfoldable pub create_from_bytes : Bytes → Result (TxInput × Bytes)
create_from_bytes buf = do
  let (input_tx_id, buf₁) = unpack_len tx_hash_size buf
  (chunk, buf₂) ← unpack 3 buf₁
  let input_index = from_be 0 (slice 0 1 chunk)
  let data_len = from_be 0 (slice 1 2 chunk)
  let (input_data, buf₃) = unpack_len data_len buf₂
  ok (record { tx_id = input_tx_id; index = input_index; unlock = input_data }, buf₃)
