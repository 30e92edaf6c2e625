-- ===== src/Tx/Output.antt =====
-- `TxOutput` of hathor/transaction/base_transaction.py.
pub mod Laws
use khathor.Prelude.{ℕ, ◌%◌, Bool, ◌&&◌, ltb, ◌/◌, leb, length, ◌++◌}
use khathor.Errors.{Result, ◌>>◌, ◌>>=◌, guard, assertion_error, ok}
use khathor.Bytes.{Bytes, int_to_bytes, unpack, from_be, slice, unpack_len}
use khathor.Tx.Value.{bytes_to_output_value, output_value_to_bytes, max_output_value}

pub record TxOutput : Type 0 where
  pub value : ℕ
  pub script : Bytes
  pub token_data : ℕ

-- The assertions of `TxOutput.__init__`.
unfoldable pub new_output : ℕ → Bytes → ℕ → Result TxOutput
new_output value script token_data = do
  guard (leb value max_output_value && ltb 0 value) assertion_error
  ok (record { value = value; script = script; token_data = token_data })

-- bytes(txout)
unfoldable pub to_bytes : TxOutput → Result Bytes
to_bytes txout = do
  value_bytes ← output_value_to_bytes txout.value
  token_bytes ← int_to_bytes txout.token_data 1
  script_len ← int_to_bytes (length txout.script) 2
  ok (value_bytes ++ (token_bytes ++ (script_len ++ txout.script)))

unfoldable pub create_from_bytes : Bytes → Result (TxOutput × Bytes)
create_from_bytes buf = do
  (value, buf₁) ← bytes_to_output_value buf
  (chunk, buf₂) ← unpack 3 buf₁
  let token_data = from_be 0 (slice 0 1 chunk)
  let script_len = from_be 0 (slice 1 2 chunk)
  let (script, buf₃) = unpack_len script_len buf₂
  txout ← new_output value script token_data
  ok (txout, buf₃)

-- token_data & 0b01111111
unfoldable pub get_token_index : TxOutput → ℕ
get_token_index txout = txout.token_data % 128

-- (token_data & 0b10000000) > 0
unfoldable pub is_token_authority : TxOutput → Bool
is_token_authority txout = ltb 0 (txout.token_data / 128 % 2)

unfoldable pub can_mint_token : TxOutput → Bool
can_mint_token txout = is_token_authority txout && ltb 0 (txout.value % 2)

unfoldable pub can_melt_token : TxOutput → Bool
can_melt_token txout = is_token_authority txout && ltb 0 (txout.value / 2 % 2)
