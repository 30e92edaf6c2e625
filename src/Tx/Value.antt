-- ===== src/Tx/Value.antt =====
-- The variable-length encoding of output values: `bytes_to_output_value` and
-- `output_value_to_bytes` of hathor/transaction/base_transaction.py.
pub mod Laws
pub mod Canonical
use khathor.Prelude.{
  ℕ, zero, ◌+◌, ◌-◌, ◌^◌, ◌≡◌, Bool, true, false, ◌&&◌, leb, ltb, if◌then◌else◌, ◌==◌,
}
use khathor.Prelude.Int.{ℤ, pos, negsuc, neg, signed, ltb_ℤ}
use khathor.Errors.{
  Exn, Result, ok, err, ◌>>=◌, struct_error, invalid_output_value, assertion_error, value_error,
  overflow_error,
}
use khathor.Bytes.{Bytes, from_be, be, unpack}

abbrev pub max_output_value : ℕ
max_output_value = 2 ^ 63

abbrev pub max_output_value_32 : ℕ
max_output_value_32 = 2 ^ 31 - 1

-- `except StructError as e: raise InvalidOutputValue`
unfoldable pub invalid_value : {A : Type 0} → Result A → Result A
invalid_value (ok a) = ok a
invalid_value (err struct_error) = err invalid_output_value
invalid_value (err e) = err e

-- the tests behind the reading of the signed number
unfoldable pub check_value : ℤ → Bool → Bytes → Result (ℕ × Bytes)
check_value (negsuc n) negative buf = err assertion_error
check_value (pos value) negative buf =
    if ltb value max_output_value_32 && negative then err value_error else ok (value, buf)

-- `output_struct`, and the sign, on the two sides of the test
unfoldable pub read_long : Bool → Bytes → Result (ℕ × Bytes)
read_long negative buf = do
  (chunk, rest) ← invalid_value (unpack 8 buf)
  check_value (neg (signed 64 (from_be 0 chunk))) negative rest

unfoldable pub read_short : Bool → Bytes → Result (ℕ × Bytes)
read_short negative buf = do
  (chunk, rest) ← invalid_value (unpack 4 buf)
  check_value (signed 32 (from_be 0 chunk)) negative rest

-- A first byte with its high bit set announces a negated number of eight bytes.
unfoldable pub bytes_to_output_value : Bytes → Result (ℕ × Bytes)
bytes_to_output_value buf = do
  (head, _) ← unpack 1 buf
  let negative = ltb_ℤ (signed 8 (from_be 0 head)) (pos 0)
  if negative then read_long negative buf else read_short negative buf

-- `(-number).to_bytes(8, signed=True)` is refused below -2 ^ 63.
unfoldable pub output_value_to_bytes : ℕ → Result Bytes
output_value_to_bytes number =
    if leb number 0
    then err invalid_output_value
    else if ltb max_output_value_32 number
    then (if leb number (2 ^ 63) then ok (be 8 (2 ^ 64 - number)) else err overflow_error)
    else ok (be 4 number)
