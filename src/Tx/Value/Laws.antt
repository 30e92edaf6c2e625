-- ===== src/Tx/Value/Laws.antt =====
-- The output values of hathor/transaction/base_transaction.py, written and read back.
use khathor.Prelude.{
  ℕ, ◌-◌, ◌/◌, ◌%◌, ◌^◌, ◌<◌, ◌≤◌, ◌≡◌, ◌∙◌, true, false, ◌∷◌, ◌++◌, arith, ltb, Bool-cases, inl,
  inr, ltb→lt,
}
use khathor.Errors.{ok}
use khathor.Bytes.{Bytes, from_be, be, unpack}
use khathor.Bytes.Laws.{from_be-be, length-be, unpack-append}
use khathor.Prelude.Int.{pos, signed, neg}
use khathor.Tx.Value.{
  read_short, read_long, max_output_value, max_output_value_32, bytes_to_output_value,
  output_value_to_bytes, invalid_value, check_value,
}

head_short :
    (b : ℕ) (t : Bytes) → b < 128 → bytes_to_output_value (b ∷ t) ≡ read_short false (b ∷ t)
unfolding bytes_to_output_value unpack from_be signed
head_short b t h = ground arith

head_long :
    (b : ℕ) (t : Bytes) → 128 ≤ b → b < 256 → bytes_to_output_value (b ∷ t) ≡ read_long true (b ∷ t)
unfolding bytes_to_output_value unpack from_be signed
head_long b t h k = ground arith

signed-short : (n : ℕ) → n ≤ max_output_value_32 → signed 32 n ≡ pos n
unfolding signed
signed-short n h = ground arith

neg-signed-long : (n : ℕ) → 0 < n → n ≤ max_output_value → neg (signed 64 (2 ^ 64 - n)) ≡ pos n
unfolding signed neg
neg-signed-long n h k = ground arith

short_lem :
    (n : ℕ) (rest : Bytes)
    → n ≤ max_output_value_32
    → read_short false (be 4 n ++ rest) ≡ ok (n, rest)
unfolding read_short invalid_value check_value
short_lem n rest h =
    rw (unpack-append 4 (be 4 n) rest (length-be 4 n))
      (rw (from_be-be 4 n (omega arith)) (rw (signed-short n h) (ground arith)))

long_lem :
    (n : ℕ) (rest : Bytes)
    → max_output_value_32 ≤ n
    → n ≤ max_output_value
    → read_long true (be 8 (2 ^ 64 - n) ++ rest) ≡ ok (n, rest)
unfolding read_long invalid_value check_value
long_lem n rest h k = rw (unpack-append 8 (be 8 (2 ^ 64 - n)) rest (length-be 8 (2 ^ 64 - n))) (
    rw (from_be-be 8 (2 ^ 64 - n) (omega arith))
      (rw (neg-signed-long n (omega arith) k) (ground arith)))

short_head :
    (n : ℕ) (rest : Bytes)
    → n ≤ max_output_value_32
    → bytes_to_output_value (be 4 n ++ rest) ≡ read_short false (be 4 n ++ rest)
unfolding be
short_head n rest h = head_short (n / 256 / 256 / 256 % 256) _ (omega arith)

long_head :
    (n : ℕ) (rest : Bytes)
    → 2 ^ 63 ≤ n
    → n < 2 ^ 64
    → bytes_to_output_value (be 8 n ++ rest) ≡ read_long true (be 8 n ++ rest)
unfolding be
long_head n rest h k =
    head_long (n / 256 / 256 / 256 / 256 / 256 / 256 / 256 % 256) _ (omega arith) (omega arith)

short_round_trip :
    (n : ℕ) (rest : Bytes)
    → n ≤ max_output_value_32
    → bytes_to_output_value (be 4 n ++ rest) ≡ ok (n, rest)
short_round_trip n rest h = short_head n rest h ∙ short_lem n rest h

pub long_round_trip :
    (n : ℕ) (rest : Bytes)
    → max_output_value_32 ≤ n
    → n ≤ max_output_value
    → bytes_to_output_value (be 8 (2 ^ 64 - n) ++ rest) ≡ ok (n, rest)
long_round_trip n rest h k =
    long_head (2 ^ 64 - n) rest (omega arith) (omega arith) ∙ long_lem n rest h k

-- The encoding is defined for the values from 1 to 2 ^ 63, and reading it back before any further
-- bytes returns the value and those bytes.
pub output_value_round_trip :
    (n : ℕ) (rest : Bytes)
    → 0 < n
    → n ≤ max_output_value
    → (bs : Bytes) × (output_value_to_bytes n ≡ ok bs)
      × (bytes_to_output_value (bs ++ rest) ≡ ok (n, rest))
unfolding output_value_to_bytes
output_value_round_trip n rest h k = elim (Bool-cases (ltb max_output_value_32 n)) [
  | inl big ↦
      (be 8 (2 ^ 64 - n), ground arith, long_round_trip n rest (omega (arith, ltb→lt _ _ big)) k)
  | inr small ↦ (be 4 n, ground arith, short_round_trip n rest (ground arith))
]
