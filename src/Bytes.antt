-- ===== src/Bytes.antt =====
-- Byte strings: hathor/transaction/util.py (int_to_bytes, unpack, unpack_len) and what the code uses
-- of Python's `bytes`, `int` and `struct`. A byte string is a list of numbers below 256.
-- The laws are in Bytes/Laws.
pub mod Laws
use khathor.Prelude.{
  ℕ, zero, suc, ◌+◌, ◌*◌, ◌/◌, ◌%◌, ◌^◌, ◌<◌, Bool, true, false, ◌&&◌, List, [], ◌∷◌, ◌++◌, length,
  take, drop, get_elem?, All, none, some, ltb, ◌==◌, if◌then◌else◌,
}
use khathor.Errors.{Result, ok, err, struct_error, overflow_error, index_error}

abbrev pub Bytes : Type 0
Bytes = List ℕ

abbrev pub IsBytes : Bytes → Type 0
IsBytes bs = All (λ b. b < 256) bs

-- a == b on byte strings.
unfoldable pub bytes_eq : Bytes → Bytes → Bool
bytes_eq [] [] = true
bytes_eq (x ∷ xs) (y ∷ ys) = x == y && bytes_eq xs ys
bytes_eq _ _ = false

-- data[i]
unfoldable pub index : {A : Type 0} → List A → ℕ → Result A
index xs i = elim (get_elem? xs i) [ none ↦ err index_error | some x ↦ ok x ]

-- data[start:start + len]
abbrev pub slice : ℕ → ℕ → Bytes → Bytes
slice start len bs = take len (drop start bs)

-- int.from_bytes(bs, 'big'), onto an accumulator.
unfoldable pub from_be : ℕ → Bytes → ℕ
from_be acc [] = acc
from_be acc (b ∷ bs) = from_be (acc * 256 + b) bs

-- The `size` low bytes of a number, the highest first.
unfoldable pub be : ℕ → ℕ → Bytes
be zero n = []
be (suc w) n = be w (n / 256) ++ (n % 256) ∷ []

-- number.to_bytes(size, byteorder='big'), for a number that is not negative.
unfoldable pub int_to_bytes : ℕ → ℕ → Result Bytes
int_to_bytes number size =
    if ltb number (256 ^ size) then ok (be size number) else err overflow_error

-- buf[:n], buf[n:]
unfoldable pub unpack_len : ℕ → Bytes → Bytes × Bytes
unpack_len n buf = (take n buf, drop n buf)

-- struct.unpack(fmt, buf[:size]), buf[size:]: the fields are read from the chunk that is returned,
-- and `struct` refuses a chunk that is shorter than the format's size.
unfoldable pub unpack : ℕ → Bytes → Result (Bytes × Bytes)
unpack size buf =
    if length (take size buf) == size then ok (take size buf, drop size buf) else err struct_error
