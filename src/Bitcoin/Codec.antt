-- ===== src/Bitcoin/Codec.antt =====
-- The encodings and the readers of hathor/merged_mining/bitcoin.py. A reader consumes bytes of a
-- bytearray: here it returns the value and the bytes that are left.
pub mod Laws
use khathor.Prelude.{
  [], ◌∷◌, List, ℕ, reverse, if◌then◌else◌, Bool, ltb, length, ◌==◌, ◌^◌, ◌++◌, leb, true, false,
}
use khathor.Errors.{ok, err, Result, ◌>>=◌, ◌>>◌, guard, struct_error, assertion_error}
use khathor.Bytes.{Bytes, from_be, unpack_len, be, unpack}
use khathor.Prelude.Int.{ℤ, signed}
use khathor.Bitcoin.Merkle.{encode_revbytes}
use khathor.Tx.Parse.{read_many}
use khathor.Tx.Base.{concat_bytes}

-- struct.pack and struct.unpack of one unsigned little-endian field
unfoldable pub le : ℕ → ℕ → Bytes
le w n = reverse (be w n)

unfoldable pub from_le : Bytes → ℕ
from_le bs = from_be 0 (reverse bs)

unfoldable pub pack_le : ℕ → ℕ → Result Bytes
pack_le w n = if ltb n (256 ^ w) then ok (le w n) else err struct_error

unfoldable pub read_le : ℕ → Bytes → Result (ℕ × Bytes)
read_le w buffer = do (chunk, rest) ← unpack w buffer; ok (from_le chunk, rest)

unfoldable pub encode_varint : ℕ → Result Bytes
encode_varint number =
    if ltb number 0xfd
    then pack_le 1 number
    else if leb number 0xffff
    then (do b ← pack_le 2 number; ok (0xfd ∷ b))
    else if leb number 0xffffffff
    then (do b ← pack_le 4 number; ok (0xfe ∷ b))
    else do b ← pack_le 8 number; ok (0xff ∷ b)

unfoldable pub encode_uint32 : ℕ → Result Bytes
encode_uint32 = pack_le 4

unfoldable pub encode_bytearray : Bytes → Result Bytes
encode_bytearray array = do size ← encode_varint (length array); ok (size ++ array)

-- An encoding may raise, so the elements are encoded here.
unfoldable pub encode_list : {A : Type 0} → (A → Result Bytes) → List A → Result Bytes
encode_list f buffer = do
  count ← encode_varint (length buffer)
  elements ← concat_bytes f buffer
  ok (count ++ elements)

unfoldable pub encode_bytearray_list : List Bytes → Result Bytes
encode_bytearray_list = encode_list encode_bytearray

unfoldable pub read_int32 : Bytes → Result (ℤ × Bytes)
read_int32 buffer = do (res, rest) ← read_le 4 buffer; ok (signed 32 res, rest)

unfoldable pub read_uint32 : Bytes → Result (ℕ × Bytes)
read_uint32 = read_le 4

-- b'\00\01' is the flag
unfoldable pub read_segwit_flag : Bytes → Result (Bool × Bytes)
read_segwit_flag buffer = do
  (peek, buffer₁) ← read_le 1 buffer
  if peek == 0
      then (do (i, buffer₂) ← read_le 1 buffer₁; guard (i == 1) assertion_error; ok (true, buffer₂))
      else ok (false, buffer)

unfoldable pub read_varint : Bytes → Result (ℕ × Bytes)
read_varint buffer = do
  (i, buffer₁) ← read_le 1 buffer
  if ltb i 0xfd
      then ok (i, buffer₁)
      else if ltb i 0xfe
      then read_le 2 buffer₁
      else if ltb i 0xff
      then read_le 4 buffer₁
      else read_le 8 buffer₁

-- The result is short where the buffer is.
unfoldable pub read_nbytes : ℕ → Bytes → Result (Bytes × Bytes)
read_nbytes size buffer = ok (unpack_len size buffer)

unfoldable pub read_bytes : Bytes → Result (Bytes × Bytes)
read_bytes buffer = do (array_len, buffer₁) ← read_varint buffer; read_nbytes array_len buffer₁

unfoldable pub read_nrevbytes : ℕ → Bytes → Result (Bytes × Bytes)
read_nrevbytes size buffer =
    let (array, rest) = unpack_len size buffer in ok (encode_revbytes array, rest)

-- count = read_varint(buffer), then a loop of `count` rounds
unfoldable pub read_list :
    {A : Type 0} → (Bytes → Result (A × Bytes)) → Bytes → Result (List A × Bytes)
read_list read buffer = do (count, buffer₁) ← read_varint buffer; read_many read count buffer₁
