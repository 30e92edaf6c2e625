-- ===== src/Tx/Creation/Info.antt =====
-- The name and the symbol of hathor/transaction/token_creation_tx.py, serialized and read back.
use khathor.Prelude.{refl, some, ◌≡◌, ℕ, ◌<◌, ◌++◌, length, arith, append_assoc}
use khathor.Errors.{ok}
use khathor.Tx.Creation.{
  Str, Text, TokenCreationTx, serialize_token_info, deserialize_token_info, decode_string_utf8,
  encode_utf8,
}
use khathor.Bytes.{Bytes, unpack, be, from_be}
use khathor.Bytes.Laws.{int_to_bytes_lem, unpack-append, from_be-be, length-be, unpack_len-append}

-- What Python documents of the two methods: decoding gives back the string that was encoded.
pub record IsCodec (t : Text) : Type 0 where
  pub decode-encode : (s : Str) (b : Bytes) → t.encode s ≡ some b → t.decode b ≡ some s

-- The bytes of a string, where it has them and they fit the format.
pub record Encoded (t : Text) (s : Str) : Type 0 where
  pub bytes : Bytes
  pub encodes : t.encode s ≡ some bytes
  pub short : length bytes < 256

byte_reads : (n : ℕ) → n < 256 → from_be 0 (be 1 n) ≡ n
byte_reads n h = from_be-be 1 n (omega arith)

unpack_byte : (n : ℕ) (rest : Bytes) → unpack 1 (be 1 n ++ rest) ≡ ok (be 1 n, rest)
unpack_byte n rest = unpack-append 1 (be 1 n) rest (length-be 1 n)

encode_utf8_lem : (t : Text) (s : Str) (b : Bytes) → t.encode s ≡ some b → encode_utf8 t s ≡ ok b
unfolding encode_utf8
encode_utf8_lem t s b h = rw (h, encode_utf8) refl

decode_string_utf8_lem :
    (t : Text) (s : Str) (b : Bytes) → t.decode b ≡ some s → decode_string_utf8 t b ≡ ok s
unfolding decode_string_utf8
decode_string_utf8_lem t s b h = rw (h, decode_string_utf8) refl

regroup :
    (v n a m b rest : Bytes)
    → (v ++ (n ++ (a ++ (m ++ b)))) ++ rest ≡ v ++ (n ++ (a ++ (m ++ (b ++ rest))))
regroup v n a m b rest = simp append_assoc

module _ (t : Text) (self : TokenCreationTx) (name : Encoded t self.token_name)
    (symbol : Encoded t self.token_symbol) where
  pub info_bytes : Bytes
  info_bytes =
      be 1 1
      ++ (be 1 (length name.bytes) ++ (name.bytes ++ (be 1 (length symbol.bytes) ++ symbol.bytes)))

  pub serialize_token_info_lem : serialize_token_info t self ≡ ok info_bytes
  unfolding serialize_token_info info_bytes
  serialize_token_info_lem =
      rw
        (
          encode_utf8_lem t self.token_name name.bytes name.encodes,
          encode_utf8_lem t self.token_symbol symbol.bytes symbol.encodes,
        )
        (rw (int_to_bytes_lem 1 1 (omega arith)) (
          rw (int_to_bytes_lem (length name.bytes) 1 (omega (arith, name.short)))
            (rw (int_to_bytes_lem (length symbol.bytes) 1 (omega (arith, symbol.short))) refl)))

  pub deserialize_token_info_lem :
      (rest : Bytes)
      → IsCodec t
      → deserialize_token_info t (info_bytes ++ rest)
        ≡ ok (self.token_name, self.token_symbol, rest)
  unfolding deserialize_token_info info_bytes
  deserialize_token_info_lem rest codec =
      let decoded : (s : Str) (e : Encoded t s) → decode_string_utf8 t e.bytes ≡ ok s =
        λ s e. decode_string_utf8_lem t s e.bytes (codec.decode-encode s e.bytes e.encodes) in
      rw
        (regroup (be 1 1) (be 1 (length name.bytes)) name.bytes (be 1 (length symbol.bytes))
          symbol.bytes rest)
        (rw
          (unpack_byte 1 (
            be 1 (length name.bytes)
            ++ (name.bytes ++ (be 1 (length symbol.bytes) ++ (symbol.bytes ++ rest)))))
          (rw (byte_reads 1 (omega arith)) (
            rw
              (unpack_byte (length name.bytes)
                (name.bytes ++ (be 1 (length symbol.bytes) ++ (symbol.bytes ++ rest))))
              (rw (byte_reads (length name.bytes) name.short) (
                rw
                  (unpack_len-append (length name.bytes) name.bytes
                    (be 1 (length symbol.bytes) ++ (symbol.bytes ++ rest)) refl)
                  (rw (unpack_byte (length symbol.bytes) (symbol.bytes ++ rest)) (
                    rw (byte_reads (length symbol.bytes) symbol.short) (
                      rw (unpack_len-append (length symbol.bytes) symbol.bytes rest refl) (
                        rw (decoded self.token_name name)
                          (rw (decoded self.token_symbol symbol) refl))))))))))
