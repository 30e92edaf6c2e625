-- ===== src/Bitcoin/Header.antt =====
-- `BitcoinBlockHeader` of hathor/merged_mining/bitcoin.py.
use khathor.Prelude.{
  ◌<◌, ℕ, ◌^◌, length, ◌++◌, ◌≡◌, reverse, append_assoc, length-reverse, ◌∙◌, reverse-reverse, refl,
}
use khathor.Errors.{ok, Result, ◌>>=◌}
use khathor.Bitcoin.Codec.{encode_uint32, read_nrevbytes, read_uint32, le}
use khathor.Bytes.{Bytes}
use khathor.Crypto.{Platform}
use khathor.Bitcoin.Merkle.{encode_revbytes, sha256d_hash}
use khathor.Bytes.Laws.{unpack_len-append}
use khathor.Bitcoin.Codec.Laws.{pack_le_lem, read_le-le}

pub record BitcoinBlockHeader : Type 0 where
  pub version : ℕ
  pub prev_block : Bytes
  pub merkle_root : Bytes
  pub timestamp : ℕ
  pub bits : Bytes
  pub nonce : ℕ

unfoldable pub header_to_bytes : BitcoinBlockHeader → Result Bytes
header_to_bytes header = do
  version ← encode_uint32 header.version
  timestamp ← encode_uint32 header.timestamp
  nonce ← encode_uint32 header.nonce
  ok (
      version
      ++ (encode_revbytes header.prev_block
          ++ (encode_revbytes header.merkle_root
              ++ (timestamp ++ (encode_revbytes header.bits ++ nonce)))))

-- bytes that are left over are ignored
unfoldable pub decode_header : Bytes → Result BitcoinBlockHeader
decode_header encoded = do
  (version, i₁) ← read_uint32 encoded
  (prev_block, i₂) ← read_nrevbytes 32 i₁
  (merkle_root, i₃) ← read_nrevbytes 32 i₂
  (timestamp, i₄) ← read_uint32 i₃
  (bits, i₅) ← read_nrevbytes 4 i₄
  (nonce, i₆) ← read_uint32 i₅
  ok (record {
    version = version;
    prev_block = prev_block;
    merkle_root = merkle_root;
    timestamp = timestamp;
    bits = bits;
    nonce = nonce;
  })

-- The property `hash`.
unfoldable pub header_hash : Platform → BitcoinBlockHeader → Result Bytes
header_hash p header = do b ← header_to_bytes header; ok (sha256d_hash p b)

-- The values that the format holds.
pub record IsEncodableHeader (header : BitcoinBlockHeader) : Type 0 where
  pub version : header.version < 2 ^ 32
  pub prev_block : length header.prev_block ≡ 32
  pub merkle_root : length header.merkle_root ≡ 32
  pub timestamp : header.timestamp < 2 ^ 32
  pub bits : length header.bits ≡ 4
  pub nonce : header.nonce < 2 ^ 32

read_nrevbytes-encode_revbytes :
    (n : ℕ) (array : Bytes)
    → length array ≡ n
    → (rest : Bytes) → read_nrevbytes n (encode_revbytes array ++ rest) ≡ ok (array, rest)
unfolding read_nrevbytes encode_revbytes
read_nrevbytes-encode_revbytes n array h rest =
    rw (unpack_len-append n (reverse array) rest (length-reverse array ∙ h))
      (rw (reverse-reverse array) refl)

-- A header whose fields fit the format is written as bytes, and reading them returns it, also with
-- further bytes behind them.
pub header_round_trip :
    (header : BitcoinBlockHeader) (rest : Bytes)
    → IsEncodableHeader header
    → (bs : Bytes) × (header_to_bytes header ≡ ok bs) × (decode_header (bs ++ rest) ≡ ok header)
unfolding header_to_bytes decode_header encode_uint32 read_uint32
header_round_trip header rest h =
    let version = pack_le_lem 4 header.version h.version in
    let timestamp = pack_le_lem 4 header.timestamp h.timestamp in
    let nonce = pack_le_lem 4 header.nonce h.nonce in
    (
      le 4 header.version
          ++ (encode_revbytes header.prev_block
              ++ (encode_revbytes header.merkle_root
                  ++ (le 4 header.timestamp
                      ++ (encode_revbytes header.bits ++ le 4 header.nonce)))),
      rw (version, timestamp, nonce) refl,
      simp (
        append_assoc,
        read_le-le 4 header.version h.version,
        read_le-le 4 header.timestamp h.timestamp,
        read_le-le 4 header.nonce h.nonce,
        read_nrevbytes-encode_revbytes 32 header.prev_block h.prev_block,
        read_nrevbytes-encode_revbytes 32 header.merkle_root h.merkle_root,
        read_nrevbytes-encode_revbytes 4 header.bits h.bits,
      ),
    )
