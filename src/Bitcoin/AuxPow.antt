-- ===== src/Bitcoin/AuxPow.antt =====
-- `BitcoinAuxPow` of hathor/transaction/aux_pow.py, and MAGIC_NUMBER of
-- hathor/merged_mining/coordinator.py.
pub mod Laws
use khathor.Prelude.{
  [], ◌∷◌, ℕ, Bool, List, take, ◌++◌, suc, zero, length, leb, ◌||◌, ◌&&◌, ◌-◌, not, drop,
}
use khathor.Errors.{ok, err, Result, ◌>>◌, ◌>>=◌, guard, aux_pow_error}
use khathor.Crypto.{Platform}
use khathor.Bytes.{Bytes, bytes_eq}
use khathor.Bitcoin.Merkle.{build_merkle_root_from_path, sha256d_hash, encode_revbytes}
use khathor.Bitcoin.Codec.{encode_bytearray, read_nbytes, encode_list, read_bytes, read_list}

-- b'Hath'
abbrev pub magic_number : Bytes
magic_number = 0x48 ∷ 0x61 ∷ 0x74 ∷ 0x68 ∷ []

pub record BitcoinAuxPow : Type 0 where
  pub header_head : Bytes
  pub coinbase_head : Bytes
  pub coinbase_tail : Bytes
  pub merkle_path : List Bytes
  pub header_tail : Bytes

abbrev pub zeros : ℕ → Bytes
zeros zero = []
zeros (suc n) = 0 ∷ zeros n

abbrev pub dummy : BitcoinAuxPow
dummy = record {
  header_head = zeros 36;
  coinbase_head = magic_number;
  coinbase_tail = [];
  merkle_path = zeros 32 ∷ [];
  header_tail = zeros 12;
}

-- bytes(aux_pow)
unfoldable pub aux_pow_to_bytes : BitcoinAuxPow → Result Bytes
aux_pow_to_bytes aux_pow = do
  coinbase_head ← encode_bytearray aux_pow.coinbase_head
  coinbase_tail ← encode_bytearray aux_pow.coinbase_tail
  merkle_path ← encode_list ok aux_pow.merkle_path
  ok (
      aux_pow.header_head
      ++ (coinbase_head ++ (coinbase_tail ++ (merkle_path ++ aux_pow.header_tail))))

-- bytes that are left over are ignored
unfoldable pub from_bytes : Bytes → Result BitcoinAuxPow
from_bytes b = do
  (header_head, a₁) ← read_nbytes 36 b
  (coinbase_head, a₂) ← read_bytes a₁
  (coinbase_tail, a₃) ← read_bytes a₂
  (merkle_path, a₄) ← read_list (read_nbytes 32) a₃
  (header_tail, a₅) ← read_nbytes 12 a₄
  ok (record {
    header_head = header_head;
    coinbase_head = coinbase_head;
    coinbase_tail = coinbase_tail;
    merkle_path = merkle_path;
    header_tail = header_tail;
  })

-- The hash of the header that Bitcoin's miner made around the coinbase.
unfoldable pub aux_pow_hash : Platform → BitcoinAuxPow → Bytes → Result Bytes
aux_pow_hash p aux_pow base_block_hash = do
  let coinbase = aux_pow.coinbase_head ++ (base_block_hash ++ aux_pow.coinbase_tail)
  root ← build_merkle_root_from_path p (sha256d_hash p coinbase ∷ aux_pow.merkle_path)
  let merkle_root = encode_revbytes root
  ok (sha256d_hash p (aux_pow.header_head ++ (merkle_root ++ aux_pow.header_tail)))

-- b.endswith(suffix)
unfoldable pub ends_with : Bytes → Bytes → Bool
ends_with b suffix =
    leb (length suffix) (length b) && bytes_eq (drop (length b - length suffix) b) suffix

-- needle in b
unfoldable pub contains : Bytes → Bytes → Bool
contains needle [] = bytes_eq needle []
contains needle (x ∷ b) = bytes_eq (take (length needle) (x ∷ b)) needle || contains needle b

-- coinbase_head[42:len(MAGIC_NUMBER)], whose end is before its start
abbrev pub searched : Bytes → Bytes
searched coinbase_head = take (length magic_number - 42) (drop 42 coinbase_head)

unfoldable pub verify : BitcoinAuxPow → Result (Unit {0})
verify aux_pow = do
  guard (ends_with aux_pow.coinbase_head magic_number) aux_pow_error
  guard (not (contains magic_number (searched aux_pow.coinbase_head))) aux_pow_error
  guard (leb (length aux_pow.merkle_path) 12) aux_pow_error
