-- ===== src/Crypto.antt =====
-- Addresses: hathor/crypto/util.py. The hash functions, the elliptic curve and base 58 belong to
-- other packages (hashlib, cryptography, base58), so they are fields of `Platform`, with the two
-- version bytes of the network's settings (hathor/conf/settings.py).
pub mod Laws
use khathor.Prelude.{
  ℕ, ◌+◌, ◌-◌, ◌≡◌, Bool, Option, none, some, [], ◌∷◌, ◌++◌, length, take, drop, ◌==◌, not,
  if◌then◌else◌,
}
use khathor.Errors.{Result, ok, err, guard, ◌>>=◌, ◌>>◌, invalid_address, value_error}
use khathor.Bytes.{Bytes, IsBytes, bytes_eq}

pub record Platform : Type 0 where
  pub sha256 : Bytes → Bytes
  pub ripemd160 : Bytes → Bytes
  pub b58encode : Bytes → Bytes
  -- `none` where the package raises ValueError
  pub b58decode : Bytes → Option Bytes
  -- does `from_encoded_point` accept these bytes as a public key?
  pub valid_point : Bytes → Bool
  -- public key, signature, data: does `verify` return without InvalidSignature?
  pub ecdsa_verify : Bytes → Bytes → Bytes → Bool
  -- does `bytes.decode('utf-8')` accept these bytes?
  pub valid_utf8 : Bytes → Bool
  pub p2pkh_version_byte : ℕ
  pub multisig_version_byte : ℕ

-- What the packages document: the sizes of the digests, and that base 58 decodes what it encoded.
pub record IsStandard (p : Platform) : Type 0 where
  pub length-sha256 : (b : Bytes) → length (p.sha256 b) ≡ 32
  pub length-ripemd160 : (b : Bytes) → length (p.ripemd160 b) ≡ 20
  pub decode-encode : (b : Bytes) → p.b58decode (p.b58encode b) ≡ some b

module _ (p : Platform) where
  unfoldable pub get_hash160 : Bytes → Bytes
  get_hash160 public_key_bytes = p.ripemd160 (p.sha256 public_key_bytes)

  -- the first four bytes of the double hash
  unfoldable pub get_checksum : Bytes → Bytes
  get_checksum address_bytes = take 4 (p.sha256 (p.sha256 address_bytes))

  -- `get_address_from_public_key_hash` and `get_address_from_redeem_script_hash` differ in the
  -- version byte that they put first.
  unfoldable pub get_address_from_public_key_hash : Bytes → Bytes
  get_address_from_public_key_hash public_key_hash =
      let address : Bytes = p.p2pkh_version_byte ∷ public_key_hash in
      address ++ get_checksum address

  unfoldable pub get_address_from_redeem_script_hash : Bytes → Bytes
  get_address_from_redeem_script_hash redeem_script_hash =
      let address : Bytes = p.multisig_version_byte ∷ redeem_script_hash in
      address ++ get_checksum address

  unfoldable pub get_address_from_public_key_bytes : Bytes → Bytes
  get_address_from_public_key_bytes public_key_bytes =
      get_address_from_public_key_hash (get_hash160 public_key_bytes)

  unfoldable pub get_address_b58_from_public_key_hash : Bytes → Bytes
  get_address_b58_from_public_key_hash public_key_hash =
      p.b58encode (get_address_from_public_key_hash public_key_hash)

  unfoldable pub get_address_b58_from_public_key_bytes : Bytes → Bytes
  get_address_b58_from_public_key_bytes public_key_bytes =
      get_address_b58_from_public_key_hash (get_hash160 public_key_bytes)

  unfoldable pub get_address_b58_from_redeem_script_hash : Bytes → Bytes
  get_address_b58_from_redeem_script_hash redeem_script_hash =
      p.b58encode (get_address_from_redeem_script_hash redeem_script_hash)

  unfoldable pub get_address_b58_from_bytes : Bytes → Bytes
  get_address_b58_from_bytes address = p.b58encode address

  -- the part of `decode_address` behind the decoding: the size, then the checksum
  unfoldable pub check_address : Bytes → Result Bytes
  check_address decoded = do
    guard (length decoded == 25) invalid_address
    let body = take (length decoded - 4) decoded
    let address_checksum = drop (length decoded - 4) decoded
    guard (bytes_eq address_checksum (get_checksum body)) invalid_address
    ok decoded

  unfoldable pub decode_address : Bytes → Result Bytes
  decode_address address58 = elim (p.b58decode address58) [
    | none ↦ err invalid_address
    | some decoded ↦ check_address decoded
  ]
