-- ===== src/Crypto/Laws.antt =====
-- `decode_address` of hathor/crypto/util.py, and the addresses that the library makes.
use khathor.Prelude.{
  ◌-◌, ◌≡◌, ◌∙◌, some, ◌∷◌, ◌++◌, length, length-append, take, drop, length-take, arith,
  take_of_length, drop_of_length,
}
use khathor.Errors.{ok}
use khathor.Bytes.{Bytes}
use khathor.Bytes.Laws.{bytes_eq_refl}
use khathor.Crypto.{
  Platform, IsStandard, get_hash160, get_checksum, get_address_from_public_key_hash,
  get_address_from_redeem_script_hash, get_address_b58_from_public_key_hash,
  get_address_b58_from_redeem_script_hash, check_address, decode_address,
}

pub length-get_checksum :
    (p : Platform) → IsStandard p → (b : Bytes) → length (get_checksum p b) ≡ 4
unfolding get_checksum
length-get_checksum p std b =
    length-take 4 (p.sha256 (p.sha256 b)) (omega (arith, std.length-sha256 (p.sha256 b)))

pub length-get_hash160 : (p : Platform) → IsStandard p → (b : Bytes) → length (get_hash160 p b) ≡ 20
unfolding get_hash160
length-get_hash160 p std b = std.length-ripemd160 (p.sha256 b)

pub check_address-append :
    (p : Platform) (body : Bytes)
    → length (body ++ get_checksum p body) ≡ 25
    → length body ≡ 21
    → check_address p (body ++ get_checksum p body) ≡ ok (body ++ get_checksum p body)
unfolding check_address
check_address-append p body e f =
    let g : length body ≡ 25 - 4 = f in
    rw (
      e,
      take_of_length 21 body (get_checksum p body) f,
      drop_of_length 21 body (get_checksum p body) f,
      bytes_eq_refl (get_checksum p body),
    )

-- An address that the library makes from a 20-byte hash of a public key decodes to its 25 bytes.
pub decode-public_key_hash :
    (p : Platform)
    → IsStandard p
    → (h : Bytes) → length h ≡ 20
    → decode_address p (get_address_b58_from_public_key_hash p h)
      ≡ ok (get_address_from_public_key_hash p h)
unfolding decode_address get_address_b58_from_public_key_hash get_address_from_public_key_hash
decode-public_key_hash p std h e =
    let body : Bytes = p.p2pkh_version_byte ∷ h in
    rw (std.decode-encode (body ++ get_checksum p body), decode_address)
      (check_address-append p body
        (length-append body (get_checksum p body)
          ∙ omega (arith, e, length-get_checksum p std body))
        (omega (arith, e)))

-- An address that the library makes from a 20-byte hash of a redeem script decodes to its 25 bytes.
pub decode-redeem_script_hash :
    (p : Platform)
    → IsStandard p
    → (h : Bytes) → length h ≡ 20
    → decode_address p (get_address_b58_from_redeem_script_hash p h)
      ≡ ok (get_address_from_redeem_script_hash p h)
unfolding decode_address get_address_b58_from_redeem_script_hash get_address_from_redeem_script_hash
decode-redeem_script_hash p std h e =
    let body : Bytes = p.multisig_version_byte ∷ h in
    rw (std.decode-encode (body ++ get_checksum p body), decode_address)
      (check_address-append p body
        (length-append body (get_checksum p body)
          ∙ omega (arith, e, length-get_checksum p std body))
        (omega (arith, e)))

-- What `decode_address` promises of a result.
pub record IsAddress (p : Platform) (text address : Bytes) : Type 0 where
  pub decodes : p.b58decode text ≡ some address
  pub size : length address ≡ 25
  pub checksum :
      drop (length address - 4) address ≡ get_checksum p (take (length address - 4) address)
