-- ===== src/Bitcoin/AuxPow/Laws.antt =====
-- `BitcoinAuxPow` of hathor/transaction/aux_pow.py: its bytes, its hash and its verification.
use khathor.Prelude.{
  refl, length, ◌≡◌, ◌↔◌, ◌<◌, ◌^◌, ◌++◌, All, true, ◌≤◌, arith, append_assoc, List,
}
use khathor.Errors.{ok, ok-injective}
use khathor.Bitcoin.AuxPow.{
  BitcoinAuxPow, verify, aux_pow_to_bytes, contains, from_bytes, ends_with, magic_number,
}
use khathor.Bitcoin.Codec.{read_nbytes, encode_list, read_list}
use khathor.Bytes.{bytes_eq, Bytes}
use khathor.Bitcoin.Codec.Laws.{bytearray_round_trip, Reads, list_round_trip, read_nbytes_lem}

-- The values that the format holds.
pub record IsEncodableAuxPow (aux_pow : BitcoinAuxPow) : Type 0 where
  pub header_head : length aux_pow.header_head ≡ 36
  pub coinbase_head : length aux_pow.coinbase_head < 2 ^ 64
  pub coinbase_tail : length aux_pow.coinbase_tail < 2 ^ 64
  pub merkle_len : length aux_pow.merkle_path < 2 ^ 64
  pub merkle_path : All (λ h. length h ≡ 32) aux_pow.merkle_path
  pub header_tail : length aux_pow.header_tail ≡ 12

read_nbytes-step :
    (x b rest : Bytes) → length x ≡ 32 → ok x ≡ ok b → read_nbytes 32 (b ++ rest) ≡ ok (x, rest)
read_nbytes-step x b rest h e = rw (← ok-injective e) (read_nbytes_lem 32 x h rest)

path_round_trip :
    (path : List Bytes)
    → length path < 2 ^ 64
    → All (λ h. length h ≡ 32) path
    → (bs : Bytes) × (encode_list ok path ≡ ok bs) × Reads (read_list (read_nbytes 32)) bs path
path_round_trip path h ps =
    list_round_trip ok (read_nbytes 32) (λ x. length x ≡ 32) (λ x _. (x, refl)) read_nbytes-step
      path h ps

-- An aux pow whose fields fit the format is written as bytes, and reading them returns it, also with
-- further bytes behind them.
pub aux_pow_round_trip :
    (aux_pow : BitcoinAuxPow) (rest : Bytes)
    → IsEncodableAuxPow aux_pow
    → (bs : Bytes) × (aux_pow_to_bytes aux_pow ≡ ok bs) × (from_bytes (bs ++ rest) ≡ ok aux_pow)
unfolding aux_pow_to_bytes from_bytes
aux_pow_round_trip aux_pow rest h =
    let (ch, p₁, r₁) = bytearray_round_trip aux_pow.coinbase_head h.coinbase_head in
    let (ct, p₂, r₂) = bytearray_round_trip aux_pow.coinbase_tail h.coinbase_tail in
    let (mp, p₃, r₃) = path_round_trip aux_pow.merkle_path h.merkle_len h.merkle_path in
    (
      aux_pow.header_head ++ (ch ++ (ct ++ (mp ++ aux_pow.header_tail))),
      rw (p₁, p₂, p₃) refl,
      simp (
        append_assoc,
        read_nbytes_lem 36 aux_pow.header_head h.header_head,
        r₁,
        r₂,
        r₃,
        read_nbytes_lem 12 aux_pow.header_tail h.header_tail,
      ),
    )

-- `verify` accepts exactly the coinbases that end with the magic number and the paths of at most 12
-- links: the search for further magic numbers finds none in any coinbase.
pub verify_iff :
    (aux_pow : BitcoinAuxPow)
    → (verify aux_pow ≡ ok tt)
      ↔ ((ends_with aux_pow.coinbase_head magic_number ≡ true) × (length aux_pow.merkle_path ≤ 12))
unfolding verify contains bytes_eq
verify_iff aux_pow = ground arith
