-- ===== src/Bitcoin/Codec/Laws.antt =====
-- What the encodings of hathor/merged_mining/bitcoin.py write is read back.
use khathor.Prelude.{
  ◌∷◌, refl, ℕ, ◌<◌, ◌++◌, length, ◌^◌, ◌≡◌, Bool-cases, reverse-reverse, length-reverse, lt→ltb,
  ltb, ◌∙◌, inl, arith, inr, leb, leb→le, List, All, sym, append_assoc, ap, ◌%◌, false, [],
}
use khathor.Errors.{ok, Result, ok-injective, >>=-eq-ok}
use khathor.Bitcoin.Codec.{
  pack_le, read_le, encode_varint, le, read_varint, from_le, encode_list, encode_bytearray,
  read_bytes, read_list, read_nbytes, read_segwit_flag,
}
use khathor.Bytes.{Bytes, unpack, from_be, be}
use khathor.Bytes.Laws.{unpack-append, from_be-be, length-be, unpack_len-append}
use khathor.Tx.Base.{concat_bytes}
use khathor.Tx.Parse.Laws.{read_many-concat}
use khathor.Tx.Base.Laws.{concat_bytes-total}

-- The reader takes the value from the front of the buffer.
abbrev pub Reads : {A : Type 0} → (Bytes → Result (A × Bytes)) → Bytes → A → Type 0
Reads read bs x = (rest : Bytes) → read (bs ++ rest) ≡ ok (x, rest)

length-le : (w n : ℕ) → length (le w n) ≡ w
unfolding le
length-le w n = length-reverse (be w n) ∙ length-be w n

from_le-le : (w n : ℕ) → n < 256 ^ w → from_le (le w n) ≡ n
unfolding le from_le
from_le-le w n h = rw (reverse-reverse (be w n)) (from_be-be w n h)

pub read_le-le :
    (w n : ℕ) → n < 256 ^ w → (rest : Bytes) → read_le w (le w n ++ rest) ≡ ok (n, rest)
unfolding read_le
read_le-le w n h rest =
    rw (unpack-append w (le w n) rest (length-le w n)) (rw (from_le-le w n h) refl)

pub pack_le_lem : (w n : ℕ) → n < 256 ^ w → pack_le w n ≡ ok (le w n)
unfolding pack_le
pack_le_lem w n h = rw (lt→ltb n (256 ^ w) h)

pub read_le-byte : (b : ℕ) (rest : Bytes) → read_le 1 (b ∷ rest) ≡ ok (b, rest)
unfolding read_le unpack from_le from_be
read_le-byte b rest = ground arith

-- A number below 2 ^ 64 is encoded, and read back.
pub varint_round_trip :
    (n : ℕ) → n < 2 ^ 64 → (bs : Bytes) × (encode_varint n ≡ ok bs) × Reads read_varint bs n
unfolding encode_varint read_varint
varint_round_trip n h = elim (Bool-cases (ltb n 0xfd)) [
  | inl a ↦ (
    le 1 n,
    rw a (pack_le_lem 1 n (ground arith)),
    λ rest. rw (read_le-le 1 n (ground arith) rest) (rw a),
  )
  | inr a ↦ elim (Bool-cases (leb n 0xffff)) [
    | inl b ↦ (
      0xfd ∷ le 2 n,
      rw (a, b) (rw (pack_le_lem 2 n (omega (arith, leb→le _ _ b)))),
      λ rest.
          rw (read_le-byte 253 (le 2 n ++ rest))
            (read_le-le 2 n (omega (arith, leb→le _ _ b)) rest),
    )
    | inr b ↦ elim (Bool-cases (leb n 0xffffffff)) [
      | inl c ↦ (
        0xfe ∷ le 4 n,
        rw (a, b, c) (rw (pack_le_lem 4 n (omega (arith, leb→le _ _ c)))),
        λ rest.
            rw (read_le-byte 254 (le 4 n ++ rest))
              (read_le-le 4 n (omega (arith, leb→le _ _ c)) rest),
      )
      | inr c ↦ (
        0xff ∷ le 8 n,
        rw (a, b, c) (rw (pack_le_lem 8 n (omega (arith, h)))),
        λ rest. rw (read_le-byte 255 (le 8 n ++ rest)) (read_le-le 8 n (omega (arith, h)) rest),
      )
    ]
  ]
]

-- Bytes and lists behind their length.
pub bytearray_round_trip :
    (b : Bytes)
    → length b < 2 ^ 64
    → (bs : Bytes) × (encode_bytearray b ≡ ok bs) × Reads read_bytes bs b
unfolding encode_bytearray read_bytes read_nbytes
bytearray_round_trip b h =
    let (v, e, r) = varint_round_trip (length b) h in
    (
      v ++ b,
      rw e refl,
      λ rest.
          rw (append_assoc v b rest)
            (rw (r (b ++ rest)) (rw (unpack_len-append (length b) b rest refl) refl)),
    )

pub read_bytes-step :
    (x b rest : Bytes)
    → length x < 2 ^ 64
    → encode_bytearray x ≡ ok b
    → read_bytes (b ++ rest) ≡ ok (x, rest)
read_bytes-step x b rest h e =
    let (b', p, q) = bytearray_round_trip x h in rw (ok-injective (sym e ∙ p)) (q rest)

pub read_list-encode_list :
    {A : Type 0} (f : A → Result Bytes) (read : Bytes → Result (A × Bytes)) (P : A → Type 0)
    → ((x : A) (b rest : Bytes) → P x → f x ≡ ok b → read (b ++ rest) ≡ ok (x, rest))
    → (xs : List A) (bs rest : Bytes) → length xs < 2 ^ 64
    → All P xs
    → encode_list f xs ≡ ok bs
    → read_list read (bs ++ rest) ≡ ok (xs, rest)
unfolding encode_list read_list
read_list-encode_list f read P step xs bs rest h ps e =
    let (v, p, r) = varint_round_trip (length xs) h in
    let (v', e₁, e₂) = >>=-eq-ok (encode_varint (length xs)) _ e in
    let (c, e₃, e₄) = >>=-eq-ok (concat_bytes f xs) _ e₂ in
    let same : v' ≡ v = ok-injective (sym e₁ ∙ p) in
    rw (← ok-injective e₄) (
      rw same (
        rw (append_assoc v c rest)
          (rw (r (c ++ rest)) (read_many-concat f read P step xs c rest ps e₃))))

-- A list whose elements are encoded and read back.
pub list_round_trip :
    {A : Type 0} (f : A → Result Bytes) (read : Bytes → Result (A × Bytes)) (P : A → Type 0)
    → ((x : A) → P x → (b : Bytes) × (f x ≡ ok b))
    → ((x : A) (b rest : Bytes) → P x → f x ≡ ok b → read (b ++ rest) ≡ ok (x, rest))
    → (xs : List A) → length xs < 2 ^ 64
    → All P xs
    → (bs : Bytes) × (encode_list f xs ≡ ok bs) × Reads (read_list read) bs xs
unfolding encode_list
list_round_trip f read P total step xs h ps =
    let (v, p, r) = varint_round_trip (length xs) h in
    let (c, q) = concat_bytes-total f P total xs ps in
    let e : encode_list f xs ≡ ok (v ++ c) = rw (p, q) refl in
    (v ++ c, e, λ rest. read_list-encode_list f read P step xs (v ++ c) rest h ps e)

pub read_nbytes_lem :
    (n : ℕ) (x : Bytes) → length x ≡ n → (rest : Bytes) → read_nbytes n (x ++ rest) ≡ ok (x, rest)
unfolding read_nbytes
read_nbytes_lem n x h rest = ap ok (unpack_len-append n x rest h)

-- The first byte of the encoding of a positive number is not 0.
pub varint_head :
    (n : ℕ) → 0 < n → n < 2 ^ 64 → (b : ℕ) × (t : Bytes) × (encode_varint n ≡ ok (b ∷ t)) × (0 < b)
unfolding encode_varint le be
varint_head n k h = elim (Bool-cases (ltb n 0xfd)) [
  | inl a ↦ (n % 256, [], rw a (pack_le_lem 1 n (ground arith)), ground arith)
  | inr a ↦ elim (Bool-cases (leb n 0xffff)) [
    | inl b ↦
        (0xfd, le 2 n, rw (a, b) (rw (pack_le_lem 2 n (omega (arith, leb→le _ _ b)))), omega arith)
    | inr b ↦ elim (Bool-cases (leb n 0xffffffff)) [
      | inl c ↦ (
        0xfe,
        le 4 n,
        rw (a, b, c) (rw (pack_le_lem 4 n (omega (arith, leb→le _ _ c)))),
        omega arith,
      )
      | inr c ↦ (0xff, le 8 n, rw (a, b, c) (rw (pack_le_lem 8 n (omega (arith, h)))), omega arith)
    ]
  ]
]

pub read_segwit_flag-varint :
    (n : ℕ) (bs rest : Bytes)
    → 0 < n
    → n < 2 ^ 64
    → encode_varint n ≡ ok bs
    → read_segwit_flag (bs ++ rest) ≡ ok (false, bs ++ rest)
unfolding read_segwit_flag
read_segwit_flag-varint n bs rest k h e =
    let (b, t, p, q) = varint_head n k h in
    rw (ok-injective (sym e ∙ p)) (rw (read_le-byte b (t ++ rest)) (ground arith))
