-- ===== src/Tx/Parse/Laws.antt =====
-- The readers of hathor/transaction/base_transaction.py, field by field.
use khathor.Prelude.{
  ℕ, length, ◌++◌, ◌≡◌, ◌<◌, List, refl, ◌^◌, All, ap, arith, ◌∷◌, append_assoc, [],
}
use khathor.Tx.Base.{concat_bytes}
use khathor.Tx.Parse.{read_many, read_hash}
use khathor.Bytes.{be, Bytes, from_be, slice}
use khathor.Errors.{Result, ok, ok-injective, >>=-eq-ok}
use khathor.Tx.Input.{tx_hash_size}
use khathor.Bytes.Laws.{unpack_len-append}

module _ {A : Type 0} (f : A → Result Bytes) (read : Bytes → Result (A × Bytes)) where
  pub read_many-concat :
      (P : A → Type 0)
      → ((x : A) (b rest : Bytes) → P x → f x ≡ ok b → read (b ++ rest) ≡ ok (x, rest))
      → (xs : List A) (bs rest : Bytes) → All P xs
      → concat_bytes f xs ≡ ok bs
      → read_many read (length xs) (bs ++ rest) ≡ ok (xs, rest)
  unfolding read_many concat_bytes
  read_many-concat P step [] bs rest h e = ground arith
  read_many-concat P step (x ∷ xs) bs rest h e =
      let (b, p, e₁) = >>=-eq-ok (f x) _ e in
      let (bs', q, e₂) = >>=-eq-ok (concat_bytes f xs) _ e₁ in
      let s : b ++ bs' ≡ bs = ok-injective e₂ in
      rw (← s, append_assoc b bs' rest)
        (rw (step x b (bs' ++ rest) h.0 p) (rw (read_many-concat P step xs bs' rest h.1 q) refl))

-- A hash of 32 bytes.
abbrev pub IsHash : Bytes → Type 0
IsHash h = length h ≡ tx_hash_size

pub read_hash-step :
    (x b rest : Bytes) → IsHash x → ok x ≡ ok b → read_hash (b ++ rest) ≡ ok (x, rest)
unfolding read_hash
read_hash-step x b rest h e =
    let s = ok-injective e in rw (← s) (ap ok (unpack_len-append tx_hash_size x rest h))

pub ok-total : (x : Bytes) → IsHash x → (b : Bytes) × (ok x ≡ ok b)
ok-total x h = (x, refl)

-- The four fields of the '!HBBB' chunk.
abbrev pub funds_header : ℕ → ℕ → ℕ → ℕ → Bytes
funds_header v t i o = be 2 v ++ (be 1 t ++ (be 1 i ++ be 1 o))

pub record HeaderReads (v t i o : ℕ) : Type 0 where
  pub size : length (funds_header v t i o) ≡ 5
  pub version : from_be 0 (slice 0 2 (funds_header v t i o)) ≡ v
  pub tokens : from_be 0 (slice 2 1 (funds_header v t i o)) ≡ t
  pub inputs : from_be 0 (slice 3 1 (funds_header v t i o)) ≡ i
  pub outputs : from_be 0 (slice 4 1 (funds_header v t i o)) ≡ o

pub funds-HeaderReads :
    (v t i o : ℕ) → v < 65536 → t < 256 → i < 256 → o < 256 → HeaderReads v t i o
unfolding be from_be
funds-HeaderReads v t i o a b c d = record {
  size = refl;
  version = omega arith;
  tokens = omega arith;
  inputs = omega arith;
  outputs = omega arith;
}

-- The three fields of the '!dIB' chunk.
abbrev pub graph_header : ℕ → ℕ → ℕ → Bytes
graph_header w t n = be 8 w ++ (be 4 t ++ be 1 n)

pub record GraphReads (w t n : ℕ) : Type 0 where
  pub size : length (graph_header w t n) ≡ 13
  pub weight : from_be 0 (slice 0 8 (graph_header w t n)) ≡ w
  pub timestamp : from_be 0 (slice 8 4 (graph_header w t n)) ≡ t
  pub parents : from_be 0 (slice 12 1 (graph_header w t n)) ≡ n

pub graph-GraphReads : (w t n : ℕ) → w < 2 ^ 64 → t < 2 ^ 32 → n < 256 → GraphReads w t n
unfolding be from_be
graph-GraphReads w t n a b c = record {
  size = refl;
  weight = omega arith;
  timestamp = omega arith;
  parents = omega arith;
}
