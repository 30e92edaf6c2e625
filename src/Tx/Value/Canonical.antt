-- ===== src/Tx/Value/Canonical.antt =====
-- Which bytes `bytes_to_output_value` of hathor/transaction/base_transaction.py accepts.
use khathor.Prelude.{
  ℕ, ◌^◌, ◌<◌, ◌≡◌, ap, sym, ◌∙◌, Bool, true, ◌∷◌, ◌++◌, arith, [], inl, inr, ◌≤◌, ◌≢◌, ◌⊎◌, false,
  ◌-◌, refl,
}
use khathor.Prelude.Int.{pos, signed, neg}
use khathor.Errors.{ok, Result-cases}
use khathor.Bytes.{Bytes, IsBytes, from_be, be, unpack}
use khathor.Bytes.Laws.{be-from_be, from_be-lt, unpack-split}
use khathor.Tx.Value.{
  read_short, read_long, invalid_value, check_value, max_output_value_32, bytes_to_output_value,
  output_value_to_bytes, max_output_value,
}

IsBytes-left : (xs ys : Bytes) → IsBytes (xs ++ ys) → IsBytes xs
IsBytes-left [] ys h = tt
IsBytes-left (x ∷ xs) ys h = (h.0, IsBytes-left xs ys h.1)

-- A chunk that was read is the encoding of its number.
unpack-be :
    (size : ℕ) (buf chunk rest : Bytes)
    → IsBytes buf
    → unpack size buf ≡ ok (chunk, rest)
    → (buf ≡ be size (from_be 0 chunk) ++ rest) × (from_be 0 chunk < 256 ^ size)
unpack-be size buf chunk rest h e =
    let (p, l) = unpack-split size buf chunk rest e in
    let c : IsBytes chunk = IsBytes-left chunk rest (rw p at h) in
    (p ∙ ap (λ x. x ++ rest) (sym (rw l at (be-from_be chunk c))), rw l at (from_be-lt chunk c))

short_chunk :
    (b : Bool) (buf rest : Bytes) (v : ℕ)
    → read_short b buf ≡ ok (v, rest)
    → (chunk : Bytes) × (unpack 4 buf ≡ ok (chunk, rest)) × (signed 32 (from_be 0 chunk) ≡ pos v)
unfolding read_short check_value invalid_value
short_chunk b buf rest v h = elim (Result-cases (unpack 4 buf)) [
  | inl ((chunk, r), e) ↦ (chunk, ground arith, ground arith)
  | inr (x, e) ↦ absurd (ground arith)
]

long_chunk :
    (b : Bool) (buf rest : Bytes) (v : ℕ)
    → read_long b buf ≡ ok (v, rest)
    → (chunk : Bytes) × (unpack 8 buf ≡ ok (chunk, rest))
      × (neg (signed 64 (from_be 0 chunk)) ≡ pos v)
      × ((v < max_output_value_32) × (b ≡ true) → ⊥)
unfolding read_long check_value invalid_value
long_chunk b buf rest v h = elim (Result-cases (unpack 8 buf)) [
  | inl ((chunk, r), e) ↦ (chunk, ground arith, ground arith, ground arith)
  | inr (x, e) ↦ absurd (ground arith)
]

unsigned-short : (u v : ℕ) → signed 32 u ≡ pos v → (u ≡ v) × (v ≤ max_output_value_32)
unfolding signed
unsigned-short u v h = ground arith

unsigned-long :
    (u v : ℕ)
    → u < 2 ^ 64
    → neg (signed 64 u) ≡ pos v
    → 0 < v
    → (u ≡ 2 ^ 64 - v) × (v ≤ max_output_value)
unfolding signed neg
unsigned-long u v b h k = ground arith

output_value_to_bytes-short :
    (v : ℕ) → 0 < v → v ≤ max_output_value_32 → output_value_to_bytes v ≡ ok (be 4 v)
unfolding output_value_to_bytes
output_value_to_bytes-short v h k = ground arith

output_value_to_bytes-long :
    (v : ℕ)
    → max_output_value_32 < v
    → v ≤ max_output_value
    → output_value_to_bytes v ≡ ok (be 8 (2 ^ 64 - v))
unfolding output_value_to_bytes
output_value_to_bytes-long v h k = ground arith

read_of_decode :
    (buf : Bytes) (r : ℕ × Bytes)
    → bytes_to_output_value buf ≡ ok r
    → (read_long true buf ≡ ok r) ⊎ (read_short false buf ≡ ok r)
unfolding bytes_to_output_value
read_of_decode buf r h = ground arith

-- The bytes that stand for a positive value other than 2 ^ 31 - 1 are those that the encoder writes
-- for it.
pub output_value_canonical :
    (buf rest : Bytes) (v : ℕ)
    → IsBytes buf
    → bytes_to_output_value buf ≡ ok (v, rest)
    → 0 < v
    → v ≢ max_output_value_32
    → (bs : Bytes) × (output_value_to_bytes v ≡ ok bs) × (buf ≡ bs ++ rest)
output_value_canonical buf rest v b h k ne = elim (read_of_decode buf (v, rest) h) [
  | inl long ↦
      let (chunk, r, s, t) = long_chunk true buf rest v long in
      let (split, small) = unpack-be 8 buf chunk rest b r in
      let (e, le) = unsigned-long (from_be 0 chunk) v small s k in
      let nlt : ¬ (v < max_output_value_32) = λ q. t (q, refl) in
      (be 8 (2 ^ 64 - v), output_value_to_bytes-long v (omega arith) le, rw (← e) split)
  | inr short ↦
      let (chunk, r, s) = short_chunk false buf rest v short in
      let (split, small) = unpack-be 4 buf chunk rest b r in
      let (e, le) = unsigned-short (from_be 0 chunk) v s in
      (be 4 v, output_value_to_bytes-short v k le, rw (← e) split)
]
