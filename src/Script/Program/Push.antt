-- ===== src/Script/Program/Push.antt =====
-- `op_pushdata` and `op_pushdata1` of hathor/transaction/scripts.py in the middle of a script.
use khathor.Script.Opcode
use khathor.Bytes.{Bytes, index}
use khathor.Prelude.{
  ℕ, length, drop, ◌≤◌, ◌+◌, ◌++◌, ◌∷◌, ◌≡◌, append_assoc, arith, get_elem?-length, suc, [],
  length-append, drop_of_length, refl, le→leb, take-length, ◌<◌, lt→ltb,
}
use khathor.Script.Data.{op_pushdata, op_pushdata1}
use khathor.Errors.{ok}

pub index-length :
    (pre : Bytes) (x : ℕ) (rest : Bytes) → index (pre ++ (x ∷ rest)) (length pre) ≡ ok x
unfolding index
index-length pre x rest = rw (get_elem?-length pre x rest, index) refl

index-next :
    (pre : Bytes) (x y : ℕ) (rest : Bytes) → index (pre ++ (x ∷ y ∷ rest)) (length pre + 1) ≡ ok y
unfolding index
index-next [] x y rest = refl
index-next (z ∷ pre) x y rest =
    let e : suc (length pre) + 1 ≡ suc (length pre + 1) = omega arith in
    rw e (index-next pre x y rest)

drop-next : (pre : Bytes) (x : ℕ) (rest : Bytes) → drop (length pre + 1) (pre ++ (x ∷ rest)) ≡ rest
drop-next pre x rest = rw (← append_assoc pre (x ∷ []) rest) (
    drop_of_length (length pre + 1) (pre ++ x ∷ []) rest
      (omega (arith, length-append pre (x ∷ []))))

drop-next_two :
    (pre : Bytes) (x y : ℕ) (rest : Bytes)
    → drop (length pre + 1 + 1) (pre ++ (x ∷ y ∷ rest)) ≡ rest
drop-next_two pre x y rest = rw (← append_assoc pre (x ∷ y ∷ []) rest) (
    drop_of_length (length pre + 1 + 1) (pre ++ x ∷ y ∷ []) rest
      (omega (arith, length-append pre (x ∷ y ∷ []))))

module _ (pre b post : Bytes) where
  pub op_pushdata-short :
      length b ≤ 75
      → op_pushdata (length pre) (pre ++ (length b ∷ (b ++ post)))
        ≡ ok (b, length pre + 1 + length b)
  unfolding op_pushdata
  op_pushdata-short h =
      let fits : length pre + 1 + length b ≤ length (pre ++ (length b ∷ (b ++ post))) =
        omega (arith, length-append pre (length b ∷ (b ++ post)), length-append b post) in
      rw (index-length pre (length b) (b ++ post)) (
        rw (le→leb (length b) 75 h) (
          rw (le→leb (length pre + 1 + length b) (length (pre ++ (length b ∷ (b ++ post)))) fits)
            (rw (drop-next pre (length b) (b ++ post)) (rw (take-length b post) refl))))

  pub op_pushdata1-long :
      op_pushdata1 (length pre) (pre ++ (Opcode.op_pushdata1 ∷ length b ∷ (b ++ post)))
      ≡ ok (b, length pre + 1 + 1 + length b)
  unfolding op_pushdata1
  op_pushdata1-long =
      let total : Bytes = pre ++ (Opcode.op_pushdata1 ∷ length b ∷ (b ++ post)) in
      let size : length total ≡ length pre + (2 + (length b + length post)) = omega (
        arith,
        length-append pre (Opcode.op_pushdata1 ∷ length b ∷ (b ++ post)),
        length-append b post,
      ) in
      let inside : length pre + 1 < length total = omega (arith, size) in
      let fits : length pre + 1 + length b < length total = omega (arith, size) in
      rw (lt→ltb (length pre + 1) (length total) inside) (
        rw (index-next pre Opcode.op_pushdata1 (length b) (b ++ post)) (
          rw (lt→ltb (length pre + 1 + length b) (length total) fits) (
            rw (drop-next_two pre Opcode.op_pushdata1 (length b) (b ++ post))
              (rw (take-length b post) refl))))
