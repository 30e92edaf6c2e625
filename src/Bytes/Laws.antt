-- ===== src/Bytes/Laws.antt =====
-- Lemmas on the big-endian numbers and the readers of hathor/transaction/util.py.
use native.Mathlib.Nat.{pow-suc}
use khathor.Prelude.{
  ℕ, zero, suc, ◌+◌, ◌*◌, ◌/◌, ◌%◌, ◌^◌, ◌<◌, ◌≡◌, refl, ap, sym, ◌∙◌, ◌↔◌, true, [], ◌∷◌, ◌++◌,
  append_assoc, append-nil, length, length-append, take, take-length, drop-length, take_of_length,
  drop_of_length, take-append-drop, All-append, arith, ==_refl, ==_iff, lt→ltb, ◌≢◌, false,
  Bool-cases, inl, inr,
}
use khathor.Errors.{ok}
use khathor.Bytes.{Bytes, IsBytes, bytes_eq, from_be, be, int_to_bytes, unpack_len, unpack, slice}

pub bytes_eq_refl : (xs : Bytes) → bytes_eq xs xs ≡ true
unfolding bytes_eq
bytes_eq_refl [] = refl
bytes_eq_refl (x ∷ xs) = ground (arith, bytes_eq_refl xs)

pub eq_of_bytes_eq : (xs ys : Bytes) → bytes_eq xs ys ≡ true → xs ≡ ys
unfolding bytes_eq
eq_of_bytes_eq [] [] h = refl
eq_of_bytes_eq [] (y ∷ ys) h = cc
eq_of_bytes_eq (x ∷ xs) [] h = cc
eq_of_bytes_eq (x ∷ xs) (y ∷ ys) h = ground (arith, eq_of_bytes_eq xs ys)

pub bytes_eq_iff : (xs ys : Bytes) → (bytes_eq xs ys ≡ true) ↔ (xs ≡ ys)
bytes_eq_iff xs ys = (eq_of_bytes_eq xs ys, λ e. ap (λ l. bytes_eq xs l) (sym e) ∙ bytes_eq_refl xs)

pub ne_bytes : (xs ys : Bytes) → xs ≢ ys → bytes_eq xs ys ≡ false
ne_bytes xs ys h = elim (Bool-cases (bytes_eq xs ys)) [
  | inl e ↦ absurd (h (eq_of_bytes_eq xs ys e))
  | inr e ↦ e
]

pub length-be : (w n : ℕ) → length (be w n) ≡ w
unfolding be
length-be zero n = refl
length-be (suc w) n =
    omega (arith, length-append (be w (n / 256)) ((n % 256) ∷ []), length-be w (n / 256))

pub be-IsBytes : (w n : ℕ) → IsBytes (be w n)
unfolding be
be-IsBytes zero n = tt
be-IsBytes (suc w) n = All-append _ (be w (n / 256)) _ (be-IsBytes w (n / 256)) (omega arith)

pub from_be-append :
    (acc : ℕ) (xs ys : Bytes) → from_be acc (xs ++ ys) ≡ from_be (from_be acc xs) ys
unfolding from_be
from_be-append acc [] ys = refl
from_be-append acc (x ∷ xs) ys = from_be-append (acc * 256 + x) xs ys

-- Reading back what was written, where the number fits.
pub from_be-be : (w n : ℕ) → n < 256 ^ w → from_be 0 (be w n) ≡ n
unfolding be from_be
from_be-be zero n h = omega arith
from_be-be (suc w) n h =
    from_be-append 0 (be w (n / 256)) ((n % 256) ∷ [])
    ∙ omega (arith, from_be-be w (n / 256) (omega (arith, pow-suc 256 w)))

be-snoc : (w acc y : ℕ) → y < 256 → be (suc w) (acc * 256 + y) ≡ be w acc ++ y ∷ []
unfolding be
be-snoc w acc y h =
    let d : (acc * 256 + y) / 256 ≡ acc = omega arith in
    let m : (acc * 256 + y) % 256 ≡ y = omega arith in rw (d, m)

be-append :
    (w acc : ℕ) (ys : Bytes) → IsBytes ys → be (w + length ys) (from_be acc ys) ≡ be w acc ++ ys
unfolding from_be
be-append w acc [] h = let e : w + 0 ≡ w = omega arith in rw (e, append-nil)
be-append w acc (y ∷ ys) h =
    let e : w + suc (length ys) ≡ suc w + length ys = omega arith in
    rw e (
      be-append (suc w) (acc * 256 + y) ys h.1
      ∙ ap (λ l. l ++ ys) (be-snoc w acc y h.0)
      ∙ append_assoc (be w acc) (y ∷ []) ys)

-- Writing back what was read.
pub be-from_be : (ys : Bytes) → IsBytes ys → be (length ys) (from_be 0 ys) ≡ ys
unfolding be
be-from_be ys h = let e : 0 + length ys ≡ length ys = omega arith in rw e at (be-append 0 0 ys h)

-- A big-endian number is below the power of its length.
from_be_bound :
    (acc k : ℕ) (ys : Bytes) → IsBytes ys → acc < k → from_be acc ys < k * 256 ^ length ys
unfolding from_be
from_be_bound acc k [] h lt = omega arith
from_be_bound acc k (y ∷ ys) h lt =
    let b : acc * 256 + y < k * 256 = omega (arith, h.0) in
    let ih : from_be (acc * 256 + y) ys < k * 256 * 256 ^ length ys =
      from_be_bound (acc * 256 + y) (k * 256) ys h.1 b in
    rw (pow-suc 256 (length ys)) (omega arith)

pub from_be-lt : (ys : Bytes) → IsBytes ys → from_be 0 ys < 256 ^ length ys
from_be-lt ys h = omega (arith, from_be_bound 0 1 ys h (omega arith))

pub int_to_bytes_lem : (n size : ℕ) → n < 256 ^ size → int_to_bytes n size ≡ ok (be size n)
unfolding int_to_bytes
int_to_bytes_lem n size h = rw (lt→ltb n (256 ^ size) h)

pub unpack-append :
    (size : ℕ) (chunk rest : Bytes)
    → length chunk ≡ size
    → unpack size (chunk ++ rest) ≡ ok (chunk, rest)
unfolding unpack
unpack-append size chunk rest e =
    rw (take_of_length size chunk rest e, drop_of_length size chunk rest e, e, ==_refl size)

pub unpack_len-append :
    (n : ℕ) (chunk rest : Bytes) → length chunk ≡ n → unpack_len n (chunk ++ rest) ≡ (chunk, rest)
unfolding unpack_len
unpack_len-append n chunk rest e = rw (take_of_length n chunk rest e, drop_of_length n chunk rest e)

-- A successful read splits the buffer.
pub unpack-split :
    (size : ℕ) (buf chunk rest : Bytes)
    → unpack size buf ≡ ok (chunk, rest)
    → (buf ≡ chunk ++ rest) × (length chunk ≡ size)
unfolding unpack
unpack-split size buf chunk rest h =
    ground (arith, take-append-drop size buf, ==_iff (length (take size buf)) size)

-- data[len(pre):len(pre) + len(mid)] of pre + mid + post
pub slice-append :
    (pre mid post : Bytes) → slice (length pre) (length mid) (pre ++ (mid ++ post)) ≡ mid
slice-append pre mid post = rw (drop-length pre (mid ++ post)) (take-length mid post)

-- The two fields of a '!BH' chunk.
pub header_fields :
    (a b : ℕ)
    → a < 256
    → b < 65536
    → (from_be 0 (slice 0 1 (be 1 a ++ be 2 b)) ≡ a)
      × (from_be 0 (slice 1 2 (be 1 a ++ be 2 b)) ≡ b)
unfolding be from_be
header_fields a b h k = (omega arith, omega arith)

pub length-header : (a b : ℕ) → length (be 1 a ++ be 2 b) ≡ 3
unfolding be
length-header a b = refl
