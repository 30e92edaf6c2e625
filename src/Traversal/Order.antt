-- ===== src/Traversal/Order.antt =====
-- The order of the keys of `HeapItem` of hathor/transaction/storage/traversal.py, and lists of
-- vertices.
use khathor.Prelude.{
  [], ◌∷◌, some, true, false, zero, suc, ℕ, Bool, List, take, ◌≡◌, get_elem?, arith, ◌<◌, All, ◌≤◌,
  ◌≢◌, ◌++◌, sym, drop, ap, subst, some_injective,
}
use khathor.Traversal.{key_lt, Vertex, remove_hash}
use khathor.Tx.Verify.{elem}
use khathor.Bytes.{Bytes}
use khathor.Bytes.Laws.{bytes_eq_iff}

-- In the direction of a walk: not later, and sooner.
abbrev pub NotLater : Bool → ℕ → ℕ → Type 0
NotLater true a b = a ≤ b
NotLater false a b = b ≤ a

abbrev pub Sooner : Bool → ℕ → ℕ → Type 0
Sooner true a b = a < b
Sooner false a b = b < a

pub NotLater-refl : (d : Bool) (a : ℕ) → NotLater d a a
NotLater-refl true a = omega arith
NotLater-refl false a = omega arith

pub NotLater-trans : (d : Bool) (a b c : ℕ) → NotLater d a b → NotLater d b c → NotLater d a c
NotLater-trans true a b c h k = omega arith
NotLater-trans false a b c h k = omega arith

pub Sooner-weaken : (d : Bool) (a b : ℕ) → Sooner d a b → NotLater d a b
Sooner-weaken true a b h = omega arith
Sooner-weaken false a b h = omega arith

pub Sooner-irrefl : (d : Bool) (a b : ℕ) → NotLater d a b → Sooner d b a → ⊥
Sooner-irrefl true a b h k = omega arith
Sooner-irrefl false a b h k = omega arith

pub key_lt-NotLater : (d : Bool) (a b : ℕ) → key_lt d b a ≡ false → NotLater d a b
unfolding key_lt
key_lt-NotLater true a b h = ground arith
key_lt-NotLater false a b h = ground arith

-- No hash twice.
abbrev pub Distinct : List Vertex → Type 0
Distinct [] = Unit
Distinct (v ∷ vs) = All (λ w. v.0 ≢ w.0) vs × Distinct vs

-- None is visited sooner than the ones before it.
abbrev pub Ordered : Bool → List Vertex → Type 0
Ordered d [] = Unit
Ordered d (v ∷ vs) = All (λ w. NotLater d v.1.timestamp w.1.timestamp) vs × Ordered d vs

abbrev pub without : {A : Type 0} → ℕ → List A → List A
without i xs = take i xs ++ drop (suc i) xs

pub All-without :
    {A : Type 0} (Q : A → Type 0) (i : ℕ) (xs : List A) (y : A)
    → get_elem? xs i ≡ some y
    → All Q xs
    → Q y × All Q (without i xs)
All-without Q i [] y e h = cc
All-without Q zero (x ∷ xs) y e h = (subst Q (some_injective e) h.0, h.1)
All-without Q (suc i) (x ∷ xs) y e h = let (a, b) = All-without Q i xs y e h.1 in (a, (h.0, b))

pub Distinct-without :
    (i : ℕ) (xs : List Vertex) (v : Vertex)
    → get_elem? xs i ≡ some v
    → Distinct xs
    → All (λ w. v.0 ≢ w.0) (without i xs) × Distinct (without i xs)
Distinct-without i [] v e h = cc
Distinct-without zero (x ∷ xs) v e h =
    let q = ap (λ y. y.0) (some_injective e) in (subst (λ k. All (λ w. k ≢ w.0) xs) q h.0, h.1)
Distinct-without (suc i) (x ∷ xs) v e h =
    let (a, b) = Distinct-without i xs v e h.1 in
    let (c, d) = All-without (λ w. x.0 ≢ w.0) i xs v e h.0 in ((λ q. c (sym q), a), (d, b))

pub elem-remove_hash :
    (k h : Bytes) (seen : List Bytes)
    → h ≢ k
    → elem k seen ≡ true
    → elem k (remove_hash h seen) ≡ true
unfolding elem remove_hash
elem-remove_hash k h [] ne e = e
elem-remove_hash k h (x ∷ seen) ne e =
    ground (arith, elem-remove_hash k h seen, bytes_eq_iff k x, bytes_eq_iff h x)
