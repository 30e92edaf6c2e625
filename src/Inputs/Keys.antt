-- ===== src/Inputs/Keys.antt =====
-- The set `spent_outputs` of `verify_inputs` of hathor/transaction/transaction.py.
use khathor.Prelude.{
  [], ◌∷◌, refl, true, false, List, ◌&&◌, ℕ, All, ◌↔◌, ◌≡◌, ◌==◌, and_iff, sym, arith, ap₂, ==_iff,
  ap,
}
use khathor.Bytes.{bytes_eq, Bytes}
use khathor.Inputs.{elem_key}
use khathor.Tx.Verify.Sets.{NoRepeat, Absent}
use khathor.Bytes.Laws.{bytes_eq_iff}

abbrev pub Key : Type 0
Key = Bytes × ℕ

-- The keys that the loop finds new, one after the other.
abbrev pub Fresh : List Key → List Key → Type 0
Fresh [] seen = Unit
Fresh (k ∷ keys) seen = (elem_key k seen ≡ false) × Fresh keys (k ∷ seen)

key_iff : (k l : Key) → ((bytes_eq k.0 l.0 && k.1 == l.1) ≡ true) ↔ (k ≡ l)
key_iff k l =
    let both = and_iff (bytes_eq k.0 l.0) (k.1 == l.1) in
    (
      λ h.
          ap₂ (λ a b. (a, b)) ((bytes_eq_iff k.0 l.0).0 (both.0 h).0)
            ((==_iff k.1 l.1).0 (both.0 h).1),
      λ e.
          both.1 ((bytes_eq_iff k.0 l.0).1 (ap (λ x. x.0) e), (==_iff k.1 l.1).1 (ap (λ x. x.1) e)),
    )

pub elem_key-Absent : (k : Key) (keys : List Key) → (elem_key k keys ≡ false) ↔ Absent k keys
unfolding elem_key
elem_key-Absent k [] = (λ _. tt, λ _. refl)
elem_key-Absent k (l ∷ keys) = ground (arith, key_iff k l, elem_key-Absent k keys)

Absent-split :
    (k : Key) (seen keys : List Key)
    → All (λ x. Absent x (k ∷ seen)) keys ↔ (Absent k keys × All (λ x. Absent x seen) keys)
Absent-split k seen [] = (λ _. (tt, tt), λ _. tt)
Absent-split k seen (x ∷ keys) =
    let h = Absent-split k seen keys in
    (
      λ a. let (b, c) = h.0 a.1 in ((λ e. a.0.0 (sym e), b), (a.0.1, c)),
      λ a. ((λ e. a.0.0 (sym e), a.1.0), h.1 (a.0.1, a.1.1)),
    )

pub Fresh-NoRepeat :
    (keys seen : List Key) → Fresh keys seen ↔ (NoRepeat keys × All (λ x. Absent x seen) keys)
Fresh-NoRepeat [] seen = (λ _. (tt, tt), λ _. tt)
Fresh-NoRepeat (k ∷ keys) seen =
    let h = Fresh-NoRepeat keys (k ∷ seen) in
    let s = Absent-split k seen keys in
    let e = elem_key-Absent k seen in
    (
      λ f. let (a, b) = h.0 f.1 in let (c, d) = s.0 b in ((c, a), (e.0 f.0, d)),
      λ f. (e.1 f.1.0, h.1 (f.0.1, s.1 (f.0.0, f.1.1))),
    )

pub All-Absent_nil : (keys : List Key) → All (λ x. Absent x []) keys
All-Absent_nil [] = tt
All-Absent_nil (k ∷ keys) = (tt, All-Absent_nil keys)
