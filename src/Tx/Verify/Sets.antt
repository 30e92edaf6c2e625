-- ===== src/Tx/Verify/Sets.antt =====
-- Sets of hashes as lists without repetition: `set(self.parents)` of
-- hathor/transaction/base_transaction.py.
use khathor.Prelude.{[], ◌∷◌, refl, false, List, ltb, ◌≡◌, ◌≤◌, All, ◌↔◌, length, ◌≢◌, arith}
use khathor.Bytes.{Bytes}
use khathor.Tx.Verify.{elem, set_size}
use khathor.Bytes.Laws.{bytes_eq_iff}

abbrev pub Absent : {A : Type 0} → A → List A → Type 0
Absent h = All (λ x. h ≢ x)

abbrev pub NoRepeat : {A : Type 0} → List A → Type 0
NoRepeat [] = Unit
NoRepeat (h ∷ hashes) = Absent h hashes × NoRepeat hashes

pub elem-Absent : (h : Bytes) (xs : List Bytes) → (elem h xs ≡ false) ↔ Absent h xs
unfolding elem
elem-Absent h [] = (λ _. tt, λ _. refl)
elem-Absent h (x ∷ xs) = ground (arith, bytes_eq_iff h x, elem-Absent h xs)

set_size_le : (xs : List Bytes) → set_size xs ≤ length xs
unfolding set_size
set_size_le [] = omega arith
set_size_le (h ∷ xs) = ground (arith, set_size_le xs)

pub set_size-NoRepeat : (xs : List Bytes) → (ltb (set_size xs) (length xs) ≡ false) ↔ NoRepeat xs
unfolding set_size
set_size-NoRepeat [] = (λ _. tt, λ _. refl)
set_size-NoRepeat (h ∷ xs) = ground (arith, elem-Absent h xs, set_size-NoRepeat xs, set_size_le xs)
