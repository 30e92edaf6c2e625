-- ===== src/Indexes/Order.antt =====
-- The order of the elements of hathor/indexes.py.
use khathor.Prelude.{
  [], ◌∷◌, refl, true, false, inl, inr, ◌≡◌, List, All, arith, Bool-cases, ◌++◌, true_ne_false, sym,
  length, ◌∙◌,
}
use khathor.Indexes.{Element, bytes_lt, element_lt, same_element, SortedKeyList}
use khathor.Bytes.{Bytes, bytes_eq}

bytes_lt_refl : (xs : Bytes) → bytes_lt xs xs ≡ false
unfolding bytes_lt
bytes_lt_refl [] = refl
bytes_lt_refl (x ∷ xs) = ground (arith, bytes_lt_refl xs)

bytes_lt_trans :
    (xs ys zs : Bytes) → bytes_lt xs ys ≡ true → bytes_lt ys zs ≡ true → bytes_lt xs zs ≡ true
unfolding bytes_lt
bytes_lt_trans [] [] zs h k = cc
bytes_lt_trans [] (y ∷ ys) [] h k = cc
bytes_lt_trans [] (y ∷ ys) (z ∷ zs) h k = refl
bytes_lt_trans (x ∷ xs) [] zs h k = cc
bytes_lt_trans (x ∷ xs) (y ∷ ys) [] h k = cc
bytes_lt_trans (x ∷ xs) (y ∷ ys) (z ∷ zs) h k = ground (arith, bytes_lt_trans xs ys zs)

bytes_lt_total :
    (xs ys : Bytes) → bytes_lt ys xs ≡ false → bytes_eq xs ys ≡ false → bytes_lt xs ys ≡ true
unfolding bytes_lt bytes_eq
bytes_lt_total [] [] h k = cc
bytes_lt_total [] (y ∷ ys) h k = refl
bytes_lt_total (x ∷ xs) [] h k = cc
bytes_lt_total (x ∷ xs) (y ∷ ys) h k = ground (arith, bytes_lt_total xs ys)

pub element_lt_refl : (x : Element) → element_lt x x ≡ false
unfolding element_lt
element_lt_refl (t, h) = ground (arith, bytes_lt_refl h)

pub element_lt_trans :
    (x y z : Element) → element_lt x y ≡ true → element_lt y z ≡ true → element_lt x z ≡ true
unfolding element_lt
element_lt_trans (s, f) (t, g) (u, h) a b = ground (arith, bytes_lt_trans f g h)

pub element_lt_total :
    (x y : Element) → element_lt y x ≡ false → same_element x y ≡ false → element_lt x y ≡ true
unfolding element_lt same_element
element_lt_total (s, f) (t, g) a b = ground (arith, bytes_lt_total f g)

pub element_lt_asym : (x y : Element) → element_lt x y ≡ true → element_lt y x ≡ false
element_lt_asym x y h = elim (Bool-cases (element_lt y x)) [
  | inl k ↦ absurd (true_ne_false (sym (element_lt_trans x y x h k) ∙ element_lt_refl x))
  | inr k ↦ k
]

abbrev pub Below : Element → Element → Type 0
Below y x = element_lt x y ≡ true

abbrev pub Above : Element → Element → Type 0
Above x y = element_lt x y ≡ true

-- Every element is before the ones behind it.
unfoldable pub IsAscending : List Element → Type 0
IsAscending [] = Unit
IsAscending (x ∷ xs) = All (Above x) xs × IsAscending xs

-- What sortedcontainers documents: where the key belongs, and that an element is added there.
pub record IsSortedKeyList (sorted : SortedKeyList) : Type 0 where
  pub bisect :
      (x : Element) (pre post : List Element)
      → All (Below x) pre
      → All (λ y. element_lt y x ≡ false) post
      → sorted.bisect_key_left x (pre ++ post) ≡ length pre
  pub insert :
      (x : Element) (pre post : List Element)
      → All (Below x) pre
      → All (Above x) post
      → sorted.insert_sorted x (pre ++ post) ≡ pre ++ x ∷ post
