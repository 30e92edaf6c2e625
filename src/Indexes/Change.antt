-- ===== src/Indexes/Change.antt =====
-- Adding to the index of hathor/indexes.py, and taking out of it.
use khathor.Prelude.{
  [], ◌∷◌, refl, some, true, false, suc, inl, inr, List, ◌≡◌, ℕ, ◌++◌, Bool-cases, or_false, ◌||◌,
  and_iff, drop, not, ap, get_elem?, ◌==◌, All, arith, take-length, length, sym, inserted_All,
  get_elem?-length, All-map, ◌∙◌, ap₂, ==_iff,
}
use khathor.Indexes.{
  Element, element_lt, same_element, has_element, SortedKeyList, add_tx, del_tx, find_tx_index,
  has_hash_at, pop_at,
}
use khathor.Indexes.Order.{
  element_lt_refl, element_lt_trans, element_lt_total, element_lt_asym, Below, Above, IsAscending,
  IsSortedKeyList,
}
use khathor.Bytes.{Bytes, bytes_eq}
use khathor.Bytes.Laws.{bytes_eq_refl, eq_of_bytes_eq}

-- Where an element belongs that the list does not have.
pub record Place (x : Element) (xs : List Element) : Type 0 where
  pub pre : List Element
  pub post : List Element
  pub split : xs ≡ pre ++ post
  pub below : All (Below x) pre
  pub above : All (Above x) post

absent :
    (x y : Element) (ys : List Element)
    → has_element x (y ∷ ys) ≡ false
    → (same_element x y ≡ false) × (has_element x ys ≡ false)
unfolding has_element
absent x y ys h = or_false (same_element x y) (has_element x ys) h

absent-Place :
    (x : Element) (xs : List Element) → IsAscending xs → has_element x xs ≡ false → Place x xs
unfolding IsAscending
absent-Place x [] a n = record { pre = []; post = []; split = refl; below = tt; above = tt }
absent-Place x (y ∷ ys) (a, rest) n =
    let (ne, n') = absent x y ys n in
    elim (Bool-cases (element_lt y x)) [
      | inl lt ↦
          let r = absent-Place x ys rest n' in
          record {
            pre = y ∷ r.pre;
            post = r.post;
            split = ap (λ l. y ∷ l) r.split;
            below = (lt, r.below);
            above = r.above;
          }
      | inr ge ↦
          let lt = element_lt_total x y ge ne in
          record {
            pre = [];
            post = y ∷ ys;
            split = refl;
            below = tt;
            above = (lt, All-map (Above y) (Above x) ys (λ z k. element_lt_trans x y z lt k) a);
          }
    ]

inserted-IsAscending :
    (x : Element) (pre post : List Element)
    → IsAscending (pre ++ post)
    → All (Below x) pre
    → All (Above x) post
    → IsAscending (pre ++ x ∷ post)
unfolding IsAscending
inserted-IsAscending x [] post a b c = (c, a)
inserted-IsAscending x (y ∷ pre) post (a, rest) (b, bs) c =
    (inserted_All (Above y) x pre post b a, inserted-IsAscending x pre post rest bs c)

same_element-eq : (x y : Element) → same_element x y ≡ true → x ≡ y
unfolding same_element
same_element-eq (s, g) (t, h) e =
    let (p, q) = (and_iff (s == t) (bytes_eq g h)).0 e in
    ap₂ (λ a b. (a, b)) ((==_iff s t).0 p) (eq_of_bytes_eq g h q)

has_element-known :
    (z x : Element) (xs : List Element)
    → has_element x xs ≡ true
    → has_element z xs ≡ (same_element z x || has_element z xs)
has_element-known z x xs h = elim (Bool-cases (same_element z x)) [
  | inl e ↦ ap (λ y. has_element y xs) (same_element-eq z x e) ∙ h ∙ rw e refl
  | inr e ↦ rw e refl
]

has_element-inserted :
    (z x : Element) (pre post : List Element)
    → has_element z (pre ++ x ∷ post) ≡ (same_element z x || has_element z (pre ++ post))
unfolding has_element
has_element-inserted z x [] post = refl
has_element-inserted z x (y ∷ pre) post = ground (arith, has_element-inserted z x pre post)

drop_found :
    (x : Element) (pre post : List Element) → drop (suc (length pre)) (pre ++ x ∷ post) ≡ post
drop_found x [] post = refl
drop_found x (y ∷ pre) post = drop_found x pre post

module _ (sorted : SortedKeyList) (law : IsSortedKeyList sorted) where
  -- A new element is added where it belongs.
  added :
      (t : ℕ) (h : Bytes) (xs : List Element) (r : Place (t, h) xs)
      → has_element (t, h) xs ≡ false
      → add_tx sorted t h xs ≡ (true, r.pre ++ (t, h) ∷ r.post)
  unfolding add_tx
  added t h xs r n = rw n (
      ap (λ l. (true, sorted.insert_sorted (t, h) l)) r.split
      ∙ ap (λ l. (true, l)) (law.insert (t, h) r.pre r.post r.below r.above))

  kept :
      (t : ℕ) (h : Bytes) (xs : List Element)
      → has_element (t, h) xs ≡ true
      → add_tx sorted t h xs ≡ (false, xs)
  unfolding add_tx
  kept t h xs y = rw y refl

  -- Where the search for the added element ends.
  bisect-added :
      (t : ℕ) (h : Bytes) (xs : List Element) (r : Place (t, h) xs)
      → sorted.bisect_key_left (t, h) (r.pre ++ (t, h) ∷ r.post) ≡ length r.pre
  bisect-added t h xs r =
      law.bisect (t, h) r.pre ((t, h) ∷ r.post) r.below
        (
          element_lt_refl (t, h),
          All-map (Above (t, h)) (λ y. element_lt y (t, h) ≡ false) r.post
              (λ y k. element_lt_asym (t, h) y k) r.above,
        )

  has_hash-added :
      (t : ℕ) (h : Bytes) (xs : List Element) (r : Place (t, h) xs)
      → has_hash_at sorted (length r.pre) h (r.pre ++ (t, h) ∷ r.post) ≡ true
  unfolding has_hash_at
  has_hash-added t h xs r = rw (get_elem?-length r.pre (t, h) r.post, has_hash_at) (bytes_eq_refl h)

  deleted :
      (t : ℕ) (h : Bytes) (xs : List Element) (r : Place (t, h) xs)
      → del_tx sorted t h (r.pre ++ (t, h) ∷ r.post) ≡ xs
  unfolding del_tx pop_at
  deleted t h xs r = rw (bisect-added t h xs r) (
      rw (has_hash-added t h xs r)
        (rw (take-length r.pre ((t, h) ∷ r.post), drop_found (t, h) r.pre r.post) (sym r.split)))

  found :
      (t : ℕ) (h : Bytes) (xs : List Element) (r : Place (t, h) xs)
      → find_tx_index sorted t h (r.pre ++ (t, h) ∷ r.post) ≡ some (length r.pre)
  unfolding find_tx_index
  found t h xs r = rw (bisect-added t h xs r) (rw (has_hash-added t h xs r) refl)

  -- Adding a transaction keeps the index in ascending order, and afterwards it has exactly the elements
  -- that it had and the one of the transaction; it answers whether that one is new.
  pub add_tx_inserts :
      (t : ℕ) (h : Bytes) (xs : List Element)
      → IsAscending xs
      → IsAscending (add_tx sorted t h xs).1
        × ((z : Element)
            → has_element z (add_tx sorted t h xs).1 ≡ (same_element z (t, h) || has_element z xs))
        × ((add_tx sorted t h xs).0 ≡ not (has_element (t, h) xs))
  add_tx_inserts t h xs a = elim (Bool-cases (has_element (t, h) xs)) [
    | inl y ↦ rw (kept t h xs y) (a, λ z. has_element-known z (t, h) xs y, ap not (sym y))
    | inr n ↦
        let r = absent-Place (t, h) xs a n in
        rw (added t h xs r n) (
          inserted-IsAscending (t, h) r.pre r.post (rw r.split at a) r.below r.above,
          λ z.
              has_element-inserted z (t, h) r.pre r.post
              ∙ ap (λ l. same_element z (t, h) || has_element z l) (sym r.split),
          ap not (sym n),
        )
  ]

  -- Taking out a transaction that was added to an index without it, which is in ascending order, gives
  -- back that index; in between it is found, at an index below which stand the elements before it.
  pub del_tx-add_tx :
      (t : ℕ) (h : Bytes) (xs : List Element)
      → IsAscending xs
      → has_element (t, h) xs ≡ false
      → (del_tx sorted t h (add_tx sorted t h xs).1 ≡ xs)
        × ((i : ℕ) × (find_tx_index sorted t h (add_tx sorted t h xs).1 ≡ some i)
            × (get_elem? (add_tx sorted t h xs).1 i ≡ some (t, h)))
  del_tx-add_tx t h xs a n =
      let r = absent-Place (t, h) xs a n in
      rw (added t h xs r n)
        (deleted t h xs r, (length r.pre, found t h xs r, get_elem?-length r.pre (t, h) r.post))
