-- ===== src/Indexes/Pages.antt =====
-- The pages of hathor/indexes.py, from the newest transaction to the oldest.
use mathlib.Core.List.{map-append, reverse-append}
use khathor.Prelude.{
  [], ◌∷◌, refl, false, zero, suc, List, ℕ, ◌≤◌, ◌++◌, ◌<◌, ◌≡◌, All, map, length, drop, ap,
  reverse, ◌-◌, ◌∙◌, arith, ◌+◌, ltb, All-map, not, take, take_of_length, leb, sym,
  take-append-drop, length-append, length-drop, subst, drop-length,
}
use khathor.Indexes.{
  Element, element_lt, SortedKeyList, last_elements, hash_of, get_newest_sorted_key_list,
  get_older_sorted_key_list,
}
use khathor.Indexes.Order.{
  element_lt_refl, element_lt_asym, Below, Above, IsAscending, IsSortedKeyList,
}
use khathor.Bytes.{Bytes}

drop-append : (n : ℕ) (xs ys : List Element) → n ≤ length xs → drop n (xs ++ ys) ≡ drop n xs ++ ys
drop-append zero xs ys h = refl
drop-append (suc n) [] ys h = elim h [ ]
drop-append (suc n) (x ∷ xs) ys h = drop-append n xs ys (omega (arith, h))

All-middle :
    (P : Element → Type 0) (x : Element) (pre post : List Element) → All P (pre ++ x ∷ post) → P x
All-middle P x [] post h = h.0
All-middle P x (y ∷ pre) post h = All-middle P x pre post h.1

-- What stands around an element of an ascending list.
ascending-Below :
    (x : Element) (pre post : List Element) → IsAscending (pre ++ x ∷ post) → All (Below x) pre
unfolding IsAscending
ascending-Below x [] post a = tt
ascending-Below x (y ∷ pre) post (b, c) =
    (All-middle (Above y) x pre post b, ascending-Below x pre post c)

ascending-Above :
    (x : Element) (pre post : List Element) → IsAscending (pre ++ x ∷ post) → All (Above x) post
unfolding IsAscending
ascending-Above x [] post a = a.0
ascending-Above x (y ∷ pre) post (b, c) = ascending-Above x pre post c

-- The hashes of the elements, the newest first.
newest_first : List Element → List Bytes
newest_first xs = map hash_of (reverse xs)

newest_first-append :
    (xs ys : List Element) → newest_first (xs ++ ys) ≡ newest_first ys ++ newest_first xs
unfolding newest_first
newest_first-append xs ys =
    ap (map hash_of) (reverse-append xs ys) ∙ map-append hash_of (reverse ys) (reverse xs)

last_elements_lem :
    (n : ℕ) (xs : List Element) → 0 < n → last_elements n xs ≡ drop (length xs - n) xs
unfolding last_elements
last_elements_lem zero xs h = absurd (omega (arith, h))
last_elements_lem (suc n) xs h = refl

module _ (sorted : SortedKeyList) (law : IsSortedKeyList sorted) where
  older_page :
      (t : ℕ) (h : Bytes) (pre post : List Element) (count : ℕ)
      → IsAscending (pre ++ (t, h) ∷ post)
      → get_older_sorted_key_list sorted (pre ++ (t, h) ∷ post) t h count
        ≡ (newest_first (drop (length pre - count) pre), ltb 0 (length pre - count))
  unfolding get_older_sorted_key_list newest_first
  older_page t h pre post count a =
      let idx : sorted.bisect_key_left (t, h) (pre ++ (t, h) ∷ post) ≡ length pre =
        law.bisect (t, h) pre ((t, h) ∷ post) (ascending-Below (t, h) pre post a)
          (
            element_lt_refl (t, h),
            All-map (Above (t, h)) (λ y. element_lt y (t, h) ≡ false) post (element_lt_asym (t, h))
                (ascending-Above (t, h) pre post a),
          ) in
      rw idx (
        rw (drop-append (length pre - count) pre ((t, h) ∷ post) (omega arith)) (
          rw
            (take_of_length (length pre - (length pre - count)) (drop (length pre - count) pre)
              ((t, h) ∷ post) (length-drop (length pre - count) pre))
            refl))

  page_continues :
      (pre post : List Element) (t : ℕ) (h : Bytes) (m n : ℕ)
      → IsAscending (pre ++ (t, h) ∷ post)
      → m ≡ suc (length post)
      → (newest_first (last_elements m (pre ++ (t, h) ∷ post))
            ++ (get_older_sorted_key_list sorted (pre ++ (t, h) ∷ post) t h n).0
          ≡ newest_first (last_elements (m + n) (pre ++ (t, h) ∷ post)))
        × ((get_older_sorted_key_list sorted (pre ++ (t, h) ∷ post) t h n).1
            ≡ not (leb (length (pre ++ (t, h) ∷ post)) (m + n)))
  page_continues pre post t h m n a e =
      let l : length (pre ++ (t, h) ∷ post) ≡ length pre + suc (length post) =
        length-append pre ((t, h) ∷ post) in
      let first : last_elements m (pre ++ (t, h) ∷ post) ≡ (t, h) ∷ post =
        last_elements_lem m _ (omega (arith, e))
        ∙ ap (λ k. drop k (pre ++ (t, h) ∷ post)) (omega (arith, l, e))
        ∙ drop-length pre ((t, h) ∷ post) in
      let both : last_elements (m + n) (pre ++ (t, h) ∷ post)
          ≡ drop (length pre - n) pre ++ (t, h) ∷ post =
        last_elements_lem (m + n) _ (omega (arith, e))
        ∙ ap (λ k. drop k (pre ++ (t, h) ∷ post)) (omega (arith, l, e))
        ∙ drop-append (length pre - n) pre ((t, h) ∷ post) (omega arith) in
      rw (older_page t h pre post n a) (
        rw (first, both) (sym (newest_first-append (drop (length pre - n) pre) ((t, h) ∷ post))),
        ground (arith, l, e),
      )

  -- In an index in ascending order, take as a first page the newest `m` transactions, of which the
  -- oldest has the timestamp `t` and the hash `h`. The `n` transactions that `get_older` gives behind
  -- it continue the page to the newest `m + n`, with the same answer on whether there are more.
  pub get_older_continues :
      (xs post : List Element) (t : ℕ) (h : Bytes) (m n : ℕ)
      → IsAscending xs
      → 0 < m
      → m ≤ length xs
      → drop (length xs - m) xs ≡ (t, h) ∷ post
      → ((get_newest_sorted_key_list xs m).0 ++ (get_older_sorted_key_list sorted xs t h n).0
          ≡ (get_newest_sorted_key_list xs (m + n)).0)
        × ((get_older_sorted_key_list sorted xs t h n).1
            ≡ (get_newest_sorted_key_list xs (m + n)).1)
  unfolding get_newest_sorted_key_list newest_first
  get_older_continues xs post t h m n a pos le e =
      let pre = take (length xs - m) xs in
      let s : xs ≡ pre ++ (t, h) ∷ post =
        sym (take-append-drop (length xs - m) xs) ∙ ap (λ l. pre ++ l) e in
      let size : m ≡ suc (length post) =
        omega (arith, ap length e, length-drop (length xs - m) xs, le) in
      subst
        (λ l.
          (newest_first (last_elements m l) ++ (get_older_sorted_key_list sorted l t h n).0
            ≡ newest_first (last_elements (m + n) l))
          × ((get_older_sorted_key_list sorted l t h n).1 ≡ not (leb (length l) (m + n))))
        (sym s) (page_continues pre post t h m n (subst IsAscending s a) size)
