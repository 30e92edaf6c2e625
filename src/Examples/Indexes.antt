-- ===== src/Examples/Indexes.antt =====
-- The index of hathor/indexes.py with a sorted list that is searched from its start.
use khathor.Prelude.{
  [], ◌∷◌, refl, some, false, suc, ◌++◌, List, ◌≡◌, arith, ℕ, All, if◌then◌else◌, ◌||◌, ap, length,
  not, get_elem?,
}
use khathor.Indexes.{
  Element, element_lt, bytes_lt, SortedKeyList, get_newest_sorted_key_list,
  get_older_sorted_key_list, add_tx, del_tx, find_tx_index, has_element, same_element,
}
use khathor.Indexes.Order.{Below, Above, IsAscending, IsSortedKeyList, element_lt_asym}
use khathor.Indexes.Change.{add_tx_inserts, del_tx-add_tx}
use khathor.Indexes.Pages.{get_older_continues}
use khathor.Bytes.{bytes_eq}

insert_here : Element → List Element → List Element
insert_here x [] = x ∷ []
insert_here x (y ∷ ys) =
    let rest = insert_here x ys in if element_lt y x then y ∷ rest else x ∷ y ∷ ys

bisect_here : Element → List Element → ℕ
bisect_here x [] = 0
bisect_here x (y ∷ ys) = let rest = bisect_here x ys in if element_lt y x then suc rest else 0

abbrev scanned : SortedKeyList
scanned = record { insert_sorted = insert_here; bisect_key_left = bisect_here }

bisect_here-eq :
    (x : Element) (pre post : List Element)
    → All (Below x) pre
    → All (λ y. element_lt y x ≡ false) post
    → bisect_here x (pre ++ post) ≡ length pre
unfolding bisect_here
bisect_here-eq x [] [] b a = refl
bisect_here-eq x [] (y ∷ post) b a = rw a.0 refl
bisect_here-eq x (y ∷ pre) post b a = rw b.0 (ap suc (bisect_here-eq x pre post b.1 a))

insert_here-eq :
    (x : Element) (pre post : List Element)
    → All (Below x) pre
    → All (Above x) post
    → insert_here x (pre ++ post) ≡ pre ++ x ∷ post
unfolding insert_here
insert_here-eq x [] [] b a = refl
insert_here-eq x [] (y ∷ post) b a = rw (element_lt_asym x y a.0) refl
insert_here-eq x (y ∷ pre) post b a = rw b.0 (ap (λ l. y ∷ l) (insert_here-eq x pre post b.1 a))

scanned-IsSortedKeyList : IsSortedKeyList scanned
scanned-IsSortedKeyList = record { bisect = bisect_here-eq; insert = insert_here-eq }

abbrev three : List Element
three = (5, 1 ∷ []) ∷ (5, 2 ∷ []) ∷ (8, 1 ∷ []) ∷ []

three-IsAscending : IsAscending three
unfolding IsAscending element_lt bytes_lt
three-IsAscending = ((refl, (refl, tt)), ((refl, tt), (tt, tt)))

add_tx_inserts_example :
    IsAscending (add_tx scanned 6 (1 ∷ []) three).1
    × ((z : Element)
        → has_element z (add_tx scanned 6 (1 ∷ []) three).1
          ≡ (same_element z (6, 1 ∷ []) || has_element z three))
    × ((add_tx scanned 6 (1 ∷ []) three).0 ≡ not (has_element (6, 1 ∷ []) three))
add_tx_inserts_example =
    add_tx_inserts scanned scanned-IsSortedKeyList 6 (1 ∷ []) three three-IsAscending

del_tx-add_tx_example :
    (del_tx scanned 6 (1 ∷ []) (add_tx scanned 6 (1 ∷ []) three).1 ≡ three)
    × ((i : ℕ) × (find_tx_index scanned 6 (1 ∷ []) (add_tx scanned 6 (1 ∷ []) three).1 ≡ some i)
        × (get_elem? (add_tx scanned 6 (1 ∷ []) three).1 i ≡ some (6, 1 ∷ [])))
unfolding has_element same_element bytes_eq
del_tx-add_tx_example =
    del_tx-add_tx scanned scanned-IsSortedKeyList 6 (1 ∷ []) three three-IsAscending refl

get_older_continues_example :
    ((get_newest_sorted_key_list three 1).0
        ++ (get_older_sorted_key_list scanned three 8 (1 ∷ []) 1).0
      ≡ (get_newest_sorted_key_list three 2).0)
    × ((get_older_sorted_key_list scanned three 8 (1 ∷ []) 1).1
        ≡ (get_newest_sorted_key_list three 2).1)
get_older_continues_example =
    get_older_continues scanned scanned-IsSortedKeyList three [] 8 (1 ∷ []) 1 1 three-IsAscending
      (omega arith) (omega arith) refl
