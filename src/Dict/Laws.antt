-- ===== src/Dict/Laws.antt =====
-- The laws of the operations on dicts and sets.
use khathor.Prelude.{
  [], ◌∷◌, refl, none, some, true, false, suc, inl, inr, ◌≡◌, ◌++◌, if◌then◌else◌, Bool-cases, ap,
  List, Option-cases, Option, ◌∙◌, true_ne_false, ◌||◌, arith, sym, length, ◌≤◌, length-append,
}
use khathor.Dict.{Dict, lookup, insert, erase, move_to_end, member, add, discard}
use khathor.Bytes.{Bytes, bytes_eq}
use khathor.Bytes.Laws.{bytes_eq_refl, eq_of_bytes_eq, ne_bytes, bytes_eq_iff}

-- A function that has the value already at the key.
pub at_key {ℓ} :
    {B : Type ℓ} (f : Bytes → B) (k h : Bytes) (b : B)
    → f h ≡ b
    → f k ≡ (if bytes_eq k h then b else f k)
at_key f k h b e = elim (Bool-cases (bytes_eq k h)) [
  | inl q ↦ rw q (ap f (eq_of_bytes_eq k h q) ∙ e)
  | inr q ↦ rw q refl
]

swap_false : (h k : Bytes) → bytes_eq h k ≡ false → bytes_eq k h ≡ false
swap_false h k n = ne_bytes k h (λ q. true_ne_false (sym ((bytes_eq_iff h k).1 (sym q)) ∙ n))

-- Two keys that differ: one of them differs from any third.
third_key : (k h j : Bytes) → bytes_eq k h ≡ false → bytes_eq h j ≡ true → bytes_eq k j ≡ false
third_key k h j n e = rw (eq_of_bytes_eq h j e) at n

module _ {ℓ} {V : Type ℓ} where
  lookup-insert_other :
      (k h : Bytes) (v : V) (d : Dict V)
      → bytes_eq k h ≡ false
      → lookup k (insert h v d) ≡ lookup k d
  unfolding lookup insert
  lookup-insert_other k h v [] n = rw n refl
  lookup-insert_other k h v ((j, w) ∷ d) n = elim (Bool-cases (bytes_eq h j)) [
    | inl e ↦ rw e (rw (third_key k h j n e) refl)
    | inr e ↦ rw e (ap (λ r. if bytes_eq k j then some w else r) (lookup-insert_other k h v d n))
  ]

  pub lookup-insert_same : (h : Bytes) (v : V) (d : Dict V) → lookup h (insert h v d) ≡ some v
  unfolding lookup insert
  lookup-insert_same h v [] = rw (bytes_eq_refl h) refl
  lookup-insert_same h v ((j, w) ∷ d) = elim (Bool-cases (bytes_eq h j)) [
    | inl e ↦ rw e (rw e refl)
    | inr e ↦ rw e (rw e (lookup-insert_same h v d))
  ]

  pub lookup-insert :
      (k h : Bytes) (v : V) (d : Dict V)
      → lookup k (insert h v d) ≡ (if bytes_eq k h then some v else lookup k d)
  lookup-insert k h v d = elim (Bool-cases (bytes_eq k h)) [
    | inl e ↦ rw e (rw (← eq_of_bytes_eq k h e) (lookup-insert_same k v d))
    | inr e ↦ rw e (lookup-insert_other k h v d e)
  ]

  erase_other :
      (k h : Bytes) (d : Dict V) → bytes_eq k h ≡ false → lookup k (erase h d) ≡ lookup k d
  unfolding lookup erase
  erase_other k h [] n = refl
  erase_other k h ((j, w) ∷ d) n = elim (Bool-cases (bytes_eq h j)) [
    | inl e ↦ rw e (rw (third_key k h j n e) (erase_other k h d n))
    | inr e ↦ rw e (ap (λ r. if bytes_eq k j then some w else r) (erase_other k h d n))
  ]

  pub erase_same : (h : Bytes) (d : Dict V) → lookup h (erase h d) ≡ none
  unfolding lookup erase
  erase_same h [] = refl
  erase_same h ((j, w) ∷ d) = elim (Bool-cases (bytes_eq h j)) [
    | inl e ↦ rw e (erase_same h d)
    | inr e ↦ rw e (rw e (erase_same h d))
  ]

  pub lookup-erase :
      (k h : Bytes) (d : Dict V)
      → lookup k (erase h d) ≡ (if bytes_eq k h then none else lookup k d)
  lookup-erase k h d = elim (Bool-cases (bytes_eq k h)) [
    | inl e ↦ rw e (rw (← eq_of_bytes_eq k h e) (erase_same k d))
    | inr e ↦ rw e (erase_other k h d e)
  ]

  not_first :
      (h j : Bytes) (w : V) (o : Option V)
      → (if bytes_eq h j then some w else o) ≡ none
      → (bytes_eq h j ≡ false) × (o ≡ none)
  not_first h j w o e = ground arith

  -- An entry behind those of another dict.
  pub lookup-append :
      (k h : Bytes) (v : V) (d : Dict V)
      → lookup h d ≡ none
      → lookup k (d ++ (h, v) ∷ []) ≡ (if bytes_eq k h then some v else lookup k d)
  unfolding lookup
  lookup-append k h v [] n = refl
  lookup-append k h v ((j, w) ∷ d) n =
      let (ne, tail) = not_first h j w (lookup h d) n in
      elim (Bool-cases (bytes_eq k j)) [
        | inl e ↦
            let other : bytes_eq k h ≡ false =
              ne_bytes k h (λ q. true_ne_false (sym (rw q at e) ∙ ne)) in
            rw (e, other) refl
        | inr e ↦ rw e (lookup-append k h v d tail)
      ]

  pub lookup-move_to_end : (k h : Bytes) (d : Dict V) → lookup k (move_to_end h d) ≡ lookup k d
  unfolding move_to_end
  lookup-move_to_end k h d = elim (Option-cases (lookup h d)) [
    | inl n ↦ rw (n, move_to_end) refl
    | inr (v, g) ↦
        rw (g, move_to_end)
          (lookup-append k h v (erase h d) (erase_same h d) ∙ (elim (Bool-cases (bytes_eq k h)) [
            | inl e ↦ rw e (sym (rw (← eq_of_bytes_eq k h e) at g))
            | inr e ↦ rw e (erase_other k h d e)
          ]))
  ]

  -- No key twice.
  unfoldable pub Distinct : Dict V → Type ℓ
  Distinct [] = Unit
  Distinct ((k, v) ∷ d) = (lookup k d ≡ none) × Distinct d

  pub erase-Distinct : (h : Bytes) (d : Dict V) → Distinct d → Distinct (erase h d)
  unfolding Distinct erase
  erase-Distinct h [] u = u
  erase-Distinct h ((k, v) ∷ d) u = elim (Bool-cases (bytes_eq h k)) [
    | inl e ↦ rw e (erase-Distinct h d u.1)
    | inr e ↦
        let absent : lookup k (erase h d) ≡ none =
          rw (lookup-erase k h d) (rw u.0 (ground arith)) in
        rw e (absent, erase-Distinct h d u.1)
  ]

  pub append-Distinct :
      (h : Bytes) (v : V) (d : Dict V)
      → lookup h d ≡ none
      → Distinct d
      → Distinct (d ++ (h, v) ∷ [])
  unfolding Distinct lookup
  append-Distinct h v [] n u = (refl, u)
  append-Distinct h v ((k, w) ∷ d) n u =
      let (ne, tail) = not_first h k w (lookup h d) n in
      let other : bytes_eq k h ≡ false = swap_false h k ne in
      (lookup-append k h v d tail ∙ rw other u.0, append-Distinct h v d tail u.1)

  pub length-erase : (h : Bytes) (d : Dict V) → length (erase h d) ≤ length d
  unfolding erase
  length-erase h [] = omega arith
  length-erase h ((k, v) ∷ d) = ground (arith, length-erase h d)

  -- A key that the dict has takes an entry.
  pub length-erase_found :
      (h : Bytes) (d : Dict V) (v : V) → lookup h d ≡ some v → suc (length (erase h d)) ≤ length d
  unfolding erase lookup
  length-erase_found h [] v g = cc
  length-erase_found h ((k, w) ∷ d) v g = elim (Bool-cases (bytes_eq h k)) [
    | inl e ↦ rw e (omega (arith, length-erase h d))
    | inr e ↦ rw e (omega (arith, length-erase_found h d v (rw e at g)))
  ]

  pub length-insert_found :
      (h : Bytes) (x : V) (d : Dict V) (v : V)
      → lookup h d ≡ some v
      → length (insert h x d) ≡ length d
  unfolding insert lookup
  length-insert_found h x [] v g = cc
  length-insert_found h x ((k, w) ∷ d) v g = elim (Bool-cases (bytes_eq h k)) [
    | inl e ↦ rw e refl
    | inr e ↦ rw e (ap suc (length-insert_found h x d v (rw e at g)))
  ]

  pub length-insert : (h : Bytes) (x : V) (d : Dict V) → length (insert h x d) ≤ suc (length d)
  unfolding insert
  length-insert h x [] = omega arith
  length-insert h x ((k, w) ∷ d) = ground (arith, length-insert h x d)

  pub insert-Distinct : (h : Bytes) (x : V) (d : Dict V) → Distinct d → Distinct (insert h x d)
  unfolding Distinct insert lookup
  insert-Distinct h x [] u = (refl, u)
  insert-Distinct h x ((k, w) ∷ d) u = elim (Bool-cases (bytes_eq h k)) [
    | inl e ↦ rw e u
    | inr e ↦
        let other : bytes_eq k h ≡ false = swap_false h k e in
        rw e (lookup-insert_other k h x d other ∙ u.0, insert-Distinct h x d u.1)
  ]

  pub move_to_end-Distinct : (h : Bytes) (d : Dict V) → Distinct d → Distinct (move_to_end h d)
  unfolding move_to_end
  move_to_end-Distinct h d u = elim (Option-cases (lookup h d)) [
    | inl n ↦ rw (n, move_to_end) u
    | inr (v, g) ↦
        rw (g, move_to_end)
          (append-Distinct h v (erase h d) (erase_same h d) (erase-Distinct h d u))
  ]

  pub length-move_to_end : (h : Bytes) (d : Dict V) → length (move_to_end h d) ≤ length d
  unfolding move_to_end
  length-move_to_end h d = elim (Option-cases (lookup h d)) [
    | inl n ↦ rw (n, move_to_end) (omega arith)
    | inr (v, g) ↦
        rw (g, move_to_end)
          (omega (arith, length-append (erase h d) ((h, v) ∷ []), length-erase_found h d v g))
  ]

pub member-add : (k h : Bytes) (s : List Bytes) → member k (add h s) ≡ (bytes_eq k h || member k s)
unfolding member add
member-add k h s = elim (Bool-cases (member h s)) [
  | inl m ↦ rw m (elim (Bool-cases (bytes_eq k h)) [
    | inl e ↦ rw e (rw (eq_of_bytes_eq k h e) m)
    | inr e ↦ rw e refl
  ])
  | inr m ↦ rw m refl
]

discard_other :
    (k h : Bytes) (s : List Bytes) → bytes_eq k h ≡ false → member k (discard h s) ≡ member k s
unfolding member discard
discard_other k h [] n = refl
discard_other k h (j ∷ s) n = elim (Bool-cases (bytes_eq h j)) [
  | inl e ↦ rw e (rw (third_key k h j n e) (discard_other k h s n))
  | inr e ↦ rw e (ap (λ r. bytes_eq k j || r) (discard_other k h s n))
]

discard_same : (h : Bytes) (s : List Bytes) → member h (discard h s) ≡ false
unfolding member discard
discard_same h [] = refl
discard_same h (j ∷ s) = elim (Bool-cases (bytes_eq h j)) [
  | inl e ↦ rw e (discard_same h s)
  | inr e ↦ rw e (rw e (discard_same h s))
]

pub member-discard :
    (k h : Bytes) (s : List Bytes)
    → member k (discard h s) ≡ (if bytes_eq k h then false else member k s)
member-discard k h s = elim (Bool-cases (bytes_eq k h)) [
  | inl e ↦ rw e (rw (← eq_of_bytes_eq k h e) (discard_same k s))
  | inr e ↦ rw e (discard_other k h s e)
]
