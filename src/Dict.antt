-- ===== src/Dict.antt =====
-- Python's dict and OrderedDict with byte strings or strings as keys, in the order of their entries.
pub mod Laws
use khathor.Prelude.{
  [], ◌∷◌, refl, none, some, true, false, zero, suc, inl, inr, List, Option, if◌then◌else◌, Bool,
  ◌++◌, ◌||◌,
}
use khathor.Bytes.{Bytes, bytes_eq}

abbrev pub Dict {ℓ} : Type ℓ → Type ℓ
Dict V = List (Bytes × V)

module _ {ℓ} {V : Type ℓ} where
  -- d.get(key)
  unfoldable pub lookup : Bytes → Dict V → Option V
  lookup key [] = none
  lookup key ((k, v) ∷ d) = if bytes_eq key k then some v else lookup key d

  -- d[key] = v
  unfoldable pub insert : Bytes → V → Dict V → Dict V
  insert key v [] = (key, v) ∷ []
  insert key v ((k, w) ∷ d) =
      let rest = insert key v d in if bytes_eq key k then (k, v) ∷ d else (k, w) ∷ rest

  -- d.pop(key, None)
  unfoldable pub erase : Bytes → Dict V → Dict V
  erase key [] = []
  erase key ((k, v) ∷ d) = let rest = erase key d in if bytes_eq key k then rest else (k, v) ∷ rest

  -- d.move_to_end(key, last=True), of a key that the dict has
  unfoldable pub move_to_end : Bytes → Dict V → Dict V
  move_to_end key d = elim (lookup key d) [ none ↦ d | some v ↦ erase key d ++ (key, v) ∷ [] ]

-- key in d
unfoldable pub is_some {ℓ} : {A : Type ℓ} → Option A → Bool
is_some none = false
is_some (some a) = true

-- x in s, s.add(x) and s.discard(x) of a set of byte strings
unfoldable pub member : Bytes → List Bytes → Bool
member x [] = false
member x (y ∷ ys) = bytes_eq x y || member x ys

unfoldable pub add : Bytes → List Bytes → List Bytes
add x ys = if member x ys then ys else x ∷ ys

unfoldable pub discard : Bytes → List Bytes → List Bytes
discard x [] = []
discard x (y ∷ ys) = let rest = discard x ys in if bytes_eq x y then rest else y ∷ rest
