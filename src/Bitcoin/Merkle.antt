-- ===== src/Bitcoin/Merkle.antt =====
-- Merkle trees: `build_merkle_root`, `build_merkle_root_from_path` and
-- `build_merkle_path_for_coinbase` of hathor/merged_mining/bitcoin.py. The recursions shorten the list
-- and take fuel; `none` is a recursion that is not done when the fuel is used up.
pub mod Path
use khathor.Prelude.{
  [], ◌∷◌, some, none, List, if◌then◌else◌, ℕ, reverse, Option, ◌++◌, suc, zero, length, ◌%◌, ◌==◌,
}
use khathor.Errors.{ok, err, Result, assertion_error}
use khathor.Crypto.{Platform}
use khathor.Bytes.{Bytes}

unfoldable pub encode_revbytes : Bytes → Bytes
encode_revbytes array = reverse array

unfoldable pub sha256d_hash : Platform → Bytes → Bytes
sha256d_hash p b = encode_revbytes (p.sha256 (p.sha256 b))

unfoldable pub merkle_concat : Bytes → Bytes → Bytes
merkle_concat left right = reverse left ++ reverse right

-- xs[-1] of the list x ∷ xs
abbrev pub last : Bytes → List Bytes → Bytes
last x [] = x
last x (y ∷ ys) = last y ys

-- if len(merkle_leaves) % 2: merkle_leaves.append(merkle_leaves[-1])
unfoldable pub pad_even : List Bytes → List Bytes
pad_even [] = []
pad_even (x ∷ xs) = if (suc (length xs)) % 2 == 0 then x ∷ xs else x ∷ (xs ++ last x xs ∷ [])

module _ (p : Platform) where
  unfoldable pub merkle_pair : Bytes → Bytes → Bytes
  merkle_pair left right = sha256d_hash p (merkle_concat left right)

  -- [sha256d_hash(_merkle_concat(l, r)) for l, r in zip(iter_leaves, iter_leaves)]
  unfoldable pub hash_pairs : List Bytes → List Bytes
  hash_pairs [] = []
  hash_pairs (l ∷ []) = []
  hash_pairs (l ∷ r ∷ leaves) = merkle_pair l r ∷ hash_pairs leaves

  unfoldable pub next_level : List Bytes → List Bytes
  next_level leaves = hash_pairs (pad_even leaves)

  -- _build_merkle_path_for_coinbase: the second leaf is there before the padding
  unfoldable pub merkle_path_loop : ℕ → List Bytes → List Bytes → Option (List Bytes)
  merkle_path_loop fuel [] partial_path = some []
  merkle_path_loop fuel (x ∷ []) partial_path = some partial_path
  merkle_path_loop zero (x ∷ y ∷ leaves) partial_path = none
  merkle_path_loop (suc fuel) (x ∷ y ∷ leaves) partial_path =
      merkle_path_loop fuel (next_level (x ∷ y ∷ leaves)) (partial_path ++ y ∷ [])

  unfoldable pub build_merkle_path_for_coinbase : ℕ → List Bytes → Option (List Bytes)
  build_merkle_path_for_coinbase fuel merkle_leaves = merkle_path_loop fuel ([] ∷ merkle_leaves) []

  unfoldable pub build_merkle_root : ℕ → List Bytes → Option (Result Bytes)
  build_merkle_root fuel [] = some (err assertion_error)
  build_merkle_root fuel (x ∷ []) = some (ok x)
  build_merkle_root zero (x ∷ y ∷ leaves) = none
  build_merkle_root (suc fuel) (x ∷ y ∷ leaves) =
      build_merkle_root fuel (next_level (x ∷ y ∷ leaves))

  -- the loop of build_merkle_root_from_path, on the list a ∷ path
  unfoldable pub fold_path : Bytes → List Bytes → Bytes
  fold_path a [] = a
  fold_path a (b ∷ path) = fold_path (merkle_pair a b) path

  unfoldable pub build_merkle_root_from_path : List Bytes → Result Bytes
  build_merkle_root_from_path [] = err assertion_error
  build_merkle_root_from_path (a ∷ path) = ok (fold_path a path)
