-- ===== src/Bitcoin/Merkle/Path.antt =====
-- The path to the coinbase of hathor/merged_mining/bitcoin.py, against the root of the tree.
use khathor.Prelude.{
  [], ◌∷◌, some, refl, List, ◌≡◌, ℕ, length, ◌≤◌, arith, ◌++◌, append-nil, append_assoc, zero, ap,
  ◌∙◌,
}
use khathor.Errors.{ok}
use khathor.Bitcoin.Merkle.{
  build_merkle_path_for_coinbase, pad_even, build_merkle_root_from_path, merkle_path_loop,
  next_level, build_merkle_root, hash_pairs, fold_path, merkle_pair, suc,
}
use khathor.Crypto.{Platform}
use khathor.Bytes.{Bytes}

pad_even-suc : (a b : Bytes) (xs : List Bytes) → pad_even (a ∷ b ∷ xs) ≡ a ∷ b ∷ pad_even xs
unfolding pad_even
pad_even-suc a b [] = refl
pad_even-suc a b (x ∷ xs) = ground arith

module _ (p : Platform) where
  next_level-cons :
      (a b : Bytes) (xs : List Bytes)
      → next_level p (a ∷ b ∷ xs) ≡ merkle_pair p a b ∷ next_level p xs
  unfolding next_level hash_pairs
  next_level-cons a b xs = rw (pad_even-suc a b xs) refl

  length-next_level : (xs : List Bytes) → length (next_level p xs) ≤ length xs
  unfolding next_level pad_even hash_pairs
  length-next_level [] = omega arith
  length-next_level (x ∷ []) = omega arith
  length-next_level (x ∷ y ∷ xs) = rw (next_level-cons x y xs) (omega (arith, length-next_level xs))

  path_loop-root :
      (fuel : ℕ) (a c : Bytes) (xs partial : List Bytes)
      → length xs ≤ fuel
      → (path : List Bytes) × (merkle_path_loop p fuel (a ∷ xs) partial ≡ some (partial ++ path))
        × (build_merkle_root p fuel (c ∷ xs) ≡ some (ok (fold_path p c path)))
  unfolding merkle_path_loop build_merkle_root fold_path
  path_loop-root fuel a c [] partial h = ([], rw append-nil, refl)
  path_loop-root zero a c (y ∷ ys) partial h = absurd (omega arith)
  path_loop-root (suc fuel) a c (y ∷ ys) partial h =
      let (path, q, r) =
        path_loop-root fuel (merkle_pair p a y) (merkle_pair p c y) (next_level p ys)
          (partial ++ y ∷ []) (omega (arith, length-next_level ys)) in
      (
        y ∷ path,
        ap (λ l. merkle_path_loop p fuel l (partial ++ y ∷ [])) (next_level-cons a y ys)
            ∙ rw (append_assoc partial (y ∷ []) path) at q,
        ap (build_merkle_root p fuel) (next_level-cons c y ys) ∙ r,
      )

-- For every coinbase, the path that is built from the other leaves folds to the root of the whole
-- tree; one round for each leaf is enough for both.
pub merkle_path_root :
    (p : Platform) (coinbase : Bytes) (leaves : List Bytes) (fuel : ℕ)
    → length leaves ≤ fuel
    → (path : List Bytes) × (build_merkle_path_for_coinbase p fuel leaves ≡ some path)
      × (build_merkle_root p fuel (coinbase ∷ leaves)
          ≡ some (build_merkle_root_from_path p (coinbase ∷ path)))
unfolding build_merkle_path_for_coinbase build_merkle_root_from_path
merkle_path_root p coinbase leaves fuel h = path_loop-root p fuel [] coinbase leaves [] h
