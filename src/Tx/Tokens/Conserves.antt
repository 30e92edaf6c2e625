-- ===== src/Tx/Tokens/Conserves.antt =====
-- `verify_sum` of hathor/transaction/transaction.py: the amounts of a token.
use khathor.Prelude.{
  ◌∷◌, [], refl, ◌≡◌, ◌≢◌, true, ◌⊎◌, false, ◌≤◌, ℕ, arith, inr, Bool-cases, inl, ◌+◌,
  if◌then◌else◌, ◌∙◌,
}
use khathor.Errors.{ok, >>=-eq-ok}
use khathor.Tx.Tokens.{
  TokenInfo, TokenSettings, verify_sum, get_token_info_from_inputs, Storage,
  update_token_info_from_outputs, tokens_loop, check_authorities_and_deposit, info_of, TokenDict,
  check_token, default_info,
}
use khathor.Bytes.{Bytes, bytes_eq}
use khathor.Tx.Base.{Tx}
use khathor.Tx.Tokens.Sum.{
  has_melt, has_mint, input_amount, output_amount, inputs_loop-Tracks, outputs_loop-Tracks,
}
use khathor.Prelude.Int.{pos_part, neg_part}
use khathor.Tx.Tokens.Balance.{Tracks}
use khathor.Bytes.Laws.{eq_of_bytes_eq}

-- What the check of an entry of `token_dict` leaves possible.
abbrev pub Allowed : TokenInfo → Type 0
Allowed info =
    ((info.can_mint ≡ true) ⊎ (pos_part info.amount ≡ 0))
    × ((info.can_melt ≡ true) ⊎ (neg_part info.amount ≡ 0))

check_token-allows :
    (s : TokenSettings) (info : TokenInfo) (r : ℕ × ℕ) → check_token s info ≡ ok r → Allowed info
unfolding check_token
check_token-allows s info r h = ground arith

checked_entry-allows :
    (s : TokenSettings) (t u : Bytes) (info : TokenInfo) (r : ℕ × ℕ)
    → t ≢ s.hathor_token_uid
    → t ≡ u
    → (if bytes_eq u s.hathor_token_uid then ok (0, 0) else check_token s info) ≡ ok r
    → Allowed info
checked_entry-allows s t u info r ne same e = elim (Bool-cases (bytes_eq u s.hathor_token_uid)) [
  | inl htr ↦ absurd (ne (same ∙ eq_of_bytes_eq u s.hathor_token_uid htr))
  | inr other ↦ check_token-allows s info r (rw other at e)
]

pub tokens_loop-allows :
    (s : TokenSettings) (t : Bytes) (d : TokenDict) (withdraw deposit : ℕ) (r : ℕ × ℕ)
    → t ≢ s.hathor_token_uid
    → tokens_loop s d withdraw deposit ≡ ok r
    → Allowed (info_of t d)
unfolding tokens_loop info_of
tokens_loop-allows s t [] withdraw deposit r ne h = (inr refl, inr refl)
tokens_loop-allows s t ((u, info) ∷ d) withdraw deposit r ne h =
    let ((w', d'), e, f) =
      >>=-eq-ok (if bytes_eq u s.hathor_token_uid then ok (0, 0) else check_token s info) _ h in
    elim (Bool-cases (bytes_eq t u)) [
      | inl same ↦ rw same (checked_entry-allows s t u info (w', d') ne (eq_of_bytes_eq t u same) e)
      | inr other ↦ rw other (tokens_loop-allows s t d (withdraw + w') (deposit + d') r ne f)
    ]

pub initial-Tracks : (t u : Bytes) → Tracks (info_of t ((u, default_info) ∷ [])) 0 0 false false
unfolding info_of
initial-Tracks t u = ground arith

-- What the two loops leave of a token.
verify_sum-Tracks :
    (s : TokenSettings) (storage : Storage) (tx : Tx) (t : Bytes)
    → verify_sum s storage tx ≡ ok tt
    → t ≢ s.hathor_token_uid
    → (info : TokenInfo) × Tracks info
        (input_amount s storage t tx.inputs)
        (output_amount s storage t tx tx.outputs)
        (has_mint s storage t false tx.inputs)
        (has_melt s storage t false tx.inputs)
      × Allowed info
unfolding verify_sum get_token_info_from_inputs update_token_info_from_outputs
    check_authorities_and_deposit
verify_sum-Tracks s storage tx t h ne =
    let (d₁, p₁, q₁) = >>=-eq-ok (get_token_info_from_inputs s storage tx) _ h in
    let (d₂, p₂, q₂) = >>=-eq-ok (update_token_info_from_outputs s tx d₁) _ q₁ in
    let (r, p₃, q₃) = >>=-eq-ok (tokens_loop s d₂ 0 0) _ q₂ in
    let i =
      inputs_loop-Tracks s storage t tx.inputs ((s.hathor_token_uid, default_info) ∷ []) d₁ p₁
        (initial-Tracks t s.hathor_token_uid) in
    let o = outputs_loop-Tracks s storage t tx tx.outputs d₁ d₂ p₂ i in
    (
      info_of t d₂,
      record { balanced = omega (arith, o.balanced); mints = o.mints; melts = o.melts },
      tokens_loop-allows s t d₂ 0 0 r ne p₃,
    )

-- When `verify_sum` passes and no spent output has the mint authority of a token other than Hathor's,
-- the outputs of that token sum up to at most what its inputs do.
pub verify_sum_mints_nothing :
    (s : TokenSettings) (storage : Storage) (tx : Tx) (t : Bytes)
    → verify_sum s storage tx ≡ ok tt
    → t ≢ s.hathor_token_uid
    → has_mint s storage t false tx.inputs ≡ false
    → output_amount s storage t tx tx.outputs ≤ input_amount s storage t tx.inputs
verify_sum_mints_nothing s storage tx t h ne m =
    let (info, r, (a, b)) = verify_sum-Tracks s storage tx t h ne in
    ground (arith, r.balanced, r.mints, m, a)

-- When `verify_sum` passes and no spent output has the melt authority of a token other than Hathor's,
-- the outputs of that token sum up to at least what its inputs do.
pub verify_sum_melts_nothing :
    (s : TokenSettings) (storage : Storage) (tx : Tx) (t : Bytes)
    → verify_sum s storage tx ≡ ok tt
    → t ≢ s.hathor_token_uid
    → has_melt s storage t false tx.inputs ≡ false
    → input_amount s storage t tx.inputs ≤ output_amount s storage t tx tx.outputs
verify_sum_melts_nothing s storage tx t h ne m =
    let (info, r, (a, b)) = verify_sum-Tracks s storage tx t h ne in
    ground (arith, r.balanced, r.melts, m, b)
