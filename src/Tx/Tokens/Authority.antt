-- ===== src/Tx/Tokens/Authority.antt =====
-- `verify_sum` of hathor/transaction/transaction.py: the authority to mint a token.
use khathor.Prelude.{
  ◌∷◌, [], List, ◌≡◌, Bool, true, false, ℕ, arith, Option-cases, Bool-cases, ◌&&◌, inl, ◌||◌,
  and_iff, inr, sym, ◌∙◌,
}
use khathor.Errors.{ok, err, >>=-eq-ok, invalid_token}
use khathor.Tx.Tokens.{
  TokenSettings, verify_sum, Storage, get_token_info_from_inputs, update_token_info_from_outputs,
  created_info, outputs_loop, create_output, TokenInfo, TokenDict, info_of, get_token_uid, get_info,
  default_info,
}
use khathor.Bytes.{Bytes, bytes_eq}
use khathor.Tx.Base.{Tx}
use khathor.Tx.Output.{TxOutput, can_mint_token, get_token_index}
use khathor.Tx.Tokens.Sum.{has_mint, is_token, inputs_loop-Tracks, create_output-Tracks}
use khathor.Tx.Tokens.Balance.{Tracks, get_info-info_of}
use khathor.Tx.Tokens.Conserves.{initial-Tracks}
use khathor.Bytes.Laws.{eq_of_bytes_eq}

module _ (s : TokenSettings) (storage : Storage) (t : Bytes) where
  -- Does an output give the authority to mint the token?
  unfoldable pub gives_mint : Tx → List TxOutput → Bool
  gives_mint tx [] = false
  gives_mint tx (output ∷ outputs) =
      (is_token t (get_token_uid s tx (get_token_index output)) && can_mint_token output)
      || gives_mint tx outputs

  created_info-mint :
      (output : TxOutput) (info info' : TokenInfo)
      → created_info output info ≡ ok info'
      → can_mint_token output ≡ true
      → info.can_mint ≡ true
  unfolding created_info
  created_info-mint output info info' e h = ground arith

  create_output-mint :
      (output : TxOutput) (d d' : TokenDict)
      → create_output output t d ≡ ok d'
      → can_mint_token output ≡ true
      → (info_of t d).can_mint ≡ true
  unfolding create_output
  create_output-mint output d d' e h = elim (Option-cases (get_info t d)) [
    | inl n ↦ let c : err invalid_token ≡ ok d' = rw (n, create_output) at e in cc
    | inr (info, g) ↦
        let (info', p, q) = >>=-eq-ok (created_info output info) _ (rw (g, create_output) at e) in
        rw (get_info-info_of t d info g) (created_info-mint output info info' p h)
  ]

  outputs_loop-mint :
      (tx : Tx) (outputs : List TxOutput) (d d' : TokenDict) {i o : ℕ} {mint melt : Bool}
      → outputs_loop s tx outputs d ≡ ok d'
      → Tracks (info_of t d) i o mint melt
      → gives_mint tx outputs ≡ true
      → mint ≡ true
  unfolding outputs_loop gives_mint
  outputs_loop-mint tx [] d d' e h g = cc
  outputs_loop-mint tx (output ∷ outputs) d d' e h g =
      let (u, f, k) = >>=-eq-ok (get_token_uid s tx (get_token_index output)) _ e in
      let (d₁, p, q) = >>=-eq-ok (create_output output u d) _ k in
      elim (Bool-cases (bytes_eq t u && can_mint_token output)) [
        | inl y ↦
            let (a, b) = (and_iff (bytes_eq t u) (can_mint_token output)).0 y in
            sym h.mints ∙ create_output-mint output d d₁ (rw (← eq_of_bytes_eq t u a) at p) b
        | inr n ↦
            outputs_loop-mint tx outputs d₁ d' q
              (create_output-Tracks s storage t output u d d₁ p h) (rw n at (rw f at g))
      ]

-- When `verify_sum` passes and an output gives the authority to mint a token, a spent output has it.
pub verify_sum_mint_authority :
    (s : TokenSettings) (storage : Storage) (tx : Tx) (t : Bytes)
    → verify_sum s storage tx ≡ ok tt
    → gives_mint s storage t tx tx.outputs ≡ true
    → has_mint s storage t false tx.inputs ≡ true
unfolding verify_sum get_token_info_from_inputs update_token_info_from_outputs
verify_sum_mint_authority s storage tx t h g =
    let (d₁, p₁, q₁) = >>=-eq-ok (get_token_info_from_inputs s storage tx) _ h in
    let (d₂, p₂, q₂) = >>=-eq-ok (update_token_info_from_outputs s tx d₁) _ q₁ in
    let i =
      inputs_loop-Tracks s storage t tx.inputs ((s.hathor_token_uid, default_info) ∷ []) d₁ p₁
        (initial-Tracks t s.hathor_token_uid) in
    outputs_loop-mint s storage t tx tx.outputs d₁ d₂ p₂ i g
