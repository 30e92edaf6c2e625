-- ===== src/Tx/Tokens/Sum.antt =====
-- What `verify_sum` of hathor/transaction/transaction.py lets a transaction do with one token.
use khathor.Prelude.{
  ◌∷◌, [], List, Bool, ℕ, if◌then◌else◌, false, ◌≡◌, ◌||◌, ◌+◌, Bool-cases, inl, inr, arith,
  Option-cases, some,
}
use khathor.Errors.{ok, err, Result, >>=-eq-ok, ok-injective, invalid_token}
use khathor.Bytes.{Bytes, bytes_eq}
use khathor.Tx.Tokens.{
  TokenSettings, Storage, spend_output, inputs_loop, TokenDict, spent_output, info_of, spent_info,
  outputs_loop, create_output, TokenInfo, get_info, get_token_uid, created_info, set_info,
}
use khathor.Tx.Output.{TxOutput, can_mint_token, can_melt_token, get_token_index}
use khathor.Tx.Input.{TxInput}
use khathor.Tx.Tokens.Balance.{
  Tracks, value_of, info_of-set_info, spent_info-Tracks, get_info-info_of, created_info-Tracks,
}
use khathor.Bytes.Laws.{eq_of_bytes_eq}
use khathor.Tx.Base.{Tx}

-- What a spent output adds to the sum of the inputs and to the authorities of the token `t`.
abbrev pub spent_amount : Bytes → Result (Bytes × TxOutput) → ℕ
spent_amount t (ok (u, output)) = if bytes_eq t u then value_of output else 0
spent_amount t (err e) = 0

abbrev pub spent_mint : Bytes → Result (Bytes × TxOutput) → Bool
spent_mint t (ok (u, output)) = if bytes_eq t u then can_mint_token output else false
spent_mint t (err e) = false

abbrev pub spent_melt : Bytes → Result (Bytes × TxOutput) → Bool
spent_melt t (ok (u, output)) = if bytes_eq t u then can_melt_token output else false
spent_melt t (err e) = false

abbrev pub is_token : Bytes → Result Bytes → Bool
is_token t (ok u) = bytes_eq t u
is_token t (err e) = false

module _ (s : TokenSettings) (storage : Storage) (t : Bytes) where
  unfoldable pub input_amount : List TxInput → ℕ
  input_amount [] = 0
  input_amount (x ∷ xs) = spent_amount t (spent_output s storage x) + input_amount xs

  unfoldable pub has_mint : Bool → List TxInput → Bool
  has_mint b [] = b
  has_mint b (x ∷ xs) = has_mint (b || spent_mint t (spent_output s storage x)) xs

  unfoldable pub has_melt : Bool → List TxInput → Bool
  has_melt b [] = b
  has_melt b (x ∷ xs) = has_melt (b || spent_melt t (spent_output s storage x)) xs

  spend_output-Tracks :
      (spent : Bytes × TxOutput) (d : TokenDict) {i o : ℕ} {mint melt : Bool}
      → Tracks (info_of t d) i o mint melt
      → Tracks
          (info_of t (spend_output spent d))
          (i + spent_amount t (ok spent))
          o
          (mint || spent_mint t (ok spent))
          (melt || spent_melt t (ok spent))
  unfolding spend_output
  spend_output-Tracks (u, output) d h =
      rw (info_of-set_info t u (spent_info output (info_of u d)) d)
        elim (Bool-cases (bytes_eq t u)) [
          | inl e ↦ rw e (rw (eq_of_bytes_eq t u e) at (spent_info-Tracks output (info_of t d) h))
          | inr e ↦ rw e (ground (arith, h.balanced, h.mints, h.melts))
        ]

  pub inputs_loop-Tracks :
      (inputs : List TxInput) (d d' : TokenDict) {i o : ℕ} {mint melt : Bool}
      → inputs_loop s storage inputs d ≡ ok d'
      → Tracks (info_of t d) i o mint melt
      → Tracks
          (info_of t d')
          (i + input_amount inputs)
          o
          (has_mint mint inputs)
          (has_melt melt inputs)
  unfolding inputs_loop input_amount has_mint has_melt
  inputs_loop-Tracks [] d d' e h = ground (arith, ok-injective e, h.balanced)
  inputs_loop-Tracks (x ∷ xs) d d' e h =
      let (spent, f, g) = >>=-eq-ok (spent_output s storage x) _ e in
      let r = inputs_loop-Tracks xs (spend_output spent d) d' g (spend_output-Tracks spent d h) in
      rw f (record { balanced = omega (arith, r.balanced); mints = r.mints; melts = r.melts })

  unfoldable pub output_amount : Tx → List TxOutput → ℕ
  output_amount tx [] = 0
  output_amount tx (output ∷ outputs) =
      (if is_token t (get_token_uid s tx (get_token_index output)) then value_of output else 0)
      + output_amount tx outputs

  set_created-Tracks :
      (output : TxOutput) (u : Bytes) (d : TokenDict) (info info' : TokenInfo) {i o : ℕ}
      {mint melt : Bool}
      → get_info u d ≡ some info
      → created_info output info ≡ ok info'
      → Tracks (info_of t d) i o mint melt
      → Tracks
          (info_of t (set_info u info' d))
          i
          (o + (if bytes_eq t u then value_of output else 0))
          mint
          melt
  set_created-Tracks output u d info info' g p h =
      rw (info_of-set_info t u info' d) elim (Bool-cases (bytes_eq t u)) [
        | inl e ↦
            let q : info_of t d ≡ info =
              get_info-info_of t d info (rw (← eq_of_bytes_eq t u e) at g) in
            rw e (created_info-Tracks output info info' p (rw q at h))
        | inr e ↦ rw e (ground (arith, h.balanced, h.mints, h.melts))
      ]

  pub create_output-Tracks :
      (output : TxOutput) (u : Bytes) (d d' : TokenDict) {i o : ℕ} {mint melt : Bool}
      → create_output output u d ≡ ok d'
      → Tracks (info_of t d) i o mint melt
      → Tracks (info_of t d') i (o + (if bytes_eq t u then value_of output else 0)) mint melt
  unfolding create_output
  create_output-Tracks output u d d' e h = elim (Option-cases (get_info u d)) [
    | inl n ↦ let c : err invalid_token ≡ ok d' = rw (n, create_output) at e in cc
    | inr (info, g) ↦
        let (info', p, q) = >>=-eq-ok (created_info output info) _ (rw (g, create_output) at e) in
        rw (← ok-injective q) (set_created-Tracks output u d info info' g p h)
  ]

  pub outputs_loop-Tracks :
      (tx : Tx) (outputs : List TxOutput) (d d' : TokenDict) {i o : ℕ} {mint melt : Bool}
      → outputs_loop s tx outputs d ≡ ok d'
      → Tracks (info_of t d) i o mint melt
      → Tracks (info_of t d') i (o + output_amount tx outputs) mint melt
  unfolding outputs_loop output_amount
  outputs_loop-Tracks tx [] d d' e h = ground (arith, ok-injective e, h.balanced)
  outputs_loop-Tracks tx (output ∷ outputs) d d' e h =
      let (u, f, g) = >>=-eq-ok (get_token_uid s tx (get_token_index output)) _ e in
      let (d₁, p, q) = >>=-eq-ok (create_output output u d) _ g in
      let r = outputs_loop-Tracks tx outputs d₁ d' q (create_output-Tracks output u d d₁ p h) in
      rw f (record { balanced = omega (arith, r.balanced); mints = r.mints; melts = r.melts })
