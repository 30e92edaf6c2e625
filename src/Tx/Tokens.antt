-- ===== src/Tx/Tokens.antt =====
-- The token rules: `verify_outputs`, `verify_sum` and what they call, of
-- hathor/transaction/transaction.py. A storage is a function from hashes to its transactions.
-- `token_dict` is an association list in the order of insertion, as a Python dict is.
pub mod Balance
pub mod Sum
pub mod Conserves
pub mod Authority
use khathor.Tx.Base.{Tx, block, transaction}
use khathor.Prelude.{
  ℕ, List, none, false, Option, ◌∷◌, if◌then◌else◌, Bool, [], ◌==◌, ◌+◌, ◌||◌, not, some, leb, ◌-◌,
  length, suc, zero, ◌&&◌, ltb,
}
use khathor.Errors.{
  Result, ok, ◌>>=◌, ◌>>◌, guard, err, assertion_error, input_output_mismatch, invalid_token,
  transaction_does_not_exist, invalid_output_value, key_error,
}
use khathor.Tx.Output.{
  TxOutput, is_token_authority, get_token_index, can_mint_token, can_melt_token,
}
use khathor.Bytes.{Bytes, bytes_eq, index}
use khathor.Tx.Input.{TxInput}
use khathor.Prelude.Int.{pos, ℤ, negsuc, ◌==ℤ◌, sub_ℕ, ◌+ℤ◌, ◌-ℤ◌}

abbrev pub Storage : Type 0
Storage = Bytes → Option Tx

-- `settings.HATHOR_TOKEN_UID`, and `get_deposit_amount` and `get_withdraw_amount` of
-- hathor/transaction/util.py, which multiply with a float, by the absolute value of their argument.
pub record TokenSettings : Type 0 where
  pub hathor_token_uid : Bytes
  pub get_deposit_amount : ℕ → ℕ
  pub get_withdraw_amount : ℕ → ℕ

pub record TokenInfo : Type 0 where
  pub amount : ℤ
  pub can_mint : Bool
  pub can_melt : Bool

abbrev pub TokenDict : Type 0
TokenDict = List (Bytes × TokenInfo)

abbrev pub default_info : TokenInfo
default_info = record { amount = pos 0; can_mint = false; can_melt = false }

-- token_dict.get(token_uid)
unfoldable pub get_info : Bytes → TokenDict → Option TokenInfo
get_info token_uid [] = none
get_info token_uid ((u, info) ∷ token_dict) =
    if bytes_eq token_uid u then some info else get_info token_uid token_dict

-- token_dict.get(token_uid, default_info)
unfoldable pub info_of : Bytes → TokenDict → TokenInfo
info_of token_uid [] = default_info
info_of token_uid ((u, info) ∷ token_dict) =
    if bytes_eq token_uid u then info else info_of token_uid token_dict

-- token_dict[token_uid] = info
unfoldable pub set_info : Bytes → TokenInfo → TokenDict → TokenDict
set_info token_uid info [] = (token_uid, info) ∷ []
set_info token_uid info ((u, i) ∷ token_dict) =
    let rest = set_info token_uid info token_dict in
    if bytes_eq token_uid u then (u, info) ∷ token_dict else (u, i) ∷ rest

-- storage.get_transaction
unfoldable pub get_transaction : Storage → Bytes → Result Tx
get_transaction storage hash_bytes = elim (storage hash_bytes) [
  | none ↦ err transaction_does_not_exist
  | some tx ↦ ok tx
]

unfoldable pub get_spent_tx : Storage → TxInput → Result Tx
get_spent_tx storage input_tx = get_transaction storage input_tx.tx_id

unfoldable pub spent_info : TxOutput → TokenInfo → TokenInfo
spent_info output info =
    if is_token_authority output
    then record info {
      can_mint = info.can_mint || can_mint_token output;
      can_melt = info.can_melt || can_melt_token output;
    }
    else record info { amount = info.amount -ℤ pos output.value }

-- One round of the loop over the inputs.
unfoldable pub spend_output : Bytes × TxOutput → TokenDict → TokenDict
spend_output (token_uid, output) token_dict =
    set_info token_uid (spent_info output (info_of token_uid token_dict)) token_dict

-- An output of a token whose information is known.
unfoldable pub created_info : TxOutput → TokenInfo → Result TokenInfo
created_info output info = do
  guard (not (can_mint_token output && not info.can_mint)) invalid_token
  guard (not (can_melt_token output && not info.can_melt)) invalid_token
  if is_token_authority output
      then (do guard (leb output.value 3) invalid_token; ok info)
      else ok (record info { amount = info.amount +ℤ pos output.value })

-- One round of the loop over the outputs.
unfoldable pub create_output : TxOutput → Bytes → TokenDict → Result TokenDict
create_output output token_uid token_dict = elim (get_info token_uid token_dict) [
  | none ↦ err invalid_token
  | some info ↦ (do info' ← created_info output info; ok (set_info token_uid info' token_dict))
]

module _ (s : TokenSettings) where
  -- get_token_uid of Transaction and of Block
  unfoldable pub get_token_uid : Tx → ℕ → Result Bytes
  get_token_uid tx i = elim tx.kind [
    | block ↦ (if i == 0 then ok s.hathor_token_uid else err assertion_error)
    | transaction ↦ (if i == 0 then ok s.hathor_token_uid else index tx.tokens (i - 1))
  ]

  -- The output that an input spends, and its token.
  unfoldable pub spent_output : Storage → TxInput → Result (Bytes × TxOutput)
  spent_output storage tx_input = do
    spent_tx ← get_spent_tx storage tx_input
    output ← index spent_tx.outputs tx_input.index
    token_uid ← get_token_uid spent_tx (get_token_index output)
    ok (token_uid, output)

  unfoldable pub inputs_loop : Storage → List TxInput → TokenDict → Result TokenDict
  inputs_loop storage [] token_dict = ok token_dict
  inputs_loop storage (tx_input ∷ inputs) token_dict = do
    spent ← spent_output storage tx_input
    inputs_loop storage inputs (spend_output spent token_dict)

  unfoldable pub get_token_info_from_inputs : Storage → Tx → Result TokenDict
  get_token_info_from_inputs storage tx =
      inputs_loop storage tx.inputs ((s.hathor_token_uid, default_info) ∷ [])

  unfoldable pub outputs_loop : Tx → List TxOutput → TokenDict → Result TokenDict
  outputs_loop tx [] token_dict = ok token_dict
  outputs_loop tx (output ∷ outputs) token_dict = do
    token_uid ← get_token_uid tx (get_token_index output)
    token_dict' ← create_output output token_uid token_dict
    outputs_loop tx outputs token_dict'

  unfoldable pub update_token_info_from_outputs : Tx → TokenDict → Result TokenDict
  update_token_info_from_outputs tx = outputs_loop tx tx.outputs

  -- What a token other than Hathor's adds to the withdraw and the deposit.
  unfoldable pub check_token : TokenInfo → Result (ℕ × ℕ)
  check_token info = elim info.amount [
    | negsuc n ↦ (do
      guard info.can_melt input_output_mismatch
      ok (s.get_withdraw_amount (suc n), 0))
    | pos zero ↦ ok (0, 0)
    | pos (suc n) ↦ (do
      guard info.can_mint input_output_mismatch
      ok (0, s.get_deposit_amount (suc n)))
  ]

  unfoldable pub tokens_loop : TokenDict → ℕ → ℕ → Result (ℕ × ℕ)
  tokens_loop [] withdraw deposit = ok (withdraw, deposit)
  tokens_loop ((token_uid, info) ∷ token_dict) withdraw deposit = do
    (w, d) ← (if bytes_eq token_uid s.hathor_token_uid then ok (0, 0) else check_token info)
    tokens_loop token_dict (withdraw + w) (deposit + d)

  unfoldable pub check_authorities_and_deposit : TokenDict → Result (Unit {0})
  check_authorities_and_deposit token_dict = do
    (withdraw, deposit) ← tokens_loop token_dict 0 0
    elim (get_info s.hathor_token_uid token_dict) [
      | none ↦ err key_error
      | some htr_info ↦ guard (htr_info.amount ==ℤ sub_ℕ withdraw deposit) input_output_mismatch
    ]

  unfoldable pub verify_sum : Storage → Tx → Result (Unit {0})
  verify_sum storage tx = do
    token_dict ← get_token_info_from_inputs storage tx
    token_dict' ← update_token_info_from_outputs tx token_dict
    check_authorities_and_deposit token_dict'

-- Transaction.verify_outputs
unfoldable pub outputs_valid : Tx → List TxOutput → Result (Unit {0})
outputs_valid tx [] = ok tt
outputs_valid tx (output ∷ outputs) = do
  guard (leb (get_token_index output) (length tx.tokens)) invalid_token
  guard (not (get_token_index output == 0 && is_token_authority output)) invalid_token
  guard (ltb 0 output.value) invalid_output_value
  outputs_valid tx outputs

unfoldable pub verify_outputs : Tx → Result (Unit {0})
verify_outputs tx = outputs_valid tx tx.outputs
