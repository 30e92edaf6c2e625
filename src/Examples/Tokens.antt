-- ===== src/Examples/Tokens.antt =====
-- The token rules of hathor/transaction/transaction.py on a transaction that moves a token.
use khathor.Tx.Tokens.Authority.{gives_mint, verify_sum_mint_authority}
use khathor.Prelude.{true, refl, [], ◌∷◌, ◌≢◌, some, ◌≡◌, ◌/◌, ◌≤◌, ◌+◌, arith, false}
use khathor.Tx.Tokens.{
  get_token_info_from_inputs, inputs_loop, spent_output, get_spent_tx, get_transaction,
  get_token_uid, update_token_info_from_outputs, outputs_loop, create_output, get_info,
  spend_output, set_info, created_info, check_authorities_and_deposit, check_token, info_of,
  spent_info, tokens_loop, TokenSettings, Storage, verify_sum,
}
use khathor.Bytes.{index, bytes_eq, Bytes}
use khathor.Tx.Output.{
  get_token_index, can_mint_token, can_melt_token, is_token_authority, TxOutput,
}
use khathor.Prelude.Int.{◌+ℤ◌, ◌-ℤ◌}
use khathor.Tx.Tokens.Sum.{has_mint, has_melt, output_amount, input_amount}
use khathor.Errors.{ok}
use khathor.Tx.Base.{Tx}
use khathor.Examples.{spending_tx}
use khathor.Tx.Tokens.Conserves.{verify_sum_mints_nothing, verify_sum_melts_nothing}

abbrev pub settings : TokenSettings
settings = record {
  hathor_token_uid = 0 ∷ [];
  get_deposit_amount = λ n. n / 100 + 1;
  get_withdraw_amount = λ n. n / 100;
}

abbrev some_token : Bytes
some_token = 1 ∷ 2 ∷ []

abbrev token_output : TxOutput
token_output = record { value = 5; script = []; token_data = 1 }

abbrev token_tx : Tx
token_tx = record spending_tx { tokens = some_token ∷ []; outputs = token_output ∷ [] }

abbrev storage : Storage
storage h = some token_tx

verify_sum-token_tx : verify_sum settings storage token_tx ≡ ok tt
unfolding verify_sum get_token_info_from_inputs inputs_loop spent_output get_spent_tx
    get_transaction index get_token_uid get_token_index update_token_info_from_outputs outputs_loop
    create_output get_info spend_output set_info bytes_eq created_info can_mint_token can_melt_token
    is_token_authority ◌+ℤ◌ ◌-ℤ◌ check_authorities_and_deposit check_token info_of spent_info
    tokens_loop
verify_sum-token_tx = refl

some_token-ne : some_token ≢ settings.hathor_token_uid
some_token-ne = λ e. ground arith

verify_sum_mints_nothing_example :
    output_amount settings storage some_token token_tx token_tx.outputs
    ≤ input_amount settings storage some_token token_tx.inputs
unfolding has_mint spent_output get_spent_tx get_transaction index get_token_uid get_token_index
    bytes_eq can_mint_token is_token_authority
verify_sum_mints_nothing_example =
    verify_sum_mints_nothing settings storage token_tx some_token verify_sum-token_tx some_token-ne
      refl

verify_sum_melts_nothing_example :
    input_amount settings storage some_token token_tx.inputs
    ≤ output_amount settings storage some_token token_tx token_tx.outputs
unfolding has_melt spent_output get_spent_tx get_transaction index get_token_uid get_token_index
    bytes_eq can_melt_token is_token_authority
verify_sum_melts_nothing_example =
    verify_sum_melts_nothing settings storage token_tx some_token verify_sum-token_tx some_token-ne
      refl

abbrev mint_output : TxOutput
mint_output = record { value = 1; script = []; token_data = 129 }

abbrev mint_tx : Tx
mint_tx = record spending_tx { tokens = some_token ∷ []; outputs = mint_output ∷ [] }

abbrev mint_storage : Storage
mint_storage h = some mint_tx

verify_sum-mint_tx : verify_sum settings mint_storage mint_tx ≡ ok tt
unfolding verify_sum get_token_info_from_inputs inputs_loop spent_output get_spent_tx
    get_transaction index get_token_uid get_token_index update_token_info_from_outputs outputs_loop
    create_output get_info spend_output set_info bytes_eq created_info can_mint_token can_melt_token
    is_token_authority ◌+ℤ◌ ◌-ℤ◌ check_authorities_and_deposit check_token info_of spent_info
    tokens_loop
verify_sum-mint_tx = refl

verify_sum_mint_authority_example :
    has_mint settings mint_storage some_token false mint_tx.inputs ≡ true
unfolding gives_mint get_token_uid get_token_index bytes_eq can_mint_token is_token_authority index
verify_sum_mint_authority_example =
    verify_sum_mint_authority settings mint_storage mint_tx some_token verify_sum-mint_tx refl
