-- ===== src/Examples/Creation.antt =====
-- A token creation of hathor/transaction/token_creation_tx.py on concrete values.
use khathor.Prelude.{
  [], ◌∷◌, refl, some, false, ap, ◌==◌, arith, sym, some_injective, ◌<◌, reverse, ◌≡◌, ◌≢◌, true,
  ◌⊎◌, if◌then◌else◌,
}
use khathor.Errors.{ok}
use khathor.Examples.{demo, spending_tx, spent_tx, pad, some_tx_id}
use khathor.Examples.Tokens.{settings}
use khathor.Tx.Creation.Rules.{verify_sum, verify_sum_of, check_minted, is_positive}
use khathor.Tx.Creation.{
  get_funds_struct, Text, TokenCreationTx, calculate_hash, create_from_struct, get_struct,
  serialize_token_info, encode_utf8,
}
use khathor.Tx.Creation.RoundTrip.{with_hash, token_creation_round_trip}
use khathor.Tx.Creation.Info.{IsCodec, Encoded}
use khathor.Tx.Parse.Fields.{IsEncodable}
use khathor.Tx.Tokens.{
  Storage, get_token_info_from_inputs, spent_output, get_spent_tx, get_transaction, get_token_uid,
  update_token_info_from_outputs, outputs_loop, create_output, get_info, spend_output, set_info,
  created_info, check_authorities_and_deposit, check_token, info_of, spent_info, tokens_loop,
}
use khathor.Bytes.{Bytes, int_to_bytes, be, index, bytes_eq}
use khathor.Tx.Tokens.Sum.{output_amount, has_melt, input_amount}
use khathor.Tx.Base.{Tx, base_graph_struct, pack_uint, concat_bytes}
use khathor.Tx.Creation.Rules.Mints.{creation_mints_own_token}
use khathor.Tx.Value.{output_value_to_bytes}
use khathor.Tx.Output.{get_token_index, can_mint_token, can_melt_token, is_token_authority}
use khathor.Prelude.Int.{◌+ℤ◌, ◌-ℤ◌}
use khathor.Tx.Input
use khathor.Tx.Output

-- Strings of ASCII characters, as their own encoding.
abbrev ascii : Text
ascii = record {
  encode = some;
  decode = some;
  upper = λ s. s;
  is_space = λ c. c == 32;
  max_length_token_name = 30;
  max_length_token_symbol = 5;
  hathor_token_name = 72 ∷ 97 ∷ [];
  hathor_token_symbol = 72 ∷ 84 ∷ 82 ∷ [];
}

ascii-IsCodec : IsCodec ascii
ascii-IsCodec = record { decode-encode = λ s b e. ap some (sym (some_injective e)) }

abbrev new_token : TokenCreationTx
new_token = record {
  tx = record spending_tx {
    version = 2;
    outputs = record { value = 5; script = []; token_data = 1 } ∷ [];
  };
  token_name = 78 ∷ 101 ∷ 119 ∷ [];
  token_symbol = 78 ∷ [];
}

name-Encoded : Encoded ascii new_token.token_name
name-Encoded = record { bytes = new_token.token_name; encodes = refl; short = omega arith }

symbol-Encoded : Encoded ascii new_token.token_symbol
symbol-Encoded = record { bytes = new_token.token_symbol; encodes = refl; short = omega arith }

new_token-IsEncodable : IsEncodable new_token.tx
new_token-IsEncodable = record {
  version = omega arith;
  weight = omega arith;
  timestamp = omega arith;
  tokens_len = omega arith;
  inputs_len = omega arith;
  outputs_len = omega arith;
  parents_len = omega arith;
  tokens = ground arith;
  inputs = (record { tx_id_size = refl; index_byte = omega arith; data_size = omega arith }, tt);
  outputs = (
    record {
      positive = omega arith;
      bounded = omega arith;
      token_byte = omega arith;
      script_size = omega arith;
    },
    tt,
  );
  parents = ground arith;
}

abbrev new_uid : Bytes
new_uid = reverse (pad 32 (0 ∷ 2 ∷ 1 ∷ 1 ∷ some_tx_id))

new_token-hash : calculate_hash ascii demo new_token ≡ ok new_uid
unfolding calculate_hash get_funds_struct serialize_token_info encode_utf8 base_graph_struct
    pack_uint concat_bytes Input.to_bytes Output.to_bytes int_to_bytes output_value_to_bytes be
new_token-hash = refl

token_creation_round_trip_example :
    (bs : Bytes) × (get_struct ascii new_token ≡ ok bs)
    × (create_from_struct ascii demo bs ≡ ok (with_hash new_token new_uid))
token_creation_round_trip_example =
    token_creation_round_trip ascii ascii-IsCodec new_token new_token-IsEncodable name-Encoded
      symbol-Encoded demo new_uid refl refl (omega arith) new_token-hash

-- The transaction that it spends has one token of Hathor's, which is the deposit.
abbrev deposit_storage : Storage
deposit_storage h = some (spent_tx (record { value = 1; script = []; token_data = 0 }))

verify_sum-new_token : verify_sum settings deposit_storage (with_hash new_token new_uid) ≡ ok tt
unfolding verify_sum verify_sum_of check_minted is_positive get_token_info_from_inputs
    khathor.Tx.Tokens.inputs_loop spent_output get_spent_tx get_transaction index get_token_uid
    get_token_index update_token_info_from_outputs outputs_loop create_output get_info spend_output
    set_info bytes_eq created_info can_mint_token can_melt_token is_token_authority ◌+ℤ◌ ◌-ℤ◌
    check_authorities_and_deposit check_token info_of spent_info tokens_loop
verify_sum-new_token = refl

creation_mints_own_token_example :
    (0
      < output_amount settings deposit_storage new_uid
          (with_hash new_token new_uid).tx
          (with_hash new_token new_uid).tx.outputs)
    × ((t : Bytes)
        → t ≢ new_uid
        → t ≢ settings.hathor_token_uid
        → (output_amount settings deposit_storage t
              (with_hash new_token new_uid).tx
              (with_hash new_token new_uid).tx.outputs
            ≡ 0)
          × ((has_melt settings deposit_storage t false (with_hash new_token new_uid).tx.inputs
                ≡ true)
              ⊎ (input_amount settings deposit_storage t (with_hash new_token new_uid).tx.inputs
                  ≡ 0)))
creation_mints_own_token_example =
    creation_mints_own_token settings deposit_storage (with_hash new_token new_uid) new_uid
      verify_sum-new_token refl refl

-- The creation also passes when it spends another token, with the melt authority of that token:
-- `verify_sum` does not ask that the inputs are all of Hathor's.
abbrev melting : TokenCreationTx
melting = record (with_hash new_token new_uid) {
  tx = record (with_hash new_token new_uid).tx {
    inputs =
        record { tx_id = 1 ∷ []; index = 0; unlock = [] }
        ∷ record { tx_id = 2 ∷ []; index = 0; unlock = [] }
        ∷ record { tx_id = 3 ∷ []; index = 0; unlock = [] }
        ∷ [];
  };
}

abbrev other_token : Output.TxOutput → Tx
other_token output = record (spent_tx output) { tokens = (9 ∷ []) ∷ [] }

abbrev melting_storage : Storage
melting_storage h =
    if bytes_eq h (1 ∷ [])
    then some (spent_tx (record { value = 1; script = []; token_data = 0 }))
    else some (
        other_token (
          if bytes_eq h (2 ∷ [])
          then record { value = 7; script = []; token_data = 1 }
          else record { value = 2; script = []; token_data = 129 }))

verify_sum-melting : verify_sum settings melting_storage melting ≡ ok tt
unfolding verify_sum verify_sum_of check_minted is_positive get_token_info_from_inputs
    khathor.Tx.Tokens.inputs_loop spent_output get_spent_tx get_transaction index get_token_uid
    get_token_index update_token_info_from_outputs outputs_loop create_output get_info spend_output
    set_info bytes_eq created_info can_mint_token can_melt_token is_token_authority ◌+ℤ◌ ◌-ℤ◌
    check_authorities_and_deposit check_token info_of spent_info tokens_loop
verify_sum-melting = refl
