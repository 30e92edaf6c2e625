-- ===== src/Examples/Serialization.antt =====
-- The serialization of hathor/transaction/ on concrete values.
use khathor.Tx.Input
use khathor.Tx.Output
use khathor.Bytes.{Bytes, unpack, from_be, int_to_bytes, be}
use khathor.Examples.{spending_tx, pad, some_tx_id, demo}
use khathor.Tx.Value.{
  output_value_to_bytes, bytes_to_output_value, read_short, check_value, invalid_value,
}
use khathor.Prelude.{◌≡◌, arith, ◌∷◌, refl, [], ◌++◌, reverse, some}
use khathor.Errors.{ok}
use khathor.Tx.Value.Canonical.{output_value_canonical}
use khathor.Tx.Parse.Fields.{IsEncodable}
use khathor.Tx.Base.{
  get_struct, calculate_hash, get_header_without_nonce, get_funds_struct, transaction,
  funds_of_transaction, get_graph_struct, base_graph_struct, pack_uint, concat_bytes,
}
use khathor.Tx.Parse.{create_from_struct}
use khathor.Tx.Parse.RoundTrip.{transaction_round_trip}
use khathor.Prelude.Int.{signed}

output_value_canonical_example :
    (bs : Bytes) × (output_value_to_bytes 258 ≡ ok bs) × ((0 ∷ 0 ∷ 1 ∷ 2 ∷ 9 ∷ []) ≡ bs ++ 9 ∷ [])
unfolding bytes_to_output_value read_short unpack check_value signed from_be invalid_value
output_value_canonical_example =
    output_value_canonical (0 ∷ 0 ∷ 1 ∷ 2 ∷ 9 ∷ []) (9 ∷ []) 258 (ground arith) refl (omega arith)
      (omega arith)

spending_tx-IsEncodable : IsEncodable spending_tx
spending_tx-IsEncodable = record {
  version = omega arith;
  weight = omega arith;
  timestamp = omega arith;
  tokens_len = omega arith;
  inputs_len = omega arith;
  outputs_len = omega arith;
  parents_len = omega arith;
  tokens = ground arith;
  inputs = (record { tx_id_size = refl; index_byte = omega arith; data_size = omega arith }, tt);
  outputs = (
    record {
      positive = omega arith;
      bounded = omega arith;
      token_byte = omega arith;
      script_size = omega arith;
    },
    tt,
  );
  parents = ground arith;
}

abbrev spending_hash : Bytes
spending_hash = reverse (pad 32 (0 ∷ 1 ∷ 0 ∷ 1 ∷ 1 ∷ some_tx_id))

spending_tx-hash : calculate_hash demo spending_tx ≡ ok spending_hash
unfolding calculate_hash get_header_without_nonce get_funds_struct funds_of_transaction
    get_graph_struct base_graph_struct pack_uint concat_bytes Input.to_bytes Output.to_bytes
    int_to_bytes output_value_to_bytes be
spending_tx-hash = refl

transaction_round_trip_example :
    (bs : Bytes) × (get_struct spending_tx ≡ ok bs)
    × (create_from_struct demo transaction bs
        ≡ ok (record spending_tx { hash = some spending_hash }))
transaction_round_trip_example =
    transaction_round_trip spending_tx spending_tx-IsEncodable demo spending_hash refl refl
      (omega arith) spending_tx-hash
