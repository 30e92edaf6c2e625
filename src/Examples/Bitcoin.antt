-- ===== src/Examples/Bitcoin.antt =====
-- The formats of hathor/merged_mining/bitcoin.py and hathor/transaction/aux_pow.py on small values.
use khathor.Prelude.{
  [], ◌∷◌, refl, List, arith, ◌≡◌, true, false, inl, ◌↔◌, some, ◌++◌, length, ◌≤◌,
}
use khathor.Errors.{ok}
use khathor.Bitcoin.Transaction.{
  has_witness, has_script_witness, witness_of, BitcoinTransactionInput, BitcoinTransaction,
  tx_to_bytes, decode_tx,
}
use khathor.Bitcoin.Transaction.RoundTrip.{bitcoin_tx_round_trip}
use khathor.Bitcoin.Transaction.Dummy.{IsBitcoinTransaction, as_written}
use khathor.Bitcoin.Header.{BitcoinBlockHeader}
use khathor.Bitcoin.AuxPow.{
  zeros, verify, aux_pow_to_bytes, dummy, from_bytes, ends_with, magic_number,
}
use khathor.Bytes.{Bytes}
use khathor.Bitcoin.Transaction.Parts.{IsBitcoinInput}
use khathor.Prelude.Int.{negsuc}
use khathor.Examples.{pad, demo}
use khathor.Bitcoin.Merkle.{
  build_merkle_path_for_coinbase, build_merkle_root, build_merkle_root_from_path,
}
use khathor.Bitcoin.AuxPow.Laws.{aux_pow_round_trip, verify_iff}
use khathor.Bitcoin.Merkle.Path.{merkle_path_root}

abbrev leaves : List Bytes
leaves = (1 ∷ []) ∷ (2 ∷ []) ∷ (3 ∷ []) ∷ (4 ∷ []) ∷ []

merkle_path_root_example :
    (path : List Bytes) × (build_merkle_path_for_coinbase demo 4 leaves ≡ some path)
    × (build_merkle_root demo 4 ((7 ∷ []) ∷ leaves)
        ≡ some (build_merkle_root_from_path demo ((7 ∷ []) ∷ path)))
merkle_path_root_example = merkle_path_root demo (7 ∷ []) leaves 4 (omega arith)

abbrev input : BitcoinTransactionInput
input = record {
  previous_output = record { hash = pad 32 (5 ∷ []); idx = 1 };
  script_sig = 1 ∷ 2 ∷ 3 ∷ [];
  sequence = 0xffffffff;
  script_witness = (9 ∷ 9 ∷ []) ∷ [] ∷ [];
}

-- An input without a witness, such as `from_dict` makes of a coinbase.
abbrev bare_input : BitcoinTransactionInput
bare_input = record input { script_witness = [] }

abbrev bitcoin_tx : BitcoinTransaction
bitcoin_tx = record {
  version = negsuc 1;
  include_witness = true;
  inputs = input ∷ bare_input ∷ [];
  outputs = record { value = 5000000000; script_pubkey = 0 ∷ [] } ∷ [];
  lock_time = 70000;
}

input-IsBitcoinInput : IsBitcoinInput input
input-IsBitcoinInput = record {
  hash = refl;
  idx = omega arith;
  script_sig = omega arith;
  sequence = omega arith;
}

bare_input-IsBitcoinInput : IsBitcoinInput bare_input
bare_input-IsBitcoinInput = record {
  hash = refl;
  idx = omega arith;
  script_sig = omega arith;
  sequence = omega arith;
}

bitcoin_tx-IsBitcoinTransaction : IsBitcoinTransaction bitcoin_tx
bitcoin_tx-IsBitcoinTransaction = record {
  positive = omega arith;
  negative = omega arith;
  inputs_size = omega arith;
  outputs_size = omega arith;
  inputs = (input-IsBitcoinInput, (bare_input-IsBitcoinInput, tt));
  outputs = (record { value = omega arith; script_pubkey = omega arith }, tt);
  lock_time = omega arith;
  witnesses = (
    record { size = omega arith; sizes = (omega arith, (omega arith, tt)) },
    (record { size = omega arith; sizes = tt }, tt),
  );
}

-- The second input comes back with the dummy.
as_written-bitcoin_tx : as_written bitcoin_tx ≡ record bitcoin_tx {
  inputs = input ∷ record bare_input { script_witness = zeros 32 ∷ [] } ∷ [];
}
unfolding as_written has_witness has_script_witness witness_of
as_written-bitcoin_tx = refl

bitcoin_tx_round_trip_example :
    (bs : Bytes) × (tx_to_bytes false bitcoin_tx ≡ ok bs)
    × (decode_tx bs ≡ ok (as_written bitcoin_tx))
bitcoin_tx_round_trip_example =
    bitcoin_tx_round_trip bitcoin_tx bitcoin_tx-IsBitcoinTransaction (inl refl)

abbrev header : BitcoinBlockHeader
header = record {
  version = 0x20000000;
  prev_block = pad 32 (1 ∷ []);
  merkle_root = pad 32 (2 ∷ []);
  timestamp = 1600000000;
  bits = 1 ∷ 2 ∷ 3 ∷ 4 ∷ [];
  nonce = 77;
}

aux_pow_round_trip_example :
    (bs : Bytes) × (aux_pow_to_bytes dummy ≡ ok bs) × (from_bytes (bs ++ 5 ∷ []) ≡ ok dummy)
aux_pow_round_trip_example = aux_pow_round_trip dummy (5 ∷ []) (record {
  header_head = refl;
  coinbase_head = omega arith;
  coinbase_tail = omega arith;
  merkle_len = omega arith;
  merkle_path = (refl, tt);
  header_tail = refl;
})

verify_iff_example :
    (verify dummy ≡ ok tt)
    ↔ ((ends_with dummy.coinbase_head magic_number ≡ true) × (length dummy.merkle_path ≤ 12))
verify_iff_example = verify_iff dummy
