-- ===== src/Bitcoin/Transaction/Dummy.antt =====
-- The dummy witnesses that `BitcoinTransaction.tx_witnesses` of hathor/merged_mining/bitcoin.py writes.
use khathor.Prelude.{
  [], ◌∷◌, refl, length, ◌<◌, List, ◌^◌, ◌≡◌, All, map, Bool, true, ap, suc, ◌||◌, if◌then◌else◌,
  arith, ◌≤◌, or_true, ap₂, false,
}
use khathor.Bitcoin.Transaction.{
  BitcoinTransaction, BitcoinTransactionInput, has_witness, witness_of, input_to_bytes, tx_to_bytes,
}
use khathor.Bitcoin.Codec.{encode_list}
use khathor.Bitcoin.Transaction.Parts.{IsBitcoinInput, IsBitcoinOutput}
use khathor.Bitcoin.Transaction.Witness.{HasWitness}
use khathor.Bytes.{Bytes}
use khathor.Prelude.Int.{pos_part, neg_part}
use khathor.Tx.Base.{concat_bytes}

-- Whether the bytes carry the flag and witnesses.
abbrev pub is_segwit : BitcoinTransaction → Bool
is_segwit tx = has_witness tx.inputs || tx.include_witness

abbrev pub with_dummy : BitcoinTransactionInput → BitcoinTransactionInput
with_dummy txin = record txin { script_witness = witness_of txin }

-- The transaction with the flag, and with the dummies.
abbrev pub marked : BitcoinTransaction → BitcoinTransaction
marked tx = record tx { include_witness = true; inputs = map with_dummy tx.inputs }

-- The transaction as its bytes say it: with the flag, where witnesses are written, and then with the
-- dummy of 32 zeros for the witness of every input that has none.
unfoldable pub as_written : BitcoinTransaction → BitcoinTransaction
as_written tx = if is_segwit tx then marked tx else tx

pub record IsWitness (txin : BitcoinTransactionInput) : Type 0 where
  pub size : length txin.script_witness < 2 ^ 64
  pub sizes : All (λ w. length w < 2 ^ 64) txin.script_witness

-- The transactions that the format holds.
pub record IsBitcoinTransaction (tx : BitcoinTransaction) : Type 0 where
  pub positive : pos_part tx.version < 2 ^ 31
  pub negative : neg_part tx.version ≤ 2 ^ 31
  pub inputs_size : length tx.inputs < 2 ^ 64
  pub outputs_size : length tx.outputs < 2 ^ 64
  pub inputs : All IsBitcoinInput tx.inputs
  pub outputs : All IsBitcoinOutput tx.outputs
  pub lock_time : tx.lock_time < 2 ^ 32
  pub witnesses : All IsWitness tx.inputs

-- The input, with any witness in place of its own.
dummy-HasWitness :
    (x : BitcoinTransactionInput) (ws : List Bytes)
    → length ws < 2 ^ 64
    → All (λ w. length w < 2 ^ 64) ws
    → HasWitness (with_dummy (record x { script_witness = ws }))
unfolding witness_of
dummy-HasWitness x [] h k = record {
  some_witness = refl;
  size = omega arith;
  sizes = (omega arith, tt);
}
dummy-HasWitness x (w ∷ ws) h k = record { some_witness = refl; size = h; sizes = k }

pub dummies-HasWitness :
    (xs : List BitcoinTransactionInput) → All IsWitness xs → All HasWitness (map with_dummy xs)
dummies-HasWitness [] h = tt
dummies-HasWitness (x ∷ xs) h =
    (dummy-HasWitness x x.script_witness h.0.size h.0.sizes, dummies-HasWitness xs h.1)

dummy-IsBitcoinInput :
    (xs : List BitcoinTransactionInput)
    → All IsBitcoinInput xs
    → All IsBitcoinInput (map with_dummy xs)
dummy-IsBitcoinInput [] h = tt
dummy-IsBitcoinInput (x ∷ xs) h = (
  record { hash = h.0.hash; idx = h.0.idx; script_sig = h.0.script_sig; sequence = h.0.sequence },
  dummy-IsBitcoinInput xs h.1,
)

map-length : (xs : List BitcoinTransactionInput) → length (map with_dummy xs) ≡ length xs
map-length [] = refl
map-length (x ∷ xs) = ap suc (map-length xs)

pub marked_inputs :
    (tx : BitcoinTransaction)
    → IsBitcoinTransaction tx
    → All IsBitcoinInput (marked tx).inputs × (length (marked tx).inputs < 2 ^ 64)
marked_inputs tx h =
    (dummy-IsBitcoinInput tx.inputs h.inputs, rw (map-length tx.inputs) h.inputs_size)

-- The dummies change no byte.
inputs_bytes :
    (xs : List BitcoinTransactionInput)
    → concat_bytes input_to_bytes (map with_dummy xs) ≡ concat_bytes input_to_bytes xs
unfolding concat_bytes input_to_bytes
inputs_bytes [] = refl
inputs_bytes (x ∷ xs) = rw (inputs_bytes xs) refl

witness_of-dummy :
    (x : BitcoinTransactionInput) (ws : List Bytes)
    → witness_of (with_dummy (record x { script_witness = ws }))
      ≡ witness_of (record x { script_witness = ws })
unfolding witness_of
witness_of-dummy x [] = refl
witness_of-dummy x (w ∷ ws) = refl

witnesses_bytes :
    (xs : List BitcoinTransactionInput) → map witness_of (map with_dummy xs) ≡ map witness_of xs
witnesses_bytes [] = refl
witnesses_bytes (x ∷ xs) =
    ap₂ (λ a b. a ∷ b) (witness_of-dummy x x.script_witness) (witnesses_bytes xs)

pub marked_bytes :
    (tx : BitcoinTransaction)
    → is_segwit tx ≡ true
    → tx_to_bytes false (marked tx) ≡ tx_to_bytes false tx
unfolding tx_to_bytes encode_list
marked_bytes tx e =
    rw
      (
        or_true (has_witness (map with_dummy tx.inputs)),
        e,
        map-length tx.inputs,
        inputs_bytes tx.inputs,
        witnesses_bytes tx.inputs,
      )
      refl
