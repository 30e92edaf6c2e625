-- ===== src/Bitcoin/Transaction.antt =====
-- `BitcoinTransaction`, its inputs and its outputs, of hathor/merged_mining/bitcoin.py. A field that
-- a format string of `struct` packs is refused where it does not fit.
pub mod Parts
pub mod Witness
pub mod Dummy
pub mod RoundTrip
use khathor.Prelude.{
  [], ◌∷◌, ℕ, Bool, List, drop, false, ◌==◌, zero, ◌+◌, true, ◌&&◌, length, not, if◌then◌else◌,
  ◌||◌, ltb, ◌++◌, ◌-◌, take, ◌^◌, map, suc,
}
use khathor.Errors.{ok, err, Result, ◌>>=◌, ◌>>◌, guard, struct_error, assertion_error}
use khathor.Bytes.{Bytes, unpack_len, bytes_eq}
use khathor.Crypto.{Platform}
use khathor.Prelude.Int.{ℤ, pos, negsuc}
use khathor.Bitcoin.Codec.{
  read_list, read_bytes, encode_bytearray, pack_le, read_le, read_int32, read_varint, read_uint32,
  encode_list, read_segwit_flag, encode_uint32, le, encode_bytearray_list,
}
use khathor.Bitcoin.AuxPow.{zeros}
use khathor.Tx.Parse.{read_many}
use khathor.Bitcoin.Merkle.{sha256d_hash}
use khathor.Tx.Base.{concat_bytes}

pub record BitcoinOutPoint : Type 0 where
  pub hash : Bytes
  pub idx : ℕ

pub record BitcoinTransactionInput : Type 0 where
  pub previous_output : BitcoinOutPoint
  pub script_sig : Bytes
  pub sequence : ℕ
  pub script_witness : List Bytes

pub record BitcoinTransactionOutput : Type 0 where
  pub value : ℕ
  pub script_pubkey : Bytes

pub record BitcoinTransaction : Type 0 where
  pub version : ℤ
  pub include_witness : Bool
  pub inputs : List BitcoinTransactionInput
  pub outputs : List BitcoinTransactionOutput
  pub lock_time : ℕ

unfoldable pub outpoint_to_bytes : BitcoinOutPoint → Result Bytes
outpoint_to_bytes outpoint = do idx ← pack_le 4 outpoint.idx; ok (outpoint.hash ++ idx)

unfoldable pub is_null : BitcoinOutPoint → Bool
is_null outpoint = outpoint.idx == 0xffffffff && bytes_eq outpoint.hash (zeros 32)

-- The witness is not among these bytes.
unfoldable pub input_to_bytes : BitcoinTransactionInput → Result Bytes
input_to_bytes txin = do
  previous_output ← outpoint_to_bytes txin.previous_output
  script_sig ← encode_bytearray txin.script_sig
  sequence ← encode_uint32 txin.sequence
  ok (previous_output ++ (script_sig ++ sequence))

unfoldable pub output_to_bytes : BitcoinTransactionOutput → Result Bytes
output_to_bytes txout = do
  value ← pack_le 8 txout.value
  script_pubkey ← encode_bytearray txout.script_pubkey
  ok (value ++ script_pubkey)

-- struct.pack('<i', version): two's complement
unfoldable pub pack_int32 : ℤ → Result Bytes
pack_int32 (pos n) = if ltb n (2 ^ 31) then ok (le 4 n) else err struct_error
pack_int32 (negsuc n) = if ltb n (2 ^ 31) then ok (le 4 (2 ^ 32 - suc n)) else err struct_error

unfoldable pub has_script_witness : BitcoinTransactionInput → Bool
has_script_witness txin = elim txin.script_witness [ [] ↦ false | _ ∷ _ ↦ true ]

unfoldable pub has_witness : List BitcoinTransactionInput → Bool
has_witness [] = false
has_witness (i ∷ inputs) = has_script_witness i || has_witness inputs

-- An input without a witness is given a dummy.
unfoldable pub witness_of : BitcoinTransactionInput → List Bytes
witness_of txin = elim txin.script_witness [ [] ↦ zeros 32 ∷ [] | w ∷ ws ↦ w ∷ ws ]

unfoldable pub tx_to_bytes : Bool → BitcoinTransaction → Result Bytes
tx_to_bytes skip_segwit tx = do
  version ← pack_int32 tx.version
  let include_witness = not skip_segwit && (has_witness tx.inputs || tx.include_witness)
  inputs ← encode_list input_to_bytes tx.inputs
  outputs ← encode_list output_to_bytes tx.outputs
  witnesses ←
      (if include_witness
        then concat_bytes encode_bytearray_list (map witness_of tx.inputs)
        else ok [])
  lock_time ← pack_le 4 tx.lock_time
  let flag : Bytes = if include_witness then 0 ∷ 1 ∷ [] else []
  ok (version ++ (flag ++ (inputs ++ (outputs ++ (witnesses ++ lock_time)))))

-- The properties `hash` and `txid`.
unfoldable pub tx_hash : Platform → BitcoinTransaction → Result Bytes
tx_hash p tx = do b ← tx_to_bytes false tx; ok (sha256d_hash p b)

unfoldable pub txid : Platform → BitcoinTransaction → Result Bytes
txid p tx = do b ← tx_to_bytes true tx; ok (sha256d_hash p b)

unfoldable pub is_coinbase : BitcoinTransaction → Bool
is_coinbase tx = elim tx.inputs [
  | [] ↦ false
  | i ∷ rest ↦ elim rest [ [] ↦ is_null i.previous_output | _ ∷ _ ↦ false ]
]

unfoldable pub read_outpoint : Bytes → Result (BitcoinOutPoint × Bytes)
read_outpoint buffer = do
  let (tx_hash, buffer₁) = unpack_len 32 buffer
  (idx, buffer₂) ← read_le 4 buffer₁
  ok (record { hash = tx_hash; idx = idx }, buffer₂)

unfoldable pub read_input : List Bytes → Bytes → Result (BitcoinTransactionInput × Bytes)
read_input witnesses buffer = do
  (outpoint, buffer₁) ← read_outpoint buffer
  (script_sig, buffer₂) ← read_bytes buffer₁
  (sequence, buffer₃) ← read_uint32 buffer₂
  ok (
    record {
      previous_output = outpoint;
      script_sig = script_sig;
      sequence = sequence;
      script_witness = witnesses;
    },
    buffer₃,
  )

unfoldable pub read_output : Bytes → Result (BitcoinTransactionOutput × Bytes)
read_output buffer = do
  (value, buffer₁) ← read_le 8 buffer
  (script, buffer₂) ← read_bytes buffer₁
  ok (record { value = value; script_pubkey = script }, buffer₂)

unfoldable pub read_outputs : Bytes → Result (List BitcoinTransactionOutput × Bytes)
read_outputs = read_list read_output

-- read_inputs without witnesses
unfoldable pub read_plain_inputs : Bytes → Result (List BitcoinTransactionInput × Bytes)
read_plain_inputs = read_list (read_input [])

-- The bytes read and the count; nothing is consumed.
unfoldable pub skip_inputs : Bytes → Result (ℕ × ℕ)
skip_inputs buffer = do
  (inputs, buffer₂) ← read_plain_inputs buffer
  ok (length buffer - length buffer₂, length inputs)

unfoldable pub skip_outputs : Bytes → Result (ℕ × ℕ)
skip_outputs buffer = do
  (outputs, buffer₂) ← read_outputs buffer
  ok (length buffer - length buffer₂, length outputs)

-- The witnesses are taken out of the middle of the buffer.
unfoldable pub read_witnesses : Bytes → ℕ → ℕ → Result (List (List Bytes) × Bytes)
read_witnesses buffer input_count offset = do
  let witnesses_buf = drop offset buffer
  (witnesses_per_input, rest) ← read_many (read_list read_bytes) input_count witnesses_buf
  let size = length witnesses_buf - length rest
  ok (witnesses_per_input, take offset buffer ++ drop (offset + size) buffer)

-- for witnesses in witnesses_per_input: inputs.append(read_input(buffer, witnesses))
unfoldable pub inputs_loop :
    List (List Bytes) → Bytes → Result (List BitcoinTransactionInput × Bytes)
inputs_loop [] buffer = ok ([], buffer)
inputs_loop (witnesses ∷ more) buffer = do
  (i, buffer₁) ← read_input witnesses buffer
  (inputs, buffer₂) ← inputs_loop more buffer₁
  ok (i ∷ inputs, buffer₂)

unfoldable pub read_witness_inputs : Bytes → Result (List BitcoinTransactionInput × Bytes)
read_witness_inputs buffer = do
  (len_inputs, count_inputs) ← skip_inputs buffer
  (len_outputs, _) ← skip_outputs (drop len_inputs buffer)
  (witnesses_per_input, buffer₁) ← read_witnesses buffer count_inputs (len_inputs + len_outputs)
  (count, buffer₂) ← read_varint buffer₁
  inputs_loop witnesses_per_input buffer₂

unfoldable pub decode_tx : Bytes → Result BitcoinTransaction
decode_tx encoded = do
  (version, i₁) ← read_int32 encoded
  (include_witness, i₂) ← read_segwit_flag i₁
  (inputs, i₃) ← (if include_witness then read_witness_inputs i₂ else read_plain_inputs i₂)
  (outputs, i₄) ← read_outputs i₃
  (lock_time, i₅) ← read_uint32 i₄
  guard (length i₅ == 0) assertion_error
  ok (record {
    version = version;
    include_witness = include_witness;
    inputs = inputs;
    outputs = outputs;
    lock_time = lock_time;
  })
