-- ===== src/Bitcoin/Transaction/Parts.antt =====
-- The inputs and the outputs of hathor/merged_mining/bitcoin.py, one by one and in their lists.
use khathor.Prelude.{
  [], ◌∷◌, refl, length, ◌<◌, List, ◌^◌, ◌≡◌, All, ◌++◌, map, append_assoc, sym, ◌∙◌,
}
use khathor.Errors.{ok, ok-injective}
use khathor.Bitcoin.Transaction.{
  outpoint_to_bytes, output_to_bytes, read_outputs, BitcoinTransactionOutput, input_to_bytes,
  BitcoinTransactionInput, read_outpoint, read_input, read_output, BitcoinOutPoint, inputs_loop,
}
use khathor.Tx.Base.{concat_bytes}
use khathor.Bytes.{Bytes}
use khathor.Tx.Parse.{read_many}
use khathor.Bitcoin.Codec.{encode_uint32, read_uint32, encode_list, le}
use khathor.Bitcoin.Codec.Laws.{
  Reads, bytearray_round_trip, pack_le_lem, list_round_trip, read_le-le,
}
use khathor.Bytes.Laws.{unpack_len-append}

-- The values that the format holds.
pub record IsBitcoinInput (txin : BitcoinTransactionInput) : Type 0 where
  pub hash : length txin.previous_output.hash ≡ 32
  pub idx : txin.previous_output.idx < 2 ^ 32
  pub script_sig : length txin.script_sig < 2 ^ 64
  pub sequence : txin.sequence < 2 ^ 32

pub record IsBitcoinOutput (txout : BitcoinTransactionOutput) : Type 0 where
  pub value : txout.value < 2 ^ 64
  pub script_pubkey : length txout.script_pubkey < 2 ^ 64

-- The input without its witness.
abbrev pub plain : BitcoinTransactionInput → BitcoinTransactionInput
plain txin = record txin { script_witness = [] }

abbrev pub script_witness_of : BitcoinTransactionInput → List Bytes
script_witness_of txin = txin.script_witness

outpoint_round_trip :
    (o : BitcoinOutPoint)
    → length o.hash ≡ 32
    → o.idx < 2 ^ 32
    → (bs : Bytes) × (outpoint_to_bytes o ≡ ok bs) × Reads read_outpoint bs o
unfolding outpoint_to_bytes read_outpoint
outpoint_round_trip o h k = (
  o.hash ++ le 4 o.idx,
  rw (pack_le_lem 4 o.idx k) refl,
  λ rest. rw (append_assoc o.hash (le 4 o.idx) rest) (
      rw (unpack_len-append 32 o.hash (le 4 o.idx ++ rest) h)
        (rw (read_le-le 4 o.idx k rest) refl)),
)

input_parts :
    (x : BitcoinTransactionInput)
    → IsBitcoinInput x
    → (bs : Bytes) × (input_to_bytes x ≡ ok bs)
      × ((ws : List Bytes) → Reads (read_input ws) bs (record x { script_witness = ws }))
unfolding input_to_bytes read_input encode_uint32 read_uint32
input_parts x h =
    let (o, p₁, r₁) = outpoint_round_trip x.previous_output h.hash h.idx in
    let (c, p₂, r₂) = bytearray_round_trip x.script_sig h.script_sig in
    (
      o ++ (c ++ le 4 x.sequence),
      rw (p₁, p₂, pack_le_lem 4 x.sequence h.sequence) refl,
      λ ws rest. simp (append_assoc, r₁, r₂, read_le-le 4 x.sequence h.sequence),
    )

-- The list of the inputs, read with the witnesses that are given and without any.
pub inputs_concat :
    (xs : List BitcoinTransactionInput)
    → All IsBitcoinInput xs
    → (c : Bytes) × (concat_bytes input_to_bytes xs ≡ ok c)
      × Reads (read_many (read_input []) (length xs)) c (map plain xs)
      × Reads (inputs_loop (map script_witness_of xs)) c xs
unfolding concat_bytes read_many inputs_loop
inputs_concat [] h = ([], refl, λ rest. refl, λ rest. refl)
inputs_concat (x ∷ xs) h =
    let (b, p, r) = input_parts x h.0 in
    let (c, q, s, t) = inputs_concat xs h.1 in
    (
      b ++ c,
      rw (p, q) refl,
      λ rest. simp (append_assoc, r [], s),
      λ rest. simp (append_assoc, r x.script_witness, t),
    )

output_total :
    (x : BitcoinTransactionOutput) → IsBitcoinOutput x → (b : Bytes) × (output_to_bytes x ≡ ok b)
unfolding output_to_bytes
output_total x h =
    let (c, p, r) = bytearray_round_trip x.script_pubkey h.script_pubkey in
    (le 8 x.value ++ c, rw (pack_le_lem 8 x.value h.value, p) refl)

output_step :
    (x : BitcoinTransactionOutput) (b rest : Bytes)
    → IsBitcoinOutput x
    → output_to_bytes x ≡ ok b
    → read_output (b ++ rest) ≡ ok (x, rest)
unfolding output_to_bytes read_output
output_step x b rest h e =
    let (c, p, r) = bytearray_round_trip x.script_pubkey h.script_pubkey in
    let f : output_to_bytes x ≡ ok (le 8 x.value ++ c) =
      rw (pack_le_lem 8 x.value h.value, p) refl in
    rw (ok-injective (sym e ∙ f)) simp (append_assoc, read_le-le 8 x.value h.value, r)

pub outputs_round_trip :
    (xs : List BitcoinTransactionOutput)
    → length xs < 2 ^ 64
    → All IsBitcoinOutput xs
    → (bs : Bytes) × (encode_list output_to_bytes xs ≡ ok bs) × Reads read_outputs bs xs
unfolding read_outputs
outputs_round_trip xs h ps =
    list_round_trip output_to_bytes read_output IsBitcoinOutput output_total output_step xs h ps
