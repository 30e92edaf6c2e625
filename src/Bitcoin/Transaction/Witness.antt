-- ===== src/Bitcoin/Transaction/Witness.antt =====
-- `read_inputs` with witnesses, of hathor/merged_mining/bitcoin.py: the inputs and the outputs are
-- skipped, the witnesses behind them are read and taken out, and then the inputs are read.
use khathor.Prelude.{
  [], ◌∷◌, refl, length, drop, ℕ, List, take, ◌+◌, All, ◌≡◌, ◌<◌, ◌++◌, ◌^◌, length-append, map,
  ◌-◌, arith, append_assoc, take-length, drop-length, ap, suc,
}
use khathor.Errors.{ok}
use khathor.Bitcoin.Transaction.{
  read_witness_inputs, read_witnesses, BitcoinTransactionInput, skip_inputs, witness_of,
  skip_outputs, read_plain_inputs, BitcoinTransactionOutput, read_input, inputs_loop, read_outputs,
}
use khathor.Bitcoin.Codec.{
  encode_bytearray_list, read_list, read_bytes, read_varint, encode_bytearray,
}
use khathor.Bytes.{Bytes}
use khathor.Tx.Base.{concat_bytes}
use khathor.Tx.Parse.{read_many}
use khathor.Bitcoin.Codec.Laws.{Reads, list_round_trip, bytearray_round_trip, read_bytes-step}
use khathor.Bitcoin.Transaction.Parts.{script_witness_of, plain}

-- A witness that is there, and that the format holds.
pub record HasWitness (txin : BitcoinTransactionInput) : Type 0 where
  pub some_witness : witness_of txin ≡ txin.script_witness
  pub size : length txin.script_witness < 2 ^ 64
  pub sizes : All (λ w. length w < 2 ^ 64) txin.script_witness

witness_round_trip :
    (ws : List Bytes)
    → length ws < 2 ^ 64
    → All (λ w. length w < 2 ^ 64) ws
    → (bs : Bytes) × (encode_bytearray_list ws ≡ ok bs) × Reads (read_list read_bytes) bs ws
unfolding encode_bytearray_list
witness_round_trip ws h ps =
    list_round_trip encode_bytearray read_bytes (λ w. length w < 2 ^ 64)
      (λ w k. let (b, e, _) = bytearray_round_trip w k in (b, e)) read_bytes-step ws h ps

pub witnesses_concat :
    (xs : List BitcoinTransactionInput)
    → All HasWitness xs
    → (c : Bytes) × (concat_bytes encode_bytearray_list (map witness_of xs) ≡ ok c)
      × Reads (read_many (read_list read_bytes) (length xs)) c (map script_witness_of xs)
unfolding concat_bytes read_many
witnesses_concat [] h = ([], refl, λ rest. refl)
witnesses_concat (x ∷ xs) h =
    let (b, p, r) = witness_round_trip x.script_witness h.0.size h.0.sizes in
    let (c, q, s) = witnesses_concat xs h.1 in
    (b ++ c, rw h.0.some_witness (rw (p, q) refl), λ rest. simp (append_assoc, r, s))

-- The positions that the code computes in a buffer of four parts.
cut_size : (i l : Bytes) → length (i ++ l) - length l ≡ length i
cut_size i l = omega (arith, length-append i l)

module _ (i o w l : Bytes) where
  drop_two : drop (length i + length o) (i ++ (o ++ (w ++ l))) ≡ w ++ l
  drop_two =
      rw (← length-append i o) (rw (← append_assoc i o (w ++ l)) (drop-length (i ++ o) (w ++ l)))

  take_two : take (length i + length o) (i ++ (o ++ (w ++ l))) ≡ i ++ o
  take_two =
      rw (← length-append i o) (rw (← append_assoc i o (w ++ l)) (take-length (i ++ o) (w ++ l)))

  drop_three : drop (length i + length o + length w) (i ++ (o ++ (w ++ l))) ≡ l
  drop_three =
      let e : length i + length o + length w ≡ length ((i ++ o) ++ w) =
        omega (arith, length-append i o, length-append (i ++ o) w) in
      let f : i ++ (o ++ (w ++ l)) ≡ ((i ++ o) ++ w) ++ l = simp append_assoc in
      rw (e, f) (drop-length ((i ++ o) ++ w) l)

read_witnesses_lem :
    (i o w l : Bytes) (n : ℕ) (ws : List (List Bytes))
    → Reads (read_many (read_list read_bytes) n) w ws
    → read_witnesses (i ++ (o ++ (w ++ l))) n (length i + length o) ≡ ok (ws, (i ++ o) ++ l)
unfolding read_witnesses
read_witnesses_lem i o w l n ws r =
    rw (drop_two i o w l) (rw (r l) (rw (cut_size w l, take_two i o w l, drop_three i o w l) refl))

length-map-plain : (xs : List BitcoinTransactionInput) → length (map plain xs) ≡ length xs
length-map-plain [] = refl
length-map-plain (x ∷ xs) = ap suc (length-map-plain xs)

skip_inputs_lem :
    (i rest : Bytes) (xs : List BitcoinTransactionInput)
    → Reads read_plain_inputs i (map plain xs)
    → skip_inputs (i ++ rest) ≡ ok (length i, length xs)
unfolding skip_inputs
skip_inputs_lem i rest xs r = rw (r rest) (rw (cut_size i rest, length-map-plain xs) refl)

skip_outputs_lem :
    (o rest : Bytes) (outputs : List BitcoinTransactionOutput)
    → Reads read_outputs o outputs
    → skip_outputs (o ++ rest) ≡ ok (length o, length outputs)
unfolding skip_outputs
skip_outputs_lem o rest outputs r = rw (r rest) (rw (cut_size o rest) refl)

-- What is read of the inputs, the outputs, the witnesses and a rest.
pub read_witness_inputs_lem :
    (v c o w l : Bytes) (xs : List BitcoinTransactionInput)
    (outputs : List BitcoinTransactionOutput)
    → Reads read_varint v (length xs)
    → Reads (read_many (read_input []) (length xs)) c (map plain xs)
    → Reads (inputs_loop (map script_witness_of xs)) c xs
    → Reads read_outputs o outputs
    → Reads (read_many (read_list read_bytes) (length xs)) w (map script_witness_of xs)
    → read_witness_inputs ((v ++ c) ++ (o ++ (w ++ l))) ≡ ok (xs, o ++ l)
unfolding read_witness_inputs read_plain_inputs read_list
read_witness_inputs_lem v c o w l xs outputs r₁ r₂ r₃ r₄ r₅ =
    let plain_inputs : Reads read_plain_inputs (v ++ c) (map plain xs) =
      λ rest. rw (append_assoc v c rest) (rw (r₁ (c ++ rest)) (r₂ rest)) in
    rw (skip_inputs_lem (v ++ c) (o ++ (w ++ l)) xs plain_inputs) (
      rw (drop-length (v ++ c) (o ++ (w ++ l))) (
        rw (skip_outputs_lem o (w ++ l) outputs r₄) (
          rw (read_witnesses_lem (v ++ c) o w l (length xs) (map script_witness_of xs) r₅) (
            rw (append_assoc (v ++ c) o l, append_assoc v c (o ++ l))
              (rw (r₁ (c ++ (o ++ l))) (r₃ (o ++ l)))))))
