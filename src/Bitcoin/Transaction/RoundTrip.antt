-- ===== src/Bitcoin/Transaction/RoundTrip.antt =====
-- `BitcoinTransaction.__bytes__` and `decode` of hathor/merged_mining/bitcoin.py, with and without
-- witnesses.
use khathor.Prelude.{
  [], ◌∷◌, refl, List, ℕ, ◌≡◌, ◌<◌, All, true, false, map, inl, inr, ◌⊎◌, Bool-cases, or_false,
  true_ne_false, ◌^◌, length, ◌≤◌, lt→ltb, arith, ◌-◌, suc, ap, sym, ◌++◌, append_assoc, ◌∙◌,
  append-nil, or_true,
}
use khathor.Errors.{ok}
use khathor.Bitcoin.Codec.{
  read_uint32, read_segwit_flag, read_int32, le, encode_list, encode_varint, read_list, read_varint,
}
use khathor.Bitcoin.Transaction.{
  has_witness, pack_int32, BitcoinTransaction, has_script_witness, BitcoinTransactionInput, pos,
  negsuc, tx_to_bytes, read_plain_inputs, decode_tx, input_to_bytes, read_input, inputs_loop,
  output_to_bytes, read_outputs,
}
use khathor.Bytes.{Bytes}
use khathor.Prelude.Int.{pos_part, signed, ℤ, neg_part}
use khathor.Bitcoin.Transaction.Witness.{HasWitness, witnesses_concat, read_witness_inputs_lem}
use khathor.Bitcoin.Transaction.Parts.{
  plain, IsBitcoinInput, outputs_round_trip, script_witness_of, inputs_concat,
}
use khathor.Bitcoin.Transaction.Dummy.{
  is_segwit, as_written, marked, IsBitcoinTransaction, dummies-HasWitness, marked_inputs,
  marked_bytes,
}
use khathor.Bitcoin.Codec.Laws.{
  read_le-byte, read_le-le, Reads, pack_le_lem, varint_round_trip, read_segwit_flag-varint,
}
use khathor.Tx.Parse.{read_many}

signed_negative : (n : ℕ) → suc n ≤ 2 ^ 31 → signed 32 (2 ^ 32 - suc n) ≡ negsuc n
unfolding signed
signed_negative n h = ground arith

int32_round_trip :
    (v : ℤ)
    → pos_part v < 2 ^ 31
    → neg_part v ≤ 2 ^ 31
    → (bs : Bytes) × (pack_int32 v ≡ ok bs) × Reads read_int32 bs v
unfolding pack_int32 read_int32 signed
int32_round_trip (pos n) h k = (
  le 4 n,
  rw (lt→ltb n (2 ^ 31) h) refl,
  λ rest. rw (read_le-le 4 n (omega arith) rest) (rw (lt→ltb n (2 ^ 31) h) refl),
)
int32_round_trip (negsuc n) h k = (
  le 4 (2 ^ 32 - suc n),
  rw (lt→ltb n (2 ^ 31) (omega arith)) refl,
  λ rest.
      rw (read_le-le 4 (2 ^ 32 - suc n) (omega arith) rest)
        (ap (λ z. ok (z, rest)) (signed_negative n k)),
)

no_witness :
    (ws : List Bytes) (x : BitcoinTransactionInput)
    → has_script_witness (record x { script_witness = ws }) ≡ false
    → ws ≡ []
unfolding has_script_witness
no_witness [] x e = refl
no_witness (w ∷ ws) x e = cc

-- Without the flag there must be an input.
has_input :
    (tx : BitcoinTransaction)
    → is_segwit tx ≡ false
    → (tx.include_witness ≡ true) ⊎ (0 < length tx.inputs)
    → 0 < length tx.inputs
has_input tx e (inr k) = k
has_input tx e (inl f) =
    let (_, g) = or_false (has_witness tx.inputs) tx.include_witness e in
    absurd (true_ne_false (sym f ∙ g))

no_witnesses :
    (xs : List BitcoinTransactionInput)
    → has_witness xs ≡ false
    → All (λ x. x.script_witness ≡ []) xs
unfolding has_witness has_script_witness
no_witnesses [] e = tt
no_witnesses (x ∷ xs) e =
    let (f, g) = or_false (has_script_witness x) (has_witness xs) e in
    (no_witness x.script_witness x f, no_witnesses xs g)

map-plain_none :
    (xs : List BitcoinTransactionInput) → All (λ x. x.script_witness ≡ []) xs → map plain xs ≡ xs
map-plain_none [] h = refl
map-plain_none (x ∷ xs) h =
    rw (map-plain_none xs h.1) (ap (λ ws. record x { script_witness = ws } ∷ xs) (sym h.0))

uint32_read : (n : ℕ) → n < 2 ^ 32 → read_uint32 (le 4 n) ≡ ok (n, [])
unfolding read_uint32
uint32_read n h = ap read_uint32 (sym (append-nil (le 4 n))) ∙ read_le-le 4 n h []

segwit_flag : (rest : Bytes) → read_segwit_flag (0 ∷ 1 ∷ rest) ≡ ok (true, rest)
unfolding read_segwit_flag
segwit_flag rest = rw (read_le-byte 0 (1 ∷ rest)) (rw (read_le-byte 1 rest) refl)

-- The list of the inputs as it is written, and the two ways in which it is read.
inputs_round_trip :
    (xs : List BitcoinTransactionInput)
    → length xs < 2 ^ 64
    → All IsBitcoinInput xs
    → (v : Bytes) × (c : Bytes) × (encode_varint (length xs) ≡ ok v)
      × (encode_list input_to_bytes xs ≡ ok (v ++ c))
      × Reads read_varint v (length xs)
      × Reads (read_many (read_input []) (length xs)) c (map plain xs)
      × Reads (inputs_loop (map script_witness_of xs)) c xs
unfolding encode_list
inputs_round_trip xs h ps =
    let (v, e, r) = varint_round_trip (length xs) h in
    let (c, q, s, t) = inputs_concat xs ps in (v, c, e, rw (e, q) refl, r, s, t)

legacy_inputs :
    (v c rest : Bytes) (xs : List BitcoinTransactionInput)
    → All (λ x. x.script_witness ≡ []) xs
    → Reads read_varint v (length xs)
    → Reads (read_many (read_input []) (length xs)) c (map plain xs)
    → read_plain_inputs ((v ++ c) ++ rest) ≡ ok (xs, rest)
unfolding read_plain_inputs read_list
legacy_inputs v c rest xs none r s =
    rw (append_assoc v c rest)
      (rw (r (c ++ rest)) (s rest ∙ ap (λ ys. ok (ys, rest)) (map-plain_none xs none)))

-- Bytes of the parts, with the equations that writing and reading them satisfy.
module _ (tx : BitcoinTransaction) (size : length tx.inputs < 2 ^ 64)
    (lock_time : tx.lock_time < 2 ^ 32) (m v c o : Bytes) (e₁ : pack_int32 tx.version ≡ ok m)
    (r₁ : Reads read_int32 m tx.version) (e₀ : encode_varint (length tx.inputs) ≡ ok v)
    (e₂ : encode_list input_to_bytes tx.inputs ≡ ok (v ++ c))
    (r₂ : Reads read_varint v (length tx.inputs))
    (r₃ : Reads (read_many (read_input []) (length tx.inputs)) c (map plain tx.inputs))
    (r₄ : Reads (inputs_loop (map script_witness_of tx.inputs)) c tx.inputs)
    (e₃ : encode_list output_to_bytes tx.outputs ≡ ok o)
    (r₅ : Reads read_outputs o tx.outputs) where
  segwit_round_trip :
      All HasWitness tx.inputs
      → (bs : Bytes) × (tx_to_bytes false (record tx { include_witness = true }) ≡ ok bs)
        × (decode_tx bs ≡ ok (record tx { include_witness = true }))
  unfolding tx_to_bytes decode_tx
  segwit_round_trip hw =
      let (w, e₄, r₆) = witnesses_concat tx.inputs hw in
      let body : Bytes = (v ++ c) ++ (o ++ (w ++ le 4 tx.lock_time)) in
      (
        m ++ (0 ∷ 1 ∷ body),
        rw (or_true (has_witness tx.inputs), e₁, e₂, e₃, e₄, pack_le_lem 4 tx.lock_time lock_time),
        rw (r₁ (0 ∷ 1 ∷ body)) (
            rw (segwit_flag body) (
              rw
                (read_witness_inputs_lem v c o w (le 4 tx.lock_time) tx.inputs tx.outputs r₂ r₃ r₄
                  r₅ r₆)
                (rw (r₅ (le 4 tx.lock_time)) (rw (uint32_read tx.lock_time lock_time) refl)))),
      )

  legacy_round_trip :
      is_segwit tx ≡ false
      → 0 < length tx.inputs
      → (bs : Bytes) × (tx_to_bytes false tx ≡ ok bs) × (decode_tx bs ≡ ok tx)
  unfolding tx_to_bytes decode_tx
  legacy_round_trip e k =
      let l = le 4 tx.lock_time in
      let (f, g) = or_false (has_witness tx.inputs) tx.include_witness e in
      let flag : (rest : Bytes)
          → read_segwit_flag ((v ++ c) ++ rest) ≡ ok (false, (v ++ c) ++ rest) =
        λ rest.
          rw (append_assoc v c rest)
            (read_segwit_flag-varint (length tx.inputs) v (c ++ rest) k size e₀) in
      (
        m ++ ((v ++ c) ++ (o ++ l)),
        rw (e, e₁, e₂, e₃, pack_le_lem 4 tx.lock_time lock_time) refl,
        rw (r₁ ((v ++ c) ++ (o ++ l))) (
            rw (flag (o ++ l)) (
              rw (legacy_inputs v c (o ++ l) tx.inputs (no_witnesses tx.inputs f) r₂ r₃) (
                rw (r₅ l) (
                  rw (uint32_read tx.lock_time lock_time)
                    (ap (λ b. ok (record tx { include_witness = b })) (sym g)))))),
      )

-- A transaction whose fields fit the format is written as bytes, and decoding them returns what it
-- is written as: the transaction itself, or, where its flag is set or one of its inputs has a
-- witness, the one with the flag set and with the dummy of 32 zeros for the witness of every input
-- that has none. It has its flag set or has an input.
pub bitcoin_tx_round_trip :
    (tx : BitcoinTransaction)
    → IsBitcoinTransaction tx
    → (tx.include_witness ≡ true) ⊎ (0 < length tx.inputs)
    → (bs : Bytes) × (tx_to_bytes false tx ≡ ok bs) × (decode_tx bs ≡ ok (as_written tx))
unfolding as_written
bitcoin_tx_round_trip tx h k =
    let (m, e₁, r₁) = int32_round_trip tx.version h.positive h.negative in
    let (o, e₃, r₅) = outputs_round_trip tx.outputs h.outputs_size h.outputs in
    elim (Bool-cases (is_segwit tx)) [
      | inl e ↦
          let (inputs, size) = marked_inputs tx h in
          let (v, c, e₀, e₂, r₂, r₃, r₄) = inputs_round_trip (marked tx).inputs size inputs in
          let (bs, f, g) =
            segwit_round_trip (marked tx) size h.lock_time m v c o e₁ r₁ e₀ e₂ r₂ r₃ r₄ e₃ r₅
              (dummies-HasWitness tx.inputs h.witnesses) in
          (bs, sym (marked_bytes tx e) ∙ f, rw e g)
      | inr e ↦
          let (v, c, e₀, e₂, r₂, r₃, r₄) = inputs_round_trip tx.inputs h.inputs_size h.inputs in
          let (bs, f, g) =
            legacy_round_trip tx h.inputs_size h.lock_time m v c o e₁ r₁ e₀ e₂ r₂ r₃ r₄ e₃ r₅ e
              (has_input tx e k) in
          (bs, f, rw e g)
    ]
