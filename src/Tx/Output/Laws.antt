-- ===== src/Tx/Output/Laws.antt =====
-- `TxOutput` of hathor/transaction/base_transaction.py, written and read back.
use khathor.Prelude.{ℕ, ◌<◌, ◌≡◌, ◌≤◌, ◌++◌, length, arith, append_assoc, refl, [], sym, ◌∙◌}
use khathor.Tx.Output.{to_bytes, create_from_bytes, new_output, TxOutput}
use khathor.Bytes.{Bytes, be, from_be, slice}
use khathor.Tx.Value.{bytes_to_output_value, output_value_to_bytes, max_output_value}
use khathor.Errors.{ok, ok-injective}
use khathor.Bytes.Laws.{
  int_to_bytes_lem, header_fields, length-header, unpack-append, unpack_len-append,
}
use khathor.Tx.Value.Laws.{output_value_round_trip}

-- The values that the encoding holds.
pub record IsEncodableOutput (txout : TxOutput) : Type 0 where
  pub positive : 0 < txout.value
  pub bounded : txout.value ≤ max_output_value
  pub token_byte : txout.token_data < 256
  pub script_size : length txout.script < 65536

-- Behind the value.
abbrev pub tail_encoding : TxOutput → Bytes
tail_encoding txout = (be 1 txout.token_data ++ be 2 (length txout.script)) ++ txout.script

to_bytes_lem :
    (txout : TxOutput) (v : Bytes)
    → IsEncodableOutput txout
    → output_value_to_bytes txout.value ≡ ok v
    → to_bytes txout ≡ ok (v ++ tail_encoding txout)
unfolding to_bytes
to_bytes_lem txout v h e =
    rw (e, int_to_bytes_lem txout.token_data 1 h.token_byte)
      (rw (int_to_bytes_lem (length txout.script) 2 h.script_size)
        (rw (append_assoc (be 1 txout.token_data) (be 2 (length txout.script)) txout.script) refl))

new_output_lem :
    (v : ℕ) (s : Bytes) (d : ℕ)
    → 0 < v
    → v ≤ max_output_value
    → new_output v s d ≡ ok (record { value = v; script = s; token_data = d })
unfolding new_output
new_output_lem v s d h k = ground arith

create_from_bytes-parts :
    (v c d rest buf : Bytes) (n : ℕ)
    → bytes_to_output_value buf ≡ ok (n, c ++ (d ++ rest))
    → length c ≡ 3
    → from_be 0 (slice 1 2 c) ≡ length d
    → 0 < n
    → n ≤ max_output_value
    → create_from_bytes buf
      ≡ ok (record { value = n; script = d; token_data = from_be 0 (slice 0 1 c) }, rest)
unfolding create_from_bytes
create_from_bytes-parts v c d rest buf n e k l p q = rw e (
    rw (unpack-append 3 c (d ++ rest) k) (
      rw l (
        rw (unpack_len-append (length d) d rest refl)
          (rw (new_output_lem n d (from_be 0 (slice 0 1 c)) p q) refl))))

-- An output whose fields fit their places in the format is encoded, and reading the encoding before
-- any further bytes returns the output and those bytes.
pub output_round_trip :
    (txout : TxOutput) (rest : Bytes)
    → IsEncodableOutput txout
    → (bs : Bytes) × (to_bytes txout ≡ ok bs) × (create_from_bytes (bs ++ rest) ≡ ok (txout, rest))
output_round_trip txout rest h =
    let c : Bytes = be 1 txout.token_data ++ be 2 (length txout.script) in
    let f = header_fields txout.token_data (length txout.script) h.token_byte h.script_size in
    let after : Bytes = c ++ (txout.script ++ rest) in
    let (v, e, r) = output_value_round_trip txout.value after h.positive h.bounded in
    let parts =
      create_from_bytes-parts v c txout.script rest (v ++ after) txout.value r
        (length-header txout.token_data (length txout.script)) f.1 h.positive h.bounded in
    (
      v ++ tail_encoding txout,
      to_bytes_lem txout v h e,
      rw (append_assoc v (c ++ txout.script) rest, append_assoc c txout.script rest)
          (rw f.0 at parts),
    )

pub output_step :
    (x : TxOutput) (b rest : Bytes)
    → IsEncodableOutput x
    → to_bytes x ≡ ok b
    → create_from_bytes (b ++ rest) ≡ ok (x, rest)
output_step x b rest h e =
    let (b', p, q) = output_round_trip x rest h in rw (ok-injective (sym e ∙ p)) q

pub output_total : (x : TxOutput) → IsEncodableOutput x → (b : Bytes) × (to_bytes x ≡ ok b)
output_total x h = let (b, p, q) = output_round_trip x [] h in (b, p)
