-- ===== src/Tx/Input/Laws.antt =====
-- `TxInput` of hathor/transaction/base_transaction.py, written and read back.
use khathor.Prelude.{length, ◌≡◌, ◌++◌, ◌<◌, append_assoc, refl, [], sym, ◌∙◌}
use khathor.Tx.Input.{create_from_bytes, to_bytes, TxInput, tx_hash_size}
use khathor.Errors.{ok, ok-injective}
use khathor.Bytes.Laws.{
  int_to_bytes_lem, header_fields, unpack_len-append, unpack-append, length-header,
}
use khathor.Bytes.{be, Bytes, from_be, slice}

-- The values that the encoding holds.
pub record IsEncodableInput (txin : TxInput) : Type 0 where
  pub tx_id_size : length txin.tx_id ≡ tx_hash_size
  pub index_byte : txin.index < 256
  pub data_size : length txin.unlock < 65536

abbrev pub encoding : TxInput → Bytes
encoding txin = txin.tx_id ++ ((be 1 txin.index ++ be 2 (length txin.unlock)) ++ txin.unlock)

pub to_bytes_lem : (txin : TxInput) → IsEncodableInput txin → to_bytes txin ≡ ok (encoding txin)
unfolding to_bytes
to_bytes_lem txin h = rw (int_to_bytes_lem txin.index 1 h.index_byte) (
    rw (int_to_bytes_lem (length txin.unlock) 2 h.data_size)
      (rw (append_assoc (be 1 txin.index) (be 2 (length txin.unlock)) txin.unlock) refl))

create_from_bytes-parts :
    (id c d rest : Bytes)
    → length id ≡ tx_hash_size
    → length c ≡ 3
    → from_be 0 (slice 1 2 c) ≡ length d
    → create_from_bytes (id ++ (c ++ (d ++ rest)))
      ≡ ok (record { tx_id = id; index = from_be 0 (slice 0 1 c); unlock = d }, rest)
unfolding create_from_bytes
create_from_bytes-parts id c d rest h k l =
    rw (unpack_len-append tx_hash_size id (c ++ (d ++ rest)) h) (
      rw (unpack-append 3 c (d ++ rest) k)
        (rw l (rw (unpack_len-append (length d) d rest refl) refl)))

pub create_from_bytes-encoding :
    (txin : TxInput) (rest : Bytes)
    → IsEncodableInput txin
    → create_from_bytes (encoding txin ++ rest) ≡ ok (txin, rest)
create_from_bytes-encoding txin rest h =
    let c : Bytes = be 1 txin.index ++ be 2 (length txin.unlock) in
    let f = header_fields txin.index (length txin.unlock) h.index_byte h.data_size in
    rw (append_assoc txin.tx_id (c ++ txin.unlock) rest, append_assoc c txin.unlock rest)
      (rw
        (create_from_bytes-parts txin.tx_id c txin.unlock rest h.tx_id_size
          (length-header txin.index (length txin.unlock)) f.1)
        (rw f.0))

-- An input whose fields fit their places in the format is encoded, and reading the encoding before
-- any further bytes returns the input and those bytes.
pub input_round_trip :
    (txin : TxInput) (rest : Bytes)
    → IsEncodableInput txin
    → (bs : Bytes) × (to_bytes txin ≡ ok bs) × (create_from_bytes (bs ++ rest) ≡ ok (txin, rest))
input_round_trip txin rest h =
    (encoding txin, to_bytes_lem txin h, create_from_bytes-encoding txin rest h)

pub input_step :
    (x : TxInput) (b rest : Bytes)
    → IsEncodableInput x
    → to_bytes x ≡ ok b
    → create_from_bytes (b ++ rest) ≡ ok (x, rest)
input_step x b rest h e =
    let (b', p, q) = input_round_trip x rest h in rw (ok-injective (sym e ∙ p)) q

pub input_total : (x : TxInput) → IsEncodableInput x → (b : Bytes) × (to_bytes x ≡ ok b)
input_total x h = let (b, p, q) = input_round_trip x [] h in (b, p)
