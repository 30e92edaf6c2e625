-- ===== src/Tx/Creation/RoundTrip.antt =====
-- A whole transaction of hathor/transaction/token_creation_tx.py, serialized and read back.
use khathor.Prelude.{[], ◌∷◌, refl, none, some, ℕ, length, ◌++◌, ◌<◌, ◌≡◌, arith, append_assoc, ◌^◌}
use khathor.Errors.{ok}
use khathor.Tx.Creation.{
  create_from_struct, get_struct, Text, TokenCreationTx, get_funds_struct, calculate_hash,
  get_funds_fields_from_struct, serialize_token_info, update_hash,
}
use khathor.Tx.Creation.Info.{
  IsCodec, Encoded, info_bytes, serialize_token_info_lem, deserialize_token_info_lem,
}
use khathor.Bytes.{be, Bytes, from_be, slice}
use khathor.Tx.Base.{transaction, base_graph_struct, concat_bytes}
use khathor.Tx.Parse.Fields.{IsEncodable, graph_head, graph_written, graph_read}
use khathor.Crypto.{Platform}
use khathor.Tx.Base.Laws.{pack_uint_lem, concat_bytes-total}
use khathor.Tx.Parse.{blank}
use khathor.Bytes.Laws.{unpack-append, int_to_bytes_lem, length-be, from_be-be}
use khathor.Tx.Parse.Laws.{read_many-concat, IsHash, ok-total}
use khathor.Tx.Input.Laws.{IsEncodableInput, input_step, input_total}
use khathor.Tx.Output.Laws.{IsEncodableOutput, output_step, output_total}
use khathor.Tx.Input
use khathor.Tx.Output

-- The three fields of the '!HBB' chunk.
abbrev creation_header : ℕ → ℕ → ℕ → Bytes
creation_header v i o = be 2 v ++ (be 1 i ++ be 1 o)

record CreationReads (v i o : ℕ) : Type 0 where
  size : length (creation_header v i o) ≡ 4
  version : from_be 0 (slice 0 2 (creation_header v i o)) ≡ v
  inputs : from_be 0 (slice 2 1 (creation_header v i o)) ≡ i
  outputs : from_be 0 (slice 3 1 (creation_header v i o)) ≡ o

creation-CreationReads : (v i o : ℕ) → v < 65536 → i < 256 → o < 256 → CreationReads v i o
unfolding be from_be
creation-CreationReads v i o a b c = record {
  size = refl;
  version = omega arith;
  inputs = omega arith;
  outputs = omega arith;
}

-- The object that the reader has filled, before its hash is computed.
abbrev read_creation : TokenCreationTx → TokenCreationTx
read_creation self = record self {
  tx = record self.tx { kind = transaction; hash = none; tokens = []; block_data = [] };
}

-- The hash depends on none of the fields that the format leaves out.
calculate_hash-read :
    (t : Text) (p : Platform) (self : TokenCreationTx)
    → calculate_hash t p (read_creation self) ≡ calculate_hash t p self
unfolding calculate_hash get_funds_struct base_graph_struct serialize_token_info
calculate_hash-read t p self = refl

-- The object with the hash and the token that it names.
abbrev pub with_hash : TokenCreationTx → Bytes → TokenCreationTx
with_hash self h = record self { tx = record self.tx { hash = some h; tokens = h ∷ [] } }

module _ (t : Text) (codec : IsCodec t) (self : TokenCreationTx) (enc : IsEncodable self.tx)
    (name : Encoded t self.token_name) (symbol : Encoded t self.token_symbol) where
  head : Bytes
  head = creation_header self.tx.version (length self.tx.inputs) (length self.tx.outputs)

  head_reads : CreationReads self.tx.version (length self.tx.inputs) (length self.tx.outputs)
  head_reads =
      creation-CreationReads self.tx.version (length self.tx.inputs) (length self.tx.outputs)
        enc.version enc.inputs_len enc.outputs_len

  info : Bytes
  info = info_bytes t self name symbol

  funds_written :
      (is os : Bytes)
      → concat_bytes Input.to_bytes self.tx.inputs ≡ ok is
      → concat_bytes Output.to_bytes self.tx.outputs ≡ ok os
      → get_funds_struct t self ≡ ok (head ++ (is ++ (os ++ info)))
  unfolding get_funds_struct head info
  funds_written is os q r = rw (pack_uint_lem 2 self.tx.version enc.version) (
      rw (pack_uint_lem 1 (length self.tx.inputs) enc.inputs_len) (
        rw (pack_uint_lem 1 (length self.tx.outputs) enc.outputs_len)
          (rw (q, r) (rw (serialize_token_info_lem t self name symbol) refl))))

  funds_read :
      (is os rest : Bytes)
      → concat_bytes Input.to_bytes self.tx.inputs ≡ ok is
      → concat_bytes Output.to_bytes self.tx.outputs ≡ ok os
      → get_funds_fields_from_struct t
          (record { tx = blank transaction; token_name = []; token_symbol = [] })
          (head ++ (is ++ (os ++ (info ++ rest))))
        ≡ ok (
          record self {
            tx = record (blank transaction) {
              version = self.tx.version;
              inputs = self.tx.inputs;
              outputs = self.tx.outputs;
            };
          },
          rest,
        )
  unfolding get_funds_fields_from_struct head info
  funds_read is os rest q r =
      rw (unpack-append 4 head (is ++ (os ++ (info ++ rest))) head_reads.size) (
        rw (head_reads.version, head_reads.inputs, head_reads.outputs)
          (rw
            (read_many-concat Input.to_bytes Input.create_from_bytes IsEncodableInput input_step
              self.tx.inputs is (os ++ (info ++ rest)) enc.inputs q)
            (rw
              (read_many-concat Output.to_bytes Output.create_from_bytes IsEncodableOutput
                output_step self.tx.outputs os (info ++ rest) enc.outputs r)
              (rw (deserialize_token_info_lem t self name symbol rest codec) refl))))

  struct_written :
      (is os ps : Bytes)
      → self.tx.nonce < 2 ^ 32
      → concat_bytes Input.to_bytes self.tx.inputs ≡ ok is
      → concat_bytes Output.to_bytes self.tx.outputs ≡ ok os
      → concat_bytes ok self.tx.parents ≡ ok ps
      → get_struct t self
        ≡ ok (
            ((head ++ (is ++ (os ++ info))) ++ (graph_head self.tx enc ++ ps))
            ++ be 4 self.tx.nonce)
  unfolding get_struct
  struct_written is os ps n q r s =
      rw (funds_written is os q r)
        (rw (graph_written self.tx enc ps s) (rw (int_to_bytes_lem self.tx.nonce 4 n) refl))

  regroup :
      (h i o f g q n : Bytes)
      → ((h ++ (i ++ (o ++ f))) ++ (g ++ q)) ++ n ≡ h ++ (i ++ (o ++ (f ++ (g ++ (q ++ n)))))
  regroup h i o f g q n = simp append_assoc

  update_hash-read :
      (p : Platform) (h : Bytes)
      → calculate_hash t p self ≡ ok h
      → self.tx.kind ≡ transaction
      → self.tx.block_data ≡ []
      → update_hash t p (read_creation self) ≡ ok (with_hash self h)
  unfolding update_hash
  update_hash-read p h e k d = rw (calculate_hash-read t p self) (rw e (ground (arith, k, d)))

  -- A token creation whose fields fit the format, whose name and symbol have encodings below 256
  -- bytes, and whose hash is computed to be `h`, is serialized, and reading the bytes back returns it
  -- with the hash `h` and, as its one token, the token `h`; here decoding a string undoes encoding it.
  pub token_creation_round_trip :
      (p : Platform) (h : Bytes)
      → self.tx.kind ≡ transaction
      → self.tx.block_data ≡ []
      → self.tx.nonce < 2 ^ 32
      → calculate_hash t p self ≡ ok h
      → (bs : Bytes) × (get_struct t self ≡ ok bs)
        × (create_from_struct t p bs ≡ ok (with_hash self h))
  unfolding create_from_struct
  token_creation_round_trip p h k d n e =
      let (is, pi) =
        concat_bytes-total Input.to_bytes IsEncodableInput input_total self.tx.inputs enc.inputs in
      let (os, po) =
        concat_bytes-total Output.to_bytes IsEncodableOutput output_total self.tx.outputs
          enc.outputs in
      let (ps, pp) = concat_bytes-total ok IsHash ok-total self.tx.parents enc.parents in
      (
        _,
        struct_written is os ps n pi po pp,
        rw (regroup head is os info (graph_head self.tx enc) ps (be 4 self.tx.nonce)) (
            rw (funds_read is os (graph_head self.tx enc ++ (ps ++ be 4 self.tx.nonce)) pi po) (
              rw (graph_read self.tx enc _ ps (be 4 self.tx.nonce) pp) (
                rw (length-be 4 self.tx.nonce)
                  (rw (from_be-be 4 self.tx.nonce n) (update_hash-read p h e k d))))),
      )
