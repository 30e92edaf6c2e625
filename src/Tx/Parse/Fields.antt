-- ===== src/Tx/Parse/Fields.antt =====
-- The two groups of fields of hathor/transaction/base_transaction.py that the classes share the
-- format of, written and read back.
use khathor.Tx.Input
use khathor.Tx.Output
use khathor.Tx.Base.{Tx, funds_of_transaction, concat_bytes, base_graph_struct}
use khathor.Bytes.{Bytes}
use khathor.Tx.Parse.{transaction_funds_fields, base_graph_fields, read_hash}
use khathor.Prelude.{◌<◌, length, ◌^◌, All, ◌≡◌, ◌++◌, refl}
use khathor.Tx.Parse.Laws.{
  HeaderReads, funds_header, funds-HeaderReads, IsHash, graph_header, GraphReads, graph-GraphReads,
  read_many-concat, read_hash-step,
}
use khathor.Errors.{ok}
use khathor.Tx.Input.Laws.{IsEncodableInput, input_step}
use khathor.Tx.Output.Laws.{IsEncodableOutput, output_step}
use khathor.Bytes.Laws.{unpack-append}
use khathor.Tx.Base.Laws.{pack_uint_lem}

-- The values that the common fields hold in the format.
pub record IsEncodable (tx : Tx) : Type 0 where
  pub version : tx.version < 65536
  pub weight : tx.weight < 2 ^ 64
  pub timestamp : tx.timestamp < 2 ^ 32
  pub tokens_len : length tx.tokens < 256
  pub inputs_len : length tx.inputs < 256
  pub outputs_len : length tx.outputs < 256
  pub parents_len : length tx.parents < 256
  pub tokens : All IsHash tx.tokens
  pub inputs : All IsEncodableInput tx.inputs
  pub outputs : All IsEncodableOutput tx.outputs
  pub parents : All IsHash tx.parents

module _ (tx : Tx) (enc : IsEncodable tx) where
  pub funds_head : Bytes
  funds_head = funds_header tx.version (length tx.tokens) (length tx.inputs) (length tx.outputs)

  funds_reads : HeaderReads tx.version (length tx.tokens) (length tx.inputs) (length tx.outputs)
  funds_reads =
      funds-HeaderReads tx.version (length tx.tokens) (length tx.inputs) (length tx.outputs)
        enc.version enc.tokens_len enc.inputs_len enc.outputs_len

  pub funds_written :
      (ts is os : Bytes)
      → concat_bytes ok tx.tokens ≡ ok ts
      → concat_bytes Input.to_bytes tx.inputs ≡ ok is
      → concat_bytes Output.to_bytes tx.outputs ≡ ok os
      → funds_of_transaction tx ≡ ok (funds_head ++ (ts ++ (is ++ os)))
  unfolding funds_of_transaction funds_head
  funds_written ts is os p q r = rw (pack_uint_lem 2 tx.version enc.version) (
      rw (pack_uint_lem 1 (length tx.tokens) enc.tokens_len) (
        rw (pack_uint_lem 1 (length tx.inputs) enc.inputs_len)
          (rw (pack_uint_lem 1 (length tx.outputs) enc.outputs_len) (rw (p, q, r)))))

  pub funds_read :
      (self : Tx) (ts is os rest : Bytes)
      → concat_bytes ok tx.tokens ≡ ok ts
      → concat_bytes Input.to_bytes tx.inputs ≡ ok is
      → concat_bytes Output.to_bytes tx.outputs ≡ ok os
      → transaction_funds_fields self (funds_head ++ (ts ++ (is ++ (os ++ rest))))
        ≡ ok (
          record self {
            version = tx.version;
            tokens = self.tokens ++ tx.tokens;
            inputs = self.inputs ++ tx.inputs;
            outputs = self.outputs ++ tx.outputs;
          },
          rest,
        )
  unfolding transaction_funds_fields funds_head
  funds_read self ts is os rest p q r =
      rw (unpack-append 5 funds_head (ts ++ (is ++ (os ++ rest))) funds_reads.size) (
        rw (funds_reads.version, funds_reads.tokens, funds_reads.inputs, funds_reads.outputs)
          (rw
            (read_many-concat ok read_hash IsHash read_hash-step tx.tokens ts (is ++ (os ++ rest))
              enc.tokens p)
            (rw
              (read_many-concat Input.to_bytes Input.create_from_bytes IsEncodableInput input_step
                tx.inputs is (os ++ rest) enc.inputs q)
              (rw
                (read_many-concat Output.to_bytes Output.create_from_bytes IsEncodableOutput
                  output_step tx.outputs os rest enc.outputs r)
                refl))))

  pub graph_head : Bytes
  graph_head = graph_header tx.weight tx.timestamp (length tx.parents)

  graph_reads : GraphReads tx.weight tx.timestamp (length tx.parents)
  graph_reads =
      graph-GraphReads tx.weight tx.timestamp (length tx.parents) enc.weight enc.timestamp
        enc.parents_len

  pub graph_written :
      (ps : Bytes)
      → concat_bytes ok tx.parents ≡ ok ps
      → base_graph_struct tx ≡ ok (graph_head ++ ps)
  unfolding base_graph_struct graph_head
  graph_written ps p = rw (pack_uint_lem 8 tx.weight enc.weight) (
      rw (pack_uint_lem 4 tx.timestamp enc.timestamp)
        (rw (pack_uint_lem 1 (length tx.parents) enc.parents_len) (rw p)))

  pub graph_read :
      (self : Tx) (ps rest : Bytes)
      → concat_bytes ok tx.parents ≡ ok ps
      → base_graph_fields self (graph_head ++ (ps ++ rest))
        ≡ ok (
          record self {
            weight = tx.weight;
            timestamp = tx.timestamp;
            parents = self.parents ++ tx.parents;
          },
          rest,
        )
  unfolding base_graph_fields graph_head
  graph_read self ps rest p = rw (unpack-append 13 graph_head (ps ++ rest) graph_reads.size) (
      rw (graph_reads.weight, graph_reads.timestamp, graph_reads.parents)
        (rw (read_many-concat ok read_hash IsHash read_hash-step tx.parents ps rest enc.parents p)
          refl))
