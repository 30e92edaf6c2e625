-- ===== src/Tx/Parse/RoundTrip.antt =====
-- A whole transaction of hathor/transaction/transaction.py, serialized and read back.
use khathor.Tx.Input
use khathor.Tx.Output
use khathor.Tx.Base.{
  Tx, transaction, calculate_hash, get_header_without_nonce, get_struct, concat_bytes,
  get_funds_struct, get_graph_struct, funds_of_block, funds_of_transaction, graph_of_block,
  base_graph_struct,
}
use khathor.Prelude.{◌≡◌, none, [], arith, ◌<◌, ◌^◌, ◌++◌, Option, refl, append_assoc, some, ◌∙◌}
use khathor.Tx.Parse.Fields.{
  IsEncodable, funds_head, graph_head, funds_read, graph_read, funds_written, graph_written,
}
use khathor.Tx.Parse.{get_fields_from_struct, blank, create_from_struct}
use khathor.Bytes.{Bytes, be}
use khathor.Errors.{ok, ◌>>=◌}
use khathor.Tx.Base.Laws.{
  concat_bytes-total, get_struct-parts, get_funds_struct-transaction, get_graph_struct-transaction,
  get_struct_nonce_lem,
}
use khathor.Tx.Parse.Laws.{IsHash, ok-total}
use khathor.Tx.Output.Laws.{IsEncodableOutput, output_total}
use khathor.Tx.Input.Laws.{IsEncodableInput, input_total}
use khathor.Crypto.{Platform}
use khathor.Bytes.Laws.{length-be, from_be-be}

-- The hash does not depend on the hash that is stored.
calculate_hash-hash :
    (p : Platform) (tx : Tx) (h : Option Bytes)
    → calculate_hash p (record tx { hash = h }) ≡ calculate_hash p tx
unfolding calculate_hash get_header_without_nonce get_funds_struct get_graph_struct funds_of_block
    funds_of_transaction graph_of_block base_graph_struct
calculate_hash-hash p tx h = refl

-- The object that the reader of a transaction has filled.
abbrev read_transaction : Tx → Tx
read_transaction tx = record tx { kind = transaction; hash = none; block_data = [] }

read_transaction-eq :
    (tx : Tx)
    → tx.kind ≡ transaction
    → tx.block_data ≡ []
    → read_transaction tx ≡ record tx { hash = none }
read_transaction-eq tx k d = ground arith

-- The last step of the reader: the hash of what was filled is computed and stored.
hash_stored :
    (p : Platform) (tx filled : Tx) (h : Bytes)
    → filled ≡ record tx { hash = none }
    → calculate_hash p tx ≡ ok h
    → (calculate_hash p filled >>= λ hash. ok (record filled { hash = some hash }))
      ≡ ok (record tx { hash = some h })
hash_stored p tx filled h f e = rw f (rw (calculate_hash-hash p tx none) (rw e refl))

module _ (tx : Tx) (enc : IsEncodable tx) where
  tokens_bytes : (b : Bytes) × (concat_bytes ok tx.tokens ≡ ok b)
  tokens_bytes = concat_bytes-total ok IsHash ok-total tx.tokens enc.tokens

  inputs_bytes : (b : Bytes) × (concat_bytes Input.to_bytes tx.inputs ≡ ok b)
  inputs_bytes = concat_bytes-total Input.to_bytes IsEncodableInput input_total tx.inputs enc.inputs

  outputs_bytes : (b : Bytes) × (concat_bytes Output.to_bytes tx.outputs ≡ ok b)
  outputs_bytes =
      concat_bytes-total Output.to_bytes IsEncodableOutput output_total tx.outputs enc.outputs

  parents_bytes : (b : Bytes) × (concat_bytes ok tx.parents ≡ ok b)
  parents_bytes = concat_bytes-total ok IsHash ok-total tx.parents enc.parents

  transaction_written :
      (ts is os ps : Bytes)
      → tx.kind ≡ transaction
      → tx.nonce < 2 ^ 32
      → concat_bytes ok tx.tokens ≡ ok ts
      → concat_bytes Input.to_bytes tx.inputs ≡ ok is
      → concat_bytes Output.to_bytes tx.outputs ≡ ok os
      → concat_bytes ok tx.parents ≡ ok ps
      → get_struct tx
        ≡ ok (
            ((funds_head tx enc ++ (ts ++ (is ++ os))) ++ (graph_head tx enc ++ ps))
            ++ be 4 tx.nonce)
  transaction_written ts is os ps k n p q r s =
      get_struct-parts tx _ _ _
        (get_funds_struct-transaction tx k ∙ funds_written tx enc ts is os p q r)
        (get_graph_struct-transaction tx k ∙ graph_written tx enc ps s)
        (get_struct_nonce_lem tx transaction k n)

  transaction_fields :
      (ts is os ps rest : Bytes)
      → concat_bytes ok tx.tokens ≡ ok ts
      → concat_bytes Input.to_bytes tx.inputs ≡ ok is
      → concat_bytes Output.to_bytes tx.outputs ≡ ok os
      → concat_bytes ok tx.parents ≡ ok ps
      → get_fields_from_struct
          (blank transaction)
          (funds_head tx enc ++ (ts ++ (is ++ (os ++ (graph_head tx enc ++ (ps ++ rest))))))
        ≡ ok (record (read_transaction tx) { nonce = 0 }, rest)
  unfolding get_fields_from_struct
  transaction_fields ts is os ps rest p q r s =
      rw (funds_read tx enc (blank transaction) ts is os (graph_head tx enc ++ (ps ++ rest)) p q r)
        (graph_read tx enc _ ps rest s)

  regroup :
      (h t i o g q n : Bytes)
      → ((h ++ (t ++ (i ++ o))) ++ (g ++ q)) ++ n ≡ h ++ (t ++ (i ++ (o ++ (g ++ (q ++ n)))))
  regroup h t i o g q n = simp append_assoc

  -- A transaction whose fields fit the format, and whose hash is computed to be `h`, is serialized,
  -- and reading the bytes back as a transaction returns it with the hash `h`.
  pub transaction_round_trip :
      (p : Platform) (h : Bytes)
      → tx.kind ≡ transaction
      → tx.block_data ≡ []
      → tx.nonce < 2 ^ 32
      → calculate_hash p tx ≡ ok h
      → (bs : Bytes) × (get_struct tx ≡ ok bs)
        × (create_from_struct p transaction bs ≡ ok (record tx { hash = some h }))
  unfolding create_from_struct
  transaction_round_trip p h k d n e =
      let (ts, pt) = tokens_bytes in
      let (is, pi) = inputs_bytes in
      let (os, po) = outputs_bytes in
      let (ps, pp) = parents_bytes in
      (
        _,
        transaction_written ts is os ps k n pt pi po pp,
        rw (regroup (funds_head tx enc) ts is os (graph_head tx enc) ps (be 4 tx.nonce)) (
            rw (transaction_fields ts is os ps (be 4 tx.nonce) pt pi po pp) (
              rw (length-be 4 tx.nonce) (
                rw (from_be-be 4 tx.nonce n)
                  (hash_stored p tx (read_transaction tx) h (read_transaction-eq tx k d) e)))),
      )
