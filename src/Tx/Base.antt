-- ===== src/Tx/Base.antt =====
-- The fields of a transaction or block and their serialization: `BaseTransaction` of
-- hathor/transaction/base_transaction.py, with what `Transaction` (transaction.py) and `Block`
-- (block.py) override.
pub mod Laws
use khathor.Tx.Input
use khathor.Tx.Output
use khathor.Prelude.{ℕ, Option, Bool, List, if◌then◌else◌, ltb, length, ◌^◌, ◌++◌, ◌∷◌, [], reverse}
use khathor.Tx.Input.{TxInput}
use khathor.Tx.Output.{TxOutput}
use khathor.Errors.{Result, ◌>>=◌, ok, err, struct_error}
use khathor.Crypto.{Platform}
use khathor.Bytes.{Bytes, int_to_bytes, be}

-- The class of the object.
pub data Kind : Type 0 where
  block transaction : Kind

-- `weight` is the 64-bit pattern of the Python float. `tokens` is empty in a block, and
-- `block_data`, which the source calls `data`, in a transaction.
pub record Tx : Type 0 where
  pub kind : Kind
  pub hash : Option Bytes
  pub version : ℕ
  pub weight : ℕ
  pub timestamp : ℕ
  pub nonce : ℕ
  pub inputs : List TxInput
  pub outputs : List TxOutput
  pub parents : List Bytes
  pub tokens : List Bytes
  pub block_data : Bytes

-- One unsigned field of struct.pack.
unfoldable pub pack_uint : ℕ → ℕ → Result Bytes
pack_uint size n = if ltb n (256 ^ size) then ok (be size n) else err struct_error

-- for x in xs: struct_bytes += f(x)
unfoldable pub concat_bytes : {A : Type 0} → (A → Result Bytes) → List A → Result Bytes
concat_bytes f [] = ok []
concat_bytes f (x ∷ xs) = do b ← f x; bs ← concat_bytes f xs; ok (b ++ bs)

-- Transaction.get_funds_struct
unfoldable pub funds_of_transaction : Tx → Result Bytes
funds_of_transaction tx = do
  version ← pack_uint 2 tx.version
  tokens_len ← pack_uint 1 (length tx.tokens)
  inputs_len ← pack_uint 1 (length tx.inputs)
  outputs_len ← pack_uint 1 (length tx.outputs)
  tokens ← concat_bytes ok tx.tokens
  inputs ← concat_bytes Input.to_bytes tx.inputs
  outputs ← concat_bytes Output.to_bytes tx.outputs
  ok ((version ++ (tokens_len ++ (inputs_len ++ outputs_len))) ++ (tokens ++ (inputs ++ outputs)))

-- Block.get_funds_struct
unfoldable pub funds_of_block : Tx → Result Bytes
funds_of_block tx = do
  version ← pack_uint 2 tx.version
  outputs_len ← pack_uint 1 (length tx.outputs)
  outputs ← concat_bytes Output.to_bytes tx.outputs
  ok ((version ++ outputs_len) ++ outputs)

unfoldable pub get_funds_struct : Tx → Result Bytes
get_funds_struct tx = elim tx.kind [
  | block ↦ funds_of_block tx
  | transaction ↦ funds_of_transaction tx
]

-- BaseTransaction.get_graph_struct
unfoldable pub base_graph_struct : Tx → Result Bytes
base_graph_struct tx = do
  weight ← pack_uint 8 tx.weight
  timestamp ← pack_uint 4 tx.timestamp
  parents_len ← pack_uint 1 (length tx.parents)
  parents ← concat_bytes ok tx.parents
  ok ((weight ++ (timestamp ++ parents_len)) ++ parents)

-- Block.get_graph_struct
unfoldable pub graph_of_block : Tx → Result Bytes
graph_of_block tx = do
  struct_bytes_without_data ← base_graph_struct tx
  data_bytes ← int_to_bytes (length tx.block_data) 1
  ok (struct_bytes_without_data ++ (data_bytes ++ tx.block_data))

unfoldable pub get_graph_struct : Tx → Result Bytes
get_graph_struct tx = elim tx.kind [
  | block ↦ graph_of_block tx
  | transaction ↦ base_graph_struct tx
]

abbrev pub serialization_nonce_size : Kind → ℕ
serialization_nonce_size block = 16
serialization_nonce_size transaction = 4

unfoldable pub get_struct_nonce : Tx → Result Bytes
get_struct_nonce tx = int_to_bytes tx.nonce (serialization_nonce_size tx.kind)

unfoldable pub get_struct_without_nonce : Tx → Result Bytes
get_struct_without_nonce tx = do
  funds ← get_funds_struct tx
  graph ← get_graph_struct tx
  ok (funds ++ graph)

unfoldable pub get_struct : Tx → Result Bytes
get_struct tx = do
  struct_bytes ← get_struct_without_nonce tx
  nonce ← get_struct_nonce tx
  ok (struct_bytes ++ nonce)

-- Transaction.get_sighash_all, of a transaction whose two caches are empty.
unfoldable pub get_sighash_all : Bool → Tx → Result Bytes
get_sighash_all clear_input_data tx = do
  version ← pack_uint 2 tx.version
  tokens_len ← pack_uint 1 (length tx.tokens)
  inputs_len ← pack_uint 1 (length tx.inputs)
  outputs_len ← pack_uint 1 (length tx.outputs)
  tokens ← concat_bytes ok tx.tokens
  inputs ← concat_bytes (λ txin. Input.get_sighash_bytes txin clear_input_data) tx.inputs
  outputs ← concat_bytes Output.to_bytes tx.outputs
  ok ((version ++ (tokens_len ++ (inputs_len ++ outputs_len))) ++ (tokens ++ (inputs ++ outputs)))

-- The hash: a double SHA-256 of the two part hashes and the nonce in 16 bytes, reversed.
unfoldable pub get_header_without_nonce : Platform → Tx → Result Bytes
get_header_without_nonce p tx = do
  funds ← get_funds_struct tx
  graph ← get_graph_struct tx
  ok (p.sha256 funds ++ p.sha256 graph)

unfoldable pub calculate_hash : Platform → Tx → Result Bytes
calculate_hash p tx = do
  header ← get_header_without_nonce p tx
  nonce ← int_to_bytes tx.nonce 16
  ok (reverse (p.sha256 (p.sha256 (header ++ nonce))))
