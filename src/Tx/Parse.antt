-- ===== src/Tx/Parse.antt =====
-- Reading a transaction or block from bytes: `get_fields_from_struct` and what it calls, and
-- `create_from_struct`, of `Transaction` and `Block` in hathor/transaction/.
pub mod Laws
pub mod RoundTrip
pub mod Fields
use khathor.Prelude.{ℕ, none, [], List, suc, ◌∷◌, length, ◌==◌, ◌++◌, some, zero}
use khathor.Tx.Base.{Tx, Kind, block, transaction, serialization_nonce_size, calculate_hash}
use khathor.Crypto.{Platform}
use khathor.Bytes.{Bytes, unpack_len, unpack, from_be, slice}
use khathor.Errors.{Result, ok, ◌>>=◌, ◌>>◌, guard, value_error}
use khathor.Tx.Input.{tx_hash_size}
use khathor.Tx.Input
use khathor.Tx.Output

-- for _ in range(n): x, buf = read(buf); xs.append(x)
unfoldable pub read_many :
    {A : Type 0} → (Bytes → Result (A × Bytes)) → ℕ → Bytes → Result (List A × Bytes)
read_many read zero buf = ok ([], buf)
read_many read (suc n) buf = do
  (x, buf₁) ← read buf
  (xs, buf₂) ← read_many read n buf₁
  ok (x ∷ xs, buf₂)

-- a hash of TX_HASH_SIZE bytes
unfoldable pub read_hash : Bytes → Result (Bytes × Bytes)
read_hash buf = ok (unpack_len tx_hash_size buf)

-- The two versions of get_funds_fields_from_struct; `self` is the transaction that is filled.
unfoldable pub transaction_funds_fields : Tx → Bytes → Result (Tx × Bytes)
transaction_funds_fields self buf = do
  (chunk, buf₁) ← unpack 5 buf
  (tokens, buf₂) ← read_many read_hash (from_be 0 (slice 2 1 chunk)) buf₁
  (inputs, buf₃) ← read_many Input.create_from_bytes (from_be 0 (slice 3 1 chunk)) buf₂
  (outputs, buf₄) ← read_many Output.create_from_bytes (from_be 0 (slice 4 1 chunk)) buf₃
  ok (
    record self {
      version = from_be 0 (slice 0 2 chunk);
      tokens = self.tokens ++ tokens;
      inputs = self.inputs ++ inputs;
      outputs = self.outputs ++ outputs;
    },
    buf₄,
  )

unfoldable pub block_funds_fields : Tx → Bytes → Result (Tx × Bytes)
block_funds_fields self buf = do
  (chunk, buf₁) ← unpack 3 buf
  (outputs, buf₂) ← read_many Output.create_from_bytes (from_be 0 (slice 2 1 chunk)) buf₁
  ok (
    record self { version = from_be 0 (slice 0 2 chunk); outputs = self.outputs ++ outputs },
    buf₂,
  )

-- BaseTransaction.get_graph_fields_from_struct
unfoldable pub base_graph_fields : Tx → Bytes → Result (Tx × Bytes)
base_graph_fields self buf = do
  (chunk, buf₁) ← unpack 13 buf
  (parents, buf₂) ← read_many read_hash (from_be 0 (slice 12 1 chunk)) buf₁
  ok (
    record self {
      weight = from_be 0 (slice 0 8 chunk);
      timestamp = from_be 0 (slice 8 4 chunk);
      parents = self.parents ++ parents;
    },
    buf₂,
  )

-- Block.get_graph_fields_from_struct
unfoldable pub block_graph_fields : Tx → Bytes → Result (Tx × Bytes)
block_graph_fields self buf = do
  (self₁, buf₁) ← base_graph_fields self buf
  (chunk, buf₂) ← unpack 1 buf₁
  let (block_data, buf₃) = unpack_len (from_be 0 chunk) buf₂
  ok (record self₁ { block_data = block_data }, buf₃)

unfoldable pub get_fields_from_struct : Tx → Bytes → Result (Tx × Bytes)
get_fields_from_struct self struct_bytes = elim self.kind [
  | transaction ↦ (do
    (self₁, buf) ← transaction_funds_fields self struct_bytes
    base_graph_fields self₁ buf)
  | block ↦ (do (self₁, buf) ← block_funds_fields self struct_bytes; block_graph_fields self₁ buf)
]

-- cls(): the object before its fields are read
abbrev pub blank : Kind → Tx
blank kind = record {
  kind = kind;
  hash = none;
  version = 0;
  weight = 0;
  timestamp = 0;
  nonce = 0;
  inputs = [];
  outputs = [];
  parents = [];
  tokens = [];
  block_data = [];
}

-- The nonce is what is left, and has the size that the class says.
unfoldable pub create_from_struct : Platform → Kind → Bytes → Result Tx
create_from_struct p kind struct_bytes = do
  (tx, buf) ← get_fields_from_struct (blank kind) struct_bytes
  guard (length buf == serialization_nonce_size kind) value_error
  let filled = record tx { nonce = from_be 0 buf }
  hash ← calculate_hash p filled
  ok (record filled { hash = some hash })
