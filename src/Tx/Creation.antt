-- ===== src/Tx/Creation.antt =====
-- Transactions that create a token: hathor/transaction/token_creation_tx.py, and `clean_token_string`
-- of hathor/transaction/util.py. A Python string is the list of its code points.
pub mod Rules
pub mod Info
pub mod RoundTrip
use khathor.Prelude.{
  [], ◌∷◌, refl, none, some, true, false, zero, suc, inl, inr, ℕ, List, Option, Bool, length,
  reverse, ◌++◌, ◌==◌,
}
use khathor.Errors.{ok, err, Result, value_error, struct_error, ◌>>=◌, ◌>>◌, guard}
use khathor.Tx.Parse.{base_graph_fields, read_many, blank}
use khathor.Tx.Base.{Tx, transaction, pack_uint, concat_bytes, base_graph_struct}
use khathor.Bytes.{Bytes, unpack, int_to_bytes, from_be, slice, unpack_len}
use khathor.Crypto.{Platform}
use khathor.Tx.Input
use khathor.Tx.Output

abbrev pub Str : Type 0
Str = List ℕ

-- `str.encode('utf-8')` and `bytes.decode('utf-8')` (`none` where they raise UnicodeError),
-- `str.upper` and what a regular expression takes for white space, with the names and the bounds of
-- hathor/conf/settings.py.
pub record Text : Type 0 where
  pub encode : Str → Option Bytes
  pub decode : Bytes → Option Str
  pub upper : Str → Str
  pub is_space : ℕ → Bool
  pub max_length_token_name : ℕ
  pub max_length_token_symbol : ℕ
  pub hathor_token_name : Str
  pub hathor_token_symbol : Str

-- What `Transaction` has, and the two fields of the subclass.
pub record TokenCreationTx : Type 0 where
  pub tx : Tx
  pub token_name : Str
  pub token_symbol : Str

abbrev pub token_info_version : ℕ
token_info_version = 1

module _ (t : Text) where
  unfoldable pub encode_utf8 : Str → Result Bytes
  encode_utf8 s = elim (t.encode s) [ none ↦ err value_error | some encoded ↦ ok encoded ]

  unfoldable pub serialize_token_info : TokenCreationTx → Result Bytes
  serialize_token_info self = do
    encoded_name ← encode_utf8 self.token_name
    encoded_symbol ← encode_utf8 self.token_symbol
    info_version ← int_to_bytes token_info_version 1
    name_len ← int_to_bytes (length encoded_name) 1
    symbol_len ← int_to_bytes (length encoded_symbol) 1
    ok (info_version ++ (name_len ++ (encoded_name ++ (symbol_len ++ encoded_symbol))))

  unfoldable pub decode_string_utf8 : Bytes → Result Str
  decode_string_utf8 encoded = elim (t.decode encoded) [
    | none ↦ err struct_error
    | some decoded ↦ ok decoded
  ]

  unfoldable pub deserialize_token_info : Bytes → Result (Str × Str × Bytes)
  deserialize_token_info buf = do
    (info_version, buf₁) ← unpack 1 buf
    guard (from_be 0 info_version == token_info_version) value_error
    (name_len, buf₂) ← unpack 1 buf₁
    let (name, buf₃) = unpack_len (from_be 0 name_len) buf₂
    (symbol_len, buf₄) ← unpack 1 buf₃
    let (symbol, buf₅) = unpack_len (from_be 0 symbol_len) buf₄
    decoded_name ← decode_string_utf8 name
    decoded_symbol ← decode_string_utf8 symbol
    ok (decoded_name, decoded_symbol, buf₅)

  unfoldable pub get_funds_struct : TokenCreationTx → Result Bytes
  get_funds_struct self = do
    version ← pack_uint 2 self.tx.version
    inputs_len ← pack_uint 1 (length self.tx.inputs)
    outputs_len ← pack_uint 1 (length self.tx.outputs)
    inputs ← concat_bytes Input.to_bytes self.tx.inputs
    outputs ← concat_bytes Output.to_bytes self.tx.outputs
    info ← serialize_token_info self
    ok ((version ++ (inputs_len ++ outputs_len)) ++ (inputs ++ (outputs ++ info)))

  unfoldable pub get_sighash_all : Bool → TokenCreationTx → Result Bytes
  get_sighash_all clear_input_data self = do
    version ← pack_uint 2 self.tx.version
    inputs_len ← pack_uint 1 (length self.tx.inputs)
    outputs_len ← pack_uint 1 (length self.tx.outputs)
    inputs ← concat_bytes (λ txin. Input.get_sighash_bytes txin clear_input_data) self.tx.inputs
    outputs ← concat_bytes Output.to_bytes self.tx.outputs
    info ← serialize_token_info self
    ok ((version ++ (inputs_len ++ outputs_len)) ++ (inputs ++ (outputs ++ info)))

  unfoldable pub get_funds_fields_from_struct :
      TokenCreationTx → Bytes → Result (TokenCreationTx × Bytes)
  get_funds_fields_from_struct self buf = do
    (chunk, buf₁) ← unpack 4 buf
    (inputs, buf₂) ← read_many Input.create_from_bytes (from_be 0 (slice 2 1 chunk)) buf₁
    (outputs, buf₃) ← read_many Output.create_from_bytes (from_be 0 (slice 3 1 chunk)) buf₂
    (name, symbol, buf₄) ← deserialize_token_info buf₃
    ok (
      record {
        tx = record self.tx {
          version = from_be 0 (slice 0 2 chunk);
          inputs = self.tx.inputs ++ inputs;
          outputs = self.tx.outputs ++ outputs;
        };
        token_name = name;
        token_symbol = symbol;
      },
      buf₄,
    )

  -- The methods of `BaseTransaction`, with the funds that this class overrides.
  unfoldable pub get_struct : TokenCreationTx → Result Bytes
  get_struct self = do
    funds ← get_funds_struct self
    graph ← base_graph_struct self.tx
    nonce ← int_to_bytes self.tx.nonce 4
    ok ((funds ++ graph) ++ nonce)

  unfoldable pub calculate_hash : Platform → TokenCreationTx → Result Bytes
  calculate_hash p self = do
    funds ← get_funds_struct self
    graph ← base_graph_struct self.tx
    nonce ← int_to_bytes self.tx.nonce 16
    ok (reverse (p.sha256 (p.sha256 ((p.sha256 funds ++ p.sha256 graph) ++ nonce))))

  -- The transaction's own hash is the uid of the token.
  unfoldable pub update_hash : Platform → TokenCreationTx → Result TokenCreationTx
  update_hash p self = do
    hash ← calculate_hash p self
    ok (record self { tx = record self.tx { hash = some hash; tokens = hash ∷ [] } })

  unfoldable pub create_from_struct : Platform → Bytes → Result TokenCreationTx
  create_from_struct p struct_bytes = do
    let cls : TokenCreationTx = record {
      tx = blank transaction;
      token_name = [];
      token_symbol = [];
    }
    (self, buf₁) ← get_funds_fields_from_struct cls struct_bytes
    (tx, buf₂) ← base_graph_fields self.tx buf₁
    guard (length buf₂ == 4) value_error
    update_hash p (record self { tx = record tx { nonce = from_be 0 buf₂ } })
