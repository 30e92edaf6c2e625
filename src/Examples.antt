-- ===== src/Examples.antt =====
-- Concrete platforms, transactions and scripts, on which the theorems of the other files are applied.
pub mod Spending
pub mod Scripts
pub mod Serialization
pub mod Addresses
pub mod Tokens
pub mod Bitcoin
pub mod Verification
pub mod Conflicts
pub mod Creation
pub mod Wallet
pub mod Indexes
pub mod Network
pub mod Storage
pub mod Walks
use khathor.Script.Opcode
use khathor.Prelude.{ℕ, [], some, ◌∷◌, length, ◌≡◌, true, none, ◌++◌, suc, zero, ap, refl}
use khathor.Tx.Base.{Tx, transaction}
use khathor.Crypto.{IsStandard, Platform}
use khathor.Tx.Output.{TxOutput}
use khathor.Bytes.{Bytes, bytes_eq}
use khathor.Tx.Input.{TxInput}

-- Digests that keep the first bytes of their data, base 58 that changes nothing, and a signature that
-- repeats the key.
abbrev pub pad : ℕ → Bytes → Bytes
pad zero b = []
pad (suc n) [] = 0 ∷ pad n []
pad (suc n) (x ∷ b) = x ∷ pad n b

abbrev pub demo : Platform
demo = record {
  sha256 = pad 32;
  ripemd160 = pad 20;
  b58encode = λ b. b;
  b58decode = λ b. some b;
  valid_point = λ b. true;
  ecdsa_verify = λ key signature d. bytes_eq key signature;
  valid_utf8 = λ b. true;
  p2pkh_version_byte = 40;
  multisig_version_byte = 100;
}

length-pad : (n : ℕ) (b : Bytes) → length (pad n b) ≡ n
length-pad zero b = refl
length-pad (suc n) [] = ap suc (length-pad n [])
length-pad (suc n) (x ∷ b) = ap suc (length-pad n b)

pub demo-IsStandard : IsStandard demo
demo-IsStandard = record {
  length-sha256 = length-pad 32;
  length-ripemd160 = length-pad 20;
  decode-encode = λ b. refl;
}

abbrev pub some_hash : Bytes
some_hash = pad 20 (7 ∷ 8 ∷ 9 ∷ [])

abbrev pub some_tx_id : Bytes
some_tx_id = pad 32 (1 ∷ 2 ∷ [])

abbrev pub some_address : Bytes
some_address = 40 ∷ (some_hash ++ 7 ∷ 7 ∷ 7 ∷ 7 ∷ [])

abbrev pub pubkey : Bytes
pubkey = some_hash

-- A transaction that spends the only output of another one.
abbrev pub output_of : Bytes → TxOutput
output_of script = record { value = 5; script = script; token_data = 0 }

abbrev pub input_of : Bytes → TxInput
input_of unlock = record { tx_id = some_tx_id; index = 0; unlock = unlock }

abbrev pub spent_tx : TxOutput → Tx
spent_tx output = record {
  kind = transaction;
  hash = none;
  version = 1;
  weight = 0;
  timestamp = 1000;
  nonce = 0;
  inputs = [];
  outputs = output ∷ [];
  parents = [];
  tokens = [];
  block_data = [];
}

abbrev pub spending_tx : Tx
spending_tx = record {
  kind = transaction;
  hash = none;
  version = 1;
  weight = 0;
  timestamp = 80000;
  nonce = 3;
  inputs = input_of [] ∷ [];
  outputs = output_of [] ∷ [];
  parents = some_tx_id ∷ [];
  tokens = [];
  block_data = [];
}
