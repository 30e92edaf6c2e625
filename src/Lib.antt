-- ===== src/Lib.antt =====
-- Verification of the transactions and scripts of a Hathor full node (khathor).
--
-- A transaction or block is a vertex of a DAG: it has inputs, outputs, parents and a proof of work.
-- Its outputs carry a script, which an input unlocks with its data. The modelled part reads and writes
-- these objects, makes and recognizes the scripts and the addresses in them, and evaluates a script to
-- decide whether an input may spend an output. Built on that, it verifies whole transactions and
-- blocks. A block may be mined together with Bitcoin: the formats for that are modelled too.
--
-- Files and code:
--   Prelude, Prelude/*: names of the libraries, tests on numbers, lists, integers.
--   Errors: the exceptions of hathor/transaction/exceptions.py, and those of Python that the code
--     raises, as values of `Result`.
--   Bytes: bytes as numbers below 256; hathor/transaction/util.py (`int_to_bytes`, `unpack`,
--     `unpack_len`), with the formats of `struct` that the code uses.
--   Crypto: hathor/crypto/util.py. SHA-256, RIPEMD-160, base 58, the elliptic curve, UTF-8 and the
--     version bytes of the settings are fields of `Platform`, a parameter. `IsStandard` holds what
--     their documentation says.
--   Tx/Value, Tx/Input, Tx/Output, Tx/Base, Tx/Parse: hathor/transaction/base_transaction.py, with
--     the overriding methods of transaction.py and block.py beside it. `Tx` is the record of the
--     fields, `Kind` the class. A Python float is its 64 bits.
--   Tx/Tokens: the token rules of hathor/transaction/transaction.py (`verify_outputs`, `verify_sum`).
--     A storage is a function from hashes to transactions; the settings and the two formulas of
--     hathor/transaction/util.py that multiply with a float are fields of `TokenSettings`.
--   Tx/Creation, Tx/Creation/*: hathor/transaction/token_creation_tx.py. What it uses of Python's
--     strings is a field of `Text`: the codec, the upper case and the white space.
--   Tx/Verify, Tx/Verify/*: `verify_parents` and `verify_pow` of base_transaction.py, and the
--     verification of block.py. The settings, the genesis hashes and `get_target`, which works with
--     floats, are fields of `Network`.
--   Inputs, Inputs/*: `verify_inputs`, `verify_spent_reward`, `verify_script` and `verify` of
--     transaction.py. What they read of the storage is a `ChainView`.
--   Dict: dicts, ordered dicts and sets of Python.
--   Storage, Storage/Memory, Storage/Cache, Storage/Cache/*: the storages of
--     hathor/transaction/storage/: the cache (cache_storage.py) over any `Store`, whose methods and
--     laws are an interface, and the one in memory (memory_storage.py), which fills it. An object is a
--     value, and a weak reference gives an object that is still alive, which is an argument. A flush
--     runs whole when the main thread calls it; the two steps of a round of the thread that `start`
--     sets up are in Storage/Cache/Thread, where a save may come between them.
--   Indexes, Indexes/*: `TransactionsIndex` of hathor/indexes.py. What searches its `SortedKeyList` is
--     a parameter, and `IsSortedKeyList` what the package documents.
--   P2p/RateLimiter: hathor/p2p/rate_limiter.py. The operations of floats, in which it keeps times,
--     are the parameter `Floats`.
--   Pubsub, Pubsub/Laws: hathor/pubsub.py.
--   Wallet, Wallet/*: the choice of outputs of hathor/wallet/base_wallet.py, for one token.
--   Script/Opcode, Script/Data, Script/Machine, Script/Machine/Data, Script/Machine/Multisig: the
--     opcodes of hathor/transaction/scripts.py. An opcode `op_x` takes the stack and the log in `Vm`
--     and returns both or an exception; its helper `x_of` does the work on the stack's items.
--   Script/Eval: `execute_eval`, `evaluate_final_stack`, `get_multisig_data` and `script_eval`.
--   Script/Builder, Script/Pattern: the builders and the parsers of `P2PKH` and `MultiSig`. A regular
--     expression that `re_compile` makes is a matcher with backtracking.
--   Script/Program: a script as a list of instructions, the specification of the byte loop.
--   Script/Spend: what spending an output is to decide.
--   Bitcoin/Merkle, Bitcoin/Codec, Bitcoin/Header, Bitcoin/Transaction: the hash trees and the
--     formats of hathor/merged_mining/bitcoin.py. A reader returns what is left of the buffer.
--   Bitcoin/AuxPow: hathor/transaction/aux_pow.py.
--   Consensus, Consensus/*: hathor/transaction/transaction_metadata.py and the marking of inputs of
--     hathor/consensus.py, on a `Ledger` that maps each hash to its metadata, and
--     `is_double_spending` of hathor/transaction/transaction.py.
--   Traversal, Traversal/*: `GenericWalk` and `BFSWalk` of hathor/transaction/storage/traversal.py.
--     The code that consumes a walk is a visitor. `IsLeast` is what `heapq` documents.
--   Examples, Examples/*: a concrete platform and concrete data.
--
-- Bounds and fuel: sizes are those of the formats, as `IsEncodableInput`, `IsEncodableOutput` and
-- `IsEncodable` list them. The loops over a script run on fuel, where `none` is a loop that is still
-- running. A round of `execute_eval` reads at least one byte, so the theorems ask for as much fuel as
-- the script has bytes, or instructions. The merkle recursions shorten the list, so one round for
-- each leaf is enough. A walk runs on fuel too, a round for each vertex.
--
-- Not modelled: the text of log and error messages (an exception is its class), JSON and protocol
-- buffer conversions, merge mined blocks, nano contract scripts, the voiding of transactions and
-- the scores of blocks in the consensus, the indexes of tips, addresses and tokens, the identity of
-- objects, the storages on files, the flush thread but for one interleaving, the states of a
-- peer-to-peer connection, the balance and the history of the wallet, and the HTTP interfaces.
pub mod Prelude
pub mod Errors
pub mod Bytes
pub mod Dict
pub mod Crypto
pub mod Tx
pub mod Script
pub mod Inputs
pub mod Storage
pub mod P2p
pub mod Pubsub
pub mod Indexes
pub mod Wallet
pub mod Traversal
pub mod Consensus
pub mod Bitcoin
pub mod Examples
