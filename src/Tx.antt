-- ===== src/Tx.antt =====
-- Transactions: hathor/transaction/base_transaction.py, transaction.py and block.py.
pub mod Value
pub mod Input
pub mod Output
pub mod Base
pub mod Parse
pub mod Creation
pub mod Tokens
pub mod Verify
