-- ===== src/Bitcoin.antt =====
-- Bitcoin's formats, for merged mining: hathor/merged_mining/bitcoin.py and
-- hathor/transaction/aux_pow.py.
pub mod Merkle
pub mod Codec
pub mod Header
pub mod AuxPow
pub mod Transaction
