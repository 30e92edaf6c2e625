-- ===== src/Script.antt =====
-- The scripting language of outputs and inputs: hathor/transaction/scripts.py.
pub mod Opcode
pub mod Data
pub mod Builder
pub mod Pattern
pub mod Machine
pub mod Eval
pub mod Program
pub mod Spend
