-- ===== src/Core.antt =====
-- src/core: transactions and blocks, and the byte strings that are hashed and signed.
pub mod Encoding
pub mod Fields
pub mod Transaction
pub mod Block
pub mod Injective
