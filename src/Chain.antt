-- ===== src/Chain.antt =====
-- src/chain: the pool of pending transactions, and the chain of blocks with block production.
pub mod Mempool
pub mod Blockchain
