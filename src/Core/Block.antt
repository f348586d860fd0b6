-- ===== src/Core/Block.antt =====
-- src/core/block.rs: a block, the bytes that its hash covers, and its validator's signature.
use aion_blockchain.Prelude.{
  ℕ, Bool, true, false, Option, none, some, List, [], ◌∷◌, ◌++◌, length, Bytes, Str, bytes_of,
  str_eq,
}
use aion_blockchain.Crypto.{Crypto}
use aion_blockchain.Core.Encoding.{append_string, u64_bytes}
use aion_blockchain.Core.Transaction.{Transaction, message}

pub record Block : Type 0 where
  pub index : ℕ
  pub timestamp : ℕ
  pub previous_hash : Str
  pub hash : Str
  pub validator : Str
  pub validator_public_key : Str
  pub validator_signature : Option Str
  pub transactions : List Transaction

unfoldable pub append_signature : Bytes → Option Str → Bytes
unfolding append_string
append_signature m (some signature) = append_string (m ++ 1 ∷ []) signature
append_signature m none = m ++ 0 ∷ []

-- The loop over the transactions in `calculate_hash`.
unfoldable pub append_transactions : Bytes → List Transaction → Bytes
unfolding append_string append_signature
append_transactions m [] = m
append_transactions m (tx ∷ txs) =
    append_transactions
      (append_signature (append_string (append_string m tx.id) (message tx)) tx.signature) txs

-- What `Block::calculate_hash` hashes.
unfoldable pub preimage : Block → Bytes
unfolding append_string append_transactions
preimage block =
    let m = bytes_of "AION_BLOCK_V1" ++ u64_bytes block.index in
    let m = m ++ u64_bytes block.timestamp in
    let m = append_string m block.previous_hash in
    let m = append_string m block.validator in
    let m = append_string m block.validator_public_key in
    let m = m ++ u64_bytes (length block.transactions) in append_transactions m block.transactions

-- `Block::sign`
unfoldable pub sign : Str → Block → Block
sign signature block = record block { validator_signature = some signature }

-- `Block::is_signed`
unfoldable pub is_signed : Block → Bool
is_signed block = elim block.validator_signature [ none ↦ false | some _ ↦ true ]

module _ ⦃c : Crypto⦄ where
  -- `Block::calculate_hash`
  unfoldable pub calculate_hash : Block → Str
  calculate_hash block = c.lower_hex (c.sha256 (preimage block))

  -- `Block::new`
  unfoldable pub new : ℕ → ℕ → Str → Str → Str → List Transaction → Block
  new index timestamp previous_hash validator validator_public_key transactions =
      let block : Block = record {
        index = index;
        timestamp = timestamp;
        previous_hash = previous_hash;
        hash = [];
        validator = validator;
        validator_public_key = validator_public_key;
        validator_signature = none;
        transactions = transactions;
      } in
      record block { hash = calculate_hash block }

  -- `Block::is_hash_valid`
  unfoldable pub is_hash_valid : Block → Bool
  is_hash_valid block = str_eq block.hash (calculate_hash block)
