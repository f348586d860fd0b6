-- ===== src/Chain/Blockchain/Format.antt =====
-- The format checks of src/chain/blockchain.rs on transactions and blocks.
use aion_blockchain.Prelude.{
  text, is_empty, ◌==◌, ok_or, ◌||◌, if◌then◌else◌, length, str_eq, any, not, ltb, fail_if, ◌∷◌,
  Result, List, [], true, false, none, some, ok, err, ◌>>=◌, ◌>>◌,
}
use aion_blockchain.Protocol.{
  system_reward_signature, signature_hex_length, genesis_validator, system_public_key,
  public_key_hex_length, system_address, genesis_previous_hash, max_total_transactions_per_block,
  hash_hex_length, address_hex_length, is_fixed_hex,
}
use aion_blockchain.Core.Transaction.{Transaction}
use aion_blockchain.Core.Block.{Block}

-- The coinbase branch of `validate_transaction_field_sizes`.
unfoldable pub check_coinbase_format : Transaction → Result (Unit {0})
check_coinbase_format tx = do
  fail_if (not (str_eq tx.from system_address) || not (str_eq tx.public_key system_public_key))
      "Coinbase SYSTEM fields are invalid"
  fail_if (not (is_fixed_hex tx.to address_hex_length))
      "Coinbase recipient address format is invalid"
  elim tx.signature [
    | none ↦ err (text "Coinbase signature format is invalid")
    | some signature ↦
        fail_if (not (str_eq signature system_reward_signature))
          "Coinbase signature format is invalid"
  ]

-- Its branch for any other transaction.
unfoldable pub check_normal_format : Transaction → Result (Unit {0})
check_normal_format tx = do
  fail_if
      (not (is_fixed_hex tx.from address_hex_length) || not (is_fixed_hex tx.to address_hex_length))
      "Transaction address format is invalid"
  fail_if (not (is_fixed_hex tx.public_key public_key_hex_length))
      "Transaction public key format is invalid"
  signature ← ok_or tx.signature "Transaction signature is missing"
  fail_if (not (is_fixed_hex signature signature_hex_length))
      "Transaction signature format is invalid"

-- `Blockchain::validate_transaction_field_sizes`
unfoldable pub validate_transaction_field_sizes : Transaction → Result (Unit {0})
validate_transaction_field_sizes tx = do
  fail_if (not (is_fixed_hex tx.id hash_hex_length)) "Transaction ID format is invalid"
  if tx.coinbase then check_coinbase_format tx else check_normal_format tx

unfoldable pub validate_all_field_sizes : List Transaction → Result (Unit {0})
validate_all_field_sizes [] = ok tt
validate_all_field_sizes (tx ∷ txs) =
    validate_transaction_field_sizes tx >> validate_all_field_sizes txs

-- The genesis branch of `validate_block_field_sizes`.
unfoldable pub check_genesis_format : Block → Result (Unit {0})
check_genesis_format block =
    fail_if
      (not (str_eq block.previous_hash genesis_previous_hash)
        || (not (str_eq block.validator genesis_validator)
            || (not (is_fixed_hex block.validator_public_key hash_hex_length)
                || ((elim block.validator_signature [ none ↦ false | some _ ↦ true ])
                    || not (is_empty block.transactions)))))
      "Genesis block format is invalid"

-- Its branch for any other block.
unfoldable pub check_block_format : Block → Result (Unit {0})
check_block_format block = do
  fail_if (not (any (λ (tx : Transaction). not tx.coinbase) block.transactions))
      "Non-genesis block must contain at least one normal transaction"
  fail_if (not (is_fixed_hex block.previous_hash hash_hex_length))
      "Block previous hash format is invalid"
  fail_if (not (is_fixed_hex block.validator address_hex_length))
      "Block validator address format is invalid"
  fail_if (not (is_fixed_hex block.validator_public_key public_key_hex_length))
      "Block validator public key format is invalid"
  signature ← ok_or block.validator_signature "Block validator signature is missing"
  fail_if (not (is_fixed_hex signature signature_hex_length))
      "Block validator signature format is invalid"
  validate_all_field_sizes block.transactions

-- `Blockchain::validate_block_field_sizes`
unfoldable pub validate_block_field_sizes : Block → Result (Unit {0})
validate_block_field_sizes block = do
  fail_if (ltb max_total_transactions_per_block (length block.transactions))
      "Block transaction limit exceeded"
  fail_if (not (is_fixed_hex block.hash hash_hex_length)) "Block hash format is invalid"
  if block.index == 0 then check_genesis_format block else check_block_format block
