-- ===== src/Node/Validation.antt =====
-- The validation of transactions and blocks in src/node/mod.rs. Of the node these functions read only
-- the consensus, which they take as an argument, beside the clock that the chain reads.
pub mod Walk
pub mod Shape
pub mod Applied
pub mod Solvency
pub mod Authority
use aion_blockchain.Prelude.{
  ◌||◌, ◌-◌, length, text_expected, not, ◌==◌, ltb, str_eq, checked_add, ◌+◌, is_empty,
  if◌then◌else◌, ◌∷◌, fail_if, ok_or, Option, List, Result, ℕ, zero, suc, [], true, false, none,
  some, ok, err, ◌>>=◌, ◌>>◌,
}
use aion_blockchain.Protocol.{
  signature_hex_length, public_key_hex_length, address_hex_length, system_reward_signature,
  system_public_key, hash_hex_length, system_address, max_total_transactions_per_block,
  is_fixed_hex,
}
use aion_blockchain.Crypto.{Crypto}
use aion_blockchain.Core.Transaction
use aion_blockchain.Core.Transaction.{Transaction, calculate_id, message}
use aion_blockchain.Core.Block.{Block, is_hash_valid}
use aion_blockchain.Economy
use aion_blockchain.Economy.{Economy, Shares, calculate_fee, validate_fee, distribute_fee}
use aion_blockchain.State.{State, balance_of, nonce_of, apply_transaction}
use aion_blockchain.Consensus.{Consensus, select_validator_from_hash, is_validator_allowed}
use aion_blockchain.Wallet.{address_from_public_key, verify}
use aion_blockchain.Chain.Mempool.{Mempool, next_nonce, pending_cost}
use aion_blockchain.Chain.Blockchain.Format
use aion_blockchain.Chain.Blockchain.Settlement.{no_shares, add_shares, settle_fees, finish}
use aion_blockchain.Chain.Blockchain.{Blockchain, Clock, add_received_block}

-- `Node::validate_transaction_field_sizes`, which repeats the code of the chain's.
unfoldable pub validate_transaction_field_sizes : Transaction → Result (Unit {0})
validate_transaction_field_sizes tx = Format.validate_transaction_field_sizes tx

unfoldable pub validate_all_field_sizes : List Transaction → Result (Unit {0})
validate_all_field_sizes [] = ok tt
validate_all_field_sizes (tx ∷ txs) =
    validate_transaction_field_sizes tx >> validate_all_field_sizes txs

module _ ⦃c : Crypto⦄ where
  -- `Node::validate_transaction_base`
  unfoldable pub validate_transaction_base : Transaction → Economy → Result (Unit {0})
  validate_transaction_base tx economy = do
    validate_transaction_field_sizes tx
    fail_if tx.coinbase "Coinbase transaction cannot be added to the mempool"
    fail_if (str_eq tx.from system_address)
        "Normal transaction cannot originate from the SYSTEM address"
    fail_if (not (tx.reward_marker == 0)) "Normal transaction reward marker must be zero"
    fail_if (not (str_eq tx.id (calculate_id tx))) "Transaction ID is invalid"
    fail_if (not (Transaction.is_signed tx)) "Transaction signature is missing"
    derived_address ←
        ok_or (address_from_public_key tx.public_key) "Transaction public key is invalid"
    fail_if (not (str_eq derived_address tx.from))
        "Transaction sender address does not match the public key"
    signature ← ok_or tx.signature "Transaction signature was not found"
    fail_if (not (verify tx.public_key (message tx) signature)) "Transaction signature is invalid"
    fail_if (tx.amount == 0) "Transaction amount cannot be zero"
    if validate_fee economy tx.amount tx.fee
        then ok tt
        else err (
            text_expected "Transaction fee is invalid. Expected: {}, Received: {}"
              (calculate_fee economy tx.amount) tx.fee)

  abbrev pub check_nonce : ℕ → ℕ → Result (Unit {0})
  check_nonce nonce expected_nonce =
      if nonce == expected_nonce
      then ok tt
      else err (
          text_expected "Transaction nonce is invalid. Expected: {}, Received: {}" expected_nonce
            nonce)

  -- `Node::validate_transaction`
  unfoldable pub validate_transaction : Transaction → State → Economy → Result (Unit {0})
  validate_transaction tx state economy = do
    validate_transaction_base tx economy
    total_cost ← ok_or (checked_add tx.amount tx.fee) "Transaction total amount overflow"
    fail_if (ltb (balance_of state tx.from) total_cost) "Insufficient balance for transaction"
    check_nonce tx.nonce (nonce_of state tx.from)

  -- `Node::validate_transaction_for_mempool`
  unfoldable pub validate_transaction_for_mempool :
      Transaction → State → Economy → Mempool → Result (Unit {0})
  validate_transaction_for_mempool tx state economy mempool = do
    validate_transaction_base tx economy
    expected_nonce ← next_nonce mempool tx.from (nonce_of state tx.from)
    check_nonce tx.nonce expected_nonce
    transaction_cost ← ok_or (checked_add tx.amount tx.fee) "Transaction total amount overflow"
    reserved ← pending_cost mempool tx.from
    total_reserved_cost ←
        ok_or (checked_add reserved transaction_cost) "Mempool reserved total overflow"
    fail_if (ltb (balance_of state tx.from) total_reserved_cost)
        "Insufficient available balance for transaction"

  -- The first part of `validate_and_apply_block`: the block's own format and hash.
  unfoldable pub check_block : Block → Result (Unit {0})
  check_block block = do
    fail_if (ltb max_total_transactions_per_block (length block.transactions))
        "Block transaction limit exceeded"
    fail_if
        (not (is_fixed_hex block.previous_hash hash_hex_length)
          || not (is_fixed_hex block.hash hash_hex_length))
        "Block hash format is invalid"
    fail_if (not (is_fixed_hex block.validator address_hex_length))
        "Block validator address format is invalid"
    fail_if (not (is_fixed_hex block.validator_public_key public_key_hex_length))
        "Block validator public key format is invalid"
    signature ← ok_or block.validator_signature "Block validator signature is missing"
    fail_if (not (is_fixed_hex signature signature_hex_length))
        "Block validator signature format is invalid"
    validate_all_field_sizes block.transactions
    fail_if (not (is_hash_valid block)) "Block hash is invalid"

  -- The second: the block is made and signed by the validator that the previous hash selects.
  unfoldable pub check_validator : Consensus → Block → Result (Unit {0})
  check_validator consensus block = do
    expected ←
        ok_or (select_validator_from_hash consensus block.previous_hash)
          "Validator could not be selected"
    fail_if (not (str_eq block.validator expected.address))
        "Selected validator for this block is different"
    derived ←
        ok_or (address_from_public_key block.validator_public_key) "Validator public key is invalid"
    fail_if (not (str_eq derived block.validator)) "Validator address does not match the public key"
    fail_if (not (is_validator_allowed consensus block.validator))
        "Validator is not registered in the consensus network"
    signature ← ok_or block.validator_signature "Validator signature is missing"
    fail_if (not (verify block.validator_public_key block.hash signature))
        "Validator signature is invalid"

-- The checks of a coinbase in the loop of `validate_and_apply_block`.
unfoldable pub check_block_coinbase :
    Block → Economy → ℕ → Option Transaction → Transaction → Result (Unit {0})
check_block_coinbase block economy position coinbase tx = do
  fail_if (elim coinbase [ none ↦ false | some _ ↦ true ]) "Block contains more than one coinbase"
  fail_if (not (position == length block.transactions - 1)) "Coinbase must be the last transaction"
  fail_if (not (str_eq tx.from system_address)) "Coinbase sender must be SYSTEM"
  fail_if (not (str_eq tx.public_key system_public_key)) "Coinbase public key is invalid"
  fail_if (not (elim tx.signature [ none ↦ false | some s ↦ str_eq s system_reward_signature ]))
      "Coinbase signature is invalid"
  fail_if (not (str_eq tx.to block.validator))
      "Coinbase reward does not go to the validator address"
  fail_if (not (tx.fee == 0)) "Coinbase fee must be zero"
  fail_if (not (tx.nonce == 0)) "Coinbase nonce must be zero"
  fail_if (not (tx.reward_marker == block.index))
      "Coinbase reward marker does not match block index"
  fail_if (not (tx.amount == economy.block_reward)) "Coinbase reward amount is invalid"

-- The variables of that loop.
pub record Progress : Type 0 where
  pub state : State
  pub totals : Shares
  pub coinbase : Option Transaction

module _ ⦃c : Crypto⦄ where
  -- The loop's body for a normal transaction.
  unfoldable pub apply_normal : Economy → Transaction → Progress → Result Progress
  apply_normal economy tx p = do
    fail_if (not (tx.reward_marker == 0)) "Normal transaction reward marker must be zero"
    validate_transaction tx p.state economy
    s ← finish (apply_transaction tx p.state)
    shares ← distribute_fee economy tx.fee
    totals ← add_shares p.totals shares
    ok (record p { state = s; totals = totals })

  -- The loop's body for a coinbase, which is applied after the loop.
  unfoldable pub note_coinbase : Block → Economy → ℕ → Transaction → Progress → Result Progress
  note_coinbase block economy position tx p =
      check_block_coinbase block economy position p.coinbase tx >>= λ _.
      ok (record p { coinbase = some tx })

  -- The loop's body.
  unfoldable pub apply_one : Block → Economy → ℕ → Transaction → Progress → Result Progress
  apply_one block economy position tx p = do
    fail_if (not (str_eq tx.id (calculate_id tx))) "Transaction ID inside block is invalid"
    if tx.coinbase then note_coinbase block economy position tx p else apply_normal economy tx p

  unfoldable pub walk : Block → Economy → ℕ → List Transaction → Progress → Result Progress
  walk block economy position [] p = ok p
  walk block economy position (tx ∷ txs) p =
      apply_one block economy position tx p >>= λ p'. walk block economy (position + 1) txs p'

  -- The last part: the fees are paid and the coinbase is minted.
  unfoldable pub conclude : Block → Economy → Progress → Result (State × Economy)
  conclude block economy p = do
    coinbase ← ok_or p.coinbase "Coinbase transaction was not found"
    (settled, collected) ← settle_fees block.validator p.totals p.state economy
    minted ← Economy.mint coinbase.amount collected
    final ← finish (apply_transaction coinbase settled)
    ok (final, minted)

  -- `Node::validate_and_apply_block`
  unfoldable pub validate_and_apply_block :
      Clock → Consensus → Block → Blockchain → State → Result (Blockchain × State)
  validate_and_apply_block clock consensus block bc state = do
    check_block block
    candidate ← add_received_block clock block bc
    check_validator consensus block
    fail_if (is_empty block.transactions) "Block transaction list is empty"
    p ←
        walk block bc.economy 0 block.transactions
          (record { state = state; totals = no_shares; coinbase = none })
    (final, minted) ← conclude block bc.economy p
    ok (record candidate { economy = minted }, final)
