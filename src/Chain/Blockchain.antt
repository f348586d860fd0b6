-- ===== src/Chain/Blockchain.antt =====
-- src/chain/blockchain.rs: the chain of blocks with its economy; the format checks, block
-- production, the acceptance of a received block, and the validation of a whole chain.
pub mod Format
pub mod Settlement
pub mod Conservation
pub mod Production
pub mod WellFormed
pub mod Links
pub mod Identifiers
pub mod Validity
pub mod Extension
pub mod Acceptance
use aion_blockchain.Prelude.{
  length, ◌+◌, ltb, ◌==◌, ◌++◌, leb, bytes_of, ◌||◌, checked_add, is_empty, last, map, ◌&&◌, not,
  any, text_about, is_err, Str, if◌then◌else◌, keep, str_eq, ok_or, fail_if, Option, Bool, ◌∷◌,
  Result, List, ℕ, zero, suc, [], true, false, none, some, ok, err, ◌>>=◌, ◌>>◌,
}
use aion_blockchain.Protocol.{max_future_drift_seconds, is_fixed_hex}
use aion_blockchain.Crypto.{Crypto}
use aion_blockchain.Core.Transaction
use aion_blockchain.Core.Transaction.{Transaction, calculate_id}
use aion_blockchain.Core.Block
use aion_blockchain.Core.Block.{Block, calculate_hash}
use aion_blockchain.Economy
use aion_blockchain.Economy.{Economy, Shares, validate_fee}
use aion_blockchain.State
use aion_blockchain.State.{State, Outcome, apply_transaction, apply_transactions_atomically}
use aion_blockchain.State.Accounts.{lookup}
use aion_blockchain.Wallet
use aion_blockchain.Wallet.{Wallet, public_key_hex, address_from_public_key, verify}
use aion_blockchain.Chain.Mempool.{Mempool, take_valid_transactions}
use Format.{validate_block_field_sizes}
use Settlement.{sum_shares, no_shares, settle_fees, finish}

pub record Blockchain : Type 0 where
  pub chain : List Block
  pub economy : Economy

-- `Blockchain::new`
unfoldable pub new : Block → Blockchain
new genesis = record { chain = genesis ∷ []; economy = Economy.new }

-- The identifiers of all transactions of a chain.
unfoldable pub chain_ids : List Block → List Str
chain_ids [] = []
chain_ids (b ∷ bs) = map (λ (tx : Transaction). tx.id) b.transactions ++ chain_ids bs

abbrev pub contains : List Str → Str → Bool
contains ids id = any (str_eq id) ids

-- The loop of `validate_transaction_id_uniqueness` over the set of identifiers seen.
unfoldable pub check_new_ids : List Str → List Transaction → Result (Unit {0})
check_new_ids seen [] = ok tt
check_new_ids seen (tx ∷ txs) =
    if contains seen tx.id
    then err (text_about "Transaction ID was already used. TX: " tx.id)
    else check_new_ids (tx.id ∷ seen) txs

-- `Blockchain::validate_transaction_id_uniqueness`
unfoldable pub validate_transaction_id_uniqueness : Blockchain → Block → Result (Unit {0})
validate_transaction_id_uniqueness bc block = check_new_ids (chain_ids bc.chain) block.transactions

-- What the system clock says: the seconds since the epoch, or nothing if it stands before it.
abbrev pub Clock : Type 0
Clock = Option ℕ

-- `Blockchain::validate_future_timestamp`
unfoldable pub validate_future_timestamp : Clock → ℕ → Result (Unit {0})
validate_future_timestamp clock timestamp = do
  now ← ok_or clock "System time is before the UNIX epoch"
  maximum_allowed ←
      ok_or (checked_add now max_future_drift_seconds) "Timestamp upper bound overflow"
  fail_if (ltb maximum_allowed timestamp) "Block timestamp exceeds the allowed future-time limit"

-- The fee check of `create_block_from_mempool`.
unfoldable pub check_fees : Economy → List Transaction → Result (Unit {0})
check_fees economy [] = ok tt
check_fees economy (tx ∷ txs) =
    if validate_fee economy tx.amount tx.fee
    then check_fees economy txs
    else err (text_about "Transaction fee is invalid. TX: " tx.id)

-- The pool without the transactions of the list.
unfoldable pub retain_unconfirmed : List Transaction → Mempool → Mempool
retain_unconfirmed confirmed pool = record {
  transactions =
      keep
        (λ (tx : Transaction).
          not (any (λ (done : Transaction). not done.coinbase && str_eq done.id tx.id) confirmed))
        pool.transactions;
}

-- What a successful `create_block_from_mempool` leaves; after an error nothing has changed.
pub record Produced : Type 0 where
  pub block : Block
  pub blockchain : Blockchain
  pub mempool : Mempool
  pub state : State

module _ ⦃c : Crypto⦄ where
  -- The middle of `create_block_from_mempool`, on the candidate copies: the transactions, the fees,
  -- the reward, and the coinbase that pays it.
  unfoldable pub execute :
      Str → ℕ → List Transaction → State → Economy → Result (State × Economy × Transaction)
  execute validator index normal state economy = do
    applied ← apply_transactions_atomically normal state
    totals ← sum_shares economy no_shares normal
    (settled, collected) ← settle_fees validator totals applied economy
    (reward, rewarded) ← Economy.reward_validator collected
    let coinbase = Transaction.new_coinbase validator reward index
    credited ← finish (apply_transaction coinbase settled)
    ok (credited, rewarded, coinbase)

  -- `Blockchain::create_block_from_mempool`
  unfoldable pub create_block_from_mempool :
      Clock → ℕ → Wallet → Mempool → State → Blockchain → Result Produced
  create_block_from_mempool clock timestamp wallet mempool state bc = do
    fail_if (is_empty mempool.transactions) "Mempool is empty"
    last_block ← ok_or (last bc.chain) "Blockchain is empty"
    fail_if (leb timestamp last_block.timestamp)
        "New block timestamp must be greater than the previous block timestamp"
    validate_future_timestamp clock timestamp
    let normal = (take_valid_transactions state mempool).1
    fail_if (is_empty normal) "No valid transactions"
    check_fees bc.economy normal
    let index = length bc.chain
    (credited, rewarded, coinbase) ← execute wallet.address index normal state bc.economy
    let transactions = normal ++ coinbase ∷ []
    let unsigned =
        Block.new index timestamp last_block.hash wallet.address (public_key_hex wallet)
          transactions
    let block = Block.sign (Wallet.sign wallet unsigned.hash) unsigned
    validate_block_field_sizes block
    validate_transaction_id_uniqueness bc block
    ok (record {
      block = block;
      blockchain = record { chain = bc.chain ++ block ∷ []; economy = rewarded };
      mempool = retain_unconfirmed transactions mempool;
      state = credited;
    })

  -- `Blockchain::add_received_block`; after an error nothing has changed.
  unfoldable pub add_received_block : Clock → Block → Blockchain → Result Blockchain
  add_received_block clock block bc = do
    validate_block_field_sizes block
    validate_transaction_id_uniqueness bc block
    last_block ← ok_or (last bc.chain) "Blockchain is empty"
    fail_if (not (str_eq block.previous_hash last_block.hash)) "Previous hash does not match"
    fail_if (leb block.timestamp last_block.timestamp)
        "Block timestamp must be greater than the previous block timestamp"
    validate_future_timestamp clock block.timestamp
    fail_if (not (str_eq block.hash (calculate_hash block))) "Block hash is invalid"
    fail_if (not (block.index == length bc.chain)) "Block index is invalid"
    ok (record bc { chain = bc.chain ++ block ∷ [] })

  -- The loop of `is_valid` over the transactions of a block: the identifiers seen, or `none` where
  -- the source returns `false`.
  unfoldable pub see_transactions : ℕ → List Str → List Transaction → Option (List Str)
  see_transactions index seen [] = some seen
  see_transactions index seen (tx ∷ txs) =
      if contains seen tx.id
        || (not (str_eq tx.id (calculate_id tx))
            || (tx.coinbase && not (tx.reward_marker == index)))
      then none
      else see_transactions index (tx.id ∷ seen) txs

  -- The key leads to the validator's address, and the signature is the key's.
  unfoldable pub is_sealed : Block → Bool
  is_sealed block = elim (address_from_public_key block.validator_public_key) [
    | none ↦ false
    | some derived ↦ str_eq derived block.validator && (elim block.validator_signature [
      | none ↦ false
      | some signature ↦ verify block.validator_public_key block.hash signature
    ])
  ]

  -- The checks of `is_valid` that look at the block before, if there is one.
  unfoldable pub links : Option Block → Block → Bool
  links none block = str_eq block.previous_hash (bytes_of "0")
  links (some previous) block =
      ltb previous.timestamp block.timestamp
      && (str_eq block.previous_hash previous.hash && (Block.is_signed block && is_sealed block))

  -- The loop of `is_valid` over the blocks, from a position on.
  unfoldable pub is_valid_from : ℕ → List Str → Option Block → List Block → Bool
  is_valid_from position seen previous [] = true
  is_valid_from position seen previous (block ∷ blocks) =
      if is_err (validate_block_field_sizes block) || not (block.index == position)
      then false
      else elim (see_transactions block.index seen block.transactions) [
        | none ↦ false
        | some seen' ↦
            if not (str_eq block.hash (calculate_hash block)) || not (links previous block)
            then false
            else is_valid_from (position + 1) seen' (some block) blocks
      ]

  -- `Blockchain::is_valid`
  unfoldable pub is_valid : Blockchain → Bool
  is_valid bc = is_valid_from 0 [] none bc.chain
