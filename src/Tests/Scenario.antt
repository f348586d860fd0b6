-- ===== src/Tests/Scenario.antt =====
-- A small network under the toy crates: one validator, one payment, one block.
use aion_blockchain.Prelude.{
  length, wrapping_add, checked_sub, checked_add, ◌≡◌, Result, str_eq, replicate, bytes_of, ◌∷◌, [],
  true, some, ok, err, refl,
}
use aion_blockchain.Protocol.{is_fixed_hex}
use aion_blockchain.Crypto.Toy.{toy, digest, encode, decode, signature_of}
use aion_blockchain.Core.Encoding.{be_bytes, be_value, append_string}
use aion_blockchain.Core.Transaction
use aion_blockchain.Core.Transaction.{Transaction, calculate_id, message}
use aion_blockchain.Core.Block
use aion_blockchain.Core.Block.{
  Block, calculate_hash, preimage, append_signature, append_transactions, is_hash_valid,
}
use aion_blockchain.Economy
use aion_blockchain.Economy.{Economy}
use aion_blockchain.State
use aion_blockchain.State.{State}
use aion_blockchain.State.Accounts.{lookup, insert, total_balance}
use aion_blockchain.Consensus
use aion_blockchain.Consensus.{Consensus}
use aion_blockchain.Wallet
use aion_blockchain.Wallet.{Wallet}
use aion_blockchain.Chain.Mempool
use aion_blockchain.Chain.Mempool.{Mempool}
use aion_blockchain.Chain.Blockchain
use aion_blockchain.Chain.Blockchain.{Blockchain, Clock, Produced}
use aion_blockchain.Chain.Blockchain.Format
use aion_blockchain.Chain.Blockchain.Settlement
use aion_blockchain.Node
use aion_blockchain.Node.Validation
use aion_blockchain.Node.Messages
use aion_blockchain.Runtime
use aion_blockchain.Runtime.Sync
use aion_blockchain.Submission

-- Everything that a run computes with.
unfoldable pub run : Unit {0}
unfolding str_eq checked_add checked_sub wrapping_add is_fixed_hex digest encode decode signature_of
    be_bytes be_value append_string calculate_id message Transaction.new Transaction.new_coinbase
    Transaction.sign Transaction.is_signed calculate_hash preimage append_signature
    append_transactions is_hash_valid Block.new Block.sign Block.is_signed Economy.calculate_fee
    Economy.validate_fee Economy.distribute_fee Economy.add_liquidity_reserve Economy.mint
    Economy.burn Economy.reward_validator lookup insert total_balance State.create_account
    State.balance_of State.nonce_of State.add_balance State.add_treasury State.burn State.credit
    State.debit State.check_sender State.apply_transaction State.apply_transactions_atomically
    Consensus.is_validator_allowed Consensus.add_validator Consensus.total_stake
    Consensus.select_from Consensus.select_validator Consensus.select_validator_from_hash
    Wallet.from_signing_key Wallet.public_key_hex Wallet.sign Wallet.address_from_public_key
    Wallet.verify Mempool.has_valid_protocol_format Mempool.is_authentic Mempool.rejects
    Mempool.add_transaction Mempool.sweep Mempool.collect Mempool.take_valid_transactions
    Format.check_coinbase_format Format.check_normal_format Format.validate_transaction_field_sizes
    Format.validate_all_field_sizes Format.check_genesis_format Format.check_block_format
    Format.validate_block_field_sizes Settlement.add_shares Settlement.sum_shares
    Settlement.ensure_account Settlement.settle_fees Blockchain.chain_ids Blockchain.check_new_ids
    Blockchain.validate_transaction_id_uniqueness Blockchain.validate_future_timestamp
    Blockchain.check_fees Blockchain.retain_unconfirmed Blockchain.execute
    Blockchain.create_block_from_mempool Blockchain.add_received_block Blockchain.see_transactions
    Blockchain.is_sealed Blockchain.links Blockchain.is_valid_from Blockchain.is_valid
    Validation.validate_transaction_field_sizes Validation.validate_all_field_sizes
    Validation.validate_transaction_base Validation.validate_transaction
    Validation.validate_transaction_for_mempool Validation.check_block Validation.check_validator
    Validation.check_block_coinbase Validation.apply_normal Validation.note_coinbase
    Validation.apply_one Validation.walk Validation.conclude Validation.validate_and_apply_block
    Mempool.next_nonce Mempool.advance Mempool.pending_for_sender Mempool.sort_by_nonce
    Mempool.insert_by_nonce Mempool.pending_cost Mempool.add_costs Blockchain.new
    Node.save_blockchain_to Node.persist Node.remove_confirmed_transactions Node.check_chunk
    Node.open_buffer Node.check_indices Node.insert_transaction_into_mempool Node.receive_block
    Node.produce_block Node.check_equal_chain Node.check_genesis Node.replay Node.rebuild_chain
    Node.synchronize_chain Node.complete_sync Node.accept_chain_chunk Node.new Messages.chunk_at
    Messages.sync_candidate_snapshot Messages.check_equal_candidate
    Messages.adopt_validated_sync_candidate Messages.apply_block_to_sync_candidate
    Runtime.chain_chunk_response Runtime.acceptance Runtime.announce
    Runtime.try_produce_pending_block Runtime.append_pending_block_action
    Runtime.process_transaction Runtime.process_message Sync.check_order Sync.validate_chunk
    Sync.chunk_of Sync.request_chunk Sync.next_chunk Sync.read_anchor Sync.commit Sync.apply_blocks
    Sync.fetch_blocks Sync.extend_from_common_tip Sync.follow_longer Sync.sync_from_peer
    Submission.check_prepared Submission.prepare_signed_transaction_from_values
    Submission.prepare_signed_transaction
run = tt

abbrev pub alice : Wallet
alice = Wallet.from_signing_key (replicate 32 1)

abbrev pub bob : Wallet
bob = Wallet.from_signing_key (replicate 32 2)

abbrev pub genesis : Block
genesis = Block.new 0 1_000 (bytes_of "0") (bytes_of "GENESIS") (replicate 64 b'a') []

abbrev pub economy : Economy
economy = record Economy.new { total_supply = 1_000_000_000 }

abbrev pub chain : Blockchain
chain = record { chain = genesis ∷ []; economy = economy }

abbrev pub ledger : State
ledger = State.create_account alice.address 1_000_000_000 State.new

abbrev pub validators : Consensus
validators = (Consensus.add_validator alice.address 700 Consensus.new).0

abbrev pub unsigned : Transaction
unsigned = Transaction.new alice.address (Wallet.public_key_hex alice) bob.address 1_000_000 10 0

abbrev pub payment : Transaction
payment = Transaction.sign (Wallet.sign alice (message unsigned)) unsigned

abbrev pub pool : Mempool
pool = (Mempool.add_transaction payment Mempool.new).0

abbrev pub clock : Clock
clock = some 2_000

abbrev nothing : Produced
nothing = record { block = genesis; blockchain = chain; mempool = Mempool.new; state = State.new }

abbrev produced_or : Result Produced → Produced
produced_or (ok p) = p
produced_or (err _) = nothing

-- Alice produces a block with the payment.
abbrev pub produced : Produced
produced = produced_or (Blockchain.create_block_from_mempool clock 1_500 alice pool ledger chain)

pub produces :
    Blockchain.create_block_from_mempool clock 1_500 alice pool ledger chain ≡ ok produced
unfolding run
produces = refl

-- Another node accepts it.
pub accepts :
    Validation.validate_and_apply_block clock validators produced.block chain ledger
    ≡ ok (produced.blockchain, produced.state)
unfolding run
accepts = refl

pub pool_filled : pool ≡ record { transactions = payment ∷ [] }
unfolding run
pool_filled = refl

pub chain_is_valid : Blockchain.is_valid chain ≡ true
unfolding run
chain_is_valid = refl

pub two_transactions : length produced.block.transactions ≡ 2
unfolding run
two_transactions = refl
