-- ===== src/Node.antt =====
-- src/node/mod.rs: the node, which keeps chain, state, pool, network and synchronization buffer
-- together. The directory of the files is not part of the record.
pub mod Validation
pub mod Messages
pub mod Soundness
pub mod Rebuilding
pub mod Answering
pub mod Reachable
pub mod Chunks
pub mod Adoption
use aion_blockchain.Prelude.{
  String, ◌+◌, text, ◌&&◌, ◌==◌, ◌++◌, ◌∷◌, ◌>>=◌, ◌>>◌, if◌then◌else◌, not, ltb, checked_add, drop,
  first, last, length, is_empty, str_eq, text_about, text_expected, bytes_of, fail_if, ok_or,
  Option, List, Result, Str, Bool, ℕ, zero, suc, [], true, false, none, some, ok, err,
}
use aion_blockchain.Protocol.{max_sync_blocks_per_message}
use aion_blockchain.Crypto.{Crypto}
use aion_blockchain.Core.Transaction.{Transaction}
use aion_blockchain.Core.Block.{Block, calculate_hash}
use aion_blockchain.Economy.{Economy}
use aion_blockchain.State.{State}
use aion_blockchain.Consensus.{Consensus, is_validator_allowed, select_validator_from_hash}
use aion_blockchain.Wallet.{Wallet}
use aion_blockchain.Chain.Mempool
use aion_blockchain.Chain.Mempool.{Mempool}
use aion_blockchain.Chain.Blockchain
use aion_blockchain.Chain.Blockchain.{
  Blockchain, Clock, Produced, create_block_from_mempool, retain_unconfirmed, is_valid,
}
use aion_blockchain.Network
use aion_blockchain.Network.{Network}
use Validation.{validate_transaction_for_mempool, validate_and_apply_block}

pub record Node : Type 0 where
  pub blockchain : Blockchain
  pub state : State
  pub mempool : Mempool
  pub consensus : Consensus
  pub network : Network
  pub genesis_state : State
  pub genesis_economy : Economy
  pub sync_buffer : List Block
  pub sync_expected_total : Option ℕ

-- `Node::new_with_data_directory`
unfoldable pub new : Blockchain → State → Consensus → Node
new blockchain state consensus = record {
  blockchain = blockchain;
  state = state;
  mempool = Mempool.new;
  consensus = consensus;
  network = Network.new;
  genesis_state = state;
  genesis_economy = blockchain.economy;
  sync_buffer = [];
  sync_expected_total = none;
}

-- What the file system answers when a chain is written: nothing, or the text of an error.
abbrev pub Disk : Type 0
Disk = List Block → Option Str

-- `Storage::save_blockchain_to`, with the file operations left to the disk.
unfoldable pub save_blockchain_to : Disk → List Block → Option Str
save_blockchain_to disk [] = some (bytes_of "Empty blockchain cannot be saved")
save_blockchain_to disk (block ∷ blocks) = disk (block ∷ blocks)

-- `save_blockchain_to(…).map_err(…)?`
unfoldable pub persist : Disk → List Block → String → Result (Unit {0})
persist disk chain prefix = elim (save_blockchain_to disk chain) [
  | none ↦ ok tt
  | some e ↦ err (text_about prefix e)
]

-- `Node::remove_confirmed_transactions`, the same loop as in block production.
unfoldable pub remove_confirmed_transactions : Block → Mempool → Mempool
remove_confirmed_transactions block mempool = retain_unconfirmed block.transactions mempool

-- The tests that a chunk passes before the buffer is looked at.
unfoldable pub check_chunk : ℕ → ℕ → List Block → Result (Unit {0})
check_chunk start total blocks = do
  fail_if (ltb max_sync_blocks_per_message (length blocks)) "Sync chunk block limit exceeded"
  fail_if (total == 0) "Sync total block count cannot be zero"
  fail_if (ltb total start) "Sync start index exceeds total block count"
  end ← ok_or (checked_add start (length blocks)) "Sync chunk index overflow"
  fail_if (ltb total end) "Sync chunk exceeds total block count"

-- The first chunk empties the buffer; any other must continue it.
unfoldable pub open_buffer : ℕ → ℕ → Node → Result Node
open_buffer start total n =
    if start == 0 then ok (record n { sync_buffer = []; sync_expected_total = some total }) else do
      fail_if (not (elim n.sync_expected_total [ none ↦ false | some t ↦ t == total ]))
          "Sync total block count changed"
      fail_if (not (length n.sync_buffer == start)) "Sync chunk order is invalid"
      ok n

-- The loop over the blocks of a chunk, from an offset on.
unfoldable pub check_indices : ℕ → ℕ → List Block → Result (Unit {0})
check_indices start offset [] = ok tt
check_indices start offset (block ∷ blocks) = do
  expected ← ok_or (checked_add start offset) "Sync block index overflow"
  if block.index == expected
      then check_indices start (offset + 1) blocks
      else err (
          text_expected "Sync block index order is invalid. Expected: {}, Received: {}" expected
            block.index)

module _ ⦃c : Crypto⦄ where
  -- `Node::insert_transaction_into_mempool`
  unfoldable pub insert_transaction_into_mempool : Transaction → Node → Result Node
  insert_transaction_into_mempool tx n = do
    validate_transaction_for_mempool tx n.state n.blockchain.economy n.mempool
    let (pool, added) = Mempool.add_transaction tx n.mempool
    fail_if (not added) "Transaction could not be added to mempool: limit or duplicate"
    ok (record n { mempool = pool })

  -- `Node::receive_block`
  unfoldable pub receive_block : Clock → Disk → Block → Node → Node × Bool
  receive_block clock disk block n =
      elim (validate_and_apply_block clock n.consensus block n.blockchain n.state) [
        | err _ ↦ (n, false)
        | ok (blockchain, state) ↦ elim (save_blockchain_to disk blockchain.chain) [
          | some _ ↦ (n, false)
          | none ↦ (
            record n {
              blockchain = blockchain;
              state = state;
              mempool = remove_confirmed_transactions block n.mempool;
            },
            true,
          )
        ]
      ]

  -- `Node::produce_block`
  unfoldable pub produce_block : Clock → Disk → ℕ → Wallet → Node → Result (Node × Block)
  produce_block clock disk timestamp wallet n = do
    fail_if (not (is_validator_allowed n.consensus wallet.address))
        "Validator is not registered in the consensus network"
    last_block ← ok_or (last n.blockchain.chain) "Blockchain is empty"
    selected ←
        ok_or (select_validator_from_hash n.consensus last_block.hash)
          "Validator could not be selected"
    fail_if (not (str_eq selected.address wallet.address))
        "Selected validator for this block is different"
    p ← create_block_from_mempool clock timestamp wallet n.mempool n.state n.blockchain
    persist disk p.blockchain.chain
        "Produced blockchain could not be written to persistent storage: "
    ok (record n { blockchain = p.blockchain; state = p.state; mempool = p.mempool }, p.block)

  -- The branch of `synchronize_chain` for a chain of the local length, which changes nothing.
  unfoldable pub check_equal_chain : List Block → Node → Result (Unit {0})
  check_equal_chain chain n = do
    local_tip ← ok_or (last n.blockchain.chain) "Local blockchain is empty"
    remote_tip ← ok_or (last chain) "Incoming blockchain is empty"
    fail_if (not (str_eq remote_tip.hash local_tip.hash))
        "Different equal-length blockchain fork rejected"
    fail_if (not (is_valid (record { chain = chain; economy = n.genesis_economy })))
        "Equal-length blockchain is invalid"
    local_genesis ← ok_or (first n.blockchain.chain) "Local genesis was not found"
    remote_genesis ← ok_or (first chain) "Incoming genesis was not found"
    fail_if (not (str_eq remote_genesis.hash local_genesis.hash)) "Genesis blocks do not match"

  -- The genesis check of `synchronize_chain`.
  unfoldable pub check_genesis : Block → Block → Result (Unit {0})
  check_genesis remote_genesis local_genesis = do
    fail_if (not (remote_genesis.index == 0)) "Genesis index is invalid"
    fail_if (not (str_eq remote_genesis.previous_hash (bytes_of "0")))
        "Genesis previous hash is invalid"
    fail_if (not (str_eq remote_genesis.hash (calculate_hash remote_genesis)))
        "Genesis hash is invalid"
    fail_if (not (str_eq remote_genesis.hash local_genesis.hash)) "Genesis blocks do not match"

  -- The loop that replays the blocks after the genesis block.
  unfoldable pub replay :
      Clock → Consensus → List Block → Blockchain → State → Result (Blockchain × State)
  replay clock consensus [] bc state = ok (bc, state)
  replay clock consensus (block ∷ blocks) bc state =
      validate_and_apply_block clock consensus block bc state >>= λ (bc', state').
      replay clock consensus blocks bc' state'

  -- The rest of `synchronize_chain`, for a longer chain.
  unfoldable pub rebuild_chain : Clock → Disk → List Block → Node → Result Node
  rebuild_chain clock disk chain n = do
    local_genesis ← ok_or (first n.blockchain.chain) "Local genesis was not found"
    remote_genesis ← ok_or (first chain) "Incoming genesis was not found"
    check_genesis remote_genesis local_genesis
    (blockchain, state) ←
        replay clock n.consensus (drop 1 chain)
          (record (Blockchain.new remote_genesis) { economy = n.genesis_economy }) n.genesis_state
    persist disk blockchain.chain
        "Synchronized blockchain could not be written to persistent storage: "
    ok (record n { blockchain = blockchain; state = state; mempool = Mempool.new })

  -- `Node::synchronize_chain`
  unfoldable pub synchronize_chain : Clock → Disk → List Block → Node → Result Node
  synchronize_chain clock disk chain n = do
    fail_if (is_empty chain) "Incoming blockchain is empty"
    fail_if (ltb (length chain) (length n.blockchain.chain))
        "Incoming blockchain is shorter than the current chain"
    if length chain == length n.blockchain.chain
        then check_equal_chain chain n >> ok n
        else rebuild_chain clock disk chain n

  -- The end of `accept_chain_chunk`, after the buffer has been extended.
  unfoldable pub complete_sync : Clock → Disk → ℕ → Node → Result (Option ℕ) × Node
  complete_sync clock disk total n =
      if ltb (length n.sync_buffer) total
      then (ok (some (length n.sync_buffer)), n)
      else if not (length n.sync_buffer == total)
      then (err (text "Sync buffer length is invalid"), n)
      else let taken = record n { sync_buffer = []; sync_expected_total = none } in
        elim (synchronize_chain clock disk n.sync_buffer taken) [
          | err e ↦ (err e, taken)
          | ok after ↦ (ok none, after)
        ]

  -- `Node::accept_chain_chunk`; an error can leave the buffer opened.
  unfoldable pub accept_chain_chunk :
      Clock → Disk → ℕ → ℕ → List Block → Node → Result (Option ℕ) × Node
  accept_chain_chunk clock disk start total blocks n =
      elim (check_chunk start total blocks >> open_buffer start total n) [
        | err e ↦ (err e, n)
        | ok opened ↦
            elim (check_indices start 0 blocks
              >> fail_if (is_empty blocks && ltb start total) "Sync chunk is unexpectedly empty") [
                | err e ↦ (err e, opened)
                | ok _ ↦
                    complete_sync clock disk total
                      (record opened { sync_buffer = opened.sync_buffer ++ blocks })
              ]
      ]
