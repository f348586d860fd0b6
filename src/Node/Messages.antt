-- ===== src/Node/Messages.antt =====
-- src/node/mod.rs: how a node answers messages and calls from outside, and how it takes over a chain
-- that was validated apart from it.
use aion_blockchain.Prelude.{
  ◌>>=◌, ◌>>◌, ◌==◌, Bool, List, Option, Result, Str, any, drop, err, fail_if, false, first,
  if◌then◌else◌, last, length, ltb, min, none, not, ok, ok_or, some, str_eq, take, true, ℕ, ◌+◌,
  ◌-◌,
}
use aion_blockchain.Protocol.{max_sync_blocks_per_message}
use aion_blockchain.Crypto.{Crypto}
use aion_blockchain.Core.Transaction.{Transaction}
use aion_blockchain.Core.Block.{Block}
use aion_blockchain.State.{State}
use aion_blockchain.Consensus.{select_validator_from_hash}
use aion_blockchain.Network
use aion_blockchain.Network.{Network}
use aion_blockchain.Network.Message.{NetworkMessage, Serde}
use aion_blockchain.Chain.Mempool
use aion_blockchain.Chain.Blockchain.{Blockchain, Clock}
use aion_blockchain.Node.{
  [], Disk, Node, accept_chain_chunk, insert_transaction_into_mempool, persist, receive_block,
  remove_confirmed_transactions, synchronize_chain,
}
use aion_blockchain.Node
use aion_blockchain.Node.Validation.{validate_and_apply_block}

-- `self.blockchain.chain[start..end].to_vec()` for the chunk at a start within the chain.
unfoldable pub chunk_at : ℕ → List Block → List Block
chunk_at start chain =
    let end = min (start + max_sync_blocks_per_message) (length chain) in
    take (end - start) (drop start chain)

-- `Node::add_peer`, `Node::peer_count`
unfoldable pub add_peer : Str → Node → Node × Bool
add_peer peer n =
    let (network, added) = Network.add_peer peer n.network in
    (record n { network = network }, added)

unfoldable pub peer_count : Node → ℕ
peer_count n = Network.peer_count n.network

-- `Node::sync_candidate_snapshot`
unfoldable pub sync_candidate_snapshot : Node → Node
sync_candidate_snapshot n = Node.new n.blockchain n.state n.consensus

-- The branch of `adopt_validated_sync_candidate` for a candidate of the local length, which changes
-- nothing.
unfoldable pub check_equal_candidate : Blockchain → Node → Result Node
check_equal_candidate candidate_blockchain n = do
  candidate_tip ← ok_or (last candidate_blockchain.chain) "Candidate blockchain is empty"
  local_tip ← ok_or (last n.blockchain.chain) "Local blockchain is empty"
  fail_if (not (str_eq candidate_tip.hash local_tip.hash))
      "Different equal-length candidate fork rejected"
  ok n

-- `Node::adopt_validated_sync_candidate`
unfoldable pub adopt_validated_sync_candidate : Disk → Blockchain → State → Node → Result Node
adopt_validated_sync_candidate disk candidate_blockchain candidate_state n = do
  local_genesis ← ok_or (first n.blockchain.chain) "Local genesis was not found"
  candidate_genesis ← ok_or (first candidate_blockchain.chain) "Candidate genesis was not found"
  fail_if (not (str_eq candidate_genesis.hash local_genesis.hash))
      "Candidate genesis does not match local genesis"
  fail_if (ltb (length candidate_blockchain.chain) (length n.blockchain.chain))
      "Candidate blockchain is shorter than the current chain"
  if length candidate_blockchain.chain == length n.blockchain.chain
      then check_equal_candidate candidate_blockchain n
      else (persist disk candidate_blockchain.chain
            "Synchronized blockchain could not be written to persistent storage: "
          >> ok (record n {
            blockchain = candidate_blockchain;
            state = candidate_state;
            mempool = Mempool.new;
          }))

module _ ⦃c : Crypto⦄ where
  -- `Node::select_validator`
  unfoldable pub select_validator : Node → Str → Option Str
  select_validator n seed = elim (select_validator_from_hash n.consensus seed) [
    | none ↦ none
    | some validator ↦ some validator.address
  ]

  -- `Node::apply_block_to_sync_candidate`
  unfoldable pub apply_block_to_sync_candidate : Clock → Block → Node → Result Node
  apply_block_to_sync_candidate clock block n = do
    (blockchain, state) ← validate_and_apply_block clock n.consensus block n.blockchain n.state
    ok (record n {
      blockchain = blockchain;
      state = state;
      mempool = remove_confirmed_transactions block n.mempool;
    })

  -- `Node::verify_equal_chain`
  unfoldable pub verify_equal_chain : Clock → Disk → List Block → Node → Result Node
  verify_equal_chain clock disk chain n = do
    fail_if (not (length chain == length n.blockchain.chain))
        "Remote chain to validate is not the same length as the local chain"
    synchronize_chain clock disk chain n

  module _ ⦃serde : Serde⦄ where
    -- The calls of `self.network`.
    unfoldable pub network_receive : Clock → NetworkMessage → Node → Node
    network_receive clock m n = record n { network = Network.receive clock m n.network }

    unfoldable pub network_broadcast : Clock → NetworkMessage → Node → Node
    network_broadcast clock m n = record n { network = Network.broadcast clock m n.network }

    -- `Node::add_transaction`
    unfoldable pub add_transaction : Clock → Transaction → Node → Node × Bool
    add_transaction clock tx n = elim (insert_transaction_into_mempool tx n) [
      | err _ ↦ (n, false)
      | ok after ↦ (network_broadcast clock (NetworkMessage.transaction tx) after, true)
    ]

    -- `Node::request_chain`
    unfoldable pub request_chain : Clock → Node → Node
    request_chain clock n =
        network_broadcast clock (NetworkMessage.chain_chunk_request 0)
          (record n { sync_buffer = []; sync_expected_total = none })

    -- The branch of `receive_message` for a transaction.
    unfoldable pub receive_transaction : Transaction → Node → Node
    receive_transaction tx n = elim (insert_transaction_into_mempool tx n) [
      | err _ ↦ n
      | ok after ↦ after
    ]

    -- Its branch for the request of a chunk.
    unfoldable pub answer_chunk_request : Clock → ℕ → Node → Node
    answer_chunk_request clock start n =
        if ltb (length n.blockchain.chain) start
        then n
        else network_broadcast clock
            (NetworkMessage.chain_chunk_response start (length n.blockchain.chain)
              (chunk_at start n.blockchain.chain))
            n

    -- What follows a chunk: after one that is not the last, the next is requested.
    unfoldable pub request_next : Clock → Result (Option ℕ) → Node → Node
    request_next clock (err _) n = n
    request_next clock (ok none) n = n
    request_next clock (ok (some next_index)) n =
        network_broadcast clock (NetworkMessage.chain_chunk_request next_index) n

    -- Its branch for a chunk.
    unfoldable pub receive_chunk : Clock → Disk → ℕ → ℕ → List Block → Node → Node
    receive_chunk clock disk start total blocks n =
        let (outcome, after) = accept_chain_chunk clock disk start total blocks n in
        request_next clock outcome after

    -- `Node::receive_message`
    unfoldable pub receive_message : Clock → Disk → NetworkMessage → Node → Node
    receive_message clock disk (NetworkMessage.transaction tx) n = receive_transaction tx n
    receive_message clock disk (NetworkMessage.block block) n =
        if any (λ (known : Block). str_eq known.hash block.hash) n.blockchain.chain
        then n
        else (receive_block clock disk block n).0
    receive_message clock disk (NetworkMessage.chain_chunk_request start) n =
        answer_chunk_request clock start n
    receive_message clock disk (NetworkMessage.chain_chunk_response start total blocks) n =
        receive_chunk clock disk start total blocks n
    receive_message clock disk m n = network_receive clock m n
