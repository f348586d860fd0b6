-- ===== src/Runtime/Sync.antt =====
-- src/runtime.rs: the synchronization of the chain with a peer. The peer is the list of its answers,
-- each with the time at which it is handled; the node is read and written under the lock at three
-- moments, and between them other tasks may change it.
use aion_blockchain.Prelude.{
  ◌++◌, ◌==◌, ◌>>=◌, ◌>>◌, ◌||◌, ◌&&◌, ◌+◌, ◌-◌, ◌∷◌, List, Result, Str, [], checked_add,
  checked_sub, drop, err, fail_if, first, if◌then◌else◌, is_empty, last, length, ltb, not, ok,
  ok_or, str_eq, take, text, ℕ,
}
use aion_blockchain.Protocol.{max_sync_blocks_per_message}
use aion_blockchain.Crypto.{Crypto}
use aion_blockchain.Core.Block.{Block, calculate_hash}
use aion_blockchain.Chain.Blockchain.{Clock}
use aion_blockchain.Network.Message.{NetworkMessage}
use aion_blockchain.Bootstrap.{canonical_bootstrap}
use aion_blockchain.Node
use aion_blockchain.Node.{Disk, Node}
use aion_blockchain.Node.Messages.{
  adopt_validated_sync_candidate, apply_block_to_sync_candidate, sync_candidate_snapshot,
  verify_equal_chain,
}

pub record ChainChunk : Type 0 where
  pub start_index : ℕ
  pub total_blocks : ℕ
  pub blocks : List Block

-- What comes of one request: a message or the failure of the connection, and when it is handled.
pub record Answer : Type 0 where
  pub time : Clock
  pub message : Result NetworkMessage

-- The loop of `validate_chunk` over the blocks, from an offset on.
unfoldable pub check_order : ℕ → ℕ → List Block → Result (Unit {0})
check_order start offset [] = ok tt
check_order start offset (block ∷ blocks) = do
  expected ← ok_or (checked_add start offset) "Remote block index overflow"
  fail_if (not (block.index == expected)) "Remote chain chunk block order is invalid"
  check_order start (offset + 1) blocks

-- `NodeRuntime::validate_chunk`
unfoldable pub validate_chunk : ChainChunk → ℕ → Result (Unit {0})
validate_chunk chunk expected_start = do
  fail_if (not (chunk.start_index == expected_start))
      "Remote chain chunk start_index does not match the expected value"
  fail_if (chunk.total_blocks == 0 || ltb chunk.total_blocks chunk.start_index)
      "Remote chain chunk total block count is invalid"
  fail_if (ltb max_sync_blocks_per_message (length chunk.blocks))
      "Remote chain chunk exceeds the 256 block limit"
  end ←
      ok_or (checked_add chunk.start_index (length chunk.blocks))
        "Remote chain chunk index overflow"
  fail_if (ltb chunk.total_blocks end || (is_empty chunk.blocks && ltb end chunk.total_blocks))
      "Remote chain chunk length is inconsistent with the total block count"
  check_order chunk.start_index 0 chunk.blocks

-- The message that a chunk comes in.
unfoldable pub chunk_of : NetworkMessage → Result ChainChunk
chunk_of (NetworkMessage.chain_chunk_response start total blocks) =
    ok (record { start_index = start; total_blocks = total; blocks = blocks })
chunk_of _ = err (text "Unexpected message rejected during chain synchronization session")

-- `NodeRuntime::request_chunk`, on the answer to the request.
unfoldable pub request_chunk : Answer → ℕ → Result ChainChunk
request_chunk answer requested_start = do
  message ← answer.message
  chunk ← chunk_of message
  validate_chunk chunk requested_start
  ok chunk

-- A connection that ends before the answer.
abbrev closed {ℓ} : {A : Type ℓ} → Result A
closed = err (text "Network connection closed while waiting for a message")

-- `NodeRuntime::request_chunk` on the next answer of the peer, with those that are left.
unfoldable pub next_chunk : ℕ → List Answer → Result (ChainChunk × List Answer)
next_chunk requested_start [] = closed
next_chunk requested_start (answer ∷ answers) = do
  chunk ← request_chunk answer requested_start
  ok (chunk, answers)

-- The loop of `sync_from_peer` that reads a remote chain of the local length.
unfoldable pub read_chain : ℕ → List Block → List Answer → Result (List Block)
read_chain total chain [] = if ltb (length chain) total then closed else ok chain
read_chain total chain (answer ∷ answers) = if not (ltb (length chain) total) then ok chain else do
  chunk ← request_chunk answer (length chain)
  fail_if (not (chunk.total_blocks == total))
      "Remote total block count changed during chain synchronization"
  read_chain total (chain ++ chunk.blocks) answers

-- The remote block at the height of the local tip is in the first chunk or is asked for: the chunk
-- that holds it, from its first index on.
unfoldable pub read_anchor : ℕ → ChainChunk → List Answer → Result ((ℕ × List Block) × List Answer)
read_anchor anchor_index status answers =
    if ltb anchor_index (length status.blocks) then ok ((0, status.blocks), answers) else do
      (chunk, rest) ← next_chunk anchor_index answers
      fail_if (ltb chunk.total_blocks status.total_blocks)
          "Remote total block count decreased during chain synchronization"
      ok ((chunk.start_index, chunk.blocks), rest)

-- The end of both synchronizations, under the lock again.
unfoldable pub commit : Disk → ℕ → Node → Node → Result Node
commit disk original_height candidate n = do
  fail_if (not (length n.blockchain.chain == original_height))
      "Local tip changed during chain synchronization"
  adopt_validated_sync_candidate disk candidate.blockchain candidate.state n

module _ ⦃c : Crypto⦄ where
  -- The loops that apply the blocks of a chunk to the candidate.
  unfoldable pub apply_blocks : Clock → List Block → Node → Result Node
  apply_blocks clock [] candidate = ok candidate
  apply_blocks clock (block ∷ blocks) candidate = do
    extended ← apply_block_to_sync_candidate clock block candidate
    apply_blocks clock blocks extended

  -- The loops that ask for the blocks that are missing up to the total.
  unfoldable pub fetch_blocks : ℕ → List Answer → Node → Result Node
  fetch_blocks total [] candidate =
      if ltb (length candidate.blockchain.chain) total then closed else ok candidate
  fetch_blocks total (answer ∷ answers) candidate =
      if not (ltb (length candidate.blockchain.chain) total) then ok candidate else do
        let next_index = length candidate.blockchain.chain
        chunk ← request_chunk answer next_index
        fail_if (ltb chunk.total_blocks total)
            "Remote total block count decreased during chain synchronization"
        extended ← apply_blocks answer.time (take (total - next_index) chunk.blocks) candidate
        fetch_blocks total answers extended

  -- `NodeRuntime::extend_from_common_tip`: the node when it is copied, and when the copy is adopted.
  unfoldable pub extend_from_common_tip :
      Clock → Disk → ChainChunk → ℕ → List Block → List Answer → Node → Node → Result Node
  extend_from_common_tip clock disk status local_height anchor_suffix answers copied n = do
    candidate ← apply_blocks clock anchor_suffix (sync_candidate_snapshot copied)
    fail_if (ltb (length candidate.blockchain.chain) local_height)
        "Candidate blockchain fell behind the local tip"
    complete ← fetch_blocks status.total_blocks answers candidate
    commit disk (length copied.blockchain.chain) complete n

  -- `NodeRuntime::replace_from_full_chain_stream`: the node when its height is read, and at the end.
  unfoldable pub replace_from_full_chain_stream :
      Clock → Disk → ChainChunk → List Answer → Node → Node → Result Node
  replace_from_full_chain_stream clock disk first_chunk answers measured n = do
    bootstrap ← canonical_bootstrap
    let candidate = Node.new bootstrap.blockchain bootstrap.state bootstrap.consensus
    candidate_genesis ←
        ok_or (first candidate.blockchain.chain) "Canonical candidate genesis was not found"
    remote_genesis ←
        ok_or (first first_chunk.blocks) "Remote full-chain chunk does not contain genesis"
    fail_if
        (not (str_eq remote_genesis.hash candidate_genesis.hash)
          || not (str_eq remote_genesis.hash (calculate_hash remote_genesis)))
        "Remote full-chain genesis is invalid"
    started ← apply_blocks clock (drop 1 first_chunk.blocks) candidate
    complete ← fetch_blocks first_chunk.total_blocks answers started
    commit disk (length measured.blockchain.chain) complete n

  -- The branch of `sync_from_peer` for a remote chain of the local length.
  unfoldable pub compare_equal : Clock → Disk → ChainChunk → Str → List Answer → Node → Result Node
  compare_equal clock disk status local_tip_hash answers n = do
    remote_chain ← read_chain status.total_blocks status.blocks answers
    remote_tip ← ok_or (last remote_chain) "Remote blockchain is empty"
    fail_if (not (str_eq remote_tip.hash local_tip_hash))
        "Different remote fork with equal length was rejected"
    verify_equal_chain clock disk remote_chain n

  -- Its branch for a longer remote chain.
  unfoldable pub follow_longer :
      Clock → Disk → ChainChunk → ℕ → Str → List Answer → Node → Node → Result Node
  follow_longer clock disk status local_height local_tip_hash answers middle n = do
    anchor_index ← ok_or (checked_sub local_height 1) "Local blockchain is empty"
    ((anchor_start, anchor_blocks), rest) ← read_anchor anchor_index status answers
    offset ← ok_or (checked_sub anchor_index anchor_start) "Remote anchor index moved backwards"
    remote_anchor ←
        ok_or (first (drop offset anchor_blocks))
          "Remote chain does not contain the local tip anchor block"
    if str_eq remote_anchor.hash local_tip_hash
        then extend_from_common_tip clock disk status local_height (drop (offset + 1) anchor_blocks)
            rest middle n
        else replace_from_full_chain_stream clock disk status rest middle n

  -- `NodeRuntime::sync_from_peer`, after the connection: the node at the three moments at which the
  -- lock is taken. What it returns is the node that it leaves.
  unfoldable pub sync_from_peer : Clock → Disk → List Answer → Node → Node → Node → Result Node
  sync_from_peer clock disk answers early middle n = do
    (status, rest) ← next_chunk 0 answers
    let local_height = length early.blockchain.chain
    local_genesis ← ok_or (first early.blockchain.chain) "Local blockchain is empty"
    local_tip ← ok_or (last early.blockchain.chain) "Local blockchain is empty"
    remote_genesis ← ok_or (first status.blocks) "Remote status chunk does not contain genesis"
    fail_if
        (not (remote_genesis.index == 0)
          || (not (str_eq remote_genesis.hash (calculate_hash remote_genesis))
              || not (str_eq remote_genesis.hash local_genesis.hash)))
        "Remote genesis does not match the canonical genesis"
    if ltb status.total_blocks local_height
        then ok n
        else if status.total_blocks == local_height
        then compare_equal clock disk status local_tip.hash rest n
        else follow_longer clock disk status local_height local_tip.hash rest middle n
