-- ===== src/Runtime.antt =====
-- src/runtime.rs: the node with its validator identity, and what it does with the messages of a
-- session. Sockets, tasks and the lock are left out: what happens under one lock is one function.
pub mod Sync
pub mod Serving
pub mod Candidates
pub mod Requests
pub mod Adopting
pub mod Sessions
pub mod Start
use aion_blockchain.Prelude.{
  ◌&&◌, ◌++◌, ◌∷◌, ◌>>=◌, ◌>>◌, Bool, List, Option, Result, Str, [], any, bytes_of, checked_add,
  err, fail_if, false, if◌then◌else◌, is_empty, last, length, ltb, max, none, not, ok, ok_or, some,
  str_eq, text, true, ℕ,
}
use aion_blockchain.Protocol.{address_hex_length, hash_hex_length, is_fixed_hex}
use aion_blockchain.Crypto.{Crypto}
use aion_blockchain.Core.Transaction.{Transaction}
use aion_blockchain.Core.Block.{Block}
use aion_blockchain.State.{balance_of, nonce_of}
use aion_blockchain.Consensus.{is_validator_allowed}
use aion_blockchain.Wallet.{Wallet}
use aion_blockchain.Validator
use aion_blockchain.Validator.{ValidatorIdentity}
use aion_blockchain.Network.Message.{NetworkMessage, Serde}
use aion_blockchain.Network.Validation.{current_timestamp}
use aion_blockchain.Chain.Blockchain.{Clock}
use aion_blockchain.Node.{Disk, Node, insert_transaction_into_mempool, produce_block}
use aion_blockchain.Node.Messages.{chunk_at, receive_message, select_validator}

pub record NodeRuntime : Type 0 where
  pub node : Node
  pub validator_identity : Option ValidatorIdentity
  pub validator_keystore_locked : Bool
  pub chain_sync_active : Bool

pub data NodeRole : Type 0 where
  observer validator : NodeRole

pub data RuntimeAction : Type 0 where
  reply : NetworkMessage → RuntimeAction
  broadcast : NetworkMessage → RuntimeAction

-- `NodeRuntime::role`
unfoldable pub role : NodeRuntime → NodeRole
role rt = elim rt.validator_identity [ none ↦ NodeRole.observer | some _ ↦ NodeRole.validator ]

-- The test of `from_node` on an identity.
abbrev pub is_allowed : Node → Option ValidatorIdentity → Bool
is_allowed node none = true
is_allowed node (some identity) = is_validator_allowed node.consensus (Validator.address identity)

-- `NodeRuntime::from_node`
unfoldable pub from_node : Node → Option ValidatorIdentity → Result NodeRuntime
from_node node validator_identity = do
  fail_if (not (is_allowed node validator_identity))
      "Runtime validator identity is not in the node consensus set"
  ok (record {
    node = node;
    validator_identity = validator_identity;
    validator_keystore_locked = false;
    chain_sync_active = false;
  })

-- `NodeRuntime::chain_chunk_response`
unfoldable pub chain_chunk_response : ℕ → Node → Result NetworkMessage
chain_chunk_response start n = do
  fail_if (ltb (length n.blockchain.chain) start) "Chain chunk start exceeds the chain length"
  ok (
      NetworkMessage.chain_chunk_response start (length n.blockchain.chain)
        (chunk_at start n.blockchain.chain))

-- The branch of `process_message` for the state of an account.
unfoldable pub account_state_response : Str → Node → Result NetworkMessage
account_state_response address n = do
  fail_if (not (is_fixed_hex address address_hex_length)) "Account state request address is invalid"
  tip ← ok_or (last n.blockchain.chain) "Blockchain is empty"
  ok (
      NetworkMessage.account_state_response address (balance_of n.state address)
        (nonce_of n.state address) tip.index tip.hash)

-- The identifier that is reported for a transaction.
abbrev pub reported_id : Transaction → Str
reported_id tx = if is_fixed_hex tx.id hash_hex_length then tx.id else bytes_of "<invalid-id>"

-- The replies to the transaction of a one-shot client.
unfoldable pub acceptance : Bool → Transaction → List RuntimeAction
acceptance one_shot_client tx =
    if one_shot_client
    then RuntimeAction.reply (NetworkMessage.transaction_ack (reported_id tx) true none) ∷ []
    else []

unfoldable pub rejection : Bool → Transaction → List RuntimeAction
rejection one_shot_client tx =
    if one_shot_client && is_fixed_hex (reported_id tx) hash_hex_length
    then RuntimeAction.reply (
        NetworkMessage.transaction_ack (reported_id tx) false
          (some (bytes_of "Transaction rejected by node")))
      ∷ []
    else []

-- What `append_pending_block_action` makes of the outcome of a production.
unfoldable pub announce :
    NodeRuntime
    → List RuntimeAction
    → Result (NodeRuntime × Option Block)
    → NodeRuntime × List RuntimeAction
announce rt actions (err _) = (rt, actions)
announce rt actions (ok (after, none)) = (after, actions)
announce rt actions (ok (after, some block)) =
    (after, actions ++ RuntimeAction.broadcast (NetworkMessage.block block) ∷ [])

module _ ⦃c : Crypto⦄ where
  -- `NodeRuntime::try_produce_block`
  unfoldable pub try_produce_block : Clock → Disk → ℕ → NodeRuntime → Result (NodeRuntime × Block)
  try_produce_block clock disk timestamp rt = do
    fail_if rt.chain_sync_active "Block production is disabled during active chain synchronization"
    identity ←
        ok_or rt.validator_identity
          "Observer node cannot produce blocks because no validator key is loaded"
    (node, block) ← produce_block clock disk timestamp identity.wallet rt.node
    ok (record rt { node = node }, block)

  -- The end of `try_produce_pending_block`, for a node whose turn it may be.
  unfoldable pub produce_in_turn :
      Clock → Disk → ValidatorIdentity → NodeRuntime → Result (NodeRuntime × Option Block)
  produce_in_turn clock disk identity rt = do
    tip ← ok_or (last rt.node.blockchain.chain) "Blockchain is empty"
    selected ← ok_or (select_validator rt.node tip.hash) "Validator could not be selected"
    if not (str_eq selected (Validator.address identity)) then ok (rt, none) else do
      next ← ok_or (checked_add tip.timestamp 1) "Block timestamp overflow"
      (node, block) ←
          produce_block clock disk (max (current_timestamp clock) next) identity.wallet rt.node
      ok (record rt { node = node }, some block)

  -- `NodeRuntime::try_produce_pending_block`
  unfoldable pub try_produce_pending_block :
      Clock → Disk → NodeRuntime → Result (NodeRuntime × Option Block)
  try_produce_pending_block clock disk rt = elim rt.validator_identity [
    | none ↦ ok (rt, none)
    | some identity ↦
        if rt.chain_sync_active
        then ok (rt, none)
        else if is_empty rt.node.mempool.transactions
        then ok (rt, none)
        else produce_in_turn clock disk identity rt
  ]

  -- `NodeRuntime::append_pending_block_action`
  unfoldable pub append_pending_block_action :
      Clock → Disk → NodeRuntime → List RuntimeAction → NodeRuntime × List RuntimeAction
  append_pending_block_action clock disk rt actions =
      announce rt actions (try_produce_pending_block clock disk rt)

  -- The branch of `process_message` for a transaction.
  unfoldable pub process_transaction :
      Clock → Disk → Bool → Transaction → NodeRuntime → NodeRuntime × List RuntimeAction
  process_transaction clock disk one_shot_client tx rt =
      elim (insert_transaction_into_mempool tx rt.node) [
        | err _ ↦ (rt, rejection one_shot_client tx)
        | ok node ↦
            append_pending_block_action clock disk (record rt { node = node })
              (acceptance one_shot_client tx
                ++ RuntimeAction.broadcast (NetworkMessage.transaction tx) ∷ [])
      ]

  module _ ⦃serde : Serde⦄ where
    -- Its branch for a block.
    unfoldable pub process_block :
        Clock → Disk → Block → NodeRuntime → NodeRuntime × List RuntimeAction
    process_block clock disk block rt =
        let after = record rt {
          node = receive_message clock disk (NetworkMessage.block block) rt.node;
        } in
        if ltb (length rt.node.blockchain.chain) (length after.node.blockchain.chain)
        then append_pending_block_action clock disk after
            (RuntimeAction.broadcast (NetworkMessage.block block) ∷ [])
        else (after, [])

    -- `NodeRuntime::process_message`; after an error nothing has changed.
    unfoldable pub process_message :
        Clock
        → Disk
        → Bool
        → NetworkMessage
        → NodeRuntime
        → Result (NodeRuntime × List RuntimeAction)
    process_message clock disk one_shot (NetworkMessage.chain_chunk_request start) rt = do
      answer ← chain_chunk_response start rt.node
      ok (rt, RuntimeAction.reply answer ∷ [])
    process_message clock disk one_shot NetworkMessage.sync_request rt = do
      answer ← chain_chunk_response 0 rt.node
      ok (rt, RuntimeAction.reply answer ∷ [])
    process_message clock disk one_shot (NetworkMessage.account_state_request address) rt = do
      answer ← account_state_response address rt.node
      ok (rt, RuntimeAction.reply answer ∷ [])
    process_message clock disk one_shot (NetworkMessage.account_state_response _ _ _ _ _) rt =
        err (text "Unexpected account state response rejected")
    process_message clock disk one_shot (NetworkMessage.chain_chunk_response _ _ _) rt =
        err (text "Unexpected chain chunk response rejected")
    process_message clock disk one_shot (NetworkMessage.transaction_ack _ _ _) rt =
        err (text "Unexpected transaction ACK rejected")
    process_message clock disk one_shot (NetworkMessage.transaction tx) rt =
        ok (process_transaction clock disk one_shot tx rt)
    process_message clock disk one_shot (NetworkMessage.block block) rt =
        ok (process_block clock disk block rt)
    process_message clock disk one_shot m rt =
        ok (record rt { node = receive_message clock disk m rt.node }, [])
