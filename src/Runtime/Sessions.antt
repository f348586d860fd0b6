-- ===== src/Runtime/Sessions.antt =====
-- What the messages of a session do to the node (src/runtime.rs).
use aion_blockchain.Prelude.{
  err, Result, max, checked_add, str_eq, not, is_empty, last, ok_or, arith, bind-eq-ok,
  ok-injective, Bool-cases, Result-cases, Option-cases, inl, inr, subst, ◌≡◌, ◌∷◌, ◌++◌, Bool, List,
  Option, [], length, ltb, none, ok, refl, some,
}
use aion_blockchain.Crypto.{Crypto}
use aion_blockchain.Core.Transaction.{Transaction}
use aion_blockchain.Core.Block.{Block}
use aion_blockchain.Chain.Blockchain.{Clock}
use aion_blockchain.Network.Message.{NetworkMessage, Serde}
use aion_blockchain.Validator
use aion_blockchain.Validator.{ValidatorIdentity}
use aion_blockchain.Node.{Disk, Node, insert_transaction_into_mempool, produce_block}
use aion_blockchain.Node.Messages.{select_validator, receive_message}
use aion_blockchain.Node.Soundness.{IsSound, Keeps, unchanged, insert-Keeps, produce_block-Keeps}
use aion_blockchain.Node.Rebuilding.{after}
use aion_blockchain.Node.Answering.{receive_message-Keeps}
use aion_blockchain.Runtime.{
  current_timestamp, announce, NodeRuntime, RuntimeAction, acceptance, account_state_response,
  append_pending_block_action, chain_chunk_response, process_block, process_message,
  process_transaction, produce_in_turn, try_produce_pending_block,
}

module _ ⦃c : Crypto⦄ where
  unmoved :
      (rt : NodeRuntime) {rt' : NodeRuntime} → IsSound rt.node → rt ≡ rt' → Keeps rt.node rt'.node
  unmoved rt s e = subst (λ (r : NodeRuntime). Keeps rt.node r.node) e (unchanged rt.node s)

  produce_in_turn-Keeps :
      (clock : Clock) (disk : Disk) (identity : ValidatorIdentity) (rt : NodeRuntime)
      {rt' : NodeRuntime} {block : Option Block}
      → IsSound rt.node
      → produce_in_turn clock disk identity rt ≡ ok (rt', block)
      → Keeps rt.node rt'.node
  unfolding produce_in_turn
  produce_in_turn-Keeps clock disk identity rt {rt'} {block} s h =
      let (tip, _, h) =
        bind-eq-ok (ok_or (last rt.node.blockchain.chain) "Blockchain is empty") _ h in
      let (selected, _, h) =
        bind-eq-ok (ok_or (select_validator rt.node tip.hash) "Validator could not be selected") _
          h in
      elim (Bool-cases (not (str_eq selected (Validator.address identity)))) [
        | inl other ↦
            subst (λ (r : NodeRuntime × Option Block). Keeps rt.node r.0.node)
              (ok-injective (rw other at h)) (unchanged rt.node s)
        | inr own ↦
            let (next, _, h) =
              bind-eq-ok (ok_or (checked_add tip.timestamp 1) "Block timestamp overflow") _
                (rw own at h) in
            let ((node, made), e, h) =
              bind-eq-ok
                (produce_block clock disk (max (current_timestamp clock) next) identity.wallet
                  rt.node)
                _ h in
            subst (λ (r : NodeRuntime × Option Block). Keeps rt.node r.0.node) (ok-injective h)
              (produce_block-Keeps clock disk (max (current_timestamp clock) next) identity.wallet
                rt.node s e)
      ]

  try_produce_pending_block-Keeps :
      (clock : Clock) (disk : Disk) (rt : NodeRuntime) {rt' : NodeRuntime} {block : Option Block}
      → IsSound rt.node
      → try_produce_pending_block clock disk rt ≡ ok (rt', block)
      → Keeps rt.node rt'.node
  unfolding try_produce_pending_block
  try_produce_pending_block-Keeps clock disk rt {rt'} {block} s h =
      elim (Option-cases rt.validator_identity) [
        | inl e ↦ unmoved rt {rt' = rt'} s (ground (arith, e, h))
        | inr (identity, e) ↦ elim (Bool-cases rt.chain_sync_active) [
          | inl active ↦ unmoved rt {rt' = rt'} s (ground (arith, e, active, h))
          | inr idle ↦ elim (Bool-cases (is_empty rt.node.mempool.transactions)) [
            | inl empty ↦ unmoved rt {rt' = rt'} s (ground (arith, e, idle, empty, h))
            | inr pending ↦
                let own : produce_in_turn clock disk identity rt ≡ ok (rt', block) =
                  ground (arith, e, idle, pending, h) in
                produce_in_turn-Keeps clock disk identity rt s own
          ]
        ]
      ]

  announce-Keeps :
      (rt : NodeRuntime) (actions : List RuntimeAction)
      (outcome : Result (NodeRuntime × Option Block)) {n : Node}
      → Keeps n rt.node
      → ((rt' : NodeRuntime) (block : Option Block)
          → outcome ≡ ok (rt', block)
          → Keeps rt.node rt'.node)
      → Keeps n (announce rt actions outcome).0.node
  unfolding announce
  announce-Keeps rt actions (err _) k f = k
  announce-Keeps rt actions (ok (next, none)) k f = after k (f next _ refl)
  announce-Keeps rt actions (ok (next, some block)) k f = after k (f next _ refl)

  -- Producing after a step, and telling the peers, keeps what the step keeps.
  append-Keeps :
      (clock : Clock) (disk : Disk) (rt : NodeRuntime) (actions : List RuntimeAction) {n : Node}
      → Keeps n rt.node
      → Keeps n (append_pending_block_action clock disk rt actions).0.node
  unfolding append_pending_block_action
  append-Keeps clock disk rt actions k =
      announce-Keeps rt actions (try_produce_pending_block clock disk rt) k
        (λ rt' block e. try_produce_pending_block-Keeps clock disk rt k.sound e)

  process_transaction-Keeps :
      (clock : Clock) (disk : Disk) (one_shot : Bool) (tx : Transaction) (rt : NodeRuntime)
      → IsSound rt.node
      → Keeps rt.node (process_transaction clock disk one_shot tx rt).0.node
  unfolding process_transaction
  process_transaction-Keeps clock disk one_shot tx rt s =
      let actions =
        acceptance one_shot tx ++ RuntimeAction.broadcast (NetworkMessage.transaction tx) ∷ [] in
      elim (Result-cases (insert_transaction_into_mempool tx rt.node)) [
        | inr (_, e) ↦
            subst (λ m. Keeps rt.node m) {x = rt.node} (ground (arith, e)) (unchanged rt.node s)
        | inl (node, e) ↦
            let next = record rt { node = node } in
            subst (λ m. Keeps rt.node m)
              {x = (append_pending_block_action clock disk next actions).0.node} (ground (arith, e))
              (append-Keeps clock disk next actions (insert-Keeps tx rt.node s e))
      ]

  module _ ⦃serde : Serde⦄ where
    process_block-Keeps :
        (clock : Clock) (disk : Disk) (block : Block) (rt : NodeRuntime)
        → IsSound rt.node
        → Keeps rt.node (process_block clock disk block rt).0.node
    unfolding process_block
    process_block-Keeps clock disk block rt s =
        let m = NetworkMessage.block block in
        let next = record rt { node = receive_message clock disk m rt.node } in
        let actions = RuntimeAction.broadcast m ∷ [] in
        let k = receive_message-Keeps clock disk m rt.node s in
        elim (Bool-cases
          (ltb (length rt.node.blockchain.chain) (length next.node.blockchain.chain))) [
            | inr e ↦ subst (λ m. Keeps rt.node m) {x = next.node} (ground (arith, e)) k
            | inl e ↦
                subst (λ m. Keeps rt.node m)
                  {x = (append_pending_block_action clock disk next actions).0.node}
                  (ground (arith, e)) (append-Keeps clock disk next actions k)
          ]

    -- A message of a session that is not refused, of whatever kind and with whatever clock and file
    -- system, leaves a sound node sound and its chain no shorter.
    pub process_message-Keeps :
        (clock : Clock) (disk : Disk) (one_shot : Bool) (m : NetworkMessage) (rt : NodeRuntime)
        {rt' : NodeRuntime} {actions : List RuntimeAction}
        → IsSound rt.node
        → process_message clock disk one_shot m rt ≡ ok (rt', actions)
        → Keeps rt.node rt'.node
    unfolding process_message
    process_message-Keeps clock disk one_shot (NetworkMessage.chain_chunk_request start) rt {rt'} s
          h =
        let (_, _, h) = bind-eq-ok (chain_chunk_response start rt.node) _ h in
        unmoved rt {rt' = rt'} s (ground (arith, h))
    process_message-Keeps clock disk one_shot NetworkMessage.sync_request rt {rt'} s h =
        let (_, _, h) = bind-eq-ok (chain_chunk_response 0 rt.node) _ h in
        unmoved rt {rt' = rt'} s (ground (arith, h))
    process_message-Keeps clock disk one_shot (NetworkMessage.account_state_request address) rt
          {rt'} s h =
        let (_, _, h) = bind-eq-ok (account_state_response address rt.node) _ h in
        unmoved rt {rt' = rt'} s (ground (arith, h))
    process_message-Keeps clock disk one_shot (NetworkMessage.account_state_response _ _ _ _ _) rt s
          h =
        absurd (ground (arith, h))
    process_message-Keeps clock disk one_shot (NetworkMessage.chain_chunk_response _ _ _) rt s h =
        absurd (ground (arith, h))
    process_message-Keeps clock disk one_shot (NetworkMessage.transaction_ack _ _ _) rt s h =
        absurd (ground (arith, h))
    process_message-Keeps clock disk one_shot (NetworkMessage.transaction tx) rt s h =
        subst (λ (r : NodeRuntime × List RuntimeAction). Keeps rt.node r.0.node) (ok-injective h)
          (process_transaction-Keeps clock disk one_shot tx rt s)
    process_message-Keeps clock disk one_shot (NetworkMessage.block block) rt s h =
        subst (λ (r : NodeRuntime × List RuntimeAction). Keeps rt.node r.0.node) (ok-injective h)
          (process_block-Keeps clock disk block rt s)
    process_message-Keeps clock disk one_shot m rt s h =
        subst (λ (r : NodeRuntime × List RuntimeAction). Keeps rt.node r.0.node) (ok-injective h)
          (receive_message-Keeps clock disk m rt.node s)
