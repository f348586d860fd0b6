-- ===== src/Node/Reachable.antt =====
-- What holds of a node (src/node/mod.rs) after any sequence of its operations, with any answers of the
-- clock and the file system.
use aion_blockchain.Prelude.{◌≡◌, List, ℕ, ok, Str}
use aion_blockchain.Crypto.{Crypto}
use aion_blockchain.Core.Transaction.{Transaction}
use aion_blockchain.Core.Block.{Block}
use aion_blockchain.State.{State}
use aion_blockchain.Wallet.{Wallet}
use aion_blockchain.Network.Message.{NetworkMessage, Serde}
use aion_blockchain.Chain.Blockchain.{Blockchain, Clock}
use aion_blockchain.Chain.Blockchain.Production.{IsSolvent}
use aion_blockchain.Node.{
  Node, Disk, insert_transaction_into_mempool, produce_block, accept_chain_chunk,
}
use aion_blockchain.Node.Messages.{
  add_peer, add_transaction, adopt_validated_sync_candidate, receive_message, request_chain,
}
use aion_blockchain.Node.Soundness.{IsSound, Keeps, unchanged, insert-Keeps, produce_block-Keeps}
use aion_blockchain.Node.Rebuilding.{after, accept_chain_chunk-Keeps}
use aion_blockchain.Node.Answering.{
  add_peer-Keeps, add_transaction-Keeps, adopt-Keeps, receive_message-Keeps, request_chain-Keeps,
}

module _ ⦃c : Crypto⦄ ⦃serde : Serde⦄ where
  -- One operation of the node on what it is given; those that fail with no change are left out.
  pub data Operation (n : Node) : Node → Type 0 where
    inserted :
        (tx : Transaction) {n' : Node}
        → insert_transaction_into_mempool tx n ≡ ok n'
        → Operation n n'
    submitted : (clock : Clock) (tx : Transaction) → Operation n (add_transaction clock tx n).0
    answered :
        (clock : Clock) (disk : Disk) (m : NetworkMessage)
        → Operation n (receive_message clock disk m n)
    produced :
        (clock : Clock) (disk : Disk) (timestamp : ℕ) (wallet : Wallet) {n' : Node} {block : Block}
        → produce_block clock disk timestamp wallet n ≡ ok (n', block)
        → Operation n n'
    chunk :
        (clock : Clock) (disk : Disk) (start total : ℕ) (blocks : List Block)
        → Operation n (accept_chain_chunk clock disk start total blocks n).1
    requested : (clock : Clock) → Operation n (request_chain clock n)
    peer_added : (peer : Str) → Operation n (add_peer peer n).0

  -- An operation, or the adoption of a candidate whose money sums up and is within the cap.
  pub data Step (n : Node) : Node → Type 0 where
    operated : {n' : Node} → Operation n n' → Step n n'
    adopted :
        (disk : Disk) (bc : Blockchain) (state : State) {n' : Node}
        → IsSolvent state bc.economy
        → adopt_validated_sync_candidate disk bc state n ≡ ok n'
        → Step n n'

  -- A sequence of operations.
  pub data Reachable (n : Node) : Node → Type 0 where
    here : Reachable n n
    next : {m m' : Node} → Reachable n m → Step m m' → Reachable n m'

  pub Operation-Keeps : {n n' : Node} → IsSound n → Operation n n' → Keeps n n'
  Operation-Keeps {n} s (inserted tx h) = insert-Keeps tx n s h
  Operation-Keeps {n} s (submitted clock tx) = add_transaction-Keeps clock tx n s
  Operation-Keeps {n} s (answered clock disk m) = receive_message-Keeps clock disk m n s
  Operation-Keeps {n} s (produced clock disk timestamp wallet h) =
      produce_block-Keeps clock disk timestamp wallet n s h
  Operation-Keeps {n} s (chunk clock disk start total blocks) =
      accept_chain_chunk-Keeps clock disk start total blocks n s
  Operation-Keeps {n} s (requested clock) = request_chain-Keeps clock n s
  Operation-Keeps {n} s (peer_added peer) = add_peer-Keeps peer n s

  Step-Keeps : {n n' : Node} → IsSound n → Step n n' → Keeps n n'
  Step-Keeps s (operated h) = Operation-Keeps s h
  Step-Keeps {n} s (adopted disk bc state solvent h) = adopt-Keeps disk bc state n solvent s h

  -- From a node whose money (and that of its genesis) is balanced and within the cap, whose pool is
  -- valid and whose peer registry is, any sequence of operations (messages of every kind, submitted
  -- transactions, blocks that it produces, chunks of another chain, balanced candidates that it adopts,
  -- with any answers of clock and file system) leads to such a node, and its chain never gets shorter.
  pub Reachable-Keeps : {n n' : Node} → IsSound n → Reachable n n' → Keeps n n'
  Reachable-Keeps {n} s here = unchanged n s
  Reachable-Keeps s (next path step) =
      let k = Reachable-Keeps s path in after k (Step-Keeps k.sound step)
