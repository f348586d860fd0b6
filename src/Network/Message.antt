-- ===== src/Network/Message.antt =====
-- src/network/mod.rs: the messages between nodes, and the crate that puts them into bytes.
use aion_blockchain.Prelude.{Bool, Bytes, List, Option, Str, ℕ, none, some, length, leb, false}
use aion_blockchain.Protocol.{max_network_message_bytes}
use aion_blockchain.Core.Transaction.{Transaction}
use aion_blockchain.Core.Block.{Block}

pub data NetworkMessage : Type 0 where
  handshake :
      (node_id public_key listen_address network_id : Str)
      → (protocol_version timestamp : ℕ) → (challenge signature : Str) → NetworkMessage
  handshake_ack :
      (node_id public_key network_id : Str)
      → (protocol_version timestamp : ℕ) → (challenge : Str) → (accepted : Bool) → (signature : Str)
      → NetworkMessage
  transaction : Transaction → NetworkMessage
  transaction_ack : (transaction_id : Str) (accepted : Bool) (reason : Option Str) → NetworkMessage
  block : Block → NetworkMessage
  sync_request : NetworkMessage
  chain_chunk_request : (start_index : ℕ) → NetworkMessage
  chain_chunk_response : (start_index total_blocks : ℕ) (blocks : List Block) → NetworkMessage
  account_state_request : (address : Str) → NetworkMessage
  account_state_response :
      (address : Str) (balance nonce tip_index : ℕ) (tip_hash : Str) → NetworkMessage

-- serde_json, whose code is not in the repository: `to_vec` and `from_slice`, `none` for an error.
pub record Serde : Type 0 where
  pub to_vec : NetworkMessage → Option Bytes
  pub from_slice : Bytes → Option NetworkMessage

-- The test of `message_within_limits` on the serialized message.
abbrev pub serialized_size_ok : Option Bytes → Bool
serialized_size_ok none = false
serialized_size_ok (some bytes) = leb (length bytes) max_network_message_bytes
