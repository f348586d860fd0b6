-- ===== src/Wallet/Handshake.antt =====
-- src/wallet/mod.rs: the messages that two nodes sign when they connect, and their verification.
use aion_blockchain.Prelude.{
  ◌++◌, ◌&&◌, Bool, true, false, Bytes, Str, ℕ, Option, none, some, bytes_of, str_eq, decimal,
}
use aion_blockchain.Crypto.{Crypto}
use aion_blockchain.Wallet.{Wallet, public_key_hex, sign, address_from_public_key, verify}

-- `format!("{}", flag)`
abbrev pub flag_text : Bool → Str
flag_text true = bytes_of "true"
flag_text false = bytes_of "false"

-- `Wallet::node_handshake_message`
unfoldable pub node_handshake_message : Str → Str → Str → Str → ℕ → ℕ → Str → Bytes
node_handshake_message node_id public_key_hex listen_address network_id protocol_version timestamp
      challenge =
    bytes_of "AION_P2P_HANDSHAKE_V1\nnode_id="
    ++ node_id
    ++ bytes_of "\npublic_key="
    ++ public_key_hex
    ++ bytes_of "\nlisten_address="
    ++ listen_address
    ++ bytes_of "\nnetwork_id="
    ++ network_id
    ++ bytes_of "\nprotocol_version="
    ++ decimal protocol_version
    ++ bytes_of "\ntimestamp="
    ++ decimal timestamp
    ++ bytes_of "\nchallenge="
    ++ challenge

-- `Wallet::node_handshake_ack_message`
unfoldable pub node_handshake_ack_message : Str → Str → Str → ℕ → ℕ → Str → Bool → Bytes
node_handshake_ack_message node_id public_key_hex network_id protocol_version timestamp challenge
      accepted =
    bytes_of "AION_P2P_HANDSHAKE_ACK_V1\nnode_id="
    ++ node_id
    ++ bytes_of "\npublic_key="
    ++ public_key_hex
    ++ bytes_of "\nnetwork_id="
    ++ network_id
    ++ bytes_of "\nprotocol_version="
    ++ decimal protocol_version
    ++ bytes_of "\ntimestamp="
    ++ decimal timestamp
    ++ bytes_of "\nchallenge="
    ++ challenge
    ++ bytes_of "\naccepted="
    ++ flag_text accepted

-- The comparison of the claimed node with the one that the key leads to.
abbrev pub is_derived : Option Str → Str → Bool
is_derived none node_id = false
is_derived (some address) node_id = str_eq address node_id

module _ ⦃c : Crypto⦄ where
  -- `Wallet::sign_node_handshake`
  unfoldable pub sign_node_handshake : Wallet → Str → Str → ℕ → ℕ → Str → Str
  sign_node_handshake w listen_address network_id protocol_version timestamp challenge = sign w (
      node_handshake_message w.address (public_key_hex w) listen_address network_id protocol_version
        timestamp challenge)

  -- `Wallet::verify_node_handshake`
  unfoldable pub verify_node_handshake : Str → Str → Str → Str → ℕ → ℕ → Str → Str → Bool
  verify_node_handshake node_id public_key_hex listen_address network_id protocol_version timestamp
        challenge signature_hex =
      is_derived (address_from_public_key public_key_hex) node_id
      && verify public_key_hex
          (node_handshake_message node_id public_key_hex listen_address network_id protocol_version
            timestamp challenge)
          signature_hex

  -- `Wallet::sign_node_handshake_ack`
  unfoldable pub sign_node_handshake_ack : Wallet → Str → ℕ → ℕ → Str → Bool → Str
  sign_node_handshake_ack w network_id protocol_version timestamp challenge accepted = sign w (
      node_handshake_ack_message w.address (public_key_hex w) network_id protocol_version timestamp
        challenge accepted)

  -- `Wallet::verify_node_handshake_ack`
  unfoldable pub verify_node_handshake_ack : Str → Str → Str → ℕ → ℕ → Str → Bool → Str → Bool
  verify_node_handshake_ack node_id public_key_hex network_id protocol_version timestamp challenge
        accepted signature_hex =
      is_derived (address_from_public_key public_key_hex) node_id
      && verify public_key_hex
          (node_handshake_ack_message node_id public_key_hex network_id protocol_version timestamp
            challenge accepted)
          signature_hex
