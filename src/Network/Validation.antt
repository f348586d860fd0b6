-- ===== src/Network/Validation.antt =====
-- src/network/mod.rs: the handshakes that a node creates, and the tests that every message passes
-- before it is kept, sent or answered.
use aion_blockchain.Prelude.{
  ◌+◌, ◌-◌, ◌&&◌, ◌==◌, not, leb, length, is_empty, str_eq, bytes_of, Bool, true, false, Option,
  none, some, Str, ℕ,
}
use aion_blockchain.Protocol.{
  address_hex_length, hash_hex_length, is_fixed_hex, max_handshake_age_seconds,
  max_peer_address_length, max_sync_blocks_per_message, network_id, network_protocol_version,
}
use aion_blockchain.Crypto.{Crypto}
use aion_blockchain.Wallet.{Wallet, public_key_hex}
use aion_blockchain.Wallet.Handshake.{
  sign_node_handshake, sign_node_handshake_ack, verify_node_handshake, verify_node_handshake_ack,
}
use aion_blockchain.Chain.Blockchain.{Clock}
use aion_blockchain.Network.Message.{NetworkMessage, Serde, serialized_size_ok}

abbrev pub max_transaction_ack_reason_length : ℕ
max_transaction_ack_reason_length = 512

abbrev pub one_shot_client_listen_address : Str
one_shot_client_listen_address = bytes_of "127.0.0.1:0"

-- `Network::current_timestamp`: zero for a clock before the epoch.
unfoldable pub current_timestamp : Clock → ℕ
current_timestamp none = 0
current_timestamp (some now) = now

-- `u64::abs_diff`
abbrev pub abs_diff : ℕ → ℕ → ℕ
abs_diff a b = (a - b) + (b - a)

-- `Network::handshake_timestamp_valid`
unfoldable pub handshake_timestamp_valid : Clock → ℕ → Bool
unfolding current_timestamp
handshake_timestamp_valid clock timestamp =
    leb (abs_diff (current_timestamp clock) timestamp) max_handshake_age_seconds

-- `Network::handshake_challenge`
unfoldable pub handshake_challenge : NetworkMessage → Option Str
handshake_challenge (NetworkMessage.handshake _ _ _ _ _ _ challenge _) = some challenge
handshake_challenge _ = none

-- `Network::handshake_ack_fields_valid`
unfoldable pub handshake_ack_fields_valid : Str → Str → ℕ → Bool
handshake_ack_fields_valid node_id id protocol_version =
    is_fixed_hex node_id address_hex_length
    && str_eq id network_id
    && protocol_version == network_protocol_version

-- The test of a refusal's or an acceptance's reason.
abbrev pub reason_valid : Bool → Option Str → Bool
reason_valid true none = true
reason_valid false (some reason) =
    not (is_empty reason) && leb (length reason) max_transaction_ack_reason_length
reason_valid _ _ = false

-- `Network::transaction_ack_fields_valid`
unfoldable pub transaction_ack_fields_valid : Str → Bool → Option Str → Bool
transaction_ack_fields_valid transaction_id accepted reason =
    is_fixed_hex transaction_id hash_hex_length && reason_valid accepted reason

-- `matches!(message, NetworkMessage::Handshake { .. })`
abbrev pub is_handshake : NetworkMessage → Bool
is_handshake (NetworkMessage.handshake _ _ _ _ _ _ _ _) = true
is_handshake _ = false

-- The patterns of `validate_transaction_ack` and `validate_account_state_response`, with their guards.
abbrev pub acknowledges : Str → NetworkMessage → Bool
acknowledges expected (NetworkMessage.transaction_ack transaction_id _ _) =
    str_eq transaction_id expected
acknowledges expected _ = false

abbrev pub reports : Str → NetworkMessage → Bool
reports expected (NetworkMessage.account_state_response address _ _ _ _) = str_eq address expected
reports expected _ = false

module _ ⦃c : Crypto⦄ where
  -- `Network::create_handshake`, with the challenge that was drawn.
  unfoldable pub create_handshake : Clock → Str → Wallet → Str → NetworkMessage
  create_handshake clock challenge wallet listen_address =
      let timestamp = current_timestamp clock in
      NetworkMessage.handshake wallet.address (public_key_hex wallet) listen_address network_id
        network_protocol_version timestamp challenge
        (sign_node_handshake wallet listen_address network_id network_protocol_version timestamp
          challenge)

  -- `Network::create_handshake_ack`
  unfoldable pub create_handshake_ack : Clock → Wallet → Bool → Str → NetworkMessage
  create_handshake_ack clock wallet accepted challenge =
      let timestamp = current_timestamp clock in
      NetworkMessage.handshake_ack wallet.address (public_key_hex wallet) network_id
        network_protocol_version timestamp challenge accepted
        (sign_node_handshake_ack wallet network_id network_protocol_version timestamp challenge
          accepted)

  -- `Network::handshake_fields_valid`
  unfoldable pub handshake_fields_valid : Clock → Str → Str → Str → Str → ℕ → ℕ → Str → Str → Bool
  handshake_fields_valid clock node_id public_key listen_address id protocol_version timestamp
        challenge signature =
      is_fixed_hex node_id address_hex_length
      && is_fixed_hex public_key address_hex_length
      && not (is_empty listen_address)
      && leb (length listen_address) max_peer_address_length
      && str_eq id network_id
      && protocol_version == network_protocol_version
      && handshake_timestamp_valid clock timestamp
      && is_fixed_hex challenge 64
      && verify_node_handshake node_id public_key listen_address id protocol_version timestamp
          challenge signature

  -- `Network::validate_handshake_ack`
  unfoldable pub validate_handshake_ack : Clock → Str → NetworkMessage → Bool
  validate_handshake_ack clock expected_challenge
        (NetworkMessage.handshake_ack node_id public_key id protocol_version timestamp challenge
          accepted signature) =
      accepted
      && str_eq challenge expected_challenge
      && handshake_ack_fields_valid node_id id protocol_version
      && handshake_timestamp_valid clock timestamp
      && verify_node_handshake_ack node_id public_key id protocol_version timestamp challenge
          accepted signature
  validate_handshake_ack clock expected_challenge _ = false

  -- The test of `message_within_limits` on the fields of a message.
  unfoldable pub message_fields_valid : Clock → NetworkMessage → Bool
  message_fields_valid clock
        (NetworkMessage.handshake node_id public_key listen_address id protocol_version timestamp
          challenge signature) =
      handshake_fields_valid clock node_id public_key listen_address id protocol_version timestamp
        challenge signature
  message_fields_valid clock
        (NetworkMessage.handshake_ack node_id _ id protocol_version _ challenge _ _) =
      handshake_ack_fields_valid node_id id protocol_version && is_fixed_hex challenge 64
  message_fields_valid clock (NetworkMessage.transaction_ack transaction_id accepted reason) =
      transaction_ack_fields_valid transaction_id accepted reason
  message_fields_valid clock (NetworkMessage.account_state_request address) =
      is_fixed_hex address address_hex_length
  message_fields_valid clock (NetworkMessage.account_state_response address _ _ _ tip_hash) =
      is_fixed_hex address address_hex_length && is_fixed_hex tip_hash hash_hex_length
  message_fields_valid clock (NetworkMessage.chain_chunk_response _ _ blocks) =
      leb (length blocks) max_sync_blocks_per_message
  message_fields_valid clock _ = true

  module _ ⦃serde : Serde⦄ where
    -- `Network::message_within_limits`
    unfoldable pub message_within_limits : Clock → NetworkMessage → Bool
    unfolding message_fields_valid
    message_within_limits clock m =
        serialized_size_ok (serde.to_vec m) && message_fields_valid clock m

    -- `Network::validate_handshake`
    unfoldable pub validate_handshake : Clock → NetworkMessage → Bool
    validate_handshake clock m = is_handshake m && message_within_limits clock m

    -- `Network::validate_transaction_ack`
    unfoldable pub validate_transaction_ack : Clock → Str → NetworkMessage → Bool
    validate_transaction_ack clock expected_transaction_id m =
        acknowledges expected_transaction_id m && message_within_limits clock m

    -- `Network::validate_account_state_response`
    unfoldable pub validate_account_state_response : Clock → Str → NetworkMessage → Bool
    validate_account_state_response clock expected_address m =
        reports expected_address m && message_within_limits clock m
