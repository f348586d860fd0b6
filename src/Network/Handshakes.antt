-- ===== src/Network/Handshakes.antt =====
-- The handshake between two nodes of src/network/mod.rs and src/wallet/mod.rs: what one creates, the
-- other accepts.
use aion_blockchain.Prelude.{str_eq_refl, arith, ◌≡◌, ◌≤◌, Bool, Bytes, Str, true, ℕ}
use aion_blockchain.Protocol.{
  network_protocol_version, network_id, is_fixed_hex, max_handshake_age_seconds,
}
use aion_blockchain.Crypto.{Crypto, IsLawful}
use aion_blockchain.Wallet.{from_signing_key, public_key_hex}
use aion_blockchain.Wallet.Handshake.{
  sign_node_handshake, sign_node_handshake_ack, verify_node_handshake, verify_node_handshake_ack,
  node_handshake_message, node_handshake_ack_message,
}
use aion_blockchain.Wallet.Formats.{identity_format}
use aion_blockchain.Wallet.Signing.{verify-sign}
use aion_blockchain.Chain.Blockchain.{Clock}
use aion_blockchain.Network.Message.{Serde, serialized_size_ok}
use aion_blockchain.Network.Registry.{IsAddress, is_empty-length}
use aion_blockchain.Network.Validation.{
  create_handshake, create_handshake_ack, validate_handshake, validate_handshake_ack, abs_diff,
  current_timestamp, handshake_fields_valid, handshake_timestamp_valid, handshake_ack_fields_valid,
  message_fields_valid, message_within_limits,
}

module _ ⦃c : Crypto⦄ (laws : IsLawful c) (key : Bytes) where
  verify-sign_node_handshake :
      (listen_address id : Str) (version timestamp : ℕ) (challenge : Str)
      → let w = from_signing_key key in
        verify_node_handshake w.address
          (public_key_hex w)
          listen_address
          id
          version
          timestamp
          challenge
          (sign_node_handshake w listen_address id version timestamp challenge)
        ≡ true
  unfolding verify_node_handshake sign_node_handshake
  verify-sign_node_handshake listen_address id version timestamp challenge =
      let w = from_signing_key key in
      let (verified, derived) = verify-sign laws key (
        node_handshake_message w.address (public_key_hex w) listen_address id version timestamp
          challenge) in
      ground (arith, verified, derived, str_eq_refl w.address)

  verify-sign_node_handshake_ack :
      (id : Str) (version timestamp : ℕ) (challenge : Str) (accepted : Bool)
      → let w = from_signing_key key in
        verify_node_handshake_ack w.address
          (public_key_hex w)
          id
          version
          timestamp
          challenge
          accepted
          (sign_node_handshake_ack w id version timestamp challenge accepted)
        ≡ true
  unfolding verify_node_handshake_ack sign_node_handshake_ack
  verify-sign_node_handshake_ack id version timestamp challenge accepted =
      let w = from_signing_key key in
      let (verified, derived) = verify-sign laws key (
        node_handshake_ack_message w.address (public_key_hex w) id version timestamp challenge
          accepted) in
      ground (arith, verified, derived, str_eq_refl w.address)

  -- A created handshake is valid.
  pub created_valid :
      ⦃serde : Serde⦄ (here there : Clock) (challenge listen_address : Str)
      → IsAddress listen_address
      → is_fixed_hex challenge 64 ≡ true
      → abs_diff (current_timestamp here) (current_timestamp there) ≤ max_handshake_age_seconds
      → let m = create_handshake there challenge (from_signing_key key) listen_address in
        serialized_size_ok (serde.to_vec m) ≡ true → validate_handshake here m ≡ true
  unfolding validate_handshake message_within_limits message_fields_valid handshake_fields_valid
      handshake_timestamp_valid create_handshake
  created_valid here there challenge listen_address address format near size =
      let (id_format, key_format) = identity_format laws key in
      let stamp = current_timestamp there in
      ground (
        arith,
        str_eq_refl network_id,
        id_format,
        key_format,
        is_empty-length listen_address address.0,
        verify-sign_node_handshake listen_address network_id network_protocol_version stamp
            challenge,
      )

  -- A created answer is valid for its challenge exactly when it accepts.
  pub answer_valid :
      (here there : Clock) (challenge : Str) (accepted : Bool)
      → abs_diff (current_timestamp here) (current_timestamp there) ≤ max_handshake_age_seconds
      → validate_handshake_ack here challenge
          (create_handshake_ack there (from_signing_key key) accepted challenge)
        ≡ accepted
  unfolding handshake_timestamp_valid validate_handshake_ack create_handshake_ack
      handshake_ack_fields_valid
  answer_valid here there challenge accepted near =
      let (id_format, _) = identity_format laws key in
      let stamp = current_timestamp there in
      ground (
        arith,
        str_eq_refl network_id,
        id_format,
        str_eq_refl challenge,
        verify-sign_node_handshake_ack network_id network_protocol_version stamp challenge accepted,
      )
