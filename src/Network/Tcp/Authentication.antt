-- ===== src/Network/Tcp/Authentication.antt =====
-- Two nodes that connect over src/network/tcp.rs authenticate each other.
use aion_blockchain.Prelude.{arith, subst, append-nil, ◌≡◌, ◌≤◌, Bytes, Str, [], true, ok}
use aion_blockchain.Protocol.{is_fixed_hex, max_handshake_age_seconds}
use aion_blockchain.Crypto.{Crypto, IsLawful}
use aion_blockchain.Wallet.{from_signing_key}
use aion_blockchain.Chain.Blockchain.{Clock}
use aion_blockchain.Network.Message.{NetworkMessage, Serde, serialized_size_ok}
use aion_blockchain.Network.Registry.{IsAddress}
use aion_blockchain.Network.Handshakes.{answer_valid, created_valid}
use aion_blockchain.Network.Validation.{
  abs_diff, create_handshake, create_handshake_ack, current_timestamp, handshake_challenge,
}
use aion_blockchain.Network.Tcp.{
  answer_handshake, Connection, authenticate_incoming, check_answer, read_message, send_handshake,
  send_message,
}
use aion_blockchain.Network.Tcp.Frames.{IsFaithful, read_message-send_message, send_message-Sent}

abbrev pub opened : Bytes → Connection
opened input = record { input = input; output = [] }

module _ ⦃serde : Serde⦄ where
  -- What was sent is read when nothing follows.
  reads :
      (faithful : IsFaithful serde) (m : NetworkMessage) (output : Bytes) {sent : Connection}
      → send_message m (opened []) ≡ ok sent
      → read_message (record { input = sent.output; output = output })
        ≡ ok (m, record { input = []; output = output })
  reads faithful m output {sent} h =
      subst
        (λ i.
          read_message (record { input = i; output = output })
          ≡ ok (m, record { input = []; output = output }))
        (append-nil sent.output) (read_message-send_message faithful m [] output [] h)

  fits :
      (m : NetworkMessage) {sent : Connection}
      → send_message m (opened []) ≡ ok sent
      → serialized_size_ok (serde.to_vec m) ≡ true
  fits m h = let s = send_message-Sent m (opened []) h in ground (arith, s.serialized, s.within)

  module _ ⦃c : Crypto⦄ where
    -- A node that connects with a listen address of 1 to 256 bytes and a challenge of 64 hexadecimal
    -- digits, and one that accepts the connection, authenticate each other if their crates behave as
    -- documented, both messages can be sent and their clocks, at each reading, are at most 120
    -- seconds apart: the handshake is accepted, and the answer to it is valid for its challenge.
    pub authenticate_incoming-send_handshake :
        (laws : IsLawful c) (faithful : IsFaithful serde) (client_key server_key : Bytes)
        (sending answering checking : Clock) (challenge listen_address : Str)
        {asked answered : Connection}
        → IsAddress listen_address
        → is_fixed_hex challenge 64 ≡ true
        → abs_diff (current_timestamp answering) (current_timestamp sending)
          ≤ max_handshake_age_seconds
        → abs_diff (current_timestamp checking) (current_timestamp answering)
          ≤ max_handshake_age_seconds
        → let client = from_signing_key client_key in
          let server = from_signing_key server_key in
          send_handshake sending challenge client listen_address (opened []) ≡ ok asked
          → send_message (create_handshake_ack answering server true challenge) (opened [])
            ≡ ok answered
          → (authenticate_incoming answering server (opened asked.output)
              ≡ ok (answered, create_handshake sending challenge client listen_address))
            × (check_answer checking challenge (opened answered.output) ≡ ok (opened []))
    unfolding answer_handshake authenticate_incoming check_answer send_handshake handshake_challenge
        create_handshake
    authenticate_incoming-send_handshake laws faithful client_key server_key sending answering
          checking challenge listen_address {asked} {answered} address format near near' sent
          replied =
        let client = from_signing_key client_key in
        let server = from_signing_key server_key in
        let m = create_handshake sending challenge client listen_address in
        let ack = create_handshake_ack answering server true challenge in
        let valid =
          created_valid laws client_key answering sending challenge listen_address address format
            near (fits m sent) in
        let answer = answer_valid laws server_key checking answering challenge true near' in
        (
          ground (arith, reads faithful m [] {sent = asked} sent, valid, replied),
          ground (arith, reads faithful ack [] {sent = answered} replied, answer),
        )
