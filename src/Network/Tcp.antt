-- ===== src/Network/Tcp.antt =====
-- src/network/tcp.rs: the frames in which messages travel, and the two ends of the authentication. A
-- connection is the bytes that will arrive before it ends and those that were written; time limits,
-- sockets and failing writes are left out.
pub mod Frames
pub mod Authentication
use aion_blockchain.Prelude.{
  String, ◌++◌, ◌+◌, ◌<◌, ◌==◌, ◌>>=◌, ◌>>◌, ◌^◌, Bool, Bytes, List, Option, Result, Str, [], ◌∷◌,
  drop, err, fail_if, if◌then◌else◌, is_empty, leb, length, ltb, none, not, ok, ok_or, some, take,
  text, ℕ,
}
use aion_blockchain.Protocol.{max_network_message_bytes}
use aion_blockchain.Crypto.{Crypto}
use aion_blockchain.Core.Encoding.{be_bytes, be_value}
use aion_blockchain.Wallet.{Wallet}
use aion_blockchain.Chain.Blockchain.{Clock}
use aion_blockchain.Network.Message.{NetworkMessage, Serde}
use aion_blockchain.Network.Validation.{
  create_handshake, create_handshake_ack, handshake_challenge, one_shot_client_listen_address,
  validate_handshake, validate_handshake_ack,
}

pub record Connection : Type 0 where
  pub input : Bytes
  pub output : Bytes

-- `u32::try_from` of a length
abbrev pub length_to_u32 : ℕ → Option ℕ
length_to_u32 n = if ltb n (2 ^ 32) then some n else none

-- `read_exact`: the bytes, and the connection without them.
unfoldable pub read_exact : ℕ → String → Connection → Result (Bytes × Connection)
read_exact count failure connection =
    if ltb (length connection.input) count
    then err (text failure)
    else ok (take count connection.input, record connection { input = drop count connection.input })

-- The loop of `broadcast_authenticated`, given what sending to a peer yields.
unfoldable pub count_sent : (Str → Result (Unit {0})) → ℕ → ℕ → List Str → ℕ × ℕ
count_sent send success_count failure_count [] = (success_count, failure_count)
count_sent send success_count failure_count (peer ∷ peers) = elim (send peer) [
  | ok _ ↦ count_sent send (success_count + 1) failure_count peers
  | err _ ↦ count_sent send success_count (failure_count + 1) peers
]

-- `TcpTransport::broadcast_authenticated`
unfoldable pub broadcast_authenticated : (Str → Result (Unit {0})) → List Str → ℕ × ℕ
broadcast_authenticated send peer_addresses = count_sent send 0 0 peer_addresses

module _ ⦃serde : Serde⦄ where
  -- `TcpTransport::send_message`
  unfoldable pub send_message : NetworkMessage → Connection → Result Connection
  send_message m connection = do
    payload ← ok_or (serde.to_vec m) "Network message could not be serialized to JSON: "
    fail_if (is_empty payload) "Empty network message cannot be sent"
    fail_if (ltb max_network_message_bytes (length payload)) "Network message byte limit exceeded"
    size ← ok_or (length_to_u32 (length payload)) "Network message length exceeds the u32 range"
    ok (record connection { output = connection.output ++ be_bytes 4 size ++ payload })

  -- The rest of `read_message_or_eof`, once a frame has started.
  unfoldable pub read_frame : Connection → Result (NetworkMessage × Connection)
  read_frame connection = do
    (header, body) ← read_exact 4 "Network message header could not be read: " connection
    let payload_length = be_value 0 header
    fail_if (payload_length == 0) "Empty network message was rejected"
    fail_if (ltb max_network_message_bytes payload_length) "Network message byte limit exceeded"
    (payload, rest) ← read_exact payload_length "Network message could not be read: " body
    m ← ok_or (serde.from_slice payload) "Network message JSON format is invalid: "
    ok (m, rest)

  -- `TcpTransport::read_message_or_eof`
  unfoldable pub read_message_or_eof : Connection → Result (Option NetworkMessage × Connection)
  read_message_or_eof connection =
      if is_empty connection.input
      then ok (none, connection)
      else do (m, rest) ← read_frame connection; ok (some m, rest)

  -- `TcpTransport::read_message`
  unfoldable pub read_message : Connection → Result (NetworkMessage × Connection)
  read_message connection = do
    (received, rest) ← read_message_or_eof connection
    m ← ok_or received "Network connection closed while waiting for a message"
    ok (m, rest)

  module _ ⦃c : Crypto⦄ where
    -- `handshake_challenge(…).unwrap_or("")`
    abbrev pub challenge_or_empty : Option Str → Str
    challenge_or_empty none = []
    challenge_or_empty (some challenge) = challenge

    -- `TcpTransport::connect_authenticated`, in two parts: what is sent on the new connection ...
    unfoldable pub send_handshake : Clock → Str → Wallet → Str → Connection → Result Connection
    send_handshake clock challenge wallet listen_address connection =
        send_message (create_handshake clock challenge wallet listen_address) connection

    -- ... and the test of the answer.
    unfoldable pub check_answer : Clock → Str → Connection → Result Connection
    check_answer clock expected_challenge connection = do
      (response, rest) ← read_message connection
      fail_if (not (validate_handshake_ack clock expected_challenge response))
          "Peer HandshakeAck validation failed"
      ok rest

    -- `TcpTransport::authenticate_incoming` up to its answer: whether the handshake is accepted, and
    -- the connection on which that was answered.
    unfoldable pub answer_handshake :
        Clock → Wallet → Connection → Result (Connection × (Bool × NetworkMessage))
    answer_handshake clock wallet connection = do
      (received, rest) ← read_message connection
      let challenge = challenge_or_empty (handshake_challenge received)
      let accepted = validate_handshake clock received
      answered ← send_message (create_handshake_ack clock wallet accepted challenge) rest
      ok (answered, (accepted, received))

    -- `TcpTransport::authenticate_incoming`
    unfoldable pub authenticate_incoming :
        Clock → Wallet → Connection → Result (Connection × NetworkMessage)
    authenticate_incoming clock wallet connection = do
      (answered, (accepted, received)) ← answer_handshake clock wallet connection
      fail_if (not accepted) "Peer handshake validation failed"
      ok (answered, received)
