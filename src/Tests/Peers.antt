-- ===== src/Tests/Peers.antt =====
-- The network between two nodes at concrete inputs.
use aion_blockchain.Prelude.{
  false, is_err, err, Result, arith, ◌≡◌, ◌⊎◌, ◌∷◌, ◌++◌, Str, [], bytes_of, ok, refl, replicate,
  some, true,
}
use aion_blockchain.Protocol.{is_fixed_hex, network_id, network_protocol_version}
use aion_blockchain.Crypto.Toy.{toy, toy-IsLawful}
use aion_blockchain.Wallet
use aion_blockchain.Wallet.Handshake.{sign_node_handshake, sign_node_handshake_ack}
use aion_blockchain.Chain.Blockchain.{Clock}
use aion_blockchain.Network
use aion_blockchain.Network.{
  is_registered, Network, PeerIdentity, PeerRegistrationOutcome, add_peer, add_peer_identity,
  enter_identity, receive, register_peer_identity,
}
use aion_blockchain.Network.Message.{NetworkMessage}
use aion_blockchain.Network.Toy.{plain, plain-IsFaithful, short}
use aion_blockchain.Network.Registration.{IsEntered, register_peer_identity_exact}
use aion_blockchain.Network.Registry.{IsNewPeer, IsRegistry}
use aion_blockchain.Network.Keeping.{Reachable, Reachable-IsRegistry, Step}
use aion_blockchain.Network.Binding.{IsAccepted, SameHandshake, Signed, signed_message-injective}
use aion_blockchain.Network.Handshakes.{created_valid}
use aion_blockchain.Network.Validation.{
  message_fields_valid, message_within_limits, validate_handshake, current_timestamp,
  create_handshake, create_handshake_ack,
}
use aion_blockchain.Network.Tcp.{
  Connection, authenticate_incoming, check_answer, read_message, send_handshake, send_message,
}
use aion_blockchain.Network.Tcp.Frames.{read_message-send_message}
use aion_blockchain.Network.Tcp.Authentication.{authenticate_incoming-send_handshake, opened}
use aion_blockchain.Tests.Scenario.{alice, bob, run}

abbrev here : Str
here = bytes_of "10.0.0.1:7000"

abbrev now : Clock
now = some 2_000

abbrev soon : Clock
soon = some 2_100

abbrev challenge : Str
challenge = replicate 64 b'7'

abbrev greeted : Network
greeted = receive now (create_handshake now challenge alice here) (add_peer here Network.new).0

path : Reachable ⦃serde = short⦄ greeted
path =
    Reachable.next (Reachable.next Reachable.start (Step.peer_added here))
      (Step.received now (create_handshake now challenge alice here))

Reachable-IsRegistry_example : IsRegistry greeted
Reachable-IsRegistry_example = Reachable-IsRegistry ⦃serde = short⦄ path

register_peer_identity_example :
    let (n', outcome) = register_peer_identity (replicate 64 b'a') here Network.new in
    let (n'', added) = add_peer_identity (replicate 64 b'a') here Network.new in
    (IsNewPeer (replicate 64 b'a') here Network.new
      × (outcome ≡ PeerRegistrationOutcome.registered)
      × IsEntered (replicate 64 b'a') here Network.new n'
      × (n'' ≡ n')
      × (added ≡ true))
    ⊎ ((¬ IsNewPeer (replicate 64 b'a') here Network.new)
        × (is_registered outcome ≡ false)
        × (n' ≡ Network.new)
        × (n'' ≡ Network.new)
        × (added ≡ false))
register_peer_identity_example = register_peer_identity_exact (replicate 64 b'a') here Network.new

abbrev signed : Signed
signed = record {
  node_id = alice.address;
  public_key = Wallet.public_key_hex alice;
  listen_address = here;
  network = network_id;
  version = network_protocol_version;
  timestamp = 2_000;
  challenge = challenge;
}

valid : validate_handshake ⦃serde = short⦄ now (create_handshake now challenge alice here) ≡ true
unfolding current_timestamp is_fixed_hex
valid =
    created_valid toy-IsLawful (replicate 32 1) ⦃serde = short⦄ now now challenge here
      (omega arith, omega arith) refl (omega arith) refl

accepted : IsAccepted signed
unfolding validate_handshake message_within_limits message_fields_valid create_handshake
    current_timestamp
accepted =
    (now, sign_node_handshake alice here network_id network_protocol_version 2_000 challenge, valid)

signed_message-injective_example : SameHandshake signed signed
signed_message-injective_example =
    signed_message-injective signed signed (omega arith) (omega arith) accepted accepted refl

abbrev greeting : NetworkMessage
greeting = create_handshake now challenge alice here

abbrev or_opened : Result Connection → Connection
or_opened (ok connection) = connection
or_opened (err _) = opened []

succeeds : (r : Result Connection) → is_err r ≡ false → r ≡ ok (or_opened r)
succeeds (ok connection) h = refl
succeeds (err _) h = cc

abbrev asked : Connection
asked = or_opened (send_handshake ⦃serde = plain⦄ now challenge alice here (opened []))

abbrev reply : NetworkMessage
reply = create_handshake_ack soon bob true challenge

abbrev answered : Connection
answered = or_opened (send_message ⦃serde = plain⦄ reply (opened []))

asks : send_handshake ⦃serde = plain⦄ now challenge alice here (opened []) ≡ ok asked
unfolding run send_handshake send_message create_handshake sign_node_handshake
    Wallet.address_from_public_key_bytes
asks = succeeds _ refl

answers : send_message ⦃serde = plain⦄ reply (opened []) ≡ ok answered
unfolding run send_message create_handshake_ack sign_node_handshake_ack
    Wallet.address_from_public_key_bytes
answers = succeeds _ refl

sends : send_message ⦃serde = plain⦄ greeting (opened []) ≡ ok asked
unfolding run send_message create_handshake send_handshake
sends = asks

read_message-send_message_example :
    read_message ⦃serde = plain⦄ (opened (asked.output ++ 9 ∷ [])) ≡ ok (greeting, opened (9 ∷ []))
read_message-send_message_example =
    read_message-send_message ⦃serde = plain⦄ plain-IsFaithful greeting [] [] (9 ∷ []) sends

authenticate_incoming-send_handshake_example :
    (authenticate_incoming ⦃serde = plain⦄ soon bob (opened asked.output) ≡ ok (answered, greeting))
    × (check_answer ⦃serde = plain⦄ soon challenge (opened answered.output) ≡ ok (opened []))
unfolding run current_timestamp
authenticate_incoming-send_handshake_example =
    authenticate_incoming-send_handshake ⦃serde = plain⦄ toy-IsLawful plain-IsFaithful
      (replicate 32 1) (replicate 32 2) now soon soon challenge here (omega arith, omega arith) refl
      (omega arith) (omega arith) asks answers
