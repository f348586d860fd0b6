-- ===== src/Network.antt =====
-- src/network/mod.rs: the peers that a node knows and the messages that it has kept.
pub mod Message
pub mod Toy
pub mod Validation
pub mod Registry
pub mod Registration
pub mod Keeping
pub mod Handshakes
pub mod Binding
pub mod Tcp
use aion_blockchain.Prelude.{
  ◌&&◌, ◌||◌, ◌++◌, ◌∷◌, Bool, List, Str, ℕ, [], any, drop, false, if◌then◌else◌, is_empty, leb,
  length, ltb, not, str_eq, true,
}
use aion_blockchain.Protocol.{
  address_hex_length, is_fixed_hex, max_network_inbox_messages, max_network_message_history,
  max_network_peers, max_peer_address_length,
}
use aion_blockchain.Crypto.{Crypto}
use aion_blockchain.Chain.Blockchain.{Clock}
use Message.{NetworkMessage, Serde}
use Validation.{message_within_limits, one_shot_client_listen_address}

pub record PeerIdentity : Type 0 where
  pub node_id : Str
  pub listen_address : Str

pub data PeerRegistrationOutcome : Type 0 where
  registered already_registered one_shot_client : PeerRegistrationOutcome
  node_id_conflict listen_address_conflict : PeerRegistrationOutcome
  peer_limit_reached invalid_identity : PeerRegistrationOutcome

pub record Network : Type 0 where
  pub peers : List Str
  pub peer_identities : List PeerIdentity
  pub messages : List NetworkMessage
  pub inbox : List NetworkMessage

-- `Network::new`
abbrev pub new : Network
new = record { peers = []; peer_identities = []; messages = []; inbox = [] }

-- A push that first drops the oldest of a full list.
unfoldable pub push_bounded : ℕ → List NetworkMessage → NetworkMessage → List NetworkMessage
push_bounded limit kept m = (if leb limit (length kept) then drop 1 kept else kept) ++ m ∷ []

-- `Network::push_message_history`
unfoldable pub push_message_history : NetworkMessage → Network → Network
push_message_history m n = record n {
  messages = push_bounded max_network_message_history n.messages m;
}

-- `Network::push_inbox`
unfoldable pub push_inbox : NetworkMessage → Network → Network
push_inbox m n = record n { inbox = push_bounded max_network_inbox_messages n.inbox m }

-- `Network::add_peer`
unfoldable pub add_peer : Str → Network → Network × Bool
add_peer address n =
    if is_empty address
      || (str_eq address one_shot_client_listen_address
          || ltb max_peer_address_length (length address))
    then (n, false)
    else if leb max_network_peers (length n.peers)
    then (n, false)
    else if any (str_eq address) n.peers
    then (n, false)
    else (record n { peers = n.peers ++ address ∷ [] }, true)

-- The three tests of `register_peer_identity` against the identities.
abbrev pub same_identity : Str → Str → PeerIdentity → Bool
same_identity node_id listen_address peer =
    str_eq node_id peer.node_id && str_eq listen_address peer.listen_address

abbrev pub same_node_id : Str → PeerIdentity → Bool
same_node_id node_id peer = str_eq node_id peer.node_id

abbrev pub same_listen_address : Str → PeerIdentity → Bool
same_listen_address listen_address peer = str_eq listen_address peer.listen_address

-- The end of `register_peer_identity`: the identity is kept, its address with it when it is new.
unfoldable pub enter_identity : Str → Str → Network → Network
enter_identity node_id listen_address n = record n {
  peers = if any (str_eq listen_address) n.peers then n.peers else n.peers ++ listen_address ∷ [];
  peer_identities =
      n.peer_identities ++ record { node_id = node_id; listen_address = listen_address } ∷ [];
}

-- `Network::register_peer_identity`
unfoldable pub register_peer_identity : Str → Str → Network → Network × PeerRegistrationOutcome
unfolding enter_identity
register_peer_identity node_id listen_address n =
    if not (is_fixed_hex node_id address_hex_length)
      || (is_empty listen_address || ltb max_peer_address_length (length listen_address))
    then (n, PeerRegistrationOutcome.invalid_identity)
    else if str_eq listen_address one_shot_client_listen_address
    then (n, PeerRegistrationOutcome.one_shot_client)
    else if any (same_identity node_id listen_address) n.peer_identities
    then (n, PeerRegistrationOutcome.already_registered)
    else if any (same_node_id node_id) n.peer_identities
    then (n, PeerRegistrationOutcome.node_id_conflict)
    else if any (same_listen_address listen_address) n.peer_identities
    then (n, PeerRegistrationOutcome.listen_address_conflict)
    else if leb max_network_peers (length n.peer_identities)
        || (not (any (str_eq listen_address) n.peers) && leb max_network_peers (length n.peers))
    then (n, PeerRegistrationOutcome.peer_limit_reached)
    else (enter_identity node_id listen_address n, PeerRegistrationOutcome.registered)

-- `matches!(outcome, PeerRegistrationOutcome::Registered)`
abbrev pub is_registered : PeerRegistrationOutcome → Bool
is_registered PeerRegistrationOutcome.registered = true
is_registered _ = false

-- `Network::add_peer_identity`
unfoldable pub add_peer_identity : Str → Str → Network → Network × Bool
add_peer_identity node_id listen_address n =
    let (n', outcome) = register_peer_identity node_id listen_address n in
    (n', is_registered outcome)

-- `Network::has_peer_node_id`
unfoldable pub has_peer_node_id : Network → Str → Bool
has_peer_node_id n node_id = any (same_node_id node_id) n.peer_identities

-- `Network::peer_count`, `Network::identified_peer_count`
unfoldable pub peer_count : Network → ℕ
peer_count n = length n.peers

unfoldable pub identified_peer_count : Network → ℕ
identified_peer_count n = length n.peer_identities

-- What `receive` does with a message that is within the limits, before it is kept.
unfoldable pub register_sender : NetworkMessage → Network → Network
register_sender (NetworkMessage.handshake node_id _ listen_address _ _ _ _ _) n =
    (register_peer_identity node_id listen_address n).0
register_sender _ n = n

-- `Network::fetch_messages`
unfoldable pub fetch_messages : Network → Network × List NetworkMessage
fetch_messages n = (record n { inbox = [] }, n.inbox)

-- `Network::message_count`
unfoldable pub message_count : Network → ℕ
message_count n = length n.messages

module _ ⦃c : Crypto⦄ ⦃serde : Serde⦄ where
  -- `Network::broadcast_to_peers`: the transport is given the peers and counts its successes and
  -- failures; the message is kept whatever it answers.
  unfoldable pub broadcast_to_peers :
      Clock → (List Str → NetworkMessage → ℕ × ℕ) → NetworkMessage → Network → Network × (ℕ × ℕ)
  broadcast_to_peers clock transport m n =
      if not (message_within_limits clock m)
      then (n, (0, 0))
      else (push_inbox m (push_message_history m n), transport n.peers m)

  -- `Network::broadcast`
  unfoldable pub broadcast : Clock → NetworkMessage → Network → Network
  broadcast clock m n =
      if not (message_within_limits clock m) then n else push_inbox m (push_message_history m n)

  -- `Network::receive`
  unfoldable pub receive : Clock → NetworkMessage → Network → Network
  receive clock m n =
      if not (message_within_limits clock m)
      then n
      else push_message_history m (register_sender m n)
