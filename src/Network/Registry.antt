-- ===== src/Network/Registry.antt =====
-- The peers of src/network/mod.rs: what is kept of them, and what every operation preserves.
use aion_blockchain.Prelude.{
  str_eq_refl, All-append, str_eq_comm, inr, AllDistinct-snoc, inl, if◌then◌else◌, length-append,
  any-snoc, Bool-cases, ◌||◌, ◌&&◌, arith, ◌≡◌, ◌≤◌, ◌<◌, ◌∷◌, ◌++◌, All, AllDistinct, Str, any,
  length, str_eq, true, [], refl,
}
use aion_blockchain.Protocol.{
  max_network_inbox_messages, max_network_message_history, max_network_peers,
  max_peer_address_length,
}
use aion_blockchain.Network.{
  new, is_registered, ltb, leb, not, same_listen_address, PeerRegistrationOutcome,
  one_shot_client_listen_address, same_identity, address_hex_length, same_node_id, false,
  enter_identity, register_peer_identity, List, is_empty, is_fixed_hex, Bool, Network, PeerIdentity,
}

-- An address that a peer may be reached at.
abbrev pub IsAddress : Str → Type 0
IsAddress address = (0 < length address) × (length address ≤ max_peer_address_length)

abbrev pub node_ids : PeerIdentity → PeerIdentity → Bool
node_ids p q = str_eq p.node_id q.node_id

abbrev pub listen_addresses : PeerIdentity → PeerIdentity → Bool
listen_addresses p q = str_eq p.listen_address q.listen_address

-- The address of an identity is in a list of peers.
abbrev pub IsKnown : List Str → PeerIdentity → Type 0
IsKnown peers p = any (str_eq p.listen_address) peers ≡ true

-- The peer list that a node relies on: bounded, with no address or identity twice, and with the
-- address of every identity among those that are broadcast to.
pub record IsRegistry (n : Network) : Type 0 where
  pub peers_bound : length n.peers ≤ max_network_peers
  pub identities_bound : length n.peer_identities ≤ max_network_peers
  pub history_bound : length n.messages ≤ max_network_message_history
  pub inbox_bound : length n.inbox ≤ max_network_inbox_messages
  pub peers_format : All IsAddress n.peers
  pub peers_distinct : AllDistinct str_eq n.peers
  pub node_ids_distinct : AllDistinct node_ids n.peer_identities
  pub addresses_distinct : AllDistinct listen_addresses n.peer_identities
  pub reachable :
      All (λ (p : PeerIdentity). any (str_eq p.listen_address) n.peers ≡ true) n.peer_identities

pub new-IsRegistry : IsRegistry new
new-IsRegistry = record {
  peers_bound = omega arith;
  identities_bound = omega arith;
  history_bound = omega arith;
  inbox_bound = omega arith;
  peers_format = tt;
  peers_distinct = tt;
  node_ids_distinct = tt;
  addresses_distinct = tt;
  reachable = tt;
}

-- The condition under which `register_peer_identity` registers a peer.
pub record IsNewPeer (node_id listen_address : Str) (n : Network) : Type 0 where
  pub format : is_fixed_hex node_id address_hex_length ≡ true
  pub address : IsAddress listen_address
  pub persistent : str_eq listen_address one_shot_client_listen_address ≡ false
  pub new_node_id : any (same_node_id node_id) n.peer_identities ≡ false
  pub new_address : any (same_listen_address listen_address) n.peer_identities ≡ false
  pub identity_room : length n.peer_identities < max_network_peers
  pub peer_room : any (str_eq listen_address) n.peers ≡ false → length n.peers < max_network_peers

any-and :
    (node_id listen_address : Str) (ps : List PeerIdentity)
    → any (same_node_id node_id) ps ≡ false
    → any (same_identity node_id listen_address) ps ≡ false
any-and node_id listen_address [] h = refl
any-and node_id listen_address (p ∷ ps) h = ground (arith, any-and node_id listen_address ps)

pub nonempty : (s : Str) → is_empty s ≡ false → 0 < length s
nonempty [] h = cc
nonempty (x ∷ s) h = omega arith

pub is_empty-length : (s : Str) → 0 < length s → is_empty s ≡ false
is_empty-length [] h = ground arith
is_empty-length (x ∷ s) h = refl

-- The condition as a test.
abbrev pub is_new_peer : Str → Str → Network → Bool
is_new_peer node_id listen_address n =
    is_fixed_hex node_id address_hex_length
    && not (is_empty listen_address)
    && leb (length listen_address) max_peer_address_length
    && not (str_eq listen_address one_shot_client_listen_address)
    && not (any (same_node_id node_id) n.peer_identities)
    && not (any (same_listen_address listen_address) n.peer_identities)
    && ltb (length n.peer_identities) max_network_peers
    && (any (str_eq listen_address) n.peers || ltb (length n.peers) max_network_peers)

pub registered_new :
    (node_id listen_address : Str) (n : Network)
    → IsNewPeer node_id listen_address n
    → register_peer_identity node_id listen_address n
      ≡ (enter_identity node_id listen_address n, PeerRegistrationOutcome.registered)
unfolding register_peer_identity
registered_new node_id listen_address n new = ground (
  arith,
  any-and node_id listen_address n.peer_identities new.new_node_id,
  is_empty-length listen_address,
  new.peer_room,
)

pub refused :
    (node_id listen_address : Str) (n : Network)
    → is_new_peer node_id listen_address n ≡ false
    → let (n', outcome) = register_peer_identity node_id listen_address n in
      (n' ≡ n) × (is_registered outcome ≡ false)
unfolding register_peer_identity
refused node_id listen_address n e = (ground arith, ground arith)

pub new_peer :
    (node_id listen_address : Str) (n : Network)
    → is_new_peer node_id listen_address n ≡ true
    → IsNewPeer node_id listen_address n
new_peer node_id listen_address n e = record {
  format = ground arith;
  address = (nonempty listen_address (ground arith), ground arith);
  persistent = ground arith;
  new_node_id = ground arith;
  new_address = ground arith;
  identity_room = ground arith;
  peer_room = λ k. ground arith;
}

-- The condition under which `add_peer` adds an address.
abbrev pub accepts_address : Str → Network → Bool
accepts_address address n =
    not (is_empty address)
    && not (str_eq address one_shot_client_listen_address)
    && leb (length address) max_peer_address_length
    && ltb (length n.peers) max_network_peers
    && not (any (str_eq address) n.peers)

pub IsKnown-snoc :
    (address : Str) (peers : List Str) (ps : List PeerIdentity)
    → All (IsKnown peers) ps
    → All (IsKnown (peers ++ address ∷ [])) ps
IsKnown-snoc address peers [] h = tt
IsKnown-snoc address peers (p ∷ ps) h = (
  ground (arith, any-snoc (str_eq p.listen_address) peers address, h.0),
  IsKnown-snoc address peers ps h.1,
)

-- The peers after a new one is entered, with its address added if it is not there.
pub with_peer :
    (address : Str) (n : Network) {node_id : Str}
    → IsNewPeer node_id address n
    → IsRegistry n
    → let peers = if any (str_eq address) n.peers then n.peers else n.peers ++ address ∷ [] in
      (length peers ≤ max_network_peers)
      × All IsAddress peers
      × AllDistinct str_eq peers
      × All (IsKnown peers) n.peer_identities
      × (any (str_eq address) peers ≡ true)
with_peer address n new r = elim (Bool-cases (any (str_eq address) n.peers)) [
  | inl e ↦ rw e (r.peers_bound, r.peers_format, r.peers_distinct, r.reachable, e)
  | inr e ↦ rw e (
    omega (arith, length-append {0} n.peers (address ∷ []), new.peer_room e),
    All-append IsAddress n.peers (address ∷ []) r.peers_format (new.address, tt),
    AllDistinct-snoc str_eq n.peers address str_eq_comm e r.peers_distinct,
    IsKnown-snoc address n.peers n.peer_identities r.reachable,
    ground (arith, any-snoc (str_eq address) n.peers address, str_eq_refl address),
  )
]

-- Entering a new peer keeps the registry.
pub enter-IsRegistry :
    (node_id listen_address : Str) (n : Network)
    → IsNewPeer node_id listen_address n
    → IsRegistry n
    → IsRegistry (enter_identity node_id listen_address n)
unfolding enter_identity
enter-IsRegistry node_id listen_address n new r =
    let peer : PeerIdentity = record { node_id = node_id; listen_address = listen_address } in
    let (room, format, distinct, known, entered) = with_peer listen_address n new r in
    record {
      peers_bound = room;
      identities_bound =
          omega (arith, length-append {0} n.peer_identities (peer ∷ []), new.identity_room);
      history_bound = r.history_bound;
      inbox_bound = r.inbox_bound;
      peers_format = format;
      peers_distinct = distinct;
      node_ids_distinct =
          AllDistinct-snoc node_ids n.peer_identities peer (λ p q. str_eq_comm p.node_id q.node_id)
            new.new_node_id r.node_ids_distinct;
      addresses_distinct =
          AllDistinct-snoc listen_addresses n.peer_identities peer
            (λ p q. str_eq_comm p.listen_address q.listen_address) new.new_address
            r.addresses_distinct;
      reachable = All-append _ n.peer_identities (peer ∷ []) known (entered, tt);
    }
