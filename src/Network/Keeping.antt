-- ===== src/Network/Keeping.antt =====
-- What every operation of src/network/mod.rs keeps of the registry of peers and of the bounds.
use aion_blockchain.Prelude.{
  str_eq_comm, AllDistinct-snoc, All-append, length-append, sym, ◌++◌, ◌≡◌, ◌≤◌, inl, inr, subst,
  ◌<◌, Bool-cases, arith,
}
use aion_blockchain.Network.{
  str_eq, message_within_limits, ◌∷◌, broadcast_to_peers, Clock, length, receive,
  max_network_message_history, broadcast, max_network_inbox_messages, add_peer_identity, ℕ,
  NetworkMessage, [], register_peer_identity, Serde, Str, fetch_messages, push_bounded,
  register_sender, List, Crypto, push_message_history, push_inbox, add_peer, Network, new,
}
use aion_blockchain.Network.Registry.{
  new-IsRegistry, IsKnown-snoc, nonempty, refused, IsAddress, enter-IsRegistry, registered_new,
  new_peer, accepts_address, is_new_peer, IsRegistry,
}

pub register-IsRegistry :
    (node_id listen_address : Str) (n : Network)
    → IsRegistry n
    → IsRegistry (register_peer_identity node_id listen_address n).0
register-IsRegistry node_id listen_address n r =
    elim (Bool-cases (is_new_peer node_id listen_address n)) [
      | inl e ↦
          let new = new_peer node_id listen_address n e in
          subst (λ o. IsRegistry o.0) (sym (registered_new node_id listen_address n new))
            (enter-IsRegistry node_id listen_address n new r)
      | inr e ↦ subst IsRegistry (sym (refused node_id listen_address n e).0) r
    ]

pub add_peer-IsRegistry :
    (address : Str) (n : Network) → IsRegistry n → IsRegistry (add_peer address n).0
unfolding add_peer
add_peer-IsRegistry address n r = elim (Bool-cases (accepts_address address n)) [
  | inr e ↦ subst (λ m. IsRegistry m) {x = n} (ground (arith, e)) r
  | inl e ↦
      subst (λ m. IsRegistry m) {x = record n { peers = n.peers ++ address ∷ [] }}
        (ground (arith, e))
        (record {
          peers_bound = ground (arith, length-append {0} n.peers (address ∷ []));
          identities_bound = r.identities_bound;
          history_bound = r.history_bound;
          inbox_bound = r.inbox_bound;
          peers_format =
              All-append IsAddress n.peers (address ∷ []) r.peers_format
                ((nonempty address (ground arith), ground arith), tt);
          peers_distinct =
              AllDistinct-snoc str_eq n.peers address str_eq_comm (ground arith) r.peers_distinct;
          node_ids_distinct = r.node_ids_distinct;
          addresses_distinct = r.addresses_distinct;
          reachable = IsKnown-snoc address n.peers n.peer_identities r.reachable;
        })
]

length-push_bounded :
    (limit : ℕ) (kept : List NetworkMessage) (m : NetworkMessage)
    → 0 < limit
    → length kept ≤ limit
    → length (push_bounded limit kept m) ≤ limit
unfolding push_bounded
length-push_bounded limit [] m h k = ground arith
length-push_bounded limit (x ∷ kept) m h k =
    ground (arith, length-append {0} kept (m ∷ []), length-append {0} (x ∷ kept) (m ∷ []))

-- The messages that are kept do not touch the registry.
logged-IsRegistry :
    (messages inbox : List NetworkMessage) (n : Network)
    → length messages ≤ max_network_message_history
    → length inbox ≤ max_network_inbox_messages
    → IsRegistry n
    → IsRegistry (record n { messages = messages; inbox = inbox })
logged-IsRegistry messages inbox n hm hi r = record {
  peers_bound = r.peers_bound;
  identities_bound = r.identities_bound;
  history_bound = hm;
  inbox_bound = hi;
  peers_format = r.peers_format;
  peers_distinct = r.peers_distinct;
  node_ids_distinct = r.node_ids_distinct;
  addresses_distinct = r.addresses_distinct;
  reachable = r.reachable;
}

pub history-IsRegistry :
    (m : NetworkMessage) (n : Network) → IsRegistry n → IsRegistry (push_message_history m n)
unfolding push_message_history
history-IsRegistry m n r =
    logged-IsRegistry (push_bounded max_network_message_history n.messages m) n.inbox n
      (length-push_bounded max_network_message_history n.messages m (omega arith) r.history_bound)
      r.inbox_bound r

pub inbox-IsRegistry :
    (m : NetworkMessage) (n : Network) → IsRegistry n → IsRegistry (push_inbox m n)
unfolding push_inbox
inbox-IsRegistry m n r =
    logged-IsRegistry n.messages (push_bounded max_network_inbox_messages n.inbox m) n
      r.history_bound
      (length-push_bounded max_network_inbox_messages n.inbox m (omega arith) r.inbox_bound) r

sender-IsRegistry :
    (m : NetworkMessage) (n : Network) → IsRegistry n → IsRegistry (register_sender m n)
unfolding register_sender
sender-IsRegistry (NetworkMessage.handshake node_id _ address _ _ _ _ _) n r =
    register-IsRegistry node_id address n r
sender-IsRegistry _ n r = r

fetch-IsRegistry : (n : Network) → IsRegistry n → IsRegistry (fetch_messages n).0
unfolding fetch_messages
fetch-IsRegistry n r = logged-IsRegistry n.messages [] n r.history_bound (omega arith) r

module _ ⦃c : Crypto⦄ ⦃serde : Serde⦄ where
  pub receive-IsRegistry :
      (clock : Clock) (m : NetworkMessage) (n : Network)
      → IsRegistry n
      → IsRegistry (receive clock m n)
  unfolding receive
  receive-IsRegistry clock m n r = elim (Bool-cases (message_within_limits clock m)) [
    | inr e ↦ subst IsRegistry {x = n} (ground (arith, e)) r
    | inl e ↦
        subst IsRegistry {x = push_message_history m (register_sender m n)} (ground (arith, e))
          (history-IsRegistry m (register_sender m n) (sender-IsRegistry m n r))
  ]

  pub broadcast-IsRegistry :
      (clock : Clock) (m : NetworkMessage) (n : Network)
      → IsRegistry n
      → IsRegistry (broadcast clock m n)
  unfolding broadcast
  broadcast-IsRegistry clock m n r = elim (Bool-cases (message_within_limits clock m)) [
    | inr e ↦ subst IsRegistry {x = n} (ground (arith, e)) r
    | inl e ↦
        subst IsRegistry {x = push_inbox m (push_message_history m n)} (ground (arith, e))
          (inbox-IsRegistry m (push_message_history m n) (history-IsRegistry m n r))
  ]

  -- Sending to the peers keeps what a plain broadcast keeps.
  broadcast_to_peers-broadcast :
      (clock : Clock) (transport : List Str → NetworkMessage → ℕ × ℕ) (m : NetworkMessage)
      (n : Network)
      → (broadcast_to_peers clock transport m n).0 ≡ broadcast clock m n
  unfolding broadcast broadcast_to_peers
  broadcast_to_peers-broadcast clock transport m n = ground arith

  -- One operation of the network.
  pub data Step (n : Network) : Network → Type 0 where
    peer_added : (address : Str) → Step n (add_peer address n).0
    identity_added : (node_id address : Str) → Step n (add_peer_identity node_id address n).0
    received : (clock : Clock) (m : NetworkMessage) → Step n (receive clock m n)
    announced : (clock : Clock) (m : NetworkMessage) → Step n (broadcast clock m n)
    sent :
        (clock : Clock) (transport : List Str → NetworkMessage → ℕ × ℕ) (m : NetworkMessage)
        → Step n (broadcast_to_peers clock transport m n).0
    fetched : Step n (fetch_messages n).0

  Step-IsRegistry : {n n' : Network} → IsRegistry n → Step n n' → IsRegistry n'
  unfolding add_peer_identity
  Step-IsRegistry {n} r (peer_added address) = add_peer-IsRegistry address n r
  Step-IsRegistry {n} r (identity_added node_id address) = register-IsRegistry node_id address n r
  Step-IsRegistry {n} r (received clock m) = receive-IsRegistry clock m n r
  Step-IsRegistry {n} r (announced clock m) = broadcast-IsRegistry clock m n r
  Step-IsRegistry {n} r (sent clock transport m) =
      subst IsRegistry (sym (broadcast_to_peers-broadcast clock transport m n))
        (broadcast-IsRegistry clock m n r)
  Step-IsRegistry {n} r fetched = fetch-IsRegistry n r

  -- A sequence of operations from a network that has just been made.
  pub data Reachable : Network → Type 0 where
    start : Reachable new
    next : {n n' : Network} → Reachable n → Step n n' → Reachable n'

  -- After any sequence of additions, received messages, broadcasts and fetches, the registry holds at
  -- most 128 peers and 128 identities and both message lists at most 10,000 messages, no address, no
  -- node and no identity's address stands in it twice, every address has 1 to 256 bytes, and every
  -- identity's address is a peer that broadcasts reach.
  pub Reachable-IsRegistry : {n : Network} → Reachable n → IsRegistry n
  Reachable-IsRegistry start = new-IsRegistry
  Reachable-IsRegistry (next path step) = Step-IsRegistry (Reachable-IsRegistry path) step
