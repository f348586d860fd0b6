-- ===== src/Network/Registration.antt =====
-- The two ends of the registration of a peer in src/network/mod.rs.
use aion_blockchain.Prelude.{
  str_eq_refl, any-snoc, arith, Bool-cases, ◌≡◌, Str, ◌⊎◌, inl, inr, refl, true, false, ◌++◌, ◌∷◌,
  [],
}
use aion_blockchain.Network.{
  str_eq, any, Network, PeerRegistrationOutcome, add_peer_identity, enter_identity, is_registered,
  register_peer_identity,
}
use aion_blockchain.Network.Registry.{IsNewPeer, is_new_peer, new_peer, refused, registered_new}

-- A network after a peer was entered: its identity stands behind the others, its address is among the
-- peers, none of which is lost and to which at most it is added, and nothing else has changed.
pub record IsEntered (node_id listen_address : Str) (n n' : Network) : Type 0 where
  pub identities :
      n'.peer_identities
      ≡ n.peer_identities ++ record { node_id = node_id; listen_address = listen_address } ∷ []
  pub known : any (str_eq listen_address) n'.peers ≡ true
  pub peers : (n'.peers ≡ n.peers) ⊎ (n'.peers ≡ n.peers ++ listen_address ∷ [])
  pub messages : n'.messages ≡ n.messages
  pub inbox : n'.inbox ≡ n.inbox

enter-IsEntered :
    (node_id listen_address : Str) (n : Network)
    → IsEntered node_id listen_address n (enter_identity node_id listen_address n)
unfolding enter_identity
enter-IsEntered node_id listen_address n = elim (Bool-cases (any (str_eq listen_address) n.peers)) [
  | inl e ↦
      rw e
        (record { identities = refl; known = e; peers = inl refl; messages = refl; inbox = refl })
  | inr e ↦ rw e (record {
    identities = refl;
    known = ground (
      arith,
      any-snoc (str_eq listen_address) n.peers listen_address,
      str_eq_refl listen_address,
    );
    peers = inr refl;
    messages = refl;
    inbox = refl;
  })
]

-- `register_peer_identity` has one of two ends. Where the identity is hexadecimal, its address has at
-- most 256 bytes and is neither empty nor the one-shot clients', neither is registered yet, and there is
-- room for the identity and for its address if that is not yet a peer, it answers `Registered` and has
-- entered both, without changing anything else. Everywhere else it does not answer `Registered` and
-- leaves the network as it was. `add_peer_identity` tells the first end from the second.
pub register_peer_identity_exact :
    (node_id listen_address : Str) (n : Network)
    → let (n', outcome) = register_peer_identity node_id listen_address n in
      let (n'', added) = add_peer_identity node_id listen_address n in
      (IsNewPeer node_id listen_address n
        × (outcome ≡ PeerRegistrationOutcome.registered)
        × IsEntered node_id listen_address n n'
        × (n'' ≡ n')
        × (added ≡ true))
      ⊎ ((¬ IsNewPeer node_id listen_address n)
          × (is_registered outcome ≡ false)
          × (n' ≡ n)
          × (n'' ≡ n)
          × (added ≡ false))
unfolding add_peer_identity
register_peer_identity_exact node_id listen_address n =
    elim (Bool-cases (is_new_peer node_id listen_address n)) [
      | inl e ↦
          let new = new_peer node_id listen_address n e in
          let done = registered_new node_id listen_address n new in
          inl (rw done (new, refl, enter-IsEntered node_id listen_address n, refl, refl))
      | inr e ↦
          let (same, unregistered) = refused node_id listen_address n e in
          let not_new : ¬ IsNewPeer node_id listen_address n =
            λ new. ground (arith, unregistered, registered_new node_id listen_address n new) in
          inr (not_new, unregistered, same, same, unregistered)
    ]
