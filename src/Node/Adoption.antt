-- ===== src/Node/Adoption.antt =====
-- Which chain a node of src/node/mod.rs adopts when it synchronizes.
use aion_blockchain.Prelude.{
  append_assoc, append-nil, bind-eq-ok, ok_or-eq-ok, ok-injective, Bool-cases, str_eq_iff, sym,
  subst, ap, first, drop, length, ltb, fail_if, is_empty, ok_or, ◌==◌, ◌∷◌, ◌++◌, ◌≡◌, ◌<◌, ◌⊎◌,
  ◌∙◌, List, arith, refl, [], true, some, ok, inl, inr, All, bytes_of,
}
use aion_blockchain.Crypto.{Crypto}
use aion_blockchain.Core.Block.{Block, calculate_hash}
use aion_blockchain.State.{State}
use aion_blockchain.Consensus.{Consensus}
use aion_blockchain.Chain.Mempool
use aion_blockchain.Chain.Blockchain
use aion_blockchain.Chain.Blockchain.{Blockchain, Clock, is_valid, chain_ids}
use aion_blockchain.Chain.Blockchain.WellFormed.{BlockFormat}
use aion_blockchain.Chain.Blockchain.Validity.{GoodTransaction, is_valid_exact}
use aion_blockchain.Chain.Blockchain.Identifiers.{ids, NewIds}
use aion_blockchain.Node.Validation.{validate_and_apply_block}
use aion_blockchain.Node.Validation.Applied.{validate_and_apply_block-chain}
use aion_blockchain.Node.Validation.Authority.{validate_and_apply_block-is_valid}
use aion_blockchain.Node.{
  Economy, Node, Disk, persist, check_equal_chain, check_genesis, replay, rebuild_chain,
  synchronize_chain,
}

module _ ⦃c : Crypto⦄ where
  -- The adoption of a longer chain with the local genesis block's hash.
  pub record Adopts (chain : List Block) (n after : Node) : Type 0 where
    pub local_genesis : Block
    pub remote_genesis : Block
    pub local_first : first n.blockchain.chain ≡ some local_genesis
    pub remote_first : first chain ≡ some remote_genesis
    pub same_genesis : remote_genesis.hash ≡ local_genesis.hash
    pub genesis_hashed : remote_genesis.hash ≡ calculate_hash remote_genesis
    pub genesis_indexed : remote_genesis.index ≡ 0
    pub genesis_first : remote_genesis.previous_hash ≡ bytes_of "0"
    pub replayed :
        (clock : Clock) × (replay clock n.consensus
            (drop 1 chain)
            (record { chain = remote_genesis ∷ []; economy = n.genesis_economy })
            n.genesis_state
          ≡ ok (after.blockchain, after.state))
    pub adopted : after.blockchain.chain ≡ chain
    pub longer : length n.blockchain.chain < length chain
    pub emptied : after.mempool ≡ Mempool.new

  replay-chain :
      (clock : Clock) (consensus : Consensus) (blocks : List Block) (bc : Blockchain)
      (state : State) {bc' : Blockchain} {state' : State}
      → replay clock consensus blocks bc state ≡ ok (bc', state')
      → bc'.chain ≡ bc.chain ++ blocks
  unfolding replay
  replay-chain clock consensus [] bc state h = ground (arith, h, append-nil bc.chain)
  replay-chain clock consensus (block ∷ blocks) bc state h =
      let ((bc1, state1), e, h) =
        bind-eq-ok (validate_and_apply_block clock consensus block bc state) _ h in
      replay-chain clock consensus blocks bc1 state1 h
      ∙ ap (λ c. c ++ blocks) (validate_and_apply_block-chain clock consensus block bc state e)
      ∙ append_assoc bc.chain (block ∷ []) blocks

  replay-is_valid :
      (clock : Clock) (consensus : Consensus) (blocks : List Block) (bc : Blockchain)
      (state : State) {bc' : Blockchain} {state' : State}
      → is_valid bc ≡ true
      → replay clock consensus blocks bc state ≡ ok (bc', state')
      → is_valid bc' ≡ true
  unfolding replay
  replay-is_valid clock consensus [] bc state v h =
      subst (λ (r : Blockchain × State). is_valid r.0 ≡ true) (ok-injective h) v
  replay-is_valid clock consensus (block ∷ blocks) bc state v h =
      let ((bc1, state1), e, h) =
        bind-eq-ok (validate_and_apply_block clock consensus block bc state) _ h in
      replay-is_valid clock consensus blocks bc1 state1
        (validate_and_apply_block-is_valid clock consensus block bc state v e) h

  first-drop : (chain : List Block) {b : Block} → first chain ≡ some b → b ∷ drop 1 chain ≡ chain
  first-drop [] h = absurd (ground arith)
  first-drop (x ∷ chain) h = ground (arith, h)

  rebuild_chain-Adopts :
      (clock : Clock) (disk : Disk) (chain : List Block) (n : Node) {after : Node}
      → length n.blockchain.chain < length chain
      → rebuild_chain clock disk chain n ≡ ok after
      → Adopts chain n after
  unfolding rebuild_chain Blockchain.new check_genesis
  rebuild_chain-Adopts clock disk chain n longer h =
      let (local, e1, h) =
        bind-eq-ok (ok_or (first n.blockchain.chain) "Local genesis was not found") _ h in
      let (remote, e2, h) = bind-eq-ok (ok_or (first chain) "Incoming genesis was not found") _ h in
      let (_, e3, h) = bind-eq-ok (check_genesis remote local) _ h in
      let start : Blockchain = record { chain = remote ∷ []; economy = n.genesis_economy } in
      let ((bc, state), e4, h) =
        bind-eq-ok (replay clock n.consensus (drop 1 chain) start n.genesis_state) _ h in
      let (_, e5, h) =
        bind-eq-ok
          (persist disk bc.chain
            "Synchronized blockchain could not be written to persistent storage: ")
          _ h in
      let is_first = ok_or-eq-ok (first chain) "Incoming genesis was not found" e2 in
      subst (Adopts chain n) (ok-injective h) (record {
        local_genesis = local;
        remote_genesis = remote;
        local_first = ok_or-eq-ok (first n.blockchain.chain) "Local genesis was not found" e1;
        remote_first = is_first;
        same_genesis = ground (arith, e3, str_eq_iff remote.hash local.hash);
        genesis_hashed = ground (arith, e3, str_eq_iff remote.hash (calculate_hash remote));
        genesis_indexed = ground (arith, e3);
        genesis_first = ground (arith, e3, str_eq_iff remote.previous_hash (bytes_of "0"));
        replayed = (clock, e4);
        adopted =
            replay-chain clock n.consensus (drop 1 chain) start n.genesis_state e4
            ∙ first-drop chain is_first;
        longer = longer;
        emptied = refl;
      })

  -- A successful synchronization leaves the node as it was, or it adopts the offered chain: one that
  -- is longer than the local chain, starts with a block of index 0 and the local genesis block's hash,
  -- and of which every further block is accepted from the genesis state on; the pool is then emptied.
  pub synchronize_chain_lem :
      (clock : Clock) (disk : Disk) (chain : List Block) (n : Node) {after : Node}
      → synchronize_chain clock disk chain n ≡ ok after
      → (after ≡ n) ⊎ Adopts chain n after
  unfolding synchronize_chain
  synchronize_chain_lem clock disk chain n {after} h =
      let (_, e1, h) = bind-eq-ok (fail_if (is_empty chain) "Incoming blockchain is empty") _ h in
      let (_, e2, h) =
        bind-eq-ok
          (fail_if (ltb (length chain) (length n.blockchain.chain))
            "Incoming blockchain is shorter than the current chain")
          _ h in
      elim (Bool-cases (length chain == length n.blockchain.chain)) [
        | inl same ↦
            let (_, e3, h) =
              bind-eq-ok (check_equal_chain chain n) (λ _. ok n) {b = after} (rw same at h) in
            inl (sym (ok-injective h))
        | inr other ↦
            inr
              (rebuild_chain-Adopts clock disk chain n (ground (arith, e2, other)) (rw other at h))
      ]

  good_genesis :
      (genesis : Block) (economy : Economy)
      → BlockFormat genesis
      → genesis.index ≡ 0
      → genesis.hash ≡ calculate_hash genesis
      → is_valid (record { chain = genesis ∷ []; economy = economy }) ≡ true
  unfolding chain_ids
  good_genesis genesis economy f zero_index hashed =
      let g = f.genesis zero_index in
      (is_valid_exact (record { chain = genesis ∷ []; economy = economy })).1 (record {
        blocks_good = (
          record {
            format = f;
            indexed = zero_index;
            transactions = subst (All (GoodTransaction 0)) (sym g.no_transactions) tt;
            hashed = hashed;
            linked = g.no_previous;
          },
          tt,
        );
        distinct = subst (λ txs. NewIds [] (ids txs ++ [])) (sym g.no_transactions) tt;
      })

  -- A node whose chain is valid has a valid chain after a synchronization with a chain whose first
  -- block has the format of a genesis block. (`synchronize_chain` itself does not test that format:
  -- the hash does not cover the signature that a genesis block must not have.)
  pub synchronize_chain-is_valid :
      (clock : Clock) (disk : Disk) (chain : List Block) (n : Node) (genesis : Block) {after : Node}
      → is_valid n.blockchain ≡ true
      → first chain ≡ some genesis
      → BlockFormat genesis
      → synchronize_chain clock disk chain n ≡ ok after
      → is_valid after.blockchain ≡ true
  synchronize_chain-is_valid clock disk chain n genesis v f g h =
      elim (synchronize_chain_lem clock disk chain n h) [
        | inl same ↦ subst (λ (m : Node). is_valid m.blockchain ≡ true) (sym same) v
        | inr a ↦
            let same : a.remote_genesis ≡ genesis = ground (arith, a.remote_first, f) in
            let (clock', replayed) = a.replayed in
            replay-is_valid clock' n.consensus (drop 1 chain)
              (record { chain = a.remote_genesis ∷ []; economy = n.genesis_economy })
              n.genesis_state
              (good_genesis a.remote_genesis n.genesis_economy (subst BlockFormat (sym same) g)
                a.genesis_indexed a.genesis_hashed)
              replayed
      ]
