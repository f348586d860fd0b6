-- ===== src/Node/Rebuilding.antt =====
-- What a node keeps (src/node/mod.rs) while it assembles another chain and rebuilds its state from it.
use aion_blockchain.Prelude.{
  ◌&&◌, ◌>>◌, ◌==◌, bind-eq-ok, ok_or-eq-ok, ok-injective, Bool-cases, Result-cases, append_assoc,
  append-nil, ap, sym, subst, length, drop, ◌∷◌, ◌++◌, ◌≡◌, ◌≤◌, ◌∙◌, List, Option, ℕ, arith, refl,
  [], none, some, ok, inl, inr,
}
use aion_blockchain.Crypto.{Crypto}
use aion_blockchain.Core.Block.{Block}
use aion_blockchain.State.{State}
use aion_blockchain.Consensus.{Consensus}
use aion_blockchain.Chain.Mempool
use aion_blockchain.Chain.Mempool.{Mempool}
use aion_blockchain.Chain.Mempool.Admission.{IsValid}
use aion_blockchain.Chain.Blockchain
use aion_blockchain.Chain.Blockchain.{
  Blockchain, Clock, retain_unconfirmed, create_block_from_mempool,
}
use aion_blockchain.Chain.Blockchain.Production.{IsSolvent}
use aion_blockchain.Node.Validation.{validate_and_apply_block}
use aion_blockchain.Node.Validation.Solvency.{validate_and_apply_block-IsSolvent}
use aion_blockchain.Node.{
  is_empty, ltb, ok_or, first, fail_if, Node, Disk, persist, check_chunk, open_buffer,
  check_indices, check_equal_chain, check_genesis, replay, rebuild_chain, synchronize_chain,
  complete_sync, accept_chain_chunk,
}
use aion_blockchain.Node.Soundness.{IsSound, Keeps, unchanged}

module _ ⦃c : Crypto⦄ where
  replay-IsSolvent :
      (clock : Clock) (consensus : Consensus) (blocks : List Block) (bc : Blockchain)
      (state : State) {bc' : Blockchain} {state' : State}
      → IsSolvent state bc.economy
      → replay clock consensus blocks bc state ≡ ok (bc', state')
      → IsSolvent state' bc'.economy × (bc'.chain ≡ bc.chain ++ blocks)
  unfolding replay
  replay-IsSolvent clock consensus [] bc state s h =
      let e = ok-injective h in
      (
        subst (λ (r : Blockchain × State). IsSolvent r.1 r.0.economy) e s,
        sym (ap (λ (r : Blockchain × State). r.0.chain) e) ∙ sym (append-nil bc.chain),
      )
  replay-IsSolvent clock consensus (block ∷ blocks) bc state s h =
      let ((bc1, state1), e, h) =
        bind-eq-ok (validate_and_apply_block clock consensus block bc state) _ h in
      let (s1, _, _, grown) =
        validate_and_apply_block-IsSolvent clock consensus block bc state s e in
      let (s2, rest) = replay-IsSolvent clock consensus blocks bc1 state1 s1 h in
      (s2, rest ∙ ap (λ c. c ++ blocks) grown ∙ append_assoc bc.chain (block ∷ []) blocks)

  first-drop : (chain : List Block) {b : Block} → first chain ≡ some b → b ∷ drop 1 chain ≡ chain
  first-drop [] h = absurd (ground arith)
  first-drop (x ∷ chain) h = ground (arith, h)

  pub new-IsValid : IsValid Mempool.new
  new-IsValid = record {
    within = omega arith;
    admissible = tt;
    distinct_ids = tt;
    distinct_slots = tt;
  }

  rebuild_chain-Keeps :
      (clock : Clock) (disk : Disk) (chain : List Block) (n : Node) {n' : Node}
      → IsSound n
      → length n.blockchain.chain ≤ length chain
      → rebuild_chain clock disk chain n ≡ ok n'
      → Keeps n n'
  unfolding rebuild_chain Blockchain.new
  rebuild_chain-Keeps clock disk chain n s longer h =
      let (local_genesis, e1, h) =
        bind-eq-ok (ok_or (first n.blockchain.chain) "Local genesis was not found") _ h in
      let (remote_genesis, e2, h) =
        bind-eq-ok (ok_or (first chain) "Incoming genesis was not found") _ h in
      let (_, e3, h) = bind-eq-ok (check_genesis remote_genesis local_genesis) _ h in
      let ((bc, state), e4, h) =
        bind-eq-ok
          (replay clock n.consensus (drop 1 chain)
            (record { chain = remote_genesis ∷ []; economy = n.genesis_economy }) n.genesis_state)
          _ h in
      let (_, e5, h) =
        bind-eq-ok
          (persist disk bc.chain
            "Synchronized blockchain could not be written to persistent storage: ")
          _ h in
      let (solvent, replayed) =
        replay-IsSolvent clock n.consensus (drop 1 chain)
          (record { chain = remote_genesis ∷ []; economy = n.genesis_economy }) n.genesis_state
          s.genesis_solvent e4 in
      let whole : bc.chain ≡ chain =
        replayed
        ∙ first-drop chain (ok_or-eq-ok (first chain) "Incoming genesis was not found" e2) in
      subst (Keeps n) (ok-injective h) (record {
        sound = record {
          solvent = solvent;
          genesis_solvent = s.genesis_solvent;
          registry = s.registry;
          pool = new-IsValid;
        };
        no_shorter = ground (arith, whole, longer);
      })

  pub synchronize_chain-Keeps :
      (clock : Clock) (disk : Disk) (chain : List Block) (n : Node) {n' : Node}
      → IsSound n
      → synchronize_chain clock disk chain n ≡ ok n'
      → Keeps n n'
  unfolding synchronize_chain
  synchronize_chain-Keeps clock disk chain n {n'} s h =
      let (_, e1, h) = bind-eq-ok (fail_if (is_empty chain) "Incoming blockchain is empty") _ h in
      let (_, e2, h) =
        bind-eq-ok
          (fail_if (ltb (length chain) (length n.blockchain.chain))
            "Incoming blockchain is shorter than the current chain")
          _ h in
      elim (Bool-cases (length chain == length n.blockchain.chain)) [
        | inl same ↦
            let (_, e3, h) =
              bind-eq-ok (check_equal_chain chain n) (λ _. ok n) {b = n'} (rw same at h) in
            subst (Keeps n) (ok-injective h) (unchanged n s)
        | inr other ↦ rebuild_chain-Keeps clock disk chain n s (ground (arith, e2)) (rw other at h)
      ]

  complete_sync-Keeps :
      (clock : Clock) (disk : Disk) (total : ℕ) (n : Node)
      → IsSound n
      → Keeps n (complete_sync clock disk total n).1
  unfolding complete_sync
  complete_sync-Keeps clock disk total n s = elim (Bool-cases (ltb (length n.sync_buffer) total)) [
    | inl less ↦ rw less (unchanged n s)
    | inr no_less ↦ elim (Bool-cases (length n.sync_buffer == total)) [
      | inr more ↦ rw (no_less, more) (unchanged n s)
      | inl full ↦
          let taken = record n { sync_buffer = []; sync_expected_total = none } in
          let sound : IsSound taken = record {
            solvent = s.solvent;
            genesis_solvent = s.genesis_solvent;
            registry = s.registry;
            pool = s.pool;
          } in
          elim (Result-cases (synchronize_chain clock disk n.sync_buffer taken)) [
            | inr (_, e) ↦
                rw (no_less, full, e) (record { sound = sound; no_shorter = omega arith })
            | inl (after, e) ↦
                let k = synchronize_chain-Keeps clock disk n.sync_buffer taken sound e in
                rw (no_less, full, e) (record { sound = k.sound; no_shorter = k.no_shorter })
          ]
    ]
  ]

  -- Buffering touches neither the chain nor the money.
  pub buffered :
      (n : Node) (buffer : List Block) (expected : Option ℕ) (n' : Node)
      → n' ≡ record n { sync_buffer = buffer; sync_expected_total = expected }
      → IsSound n
      → Keeps n n'
  buffered n buffer expected n' e s = subst (Keeps n) (sym e) (record {
    sound = record {
      solvent = s.solvent;
      genesis_solvent = s.genesis_solvent;
      pool = s.pool;
      registry = s.registry;
    };
    no_shorter = omega arith;
  })

  pub after : {n m k : Node} → Keeps n m → Keeps m k → Keeps n k
  after a b = record { sound = b.sound; no_shorter = omega (arith, a.no_shorter, b.no_shorter) }

  open_buffer-Keeps :
      (start total : ℕ) (n : Node) {n' : Node}
      → IsSound n
      → open_buffer start total n ≡ ok n'
      → Keeps n n'
  unfolding open_buffer
  open_buffer-Keeps start total n {n'} s h = elim (Bool-cases (start == 0)) [
    | inl first ↦ buffered n [] (some total) n' (sym (ok-injective (rw first at h))) s
    | inr later ↦ subst (Keeps n) (ground (arith, rw later at h)) (unchanged n s)
  ]

  pub accept_chain_chunk-Keeps :
      (clock : Clock) (disk : Disk) (start total : ℕ) (blocks : List Block) (n : Node)
      → IsSound n
      → Keeps n (accept_chain_chunk clock disk start total blocks n).1
  unfolding accept_chain_chunk
  accept_chain_chunk-Keeps clock disk start total blocks n s =
      elim (Result-cases (check_chunk start total blocks >> open_buffer start total n)) [
        | inr (_, e) ↦ subst (λ m. Keeps n m) {x = n} (ground (arith, e)) (unchanged n s)
        | inl (opened, e) ↦
            let (_, e1, e2) = bind-eq-ok (check_chunk start total blocks) _ e in
            let k = open_buffer-Keeps start total n s e2 in
            elim (Result-cases (
              check_indices start 0 blocks
              >> fail_if (is_empty blocks && ltb start total) "Sync chunk is unexpectedly empty")) [
                | inr (_, d) ↦ subst (λ m. Keeps n m) {x = opened} (ground (arith, e, d)) k
                | inl (_, d) ↦
                    let extended = record opened { sync_buffer = opened.sync_buffer ++ blocks } in
                    let x =
                      buffered opened (opened.sync_buffer ++ blocks) opened.sync_expected_total
                        extended refl k.sound in
                    subst (λ m. Keeps n m) {x = (complete_sync clock disk total extended).1}
                      (ground (arith, e, d))
                      (after k (after x (complete_sync-Keeps clock disk total extended x.sound)))
              ]
      ]
