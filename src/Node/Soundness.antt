-- ===== src/Node/Soundness.antt =====
-- What the operations of a node on transactions and blocks keep (src/node/mod.rs): its money, its pool
-- and the length of its chain.
use aion_blockchain.Prelude.{
  bind-eq-ok, ok-injective, Option-cases, Result-cases, length-append, All, subst, length, ◌∷◌,
  ◌++◌, ◌≡◌, ◌≤◌, List, ℕ, arith, [], ok, inl, inr,
}
use aion_blockchain.Crypto.{Crypto}
use aion_blockchain.Core.Transaction.{Transaction}
use aion_blockchain.Core.Block.{Block}
use aion_blockchain.State.Conservation.{IsNormal}
use aion_blockchain.Consensus.{select_validator_from_hash, is_validator_allowed}
use aion_blockchain.Wallet.{Wallet}
use aion_blockchain.Chain.Mempool
use aion_blockchain.Chain.Mempool.{Mempool}
use aion_blockchain.Chain.Mempool.Admission.{
  IsValid, Admissible, add_transaction-IsValid, keep-IsValid,
}
use aion_blockchain.Chain.Blockchain.{Clock, retain_unconfirmed, create_block_from_mempool}
use aion_blockchain.Chain.Blockchain.Production.{
  IsSolvent, create_block-Steps, create_block_from_mempool-IsSolvent,
}
use aion_blockchain.Network.Registry.{IsRegistry}
use aion_blockchain.Node.Validation.{validate_and_apply_block, validate_transaction_for_mempool}
use aion_blockchain.Node.Validation.Solvency.{validate_and_apply_block-IsSolvent}
use aion_blockchain.Node.{
  str_eq, last, not, ok_or, fail_if, Node, Disk, save_blockchain_to, persist,
  remove_confirmed_transactions, insert_transaction_into_mempool, receive_block, produce_block,
}

module _ ⦃c : Crypto⦄ where
  -- The money of the node and of its genesis sums up, its pool is valid, and so is its registry of
  -- peers.
  pub record IsSound (n : Node) : Type 0 where
    pub solvent : IsSolvent n.state n.blockchain.economy
    pub genesis_solvent : IsSolvent n.genesis_state n.genesis_economy
    pub pool : IsValid n.mempool
    pub registry : IsRegistry n.network

  -- What an operation keeps.
  pub record Keeps (n n' : Node) : Type 0 where
    pub sound : IsSound n'
    pub no_shorter : length n.blockchain.chain ≤ length n'.blockchain.chain

  pub unchanged : (n : Node) → IsSound n → Keeps n n
  unchanged n s = record { sound = s; no_shorter = omega arith }

  longer :
      (chain : List Block) (block : Block) {chain' : List Block}
      → chain' ≡ chain ++ block ∷ []
      → length chain ≤ length chain'
  longer chain block e = ground (arith, e, length-append {0} chain (block ∷ []))

  retained-IsValid :
      (confirmed : List Transaction) (pool : Mempool)
      → IsValid pool
      → IsValid (retain_unconfirmed confirmed pool)
  unfolding retain_unconfirmed
  retained-IsValid confirmed pool v = keep-IsValid _ pool v

  pool-normal : (txs : List Transaction) → All Admissible txs → All IsNormal txs
  pool-normal [] h = tt
  pool-normal (tx ∷ txs) h = (h.0.normal, pool-normal txs h.1)

  pub insert-Keeps :
      (tx : Transaction) (n : Node) {n' : Node}
      → IsSound n
      → insert_transaction_into_mempool tx n ≡ ok n'
      → Keeps n n'
  unfolding insert_transaction_into_mempool
  insert-Keeps tx n {n'} s h =
      let (_, e1, h) =
        bind-eq-ok (validate_transaction_for_mempool tx n.state n.blockchain.economy n.mempool) _
          h in
      let (_, e2, h) =
        bind-eq-ok
          (fail_if (not (Mempool.add_transaction tx n.mempool).1)
            "Transaction could not be added to mempool: limit or duplicate")
          _ h in
      subst (Keeps n) (ok-injective h) (record {
        sound = record {
          solvent = s.solvent;
          genesis_solvent = s.genesis_solvent;
          registry = s.registry;
          pool = add_transaction-IsValid tx n.mempool s.pool;
        };
        no_shorter = omega arith;
      })

  pub receive_block-Keeps :
      (clock : Clock) (disk : Disk) (block : Block) (n : Node)
      → IsSound n
      → Keeps n (receive_block clock disk block n).0
  unfolding receive_block remove_confirmed_transactions
  receive_block-Keeps clock disk block n s =
      elim (Result-cases (validate_and_apply_block clock n.consensus block n.blockchain n.state)) [
        | inr (_, e) ↦ subst (λ m. Keeps n m) {x = n} (ground (arith, e)) (unchanged n s)
        | inl ((bc, state), e) ↦
            let (solvent, _, _, grown) =
              validate_and_apply_block-IsSolvent clock n.consensus block n.blockchain n.state
                s.solvent e in
            elim (Option-cases (save_blockchain_to disk bc.chain)) [
              | inr (_, d) ↦ subst (λ m. Keeps n m) {x = n} (ground (arith, e, d)) (unchanged n s)
              | inl d ↦
                  let after = record n {
                    blockchain = bc;
                    state = state;
                    mempool = retain_unconfirmed block.transactions n.mempool;
                  } in
                  subst (λ m. Keeps n m) {x = after} (ground (arith, e, d))
                    (record {
                      sound = record {
                        solvent = solvent;
                        genesis_solvent = s.genesis_solvent;
                        registry = s.registry;
                        pool = retained-IsValid block.transactions n.mempool s.pool;
                      };
                      no_shorter = longer n.blockchain.chain block grown;
                    })
            ]
      ]

  pub produce_block-Keeps :
      (clock : Clock) (disk : Disk) (timestamp : ℕ) (wallet : Wallet) (n : Node) {n' : Node}
      {block : Block}
      → IsSound n
      → produce_block clock disk timestamp wallet n ≡ ok (n', block)
      → Keeps n n'
  unfolding produce_block
  produce_block-Keeps clock disk timestamp wallet n s h =
      let (_, e1, h) =
        bind-eq-ok
          (fail_if (not (is_validator_allowed n.consensus wallet.address))
            "Validator is not registered in the consensus network")
          _ h in
      let (last_block, e2, h) =
        bind-eq-ok (ok_or (last n.blockchain.chain) "Blockchain is empty") _ h in
      let (selected, e3, h) =
        bind-eq-ok
          (ok_or (select_validator_from_hash n.consensus last_block.hash)
            "Validator could not be selected")
          _ h in
      let (_, e4, h) =
        bind-eq-ok
          (fail_if (not (str_eq selected.address wallet.address))
            "Selected validator for this block is different")
          _ h in
      let (p, e5, h) =
        bind-eq-ok (create_block_from_mempool clock timestamp wallet n.mempool n.state n.blockchain)
          _ h in
      let (_, e6, h) =
        bind-eq-ok
          (persist disk p.blockchain.chain
            "Produced blockchain could not be written to persistent storage: ")
          _ h in
      let (solvent, _, _, grown) =
        create_block_from_mempool-IsSolvent clock timestamp wallet n.mempool n.state n.blockchain
          (pool-normal n.mempool.transactions s.pool.admissible) s.solvent e5 in
      let steps = create_block-Steps clock timestamp wallet n.mempool n.state n.blockchain e5 in
      subst (λ r. Keeps n r.0) (ok-injective h)
        (record {
          sound = record {
            solvent = solvent;
            genesis_solvent = s.genesis_solvent;
            registry = s.registry;
            pool = rw steps.mempool_is (retained-IsValid p.block.transactions n.mempool s.pool);
          };
          no_shorter = longer n.blockchain.chain p.block grown;
        })
