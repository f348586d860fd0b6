-- ===== src/Node/Answering.antt =====
-- What the answers of a node to messages and calls keep (src/node/mod.rs).
use aion_blockchain.Prelude.{
  ◌≤◌, ◌⊎◌, ◌==◌, ok-injective, any, sym, arith, bind-eq-ok, subst, Result-cases, Bool-cases, inl,
  inr, ◌≡◌, List, ℕ, Str, refl, [], none, ok, some,
}
use aion_blockchain.Crypto.{Crypto}
use aion_blockchain.Core.Transaction.{Transaction}
use aion_blockchain.Core.Block.{Block}
use aion_blockchain.State.{State}
use aion_blockchain.Network
use aion_blockchain.Network.{Network}
use aion_blockchain.Network.Registry.{IsRegistry}
use aion_blockchain.Network.Keeping.{receive-IsRegistry, broadcast-IsRegistry, add_peer-IsRegistry}
use aion_blockchain.Network.Message.{NetworkMessage, Serde}
use aion_blockchain.Chain.Mempool
use aion_blockchain.Chain.Blockchain.{Blockchain, Clock}
use aion_blockchain.Chain.Blockchain.Production.{IsSolvent}
use aion_blockchain.Node.{
  persist, err, not, Option, fail_if, ltb, Result, str_eq, first, last, length, ok_or, Node, Disk,
  insert_transaction_into_mempool, receive_block, accept_chain_chunk,
}
use aion_blockchain.Node.Messages.{
  chunk_at, request_next, add_peer, add_transaction, adopt_validated_sync_candidate,
  answer_chunk_request, check_equal_candidate, network_broadcast, network_receive, receive_chunk,
  receive_message, receive_transaction, request_chain,
}
use aion_blockchain.Node.Soundness.{IsSound, Keeps, unchanged, insert-Keeps, receive_block-Keeps}
use aion_blockchain.Node.Rebuilding.{buffered, after, accept_chain_chunk-Keeps, new-IsValid}

module _ ⦃c : Crypto⦄ where
  -- A change of the network alone.
  networked :
      (network : Network) (n : Node) {n' : Node}
      → n' ≡ record n { network = network }
      → IsRegistry network
      → IsSound n
      → Keeps n n'
  networked network n e r s = subst (Keeps n) (sym e) (record {
    sound = record {
      solvent = s.solvent;
      genesis_solvent = s.genesis_solvent;
      pool = s.pool;
      registry = r;
    };
    no_shorter = omega arith;
  })

  pub add_peer-Keeps : (peer : Str) (n : Node) → IsSound n → Keeps n (add_peer peer n).0
  unfolding add_peer
  add_peer-Keeps peer n s =
      networked (Network.add_peer peer n.network).0 n refl
        (add_peer-IsRegistry peer n.network s.registry) s

  -- The node with the chain and the state of a candidate.
  abbrev pub taken_over : Blockchain → State → Node → Node
  taken_over bc state n = record n { blockchain = bc; state = state; mempool = Mempool.new }

  equal_lem : (bc : Blockchain) (n : Node) {n' : Node} → check_equal_candidate bc n ≡ ok n' → n ≡ n'
  unfolding check_equal_candidate
  equal_lem bc n h =
      let (candidate, _, h) =
        bind-eq-ok (ok_or (last bc.chain) "Candidate blockchain is empty") _ h in
      let (local, _, h) =
        bind-eq-ok (ok_or (last n.blockchain.chain) "Local blockchain is empty") _ h in
      let (_, _, h) =
        bind-eq-ok
          (fail_if (not (str_eq candidate.hash local.hash))
            "Different equal-length candidate fork rejected")
          _ h in
      ok-injective h

  -- A node that adopts a candidate stays as it is or takes it over, and the candidate is no shorter.
  pub adopt_lem :
      (disk : Disk) (bc : Blockchain) (state : State) (n : Node) {n' : Node}
      → adopt_validated_sync_candidate disk bc state n ≡ ok n'
      → (n ≡ n') ⊎ ((taken_over bc state n ≡ n') × (length n.blockchain.chain ≤ length bc.chain))
  unfolding adopt_validated_sync_candidate
  adopt_lem disk bc state n {n'} h =
      let (local, _, h) =
        bind-eq-ok (ok_or (first n.blockchain.chain) "Local genesis was not found") _ h in
      let (candidate, _, h) =
        bind-eq-ok (ok_or (first bc.chain) "Candidate genesis was not found") _ h in
      let (_, _, h) =
        bind-eq-ok
          (fail_if (not (str_eq candidate.hash local.hash))
            "Candidate genesis does not match local genesis")
          _ h in
      let (_, longer, h) =
        bind-eq-ok
          (fail_if (ltb (length bc.chain) (length n.blockchain.chain))
            "Candidate blockchain is shorter than the current chain")
          _ h in
      elim (Bool-cases (length bc.chain == length n.blockchain.chain)) [
        | inl same ↦ inl (equal_lem bc n (rw same at h))
        | inr other ↦
            let (_, _, h) =
              bind-eq-ok
                (persist disk bc.chain
                  "Synchronized blockchain could not be written to persistent storage: ")
                _ (rw other at h) in
            inr (ok-injective h, ground (arith, longer))
      ]

  -- A candidate whose money sums up and is within the cap.
  pub adopt-Keeps :
      (disk : Disk) (bc : Blockchain) (state : State) (n : Node) {n' : Node}
      → IsSolvent state bc.economy
      → IsSound n
      → adopt_validated_sync_candidate disk bc state n ≡ ok n'
      → Keeps n n'
  adopt-Keeps disk bc state n solvent s h = elim (adopt_lem disk bc state n h) [
    | inl same ↦ subst (Keeps n) same (unchanged n s)
    | inr (taken, longer) ↦ subst (Keeps n) taken (record {
      sound = record {
        solvent = solvent;
        genesis_solvent = s.genesis_solvent;
        pool = new-IsValid;
        registry = s.registry;
      };
      no_shorter = longer;
    })
  ]

  module _ ⦃serde : Serde⦄ where
    pub broadcast-Keeps :
        (clock : Clock) (m : NetworkMessage) (n : Node)
        → IsSound n
        → Keeps n (network_broadcast clock m n)
    unfolding network_broadcast
    broadcast-Keeps clock m n s =
        networked (Network.broadcast clock m n.network) n refl
          (broadcast-IsRegistry clock m n.network s.registry) s

    pub network_receive-Keeps :
        (clock : Clock) (m : NetworkMessage) (n : Node)
        → IsSound n
        → Keeps n (network_receive clock m n)
    unfolding network_receive
    network_receive-Keeps clock m n s =
        networked (Network.receive clock m n.network) n refl
          (receive-IsRegistry clock m n.network s.registry) s

    -- One operation and then a broadcast.
    and_broadcast :
        (clock : Clock) (m : NetworkMessage) {n n' : Node}
        → Keeps n n'
        → Keeps n (network_broadcast clock m n')
    and_broadcast clock m {n} {n'} k = after k (broadcast-Keeps clock m n' k.sound)

    pub add_transaction-Keeps :
        (clock : Clock) (tx : Transaction) (n : Node)
        → IsSound n
        → Keeps n (add_transaction clock tx n).0
    unfolding add_transaction
    add_transaction-Keeps clock tx n s =
        elim (Result-cases (insert_transaction_into_mempool tx n)) [
          | inr (_, e) ↦ subst (λ m. Keeps n m) {x = n} (ground (arith, e)) (unchanged n s)
          | inl (n', e) ↦
              let sent = NetworkMessage.transaction tx in
              subst (λ m. Keeps n m) {x = network_broadcast clock sent n'} (ground (arith, e))
                (and_broadcast clock sent (insert-Keeps tx n s e))
        ]

    receive_transaction-Keeps :
        (tx : Transaction) (n : Node) → IsSound n → Keeps n (receive_transaction tx n)
    unfolding receive_transaction
    receive_transaction-Keeps tx n s = elim (Result-cases (insert_transaction_into_mempool tx n)) [
      | inr (_, e) ↦ subst (λ m. Keeps n m) {x = n} (ground (arith, e)) (unchanged n s)
      | inl (n', e) ↦ subst (λ m. Keeps n m) {x = n'} (ground (arith, e)) (insert-Keeps tx n s e)
    ]

    pub request_chain-Keeps :
        (clock : Clock) (n : Node) → IsSound n → Keeps n (request_chain clock n)
    unfolding request_chain
    request_chain-Keeps clock n s =
        and_broadcast clock (NetworkMessage.chain_chunk_request 0) (buffered n [] none _ refl s)

    pub request_next-Keeps :
        (clock : Clock) (outcome : Result (Option ℕ)) {n : Node} (m : Node)
        → Keeps n m
        → Keeps n (request_next clock outcome m)
    unfolding request_next
    request_next-Keeps clock (err _) m k = k
    request_next-Keeps clock (ok none) m k = k
    request_next-Keeps clock (ok (some next_index)) m k =
        and_broadcast clock (NetworkMessage.chain_chunk_request next_index) k

    pub receive_chunk-Keeps :
        (clock : Clock) (disk : Disk) (start total : ℕ) (blocks : List Block) (n : Node)
        → IsSound n
        → Keeps n (receive_chunk clock disk start total blocks n)
    unfolding receive_chunk
    receive_chunk-Keeps clock disk start total blocks n s =
        let (outcome, m) = accept_chain_chunk clock disk start total blocks n in
        request_next-Keeps clock outcome m
          (accept_chain_chunk-Keeps clock disk start total blocks n s)

    pub answer_chunk_request-Keeps :
        (clock : Clock) (start : ℕ) (n : Node)
        → IsSound n
        → Keeps n (answer_chunk_request clock start n)
    unfolding answer_chunk_request
    answer_chunk_request-Keeps clock start n s =
        let answer =
          NetworkMessage.chain_chunk_response start (length n.blockchain.chain)
            (chunk_at start n.blockchain.chain) in
        elim (Bool-cases (ltb (length n.blockchain.chain) start)) [
          | inl e ↦ subst (λ m. Keeps n m) {x = n} (ground (arith, e)) (unchanged n s)
          | inr e ↦
              subst (λ m. Keeps n m) {x = network_broadcast clock answer n} (ground (arith, e))
                (broadcast-Keeps clock answer n s)
        ]

    pub receive_message-Keeps :
        (clock : Clock) (disk : Disk) (m : NetworkMessage) (n : Node)
        → IsSound n
        → Keeps n (receive_message clock disk m n)
    unfolding receive_message
    receive_message-Keeps clock disk (NetworkMessage.transaction tx) n s =
        receive_transaction-Keeps tx n s
    receive_message-Keeps clock disk (NetworkMessage.block block) n s =
        elim (Bool-cases
          (any (λ (known : Block). str_eq known.hash block.hash) n.blockchain.chain)) [
            | inl e ↦ subst (λ m. Keeps n m) {x = n} (ground (arith, e)) (unchanged n s)
            | inr e ↦
                subst (λ m. Keeps n m) {x = (receive_block clock disk block n).0}
                  (ground (arith, e)) (receive_block-Keeps clock disk block n s)
          ]
    receive_message-Keeps clock disk (NetworkMessage.chain_chunk_request start) n s =
        answer_chunk_request-Keeps clock start n s
    receive_message-Keeps clock disk (NetworkMessage.chain_chunk_response start total blocks) n s =
        receive_chunk-Keeps clock disk start total blocks n s
    receive_message-Keeps clock disk m n s = network_receive-Keeps clock m n s
