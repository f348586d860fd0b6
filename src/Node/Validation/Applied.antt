-- ===== src/Node/Validation/Applied.antt =====
-- What `validate_and_apply_block` of src/node/mod.rs guarantees when it succeeds.
use aion_blockchain.Prelude.{
  ◌∷◌, ◌≢◌, ◌++◌, ◌∙◌, ap, sym, subst, ok-injective, arith, All, ◌≡◌, [], none, some, ok, refl,
  bind-eq-ok,
}
use aion_blockchain.Crypto.{Crypto}
use aion_blockchain.Core.Transaction.{Transaction, calculate_id}
use aion_blockchain.Core.Block.{Block}
use aion_blockchain.Economy.{Economy}
use aion_blockchain.State.{State}
use aion_blockchain.State.Conservation.{IsNormal}
use aion_blockchain.Consensus.{Consensus}
use aion_blockchain.Chain.Blockchain.Settlement.{no_shares}
use aion_blockchain.Chain.Blockchain.Acceptance.{add_received_block_exact}
use aion_blockchain.Chain.Blockchain.{Blockchain, Clock, add_received_block}
use aion_blockchain.Node.Validation.{
  List, is_empty, fail_if, Progress, check_block, check_validator, walk, conclude,
  validate_and_apply_block,
}
use aion_blockchain.Node.Validation.Walk.{IsReward, Keeps}
use aion_blockchain.Node.Validation.Shape.{Shape, no_coinbase, coinbase_last, walk-Shape}

abbrev pub start : State → Progress
start state = record { state = state; totals = no_shares; coinbase = none }

module _ ⦃c : Crypto⦄ where
  -- The steps of a validation that succeeded.
  pub record Steps (clock : Clock) (consensus : Consensus) (block : Block) (bc : Blockchain)
      (state : State) (bc' : Blockchain) (state' : State) : Type 0 where
    pub candidate : Blockchain
    pub end : Progress
    pub received : add_received_block clock block bc ≡ ok candidate
    pub validator_checked : check_validator consensus block ≡ ok tt
    pub walked : walk block bc.economy 0 block.transactions (start state) ≡ ok end
    pub concluded : conclude block bc.economy end ≡ ok (state', bc'.economy)
    pub chain_is : bc'.chain ≡ candidate.chain

  pub validated-Steps :
      (clock : Clock) (consensus : Consensus) (block : Block) (bc : Blockchain) (state : State)
      {bc' : Blockchain} {state' : State}
      → validate_and_apply_block clock consensus block bc state ≡ ok (bc', state')
      → Steps clock consensus block bc state bc' state'
  unfolding validate_and_apply_block
  validated-Steps clock consensus block bc state {bc'} {state'} h =
      let (_, e1, h) = bind-eq-ok (check_block block) _ h in
      let (candidate, e2, h) = bind-eq-ok (add_received_block clock block bc) _ h in
      let (_, e3, h) = bind-eq-ok (check_validator consensus block) _ h in
      let (_, e4, h) =
        bind-eq-ok (fail_if (is_empty block.transactions) "Block transaction list is empty") _ h in
      let (p, e5, h) = bind-eq-ok (walk block bc.economy 0 block.transactions (start state)) _ h in
      let ((final, minted), e6, h) = bind-eq-ok (conclude block bc.economy p) _ h in
      let same : (record candidate { economy = minted }, final) ≡ (bc', state') = ok-injective h in
      record {
        candidate = candidate;
        end = p;
        received = e2;
        validator_checked = e3;
        walked = e5;
        concluded = subst (λ r. conclude block bc.economy p ≡ ok (r.1, r.0.economy)) same e6;
        chain_is = sym (ap (λ r. r.0.chain) same);
      }

  -- The end of the loop: the coinbase and the fees that are to be paid.
  pub walked_lem :
      (block : Block) (economy : Economy) (state : State) (p : Progress)
      → walk block economy 0 block.transactions (start state) ≡ ok p
      → Keeps (start state) p
        × All (λ (t : Transaction). t.id ≡ calculate_id t) block.transactions
        × Shape block economy block.transactions p
  walked_lem block economy state p h =
      walk-Shape block economy 0 block.transactions (start state) p (omega arith) refl h

  -- A conclusion needs the coinbase.
  conclude-no_coinbase :
      (block : Block) (economy : Economy) (p : Progress) {r : State × Economy}
      → p.coinbase ≡ none
      → conclude block economy p ≢ ok r
  unfolding conclude
  conclude-no_coinbase block economy p e h = ground (arith, e, h)

  -- The coinbase that an accepted block ends with.
  pub record EndsWithReward (block : Block) (economy : Economy) (p : Progress) : Type 0 where
    pub normal : List Transaction
    pub coinbase : Transaction
    pub split : block.transactions ≡ normal ++ coinbase ∷ []
    pub normals : All IsNormal normal
    pub reward : IsReward block economy coinbase
    pub found : p.coinbase ≡ some coinbase

  pub ends_with_reward :
      (block : Block) (economy : Economy) (p : Progress) {r : State × Economy}
      → Shape block economy block.transactions p
      → conclude block economy p ≡ ok r
      → EndsWithReward block economy p
  ends_with_reward block economy p (no_coinbase normals e) h =
      absurd (conclude-no_coinbase block economy p e h)
  ends_with_reward block economy p (coinbase_last normal cb split normals reward e) h = record {
    normal = normal;
    coinbase = cb;
    split = split;
    normals = normals;
    reward = reward;
    found = e;
  }

  -- The chain grows by the block alone.
  pub validate_and_apply_block-chain :
      (clock : Clock) (consensus : Consensus) (block : Block) (bc : Blockchain) (state : State)
      {bc' : Blockchain} {state' : State}
      → validate_and_apply_block clock consensus block bc state ≡ ok (bc', state')
      → bc'.chain ≡ bc.chain ++ block ∷ []
  validate_and_apply_block-chain clock consensus block bc state h =
      let steps = validated-Steps clock consensus block bc state h in
      let (_, same) = (add_received_block_exact clock block bc steps.candidate).0 steps.received in
      steps.chain_is ∙ ap (λ b. b.chain) same
