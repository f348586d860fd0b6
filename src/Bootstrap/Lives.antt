-- ===== src/Bootstrap/Lives.antt =====
-- The lives of a node that starts with the bootstrap of src/bootstrap.rs: the operations of
-- src/node/mod.rs, and the candidates that src/runtime.rs builds beside it and that it adopts later,
-- after other operations.
use aion_blockchain.Prelude.{ok-injective, subst, ◌≡◌, ◌<◌, List, length, ok, arith, ap, bind-eq-ok}
use aion_blockchain.Crypto.{Crypto, IsLawful}
use aion_blockchain.Core.Block.{Block}
use aion_blockchain.Chain.Blockchain.{Clock}
use aion_blockchain.Chain.Blockchain.Production.{IsSolvent}
use aion_blockchain.Network.Message.{Serde}
use aion_blockchain.Node
use aion_blockchain.Node.{Node, Disk, synchronize_chain}
use aion_blockchain.Node.Messages.{
  adopt_validated_sync_candidate, apply_block_to_sync_candidate, sync_candidate_snapshot,
}
use aion_blockchain.Node.Soundness.{IsSound, Keeps}
use aion_blockchain.Node.Rebuilding.{synchronize_chain-Keeps}
use aion_blockchain.Node.Answering.{adopt-Keeps}
use aion_blockchain.Node.Reachable.{Operation, Operation-Keeps}
use aion_blockchain.Node.Validation.{validate_and_apply_block}
use aion_blockchain.Node.Validation.Solvency.{validate_and_apply_block-IsSolvent}
use aion_blockchain.Bootstrap.{CanonicalBootstrap, canonical_bootstrap}
use aion_blockchain.Bootstrap.Nodes.{
  canonical-IsSound, canonical-IsSolvent, canonical-IsStart, first_node,
}

pub data Role : Type 0 where
  running candidate : Role

module _ ⦃c : Crypto⦄ ⦃serde : Serde⦄ where
  -- What a node, and the candidates beside it, can come to be. The node that a candidate is copied
  -- from and the node that adopts it are any two that can come to be.
  pub data Lives (b : CanonicalBootstrap) : Role → Node → Type 0 where
    started : Lives b running (first_node b)
    operated : {n n' : Node} → Lives b running n → Operation n n' → Lives b running n'
    synchronized :
        (clock : Clock) (disk : Disk) (chain : List Block) {n n' : Node}
        → Lives b running n
        → synchronize_chain clock disk chain n ≡ ok n'
        → Lives b running n'
    copied : {n : Node} → Lives b running n → Lives b candidate (sync_candidate_snapshot n)
    restarted : Lives b candidate (first_node b)
    extended :
        (clock : Clock) (block : Block) {n n' : Node}
        → Lives b candidate n
        → apply_block_to_sync_candidate clock block n ≡ ok n'
        → Lives b candidate n'
    adopted :
        (disk : Disk) {k n n' : Node}
        → Lives b candidate k
        → Lives b running n
        → adopt_validated_sync_candidate disk k.blockchain k.state n ≡ ok n'
        → Lives b running n'

  -- What holds of a node, and of a candidate.
  abbrev Holds : Role → Node → Type 0
  Holds running n = IsSound n × (0 < length n.blockchain.chain)
  Holds candidate n = IsSolvent n.state n.blockchain.economy

  kept : {n n' : Node} → 0 < length n.blockchain.chain → Keeps n n' → Holds running n'
  kept some_block k = (k.sound, omega (arith, k.no_shorter, some_block))

  extended-IsSolvent :
      (clock : Clock) (block : Block) (n : Node) {n' : Node}
      → IsSolvent n.state n.blockchain.economy
      → apply_block_to_sync_candidate clock block n ≡ ok n'
      → IsSolvent n'.state n'.blockchain.economy
  unfolding apply_block_to_sync_candidate
  extended-IsSolvent clock block n solvent h =
      let ((bc, state), e, h) =
        bind-eq-ok (validate_and_apply_block clock n.consensus block n.blockchain n.state) _ h in
      let (after, _, _, _) =
        validate_and_apply_block-IsSolvent clock n.consensus block n.blockchain n.state solvent e in
      subst (λ (r : Node). IsSolvent r.state r.blockchain.economy) (ok-injective h) after

  Lives-Holds :
      (laws : IsLawful c) {b : CanonicalBootstrap} {role : Role} {n : Node}
      → canonical_bootstrap ≡ ok b
      → Lives b role n
      → Holds role n
  unfolding sync_candidate_snapshot Node.new
  Lives-Holds laws built started =
      let start = canonical-IsStart laws built in
      (canonical-IsSound laws built, omega (arith, ap length start.chain))
  Lives-Holds laws built (operated life h) =
      let (sound, some_block) = Lives-Holds laws built life in
      kept some_block (Operation-Keeps sound h)
  Lives-Holds laws built (synchronized clock disk chain {n} life h) =
      let (sound, some_block) = Lives-Holds laws built life in
      kept some_block (synchronize_chain-Keeps clock disk chain n sound h)
  Lives-Holds laws built (copied life) = (Lives-Holds laws built life).0.solvent
  Lives-Holds laws built restarted = canonical-IsSolvent laws built
  Lives-Holds laws built (extended clock block {n} life h) =
      extended-IsSolvent clock block n (Lives-Holds laws built life) h
  Lives-Holds laws built (adopted disk {k} {n} other life h) =
      let (sound, some_block) = Lives-Holds laws built life in
      kept some_block
        (adopt-Keeps disk k.blockchain k.state n (Lives-Holds laws built other) sound h)

  -- With crates that behave as documented, a node that starts with the canonical bootstrap keeps its
  -- money balanced and within the cap, its pool and its peer registry valid and its chain not empty
  -- through every sequence of messages of every kind, submitted transactions, blocks that it produces,
  -- chunks of another chain, added peers, synchronizations with a whole chain, and adoptions of
  -- candidates, each built (while the node went on) by applying blocks to a copy of such a node or to
  -- the canonical bootstrap; with any answers of clock and file system.
  pub Lives-IsSound :
      (laws : IsLawful c) {b : CanonicalBootstrap} {n : Node}
      → canonical_bootstrap ≡ ok b
      → Lives b running n
      → IsSound n × (0 < length n.blockchain.chain)
  Lives-IsSound laws built life = Lives-Holds laws built life
