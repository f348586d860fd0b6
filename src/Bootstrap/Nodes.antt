-- ===== src/Bootstrap/Nodes.antt =====
-- The nodes that start from the genesis of src/bootstrap.rs.
use aion_blockchain.Prelude.{
  checked_add, str_eq, arith, ◌≡◌, ◌<◌, ok, refl, subst, sym, u64_mod, Result-cases, inl, inr,
  is_err, false,
}
use aion_blockchain.Crypto.{Crypto, IsLawful}
use aion_blockchain.Economy
use aion_blockchain.State
use aion_blockchain.State.Accounts.{lookup, insert}
use aion_blockchain.Consensus
use aion_blockchain.Chain.Blockchain.Production.{IsSolvent}
use aion_blockchain.Network.Registry.{new-IsRegistry}
use aion_blockchain.Node
use aion_blockchain.Node.{Node}
use aion_blockchain.Node.Soundness.{IsSound}
use aion_blockchain.Node.Rebuilding.{new-IsValid}
use aion_blockchain.Bootstrap.{
  create_accounts, add_validators, allocated_supply, checked_add, configured_fee_percent,
  check_configuration, configured_economy, CanonicalBootstrap, build_bootstrap, canonical_bootstrap,
}
use aion_blockchain.Bootstrap.Configuration.{
  GenesisConfiguration, append_allocations, append_count, append_genesis_string, append_validators,
  canonical_bytes, canonical_genesis_configuration, genesis_configuration_fingerprint,
  sort_allocations, insert_allocation, str_leb,
}
use aion_blockchain.Bootstrap.Start.{IsStart, build_bootstrap-IsStart}

module _ ⦃c : Crypto⦄ where
  -- The node that a program makes from what was built.
  abbrev pub first_node : CanonicalBootstrap → Node
  first_node b = Node.new b.blockchain b.state b.consensus

  start-IsSolvent :
      (configuration : GenesisConfiguration) {b : CanonicalBootstrap}
      → configuration.initial_treasury_balance ≡ 0
      → configuration.initial_liquidity_reserve ≡ 0
      → configuration.max_supply < u64_mod
      → IsStart configuration b
      → IsSolvent b.state b.blockchain.economy
  unfolding configured_economy
  start-IsSolvent configuration {b} no_treasury no_reserve machine s =
      subst (IsSolvent b.state) (sym s.supply) (record {
        balanced = omega (arith, s.balances, s.treasury, no_treasury, no_reserve);
        capped = record { within = s.capped; machine = machine };
      })

  start-IsSound :
      (configuration : GenesisConfiguration) {b : CanonicalBootstrap}
      → configuration.initial_treasury_balance ≡ 0
      → configuration.initial_liquidity_reserve ≡ 0
      → configuration.max_supply < u64_mod
      → IsStart configuration b
      → IsSound (first_node b)
  unfolding Node.new
  start-IsSound configuration no_treasury no_reserve machine s =
      let solvent = start-IsSolvent configuration no_treasury no_reserve machine s in
      record {
        solvent = solvent;
        genesis_solvent = solvent;
        pool = new-IsValid;
        registry = new-IsRegistry;
      }

  pub canonical-IsStart :
      (laws : IsLawful c) {b : CanonicalBootstrap}
      → canonical_bootstrap ≡ ok b
      → IsStart canonical_genesis_configuration b
  unfolding canonical_bootstrap
  canonical-IsStart laws built = build_bootstrap-IsStart laws canonical_genesis_configuration built

  canonical_succeeds : is_err canonical_bootstrap ≡ false
  unfolding canonical_bootstrap canonical_genesis_configuration build_bootstrap check_configuration
      configured_fee_percent checked_add allocated_supply add_validators Consensus.add_validator
      create_accounts State.create_account lookup insert genesis_configuration_fingerprint
      canonical_bytes append_genesis_string append_count append_validators append_allocations
      sort_allocations insert_allocation str_leb str_eq Economy.mint Economy.can_mint
      configured_economy
  canonical_succeeds = refl

  -- With crates that behave as documented, the canonical configuration of the network is built, and
  -- what it yields is as that configuration says: its supply, cap, allocations, validators and
  -- fingerprint, and a valid chain of its genesis block alone.
  pub canonical_bootstrap_succeeds :
      (laws : IsLawful c)
      → (b : CanonicalBootstrap) × (canonical_bootstrap ≡ ok b)
        × IsStart canonical_genesis_configuration b
  unfolding canonical_bootstrap
  canonical_bootstrap_succeeds laws = elim (Result-cases canonical_bootstrap) [
    | inl (b, e) ↦ (b, e, canonical-IsStart laws e)
    | inr (_, e) ↦ absurd (ground (arith, e, canonical_succeeds))
  ]

  pub canonical-IsSolvent :
      (laws : IsLawful c) {b : CanonicalBootstrap}
      → canonical_bootstrap ≡ ok b
      → IsSolvent b.state b.blockchain.economy
  unfolding canonical_genesis_configuration
  canonical-IsSolvent laws built =
      start-IsSolvent canonical_genesis_configuration refl refl (omega arith)
        (canonical-IsStart laws built)

  pub canonical-IsSound :
      (laws : IsLawful c) {b : CanonicalBootstrap}
      → canonical_bootstrap ≡ ok b
      → IsSound (first_node b)
  unfolding canonical_genesis_configuration
  canonical-IsSound laws built =
      start-IsSound canonical_genesis_configuration refl refl (omega arith)
        (canonical-IsStart laws built)
