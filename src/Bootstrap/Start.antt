-- ===== src/Bootstrap/Start.antt =====
-- The start of the network (src/bootstrap.rs): what a configuration that is built yields, and what
-- holds of every node that starts from it.
use aion_blockchain.Prelude.{
  checked_add, arith, bind-eq-ok, subst, ok-injective, ◌≡◌, ◌≤◌, ◌∷◌, [], All, ok, true, refl, map,
}
use aion_blockchain.Crypto.{Crypto, IsLawful}
use aion_blockchain.Wallet.Formats.{digest_format}
use aion_blockchain.Protocol.{is_fixed_hex}
use aion_blockchain.Core.Block
use aion_blockchain.Core.Block.{preimage, Block, calculate_hash}
use aion_blockchain.Economy
use aion_blockchain.State
use aion_blockchain.State.{State, balance_of}
use aion_blockchain.State.Accounts.{total_balance}
use aion_blockchain.Consensus
use aion_blockchain.Consensus.Registry.{IsDistinct}
use aion_blockchain.Chain.Blockchain
use aion_blockchain.Chain.Blockchain.{chain_ids, is_valid}
use aion_blockchain.Chain.Blockchain.Validity.{is_valid_exact}
use aion_blockchain.Bootstrap.{
  checked_add, Economy, Str, CanonicalBootstrap, add_validators, build_bootstrap,
  check_configuration, configured_economy, create_accounts, genesis_block,
}
use aion_blockchain.Bootstrap.Configuration.{
  GenesisAllocation, GenesisConfiguration, canonical_bytes, genesis_configuration_fingerprint,
}
use aion_blockchain.Bootstrap.Genesis.{
  IsConsistent, add_validators-eq-ok, check_configuration-eq-ok, create_accounts-balances,
  create_accounts-total, to_validator,
}

minted-eq :
    (configuration : GenesisConfiguration) {economy : Economy}
    → Economy.mint configuration.genesis_supply (configured_economy configuration) ≡ ok economy
    → (economy
        ≡ record (configured_economy configuration) { total_supply = configuration.genesis_supply })
      × (configuration.genesis_supply ≤ configuration.max_supply)
unfolding Economy.mint checked_add configured_economy
minted-eq configuration h = (ground (arith, h), ground (arith, h))

module _ ⦃c : Crypto⦄ where
  -- What a successful build leaves.
  pub record IsStart (configuration : GenesisConfiguration) (b : CanonicalBootstrap) : Type 0 where
    pub consistent : IsConsistent configuration
    pub supply :
        b.blockchain.economy
        ≡ record (configured_economy configuration) { total_supply = configuration.genesis_supply }
    pub capped : configuration.genesis_supply ≤ configuration.max_supply
    pub balances : total_balance b.state.accounts ≡ configuration.genesis_supply
    pub allocations :
        All
          (λ (a : GenesisAllocation). balance_of b.state a.address ≡ a.balance)
          configuration.allocations
    pub treasury : b.state.treasury_balance ≡ configuration.initial_treasury_balance
    pub burned : b.state.burned_amount ≡ configuration.initial_burned_amount
    pub registered : b.consensus.validators ≡ map to_validator configuration.validators
    pub distinct : IsDistinct b.consensus.validators
    pub fingerprint : genesis_configuration_fingerprint configuration ≡ ok b.genesis_fingerprint
    pub chain : b.blockchain.chain ≡ genesis_block configuration b.genesis_fingerprint ∷ []
    pub valid : is_valid b.blockchain ≡ true

  fingerprint_format :
      (laws : IsLawful c) (configuration : GenesisConfiguration) {fingerprint : Str}
      → genesis_configuration_fingerprint configuration ≡ ok fingerprint
      → is_fixed_hex fingerprint 64 ≡ true
  unfolding genesis_configuration_fingerprint
  fingerprint_format laws configuration h =
      let (canonical, _, h) = bind-eq-ok (canonical_bytes configuration) _ h in
      subst (λ f. is_fixed_hex f 64 ≡ true) (ok-injective h) (digest_format laws canonical)

  genesis_valid :
      (laws : IsLawful c) (configuration : GenesisConfiguration) (fingerprint : Str)
      (economy : Economy)
      → is_fixed_hex fingerprint 64 ≡ true
      → is_valid
          (record { chain = genesis_block configuration fingerprint ∷ []; economy = economy })
        ≡ true
  unfolding genesis_block Block.new calculate_hash preimage chain_ids
  genesis_valid laws configuration fingerprint economy format = (is_valid_exact _).1 (record {
    blocks_good = (
      record {
        format = record {
          within = omega arith;
          hash_hex = digest_format laws (preimage (genesis_block configuration fingerprint));
          genesis = λ _. record {
            no_previous = refl;
            no_validator = refl;
            key_hex = format;
            unsigned = refl;
            no_transactions = refl;
          };
          chained = λ n. absurd (n refl);
        };
        indexed = refl;
        transactions = tt;
        hashed = refl;
        linked = refl;
      },
      tt,
    );
    distinct = tt;
  })

  -- Crates that behave as documented being given, a genesis configuration that is built has a
  -- positive fee divisor, fee percentages that sum up to 100 and allocations that sum up to the
  -- genesis supply, which is within the cap. The account of every allocation holds it, all accounts
  -- together hold the supply, the validators are the configured ones, with no address twice, and the
  -- chain is the one genesis block with the configuration's fingerprint and is valid.
  pub build_bootstrap-IsStart :
      (laws : IsLawful c) (configuration : GenesisConfiguration) {b : CanonicalBootstrap}
      → build_bootstrap configuration ≡ ok b
      → IsStart configuration b
  unfolding build_bootstrap balance_of total_balance Blockchain.new
  build_bootstrap-IsStart laws configuration {b} h =
      let (_, e1, h) = bind-eq-ok (check_configuration configuration) _ h in
      let (consensus, e2, h) =
        bind-eq-ok (add_validators configuration.validators Consensus.new) _ h in
      let (created, e3, h) = bind-eq-ok (create_accounts configuration.allocations State.new) _ h in
      let (fingerprint, e4, h) = bind-eq-ok (genesis_configuration_fingerprint configuration) _ h in
      let (economy, e5, h) =
        bind-eq-ok (Economy.mint configuration.genesis_supply (configured_economy configuration)) _
          h in
      let consistent = check_configuration-eq-ok configuration e1 in
      let (distinct, registered) =
        add_validators-eq-ok configuration.validators Consensus.new tt e2 in
      let (minted, within) = minted-eq configuration e5 in
      subst (IsStart configuration) (ok-injective h) (record {
        consistent = consistent;
        supply = minted;
        capped = within;
        balances = omega (
          arith,
          create_accounts-total configuration.allocations State.new e3,
          consistent.allocations,
        );
        allocations = create_accounts-balances configuration.allocations State.new e3;
        treasury = refl;
        burned = refl;
        registered = registered;
        distinct = distinct;
        fingerprint = e4;
        chain = refl;
        valid =
            genesis_valid laws configuration fingerprint economy
              (fingerprint_format laws configuration e4);
      })
