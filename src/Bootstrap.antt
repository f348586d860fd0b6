-- ===== src/Bootstrap.antt =====
-- src/bootstrap.rs: the chain, the state and the validators that every node starts from.
pub mod Configuration
pub mod Genesis
pub mod Start
pub mod Nodes
pub mod Lives
use aion_blockchain.Prelude.{
  ◌>>=◌, ◌>>◌, ◌==◌, List, Option, Result, Str, [], ◌∷◌, checked_add, err, fail_if, if◌then◌else◌,
  none, not, ok, ok_or, some, text, ℕ,
}
use aion_blockchain.Protocol.{genesis_previous_hash, genesis_validator}
use aion_blockchain.Crypto.{Crypto}
use aion_blockchain.Core.Block
use aion_blockchain.Core.Block.{Block}
use aion_blockchain.Economy
use aion_blockchain.Economy.{Economy}
use aion_blockchain.State
use aion_blockchain.State.{State}
use aion_blockchain.State.Accounts.{lookup}
use aion_blockchain.Consensus
use aion_blockchain.Consensus.{Consensus}
use aion_blockchain.Chain.Blockchain
use aion_blockchain.Chain.Blockchain.{Blockchain}
use Configuration.{
  GenesisAllocation, GenesisConfiguration, GenesisValidatorConfiguration,
  canonical_genesis_configuration, genesis_configuration_fingerprint,
}

pub record CanonicalBootstrap : Type 0 where
  pub blockchain : Blockchain
  pub state : State
  pub consensus : Consensus
  pub genesis_fingerprint : Str

-- `option.and_then(|total| total.checked_add(n))`
abbrev pub and_add : Option ℕ → ℕ → Option ℕ
and_add none n = none
and_add (some total) n = checked_add total n

-- The loop that adds up the allocations.
unfoldable pub allocated_supply : ℕ → List GenesisAllocation → Result ℕ
allocated_supply total [] = ok total
allocated_supply total (a ∷ rest) = do
  sum ← ok_or (checked_add total a.balance) "Canonical genesis allocation overflow"
  allocated_supply sum rest

-- The loop that registers the validators.
unfoldable pub add_validators : List GenesisValidatorConfiguration → Consensus → Result Consensus
add_validators [] consensus = ok consensus
add_validators (v ∷ vs) consensus =
    let (after, added) = Consensus.add_validator v.address v.stake consensus in
    fail_if (not added) "Canonical genesis validator could not be added" >> add_validators vs after

-- The loop that creates the accounts.
unfoldable pub create_accounts : List GenesisAllocation → State → Result State
create_accounts [] s = ok s
create_accounts (a ∷ rest) s = elim (lookup a.address s.accounts) [
  | some _ ↦ err (text "Canonical genesis allocation address is duplicated")
  | none ↦ create_accounts rest (State.create_account a.address a.balance s)
]

unfoldable pub configured_fee_percent : GenesisConfiguration → Option ℕ
configured_fee_percent configuration =
    and_add
      (and_add (checked_add configuration.validator_fee_percent configuration.liquidity_fee_percent)
        configuration.treasury_fee_percent)
      configuration.burn_fee_percent

-- The checks of the configuration before anything is built.
unfoldable pub check_configuration : GenesisConfiguration → Result (Unit {0})
check_configuration configuration = do
  fail_if (configuration.fee_divisor == 0) "Canonical transaction fee divisor cannot be zero"
  percent ← ok_or (configured_fee_percent configuration) "Canonical fee percentages overflow"
  fail_if (not (percent == 100)) "Canonical fee percentages are invalid"
  allocated ← allocated_supply 0 configuration.allocations
  fail_if (not (allocated == configuration.genesis_supply))
      "Canonical genesis allocation does not equal the total supply"

-- The economy of a new chain with the configured parameters, before the genesis supply is minted.
unfoldable pub configured_economy : GenesisConfiguration → Economy
configured_economy configuration = record Economy.new {
  max_supply = configuration.max_supply;
  block_reward = configuration.block_reward;
  minimum_fee = configuration.minimum_fee;
  fee_divisor = configuration.fee_divisor;
  validator_fee_percent = configuration.validator_fee_percent;
  liquidity_fee_percent = configuration.liquidity_fee_percent;
  treasury_fee_percent = configuration.treasury_fee_percent;
  burn_fee_percent = configuration.burn_fee_percent;
  liquidity_reserve = configuration.initial_liquidity_reserve;
}

module _ ⦃c : Crypto⦄ where
  unfoldable pub genesis_block : GenesisConfiguration → Str → Block
  genesis_block configuration fingerprint =
      Block.new 0 configuration.timestamp genesis_previous_hash genesis_validator fingerprint []

  unfoldable pub build_bootstrap : GenesisConfiguration → Result CanonicalBootstrap
  build_bootstrap configuration = do
    check_configuration configuration
    consensus ← add_validators configuration.validators Consensus.new
    created ← create_accounts configuration.allocations State.new
    let state = record created {
      treasury_balance = configuration.initial_treasury_balance;
      burned_amount = configuration.initial_burned_amount;
    }
    fingerprint ← genesis_configuration_fingerprint configuration
    let started = Blockchain.new (genesis_block configuration fingerprint)
    economy ← Economy.mint configuration.genesis_supply (configured_economy configuration)
    ok (record {
      blockchain = record started { economy = economy };
      state = state;
      consensus = consensus;
      genesis_fingerprint = fingerprint;
    })

  unfoldable pub canonical_bootstrap : Result CanonicalBootstrap
  canonical_bootstrap = build_bootstrap canonical_genesis_configuration
