-- ===== src/Bootstrap/Configuration.antt =====
-- src/bootstrap.rs: the genesis configuration of the network, and its fingerprint.
use aion_blockchain.Prelude.{
  ◌++◌, ◌∷◌, ◌&&◌, ◌||◌, ◌==◌, ◌>>=◌, Bool, Bytes, List, Result, Str, [], bytes_of, false,
  if◌then◌else◌, length, ltb, none, ok, ok_or, some, true, u64_mod, ℕ, Option,
}
use aion_blockchain.Protocol.{
  genesis_supply_micro_kbn, genesis_timestamp, genesis_validator_a_address,
  genesis_validator_a_allocation_micro_kbn, genesis_validator_a_stake, genesis_validator_b_address,
  genesis_validator_b_allocation_micro_kbn, genesis_validator_b_stake, network_id,
  network_protocol_version,
}
use aion_blockchain.Crypto.{Crypto}
use aion_blockchain.Core.Encoding.{be_bytes, u64_bytes}
use aion_blockchain.Economy

abbrev pub genesis_fingerprint_domain : Str
genesis_fingerprint_domain = bytes_of "KYBERNETES_GENESIS_CONFIG_V1"

pub record GenesisValidatorConfiguration : Type 0 where
  pub address : Str
  pub stake : ℕ

pub record GenesisAllocation : Type 0 where
  pub address : Str
  pub balance : ℕ

pub record GenesisConfiguration : Type 0 where
  pub network_id : Str
  pub network_protocol_version : ℕ
  pub timestamp : ℕ
  pub validators : List GenesisValidatorConfiguration
  pub allocations : List GenesisAllocation
  pub genesis_supply : ℕ
  pub max_supply : ℕ
  pub block_reward : ℕ
  pub minimum_fee : ℕ
  pub fee_divisor : ℕ
  pub validator_fee_percent : ℕ
  pub liquidity_fee_percent : ℕ
  pub treasury_fee_percent : ℕ
  pub burn_fee_percent : ℕ
  pub initial_liquidity_reserve : ℕ
  pub initial_treasury_balance : ℕ
  pub initial_burned_amount : ℕ

unfoldable pub canonical_genesis_configuration : GenesisConfiguration
canonical_genesis_configuration = record {
  network_id = network_id;
  network_protocol_version = network_protocol_version;
  timestamp = genesis_timestamp;
  validators =
      record { address = genesis_validator_a_address; stake = genesis_validator_a_stake }
      ∷ record { address = genesis_validator_b_address; stake = genesis_validator_b_stake }
      ∷ [];
  allocations =
      record {
        address = genesis_validator_a_address;
        balance = genesis_validator_a_allocation_micro_kbn;
      }
      ∷ record {
        address = genesis_validator_b_address;
        balance = genesis_validator_b_allocation_micro_kbn;
      }
      ∷ [];
  genesis_supply = genesis_supply_micro_kbn;
  max_supply = Economy.new.max_supply;
  block_reward = Economy.new.block_reward;
  minimum_fee = Economy.new.minimum_fee;
  fee_divisor = Economy.new.fee_divisor;
  validator_fee_percent = Economy.new.validator_fee_percent;
  liquidity_fee_percent = Economy.new.liquidity_fee_percent;
  treasury_fee_percent = Economy.new.treasury_fee_percent;
  burn_fee_percent = Economy.new.burn_fee_percent;
  initial_liquidity_reserve = Economy.new.liquidity_reserve;
  initial_treasury_balance = 0;
  initial_burned_amount = 0;
}

-- `u64::try_from` of a length
abbrev pub length_to_u64 : ℕ → Option ℕ
length_to_u64 n = if ltb n u64_mod then some n else none

-- `append_string` of src/bootstrap.rs
unfoldable pub append_genesis_string : Bytes → Str → Result Bytes
append_genesis_string buffer value = do
  size ← ok_or (length_to_u64 (length value)) "Genesis string length overflow"
  ok (buffer ++ u64_bytes size ++ value)

-- `append_count` of src/bootstrap.rs
unfoldable pub append_count : Bytes → ℕ → Result Bytes
append_count buffer count = do
  n ← ok_or (length_to_u64 count) "Genesis list length overflow"
  ok (buffer ++ u64_bytes n)

-- `left.cmp(right)` is not greater: the strings are compared byte by byte.
unfoldable pub str_leb : Str → Str → Bool
str_leb [] t = true
str_leb (a ∷ s) [] = false
str_leb (a ∷ s) (b ∷ t) = ltb a b || (a == b && str_leb s t)

-- `sort_by(|left, right| left.address.cmp(&right.address))`, which is stable.
unfoldable pub insert_allocation :
    GenesisAllocation → List GenesisAllocation → List GenesisAllocation
insert_allocation x [] = x ∷ []
insert_allocation x (y ∷ ys) =
    if str_leb x.address y.address then x ∷ y ∷ ys else y ∷ insert_allocation x ys

unfoldable pub sort_allocations : List GenesisAllocation → List GenesisAllocation
unfolding insert_allocation
sort_allocations [] = []
sort_allocations (x ∷ xs) = insert_allocation x (sort_allocations xs)

-- The two loops of `genesis_configuration_fingerprint`.
unfoldable pub append_validators : Bytes → List GenesisValidatorConfiguration → Result Bytes
append_validators buffer [] = ok buffer
append_validators buffer (v ∷ vs) = do
  extended ← append_genesis_string buffer v.address
  append_validators (extended ++ u64_bytes v.stake) vs

unfoldable pub append_allocations : Bytes → List GenesisAllocation → Result Bytes
append_allocations buffer [] = ok buffer
append_allocations buffer (a ∷ rest) = do
  extended ← append_genesis_string buffer a.address
  append_allocations (extended ++ u64_bytes a.balance) rest

unfoldable pub append_values : Bytes → List ℕ → Bytes
append_values buffer [] = buffer
append_values buffer (n ∷ ns) = append_values (buffer ++ u64_bytes n) ns

-- What `genesis_configuration_fingerprint` hashes.
unfoldable pub canonical_bytes : GenesisConfiguration → Result Bytes
canonical_bytes configuration = do
  domain ← append_genesis_string [] genesis_fingerprint_domain
  network ← append_genesis_string domain configuration.network_id
  counted ←
      append_count
        (network
          ++ be_bytes 4 configuration.network_protocol_version
          ++ u64_bytes configuration.timestamp)
        (length configuration.validators)
  validators ← append_validators counted configuration.validators
  let sorted = sort_allocations configuration.allocations
  listed ← append_count validators (length sorted)
  allocations ← append_allocations listed sorted
  ok (
      append_values allocations (
        configuration.genesis_supply ∷ configuration.max_supply ∷ configuration.block_reward
        ∷ configuration.minimum_fee ∷ configuration.fee_divisor
        ∷ configuration.validator_fee_percent ∷ configuration.liquidity_fee_percent
        ∷ configuration.treasury_fee_percent ∷ configuration.burn_fee_percent
        ∷ configuration.initial_liquidity_reserve ∷ configuration.initial_treasury_balance
        ∷ configuration.initial_burned_amount ∷ []))

unfoldable pub genesis_configuration_fingerprint : ⦃c : Crypto⦄ → GenesisConfiguration → Result Str
genesis_configuration_fingerprint ⦃c⦄ configuration = do
  canonical ← canonical_bytes configuration
  ok (c.lower_hex (c.sha256 canonical))
