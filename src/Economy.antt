-- ===== src/Economy.antt =====
-- src/economy/mod.rs: the supply, the fee schedule and the split of a fee.
pub mod Fees
pub mod Supply
use aion_blockchain.Prelude.{
  ℕ, ◌+◌, ◌-◌, ◌*◌, ◌/◌, max, Bool, false, not, Option, none, some, ltb, leb, ◌==◌, if◌then◌else◌,
  u64_mod, checked_add, checked_sub, String, Result, ok, err, panic, text, ◌>>=◌, ◌>>◌, fail_if,
  ok_or,
}
use aion_blockchain.Protocol.{
  max_supply_micro_kbn, block_reward_micro_kbn, min_transaction_fee_micro_kbn,
  transaction_fee_divisor, validator_fee_percent, liquidity_reserve_fee_percent,
  treasury_fee_percent, burn_fee_percent,
}

pub record Economy : Type 0 where
  pub total_supply : ℕ
  pub max_supply : ℕ
  pub block_reward : ℕ
  pub minimum_fee : ℕ
  pub fee_divisor : ℕ
  pub liquidity_reserve : ℕ
  pub validator_fee_percent : ℕ
  pub liquidity_fee_percent : ℕ
  pub treasury_fee_percent : ℕ
  pub burn_fee_percent : ℕ

-- `Economy::new`
abbrev pub new : Economy
new = record {
  total_supply = 0;
  max_supply = max_supply_micro_kbn;
  block_reward = block_reward_micro_kbn;
  minimum_fee = min_transaction_fee_micro_kbn;
  fee_divisor = transaction_fee_divisor;
  liquidity_reserve = 0;
  validator_fee_percent = validator_fee_percent;
  liquidity_fee_percent = liquidity_reserve_fee_percent;
  treasury_fee_percent = treasury_fee_percent;
  burn_fee_percent = burn_fee_percent;
}

-- `Economy::calculate_fee`
unfoldable pub calculate_fee : Economy → ℕ → ℕ
calculate_fee economy amount = max (amount / max economy.fee_divisor 1) economy.minimum_fee

-- `Economy::validate_fee`
unfoldable pub validate_fee : Economy → ℕ → ℕ → Bool
validate_fee economy amount fee = fee == calculate_fee economy amount

-- The four parts of a fee.
pub record Shares : Type 0 where
  pub validator : ℕ
  pub liquidity : ℕ
  pub treasury : ℕ
  pub burned : ℕ

-- `u64::try_from(n).expect(message)` on a `u128`
unfoldable pub expect_u64 : ℕ → String → Result ℕ
expect_u64 n message = if ltb n u64_mod then ok n else err (panic message)

-- `.expect(message)` on an option
abbrev pub expect : Option ℕ → String → Result ℕ
expect none message = err (panic message)
expect (some n) message = ok n

-- `Economy::distribute_fee`
unfoldable pub distribute_fee : Economy → ℕ → Result Shares
unfolding expect_u64 checked_sub
distribute_fee economy fee = do
  liquidity ←
      expect_u64 (fee * economy.liquidity_fee_percent / 100)
        "Liquidity Reserve fee exceeds u64 range"
  treasury ← expect_u64 (fee * economy.treasury_fee_percent / 100) "Treasury fee exceeds u64 range"
  validator ←
      expect
        (elim (checked_sub fee liquidity) [
          | none ↦ none
          | some remaining ↦ checked_sub remaining treasury
        ])
        "Liquidity Reserve and treasury shares exceed the total fee"
  ok (record { validator = validator; liquidity = liquidity; treasury = treasury; burned = 0 })

-- `Economy::add_liquidity_reserve`
unfoldable pub add_liquidity_reserve : ℕ → Economy → Result Economy
unfolding checked_add
add_liquidity_reserve amount economy = do
  reserve ← ok_or (checked_add economy.liquidity_reserve amount) "Liquidity Reserve overflow"
  ok (record economy { liquidity_reserve = reserve })

-- `Economy::can_mint`
unfoldable pub can_mint : ℕ → Economy → Bool
unfolding checked_add
can_mint amount economy = elim (checked_add economy.total_supply amount) [
  | none ↦ false
  | some new_supply ↦ leb new_supply economy.max_supply
]

-- `Economy::mint`; the guard keeps the sum in range.
unfoldable pub mint : ℕ → Economy → Result Economy
unfolding can_mint
mint amount economy = do
  fail_if (not (can_mint amount economy)) "Maximum supply exceeded"
  ok (record economy { total_supply = economy.total_supply + amount })

-- `Economy::burn`
unfoldable pub burn : ℕ → Economy → Economy
burn amount economy =
    if leb amount economy.total_supply
    then record economy { total_supply = economy.total_supply - amount }
    else economy

-- `Economy::reward_validator`
unfoldable pub reward_validator : Economy → Result (ℕ × Economy)
unfolding mint
reward_validator economy = do
  minted ← mint economy.block_reward economy
  ok (economy.block_reward, minted)
