-- ===== src/Economy/Supply.antt =====
-- The supply under minting, burning and the reserve (src/economy/mod.rs).
use aion_blockchain.Prelude.{◌↔◌, ◌+◌, checked_add, ◌<◌, arith, ◌≤◌, ◌≡◌, ℕ}
use aion_blockchain.Economy.{u64_mod, ok, checked_add, Economy, mint, burn, add_liquidity_reserve}

-- The supply is within its cap, and the cap is a 64-bit number.
pub record IsCapped (economy : Economy) : Type 0 where
  pub within : economy.total_supply ≤ economy.max_supply
  pub machine : economy.max_supply < u64_mod

-- From a capped supply, `mint` succeeds exactly when the new supply is within the cap; it then adds
-- the amount to the supply and changes nothing else, so that the supply stays capped.
pub mint_exact :
    (amount : ℕ) (economy minted : Economy)
    → IsCapped economy
    → (mint amount economy ≡ ok minted) ↔ (
        (minted ≡ record economy { total_supply = economy.total_supply + amount })
        × IsCapped minted)
unfolding mint checked_add
mint_exact amount economy minted c = (
  λ h. (ground arith, record { within = ground arith; machine = ground arith }),
  λ (e, capped). ground (arith, capped.within, capped.machine),
)

pub mint-eq-ok :
    (amount : ℕ) (economy : Economy) {minted : Economy}
    → mint amount economy ≡ ok minted
    → (minted ≡ record economy { total_supply = economy.total_supply + amount })
      × (economy.total_supply + amount ≤ economy.max_supply)
unfolding mint checked_add
mint-eq-ok amount economy h = ground arith

pub add_liquidity_reserve-eq-ok :
    (amount : ℕ) (economy : Economy) {after : Economy}
    → add_liquidity_reserve amount economy ≡ ok after
    → after ≡ record economy { liquidity_reserve = economy.liquidity_reserve + amount }
unfolding add_liquidity_reserve
add_liquidity_reserve-eq-ok amount economy h = ground arith

-- Burning nothing changes nothing.
pub burn-zero : (economy : Economy) → burn 0 economy ≡ economy
unfolding burn
burn-zero economy = ground arith
