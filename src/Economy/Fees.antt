-- ===== src/Economy/Fees.antt =====
-- The fee schedule and the split of a fee (src/economy/mod.rs).
use native.Mathlib.Nat.{le-div_iff_mul-le, div-mul-le_self, le_trans, mul-le-mul_left, mul-add}
use aion_blockchain.Prelude.{refl, arith, ◌-◌, ◌⊎◌, ◌*◌, ◌+◌, ◌/◌, ◌≤◌, true, ◌≡◌, ◌<◌, ℕ}
use aion_blockchain.Economy.{
  max, ok, u64_mod, Economy, Shares, calculate_fee, validate_fee, distribute_fee,
}

div_mono : {a b d : ℕ} → 0 < d → a ≤ b → a / d ≤ b / d
div_mono {a} {b} {d} pos le = (le-div_iff_mul-le pos).1 (le_trans (div-mul-le_self a d) le)

-- With a positive divisor, a fee that `validate_fee` accepts is at least the minimum fee and at least
-- the amount over the divisor, equals one of these, and is no more than the fee of a larger amount.
pub validate_fee_schedule :
    (economy : Economy) (amount fee larger : ℕ)
    → 0 < economy.fee_divisor
    → amount ≤ larger
    → validate_fee economy amount fee ≡ true
    → (economy.minimum_fee ≤ fee)
      × (amount / economy.fee_divisor ≤ fee)
      × ((fee ≡ economy.minimum_fee) ⊎ (fee ≡ amount / economy.fee_divisor))
      × (fee ≤ calculate_fee economy larger)
unfolding validate_fee calculate_fee
validate_fee_schedule economy amount fee larger pos le h =
    let d = economy.fee_divisor in
    let one : max d 1 ≡ d = omega arith in
    let e : fee ≡ max (amount / max d 1) economy.minimum_fee = ground arith in
    let e' : fee ≡ max (amount / d) economy.minimum_fee = rw one at e in
    (omega arith, omega arith, omega arith, rw one (omega (arith, div_mono pos le)))

-- The percentages leave the validator a share.
abbrev pub IsSplit : Economy → Type 0
IsSplit economy = economy.liquidity_fee_percent + economy.treasury_fee_percent ≤ 100

parts-le : (fee p q : ℕ) → p + q ≤ 100 → fee * p / 100 + fee * q / 100 ≤ fee
parts-le fee p q h =
    let all : fee * (p + q) ≤ fee * 100 = mul-le-mul_left fee h in omega (arith, rw mul-add at all)

-- If the percentages of the reserve and the treasury are together at most 100, a fee below 2^64 is
-- split with no panic and with nothing lost: the four shares add up to it, nothing is burned, and
-- the reserve and the treasury get their percentages, rounded down.
pub distribute_fee_exact :
    (economy : Economy) (fee : ℕ)
    → IsSplit economy
    → fee < u64_mod
    → (shares : Shares) × (distribute_fee economy fee ≡ ok shares)
      × (shares.validator + shares.liquidity + shares.treasury + shares.burned ≡ fee)
      × (shares.liquidity ≡ fee * economy.liquidity_fee_percent / 100)
      × (shares.treasury ≡ fee * economy.treasury_fee_percent / 100)
      × (shares.burned ≡ 0)
unfolding distribute_fee
distribute_fee_exact economy fee split bound =
    let l = fee * economy.liquidity_fee_percent / 100 in
    let t = fee * economy.treasury_fee_percent / 100 in
    let parts = parts-le fee economy.liquidity_fee_percent economy.treasury_fee_percent split in
    (
      record { validator = fee - l - t; liquidity = l; treasury = t; burned = 0 },
      ground (arith, parts),
      omega (arith, parts),
      refl,
      refl,
      refl,
    )
