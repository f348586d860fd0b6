-- ===== src/Chain/Blockchain/Settlement.antt =====
-- How the fees of a block are added up and paid out. `create_block_from_mempool` of
-- src/chain/blockchain.rs and `validate_and_apply_block` of src/node/mod.rs both contain these steps.
use aion_blockchain.Prelude.{
  checked_add, ◌∷◌, ok_or, Str, List, Result, [], none, some, ok, err, ◌>>=◌,
}
use aion_blockchain.Core.Transaction.{Transaction}
use aion_blockchain.Economy
use aion_blockchain.Economy.{Economy, Shares, distribute_fee, add_liquidity_reserve}
use aion_blockchain.State
use aion_blockchain.State.{State, Outcome, create_account, add_balance, add_treasury}
use aion_blockchain.State.Accounts.{lookup}

abbrev pub no_shares : Shares
no_shares = record { validator = 0; liquidity = 0; treasury = 0; burned = 0 }

-- The four checked additions of one fee's shares to the totals.
unfoldable pub add_shares : Shares → Shares → Result Shares
add_shares totals shares = do
  validator ← ok_or (checked_add totals.validator shares.validator) "Validator fee overflow"
  liquidity ← ok_or (checked_add totals.liquidity shares.liquidity) "Liquidity Reserve fee overflow"
  treasury ← ok_or (checked_add totals.treasury shares.treasury) "Treasury fee overflow"
  burned ← ok_or (checked_add totals.burned shares.burned) "Burn fee overflow"
  ok (record { validator = validator; liquidity = liquidity; treasury = treasury; burned = burned })

-- The loop of the fee distribution.
unfoldable pub sum_shares : Economy → Shares → List Transaction → Result Shares
sum_shares economy totals [] = ok totals
sum_shares economy totals (tx ∷ txs) = do
  shares ← distribute_fee economy tx.fee
  totals' ← add_shares totals shares
  sum_shares economy totals' txs

-- `if !accounts.contains_key(address) { create_account(address, 0) }`
unfoldable pub ensure_account : Str → State → State
ensure_account address s = elim (lookup address s.accounts) [
  | none ↦ create_account address 0 s
  | some _ ↦ s
]

-- The payment of the totals, from the validator's account to the burn.
unfoldable pub settle_fees : Str → Shares → State → Economy → Result (State × Economy)
settle_fees validator totals s economy = do
  paid ← add_balance validator totals.validator (ensure_account validator s)
  taxed ← add_treasury totals.treasury paid
  reserved ← add_liquidity_reserve totals.liquidity economy
  burned ← State.burn totals.burned taxed
  ok (burned, Economy.burn totals.burned reserved)

-- `apply_transaction(…)?`
abbrev pub finish : Outcome → Result State
finish (ok _, s) = ok s
finish (err e, s) = err e
