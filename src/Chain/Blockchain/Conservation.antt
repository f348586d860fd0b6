-- ===== src/Chain/Blockchain/Conservation.antt =====
-- The money of a block (src/chain/blockchain.rs and its parts in src/economy and src/state): fees are
-- paid out without loss, and only the block reward is new.
use aion_blockchain.Prelude.{
  ◌∷◌, All, arith, List, ◌≡◌, ◌+◌, Str, checked_add, ℕ, [], ok, bind-eq-ok,
}
use aion_blockchain.Core.Transaction.{Transaction}
use aion_blockchain.Economy.{Economy, Shares, distribute_fee, add_liquidity_reserve}
use aion_blockchain.Economy.Supply.{burn-zero, add_liquidity_reserve-eq-ok}
use aion_blockchain.State
use aion_blockchain.State.{State, create_account, add_balance, add_treasury}
use aion_blockchain.State.Accounts.{get_or_empty, total_balance, total_balance-insert}
use aion_blockchain.State.Conservation.{IsNormal, fees}
use aion_blockchain.Chain.Blockchain.Settlement.{
  add_shares, sum_shares, ensure_account, settle_fees,
}

-- The shares of a fee, added up.
abbrev pub total_shares : Shares → ℕ
total_shares x = x.validator + x.liquidity + x.treasury

pub distribute_fee-eq-ok :
    (economy : Economy) (fee : ℕ) {shares : Shares}
    → distribute_fee economy fee ≡ ok shares
    → (total_shares shares ≡ fee) × (shares.burned ≡ 0)
unfolding distribute_fee
distribute_fee-eq-ok economy fee h = ground arith

pub add_shares-eq-ok :
    (totals shares : Shares) {after : Shares}
    → add_shares totals shares ≡ ok after
    → (total_shares after ≡ total_shares totals + total_shares shares)
      × (after.burned ≡ totals.burned + shares.burned)
unfolding add_shares checked_add
add_shares-eq-ok totals shares h = ground arith

pub sum_shares-eq-ok :
    (economy : Economy) (totals : Shares) (txs : List Transaction) {after : Shares}
    → All IsNormal txs
    → sum_shares economy totals txs ≡ ok after
    → (total_shares after ≡ total_shares totals + fees txs) × (after.burned ≡ totals.burned)
unfolding sum_shares
sum_shares-eq-ok economy totals [] n h = ground arith
sum_shares-eq-ok economy totals (tx ∷ txs) {after} n h =
    let (shares, split, h) = bind-eq-ok (distribute_fee economy tx.fee) _ h in
    let (totals', added, h) = bind-eq-ok (add_shares totals shares) _ h in
    ground (
      arith,
      n.0,
      distribute_fee-eq-ok economy tx.fee split,
      add_shares-eq-ok totals shares added,
      sum_shares-eq-ok economy totals' txs n.1 h,
    )

add_balance-eq-ok :
    (address : Str) (amount : ℕ) (s : State) {after : State}
    → add_balance address amount s ≡ ok after
    → (total_balance after.accounts ≡ total_balance s.accounts + amount)
      × (after.treasury_balance ≡ s.treasury_balance)
      × (after.burned_amount ≡ s.burned_amount)
unfolding add_balance checked_add
add_balance-eq-ok address amount s {after} h =
    let account = get_or_empty address s.accounts in
    ground (
      arith,
      total_balance-insert address (record account { balance = account.balance + amount })
          s.accounts,
    )

ensure_account-total :
    (address : Str) (s : State)
    → (total_balance (ensure_account address s).accounts ≡ total_balance s.accounts)
      × ((ensure_account address s).treasury_balance ≡ s.treasury_balance)
      × ((ensure_account address s).burned_amount ≡ s.burned_amount)
unfolding ensure_account create_account
ensure_account-total address s =
    ground (arith, total_balance-insert address (record { balance = 0; nonce = 0 }) s.accounts)

add_treasury-eq-ok :
    (amount : ℕ) (s : State) {after : State}
    → add_treasury amount s ≡ ok after
    → after ≡ record s { treasury_balance = s.treasury_balance + amount }
unfolding add_treasury checked_add
add_treasury-eq-ok amount s h = ground arith

burn-eq-ok :
    (amount : ℕ) (s : State) {after : State}
    → State.burn amount s ≡ ok after
    → after ≡ record s { burned_amount = s.burned_amount + amount }
unfolding State.burn checked_add
burn-eq-ok amount s h = ground arith

-- All that exists: in accounts, in the treasury, in the reserve.
abbrev pub held : State → Economy → ℕ
held s economy = total_balance s.accounts + s.treasury_balance + economy.liquidity_reserve

-- Paying out the totals adds them to what is held, and changes nothing else of the economy than the
-- reserve.
pub settle_fees-eq-ok :
    (validator : Str) (totals : Shares) (s : State) (economy : Economy) {s' : State}
    {economy' : Economy}
    → totals.burned ≡ 0
    → settle_fees validator totals s economy ≡ ok (s', economy')
    → (held s' economy' ≡ held s economy + total_shares totals)
      × (economy'
          ≡ record economy { liquidity_reserve = economy.liquidity_reserve + totals.liquidity })
      × (s'.burned_amount ≡ s.burned_amount)
unfolding settle_fees
settle_fees-eq-ok validator totals s economy {s'} {economy'} unburned h =
    let (paid, e1, h) =
      bind-eq-ok (add_balance validator totals.validator (ensure_account validator s)) _ h in
    let (taxed, e2, h) = bind-eq-ok (add_treasury totals.treasury paid) _ h in
    let (reserved, e3, h) = bind-eq-ok (add_liquidity_reserve totals.liquidity economy) _ h in
    let (burned, e4, h) = bind-eq-ok (State.burn totals.burned taxed) _ h in
    ground (
      arith,
      ensure_account-total validator s,
      add_balance-eq-ok validator totals.validator (ensure_account validator s) e1,
      add_treasury-eq-ok totals.treasury paid e2,
      add_liquidity_reserve-eq-ok totals.liquidity economy e3,
      burn-eq-ok totals.burned taxed e4,
      burn-zero reserved,
      h,
      unburned,
    )
