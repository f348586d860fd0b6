-- ===== src/State.antt =====
-- src/state/mod.rs: the accounts, the treasury and the burned amount, and how a transaction
-- changes them.
pub mod Accounts
pub mod Transfer
pub mod Conservation
pub mod Ledger
pub mod Refinement
use aion_blockchain.Prelude.{
  ℕ, ◌-◌, Option, none, some, List, [], ◌∷◌, Str, String, ltb, ◌==◌, not, if◌then◌else◌,
  checked_add, wrapping_add, Result, ok, err, text, ◌>>=◌, ◌>>◌, ok_or, fail_if,
}
use aion_blockchain.Core.Transaction.{Transaction}
use Accounts.{Account, AccountMap, lookup, insert, get_or_empty}

pub record State : Type 0 where
  pub accounts : AccountMap
  pub treasury_balance : ℕ
  pub burned_amount : ℕ

-- `State::new`
abbrev pub new : State
new = record { accounts = []; treasury_balance = 0; burned_amount = 0 }

-- `State::create_account`
unfoldable pub create_account : Str → ℕ → State → State
create_account address balance s = record s {
  accounts = insert address (record { balance = balance; nonce = 0 }) s.accounts;
}

-- `State::balance_of`
unfoldable pub balance_of : State → Str → ℕ
balance_of s address = elim (lookup address s.accounts) [
  | none ↦ 0
  | some account ↦ account.balance
]

-- `State::nonce_of`
unfoldable pub nonce_of : State → Str → ℕ
nonce_of s address = elim (lookup address s.accounts) [ none ↦ 0 | some account ↦ account.nonce ]

-- `State::add_balance`
unfoldable pub add_balance : Str → ℕ → State → Result State
add_balance address amount s = do
  account ← ok_or (lookup address s.accounts) "Account not found"
  balance ← ok_or (checked_add account.balance amount) "Balance overflow"
  ok (record s { accounts = insert address (record account { balance = balance }) s.accounts })

-- `State::add_treasury`
unfoldable pub add_treasury : ℕ → State → Result State
add_treasury amount s = do
  treasury ← ok_or (checked_add s.treasury_balance amount) "Treasury overflow"
  ok (record s { treasury_balance = treasury })

-- `State::burn`
unfoldable pub burn : ℕ → State → Result State
burn amount s = do
  burned ← ok_or (checked_add s.burned_amount amount) "Burn overflow"
  ok (record s { burned_amount = burned })

-- A call of `apply_transaction`: its outcome, and the state that it leaves, which counts after an
-- error too.
abbrev pub Outcome : Type 0
Outcome = Result (Unit {0}) × State

-- `accounts.entry(address).or_insert(empty)`, then the checked addition to its balance.
unfoldable pub credit : Str → ℕ → String → State → Outcome
credit address amount overflow s =
    let account = get_or_empty address s.accounts in
    elim (checked_add account.balance amount) [
      | none ↦ (err (text overflow), record s { accounts = insert address account s.accounts })
      | some balance ↦ (
        ok tt,
        record s { accounts = insert address (record account { balance = balance }) s.accounts },
      )
    ]

-- The debit of a sender whose checks have passed; the nonce is not checked for overflow.
unfoldable pub debit : Str → Account → ℕ → State → State
debit address sender cost s = record s {
  accounts =
      insert address
        (record { balance = sender.balance - cost; nonce = wrapping_add sender.nonce 1 })
        s.accounts;
}

-- The checks of a normal transaction: the sender's account and the total cost.
unfoldable pub check_sender : Transaction → State → Result (Account × ℕ)
check_sender tx s = do
  sender ← ok_or (lookup tx.from s.accounts) "Sender account not found"
  total_cost ← ok_or (checked_add tx.amount tx.fee) "Transaction overflow"
  fail_if (ltb sender.balance total_cost) "Insufficient balance"
  fail_if (not (sender.nonce == tx.nonce)) "Invalid nonce"
  ok (sender, total_cost)

-- `State::apply_transaction`
unfoldable pub apply_transaction : Transaction → State → Outcome
apply_transaction tx s =
    if tx.coinbase then credit tx.to tx.amount "Coinbase overflow" s else elim (check_sender tx s) [
      | err e ↦ (err e, s)
      | ok (sender, cost) ↦
          credit tx.to tx.amount "Receiver balance overflow" (debit tx.from sender cost s)
    ]

unfoldable pub apply_all : List Transaction → State → Result State
apply_all [] s = ok s
apply_all (tx ∷ txs) s = let (r, s') = apply_transaction tx s in r >> apply_all txs s'

-- `State::apply_transactions_atomically`: after an error the caller keeps its state.
unfoldable pub apply_transactions_atomically : List Transaction → State → Result State
unfolding apply_all
apply_transactions_atomically txs s = apply_all txs s
