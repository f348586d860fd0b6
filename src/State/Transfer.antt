-- ===== src/State/Transfer.antt =====
-- What one transaction does to the accounts (src/state/mod.rs).
use aion_blockchain.Prelude.{
  ℕ, ◌+◌, ◌-◌, ◌≤◌, ◌<◌, ◌≡◌, some, arith, false, inl, inr, Result-cases, Error, err, Str, String,
  u64_mod, checked_add, wrapping_add, ok,
}
use aion_blockchain.Core.Transaction.{Transaction}
use aion_blockchain.State.Accounts.{
  Account, lookup, get_or_empty, total_balance, total_balance-insert, balance-le-total,
}
use aion_blockchain.State.{State, credit, debit, check_sender, Outcome, apply_transaction}

-- The checks that a normal transaction has passed.
pub record Passed (tx : Transaction) (s : State) (sender : Account) (cost : ℕ) : Type 0 where
  pub known : lookup tx.from s.accounts ≡ some sender
  pub total : cost ≡ tx.amount + tx.fee
  pub fits : cost < u64_mod
  pub covered : cost ≤ sender.balance
  pub in_order : sender.nonce ≡ tx.nonce

pub check_sender-Passed :
    (tx : Transaction) (s : State) {sender : Account} {cost : ℕ}
    → check_sender tx s ≡ ok (sender, cost)
    → Passed tx s sender cost
unfolding check_sender checked_add
check_sender-Passed tx s h = ground arith

-- A credit that succeeds adds its amount to the total.
pub total-credit :
    (a : Str) (n : ℕ) (e : String) (s : State)
    → (credit a n e s).0 ≡ ok tt
    → total_balance (credit a n e s).1.accounts ≡ total_balance s.accounts + n
unfolding credit checked_add
total-credit a n e s h =
    let account = get_or_empty a s.accounts in
    ground
      (arith, total_balance-insert a (record account { balance = account.balance + n }) s.accounts)

-- A credit succeeds if the total stays in range.
pub credit_fits :
    (a : Str) (n : ℕ) (e : String) (s : State)
    → total_balance s.accounts + n < u64_mod
    → (credit a n e s).0 ≡ ok tt
unfolding credit checked_add
credit_fits a n e s h = ground (arith, balance-le-total a s.accounts)

pub total-debit :
    (tx : Transaction) (s : State) (sender : Account) (cost : ℕ)
    → Passed tx s sender cost
    → total_balance (debit tx.from sender cost s).accounts + cost ≡ total_balance s.accounts
unfolding debit
total-debit tx s sender cost p = ground (
  arith,
  p.known,
  p.covered,
  total_balance-insert tx.from
      (record { balance = sender.balance - cost; nonce = wrapping_add sender.nonce 1 }) s.accounts,
)

-- The two ways that a normal transaction ends while the total stays in range.
pub data Normal (tx : Transaction) (s : State) (o : Outcome) : Type 0 where
  refused : (e : Error) → o ≡ (err e, s) → Normal tx s o
  applied :
      (sender : Account) (cost : ℕ)
      → Passed tx s sender cost
      → o.0 ≡ ok tt
      → o ≡ credit tx.to tx.amount "Receiver balance overflow" (debit tx.from sender cost s)
      → Normal tx s o

pub apply_transaction-refused :
    (tx : Transaction) (s : State) (e : Error)
    → tx.coinbase ≡ false
    → check_sender tx s ≡ err e
    → apply_transaction tx s ≡ (err e, s)
unfolding apply_transaction
apply_transaction-refused tx s e n h = ground arith

pub apply_transaction-passed :
    (tx : Transaction) (s : State) (sender : Account) (cost : ℕ)
    → tx.coinbase ≡ false
    → check_sender tx s ≡ ok (sender, cost)
    → apply_transaction tx s
      ≡ credit tx.to tx.amount "Receiver balance overflow" (debit tx.from sender cost s)
unfolding apply_transaction
apply_transaction-passed tx s sender cost n h = ground arith

-- Where the total stays in range, a normal transaction passes its checks and takes effect, or
-- changes nothing.
pub apply_transaction-Normal :
    (tx : Transaction) (s : State)
    → tx.coinbase ≡ false
    → total_balance s.accounts < u64_mod
    → Normal tx s (apply_transaction tx s)
apply_transaction-Normal tx s normal bound = elim (Result-cases (check_sender tx s)) [
  | inr (e, failed) ↦ refused e (apply_transaction-refused tx s e normal failed)
  | inl ((sender, cost), passed) ↦
      let p = check_sender-Passed tx s passed in
      let same = apply_transaction-passed tx s sender cost normal passed in
      let fits =
        credit_fits tx.to tx.amount "Receiver balance overflow" (debit tx.from sender cost s)
          (omega (arith, total-debit tx s sender cost p, p.total)) in
      applied sender cost p (rw same fits) same
]
