-- ===== src/State/Conservation.antt =====
-- How the transactions of src/state/mod.rs move value between accounts: nothing is created but by a
-- coinbase, and nothing leaves the accounts but the fee.
use aion_blockchain.Prelude.{
  ℕ, ◌+◌, ◌<◌, ◌≡◌, true, false, List, [], ◌∷◌, arith, if◌then◌else◌, Str, String, ap, u64_mod, ok,
  err, Error, inl, inr, All, Bool-cases, Result-cases, bind-eq-ok,
}
use aion_blockchain.Core.Transaction.{Transaction}
use aion_blockchain.State.Accounts.{Account, total_balance}
use aion_blockchain.State.{
  State, credit, debit, check_sender, apply_transaction, apply_all, apply_transactions_atomically,
}
use aion_blockchain.State.Transfer.{
  refused, applied, check_sender-Passed, total-credit, total-debit, apply_transaction-refused,
  apply_transaction-passed, apply_transaction-Normal,
}

-- What a transaction takes out of the accounts, and what it adds to them.
abbrev pub charged : Transaction → ℕ
charged tx = if tx.coinbase then 0 else tx.fee

abbrev pub issued : Transaction → ℕ
issued tx = if tx.coinbase then tx.amount else 0

abbrev pub fees : List Transaction → ℕ
fees [] = 0
fees (tx ∷ txs) = charged tx + fees txs

abbrev pub IsNormal : Transaction → Type 0
IsNormal tx = tx.coinbase ≡ false

total-apply_coinbase :
    (tx : Transaction) (s : State)
    → tx.coinbase ≡ true
    → (apply_transaction tx s).0 ≡ ok tt
    → total_balance (apply_transaction tx s).1.accounts ≡ total_balance s.accounts + tx.amount
unfolding apply_transaction
total-apply_coinbase tx s c h = ground (arith, total-credit tx.to tx.amount "Coinbase overflow" s)

total-apply_passed :
    (tx : Transaction) (s : State) (sender : Account) (cost : ℕ)
    → tx.coinbase ≡ false
    → check_sender tx s ≡ ok (sender, cost)
    → (apply_transaction tx s).0 ≡ ok tt
    → total_balance (apply_transaction tx s).1.accounts + tx.fee ≡ total_balance s.accounts
total-apply_passed tx s sender cost n passed h =
    let p = check_sender-Passed tx s passed in
    let same = apply_transaction-passed tx s sender cost n passed in
    let s' = debit tx.from sender cost s in
    let paid = total-credit tx.to tx.amount "Receiver balance overflow" s' in
    rw same (omega (arith, paid (rw same at h), total-debit tx s sender cost p, p.total))

-- A transaction that is applied changes the sum of all balances by exactly what it issues (a
-- coinbase its amount) less what it charges (any other its fee).
pub apply_transaction-conserves :
    (tx : Transaction) (s : State)
    → (apply_transaction tx s).0 ≡ ok tt
    → total_balance (apply_transaction tx s).1.accounts + charged tx
      ≡ total_balance s.accounts + issued tx
apply_transaction-conserves tx s h = elim (Bool-cases tx.coinbase) [
  | inl c ↦ ground (arith, total-apply_coinbase tx s c h)
  | inr n ↦ elim (Result-cases (check_sender tx s)) [
    | inl ((sender, cost), passed) ↦
        ground (arith, n, total-apply_passed tx s sender cost n passed h)
    | inr (e, failed) ↦
        let same = apply_transaction-refused tx s e n failed in absurd (cc (same, h))
  ]
]

-- While the sum of all balances is below 2^64, a normal transaction that is refused leaves the
-- state as it was.
pub apply_transaction-atomic :
    (tx : Transaction) (s : State) (e : Error)
    → tx.coinbase ≡ false
    → total_balance s.accounts < u64_mod
    → (apply_transaction tx s).0 ≡ err e
    → (apply_transaction tx s).1 ≡ s
apply_transaction-atomic tx s e n bound h = elim (apply_transaction-Normal tx s n bound) [
  | refused e' same ↦ ap (λ o. o.1) same
  | applied sender cost p done same ↦ cc
]

pub credit-frame :
    (a : Str) (n : ℕ) (e : String) (s : State)
    → ((credit a n e s).1.treasury_balance ≡ s.treasury_balance)
      × ((credit a n e s).1.burned_amount ≡ s.burned_amount)
unfolding credit
credit-frame a n e s = ground arith

-- No transaction touches the treasury or the burned amount.
pub apply_transaction-frame :
    (tx : Transaction) (s : State)
    → ((apply_transaction tx s).1.treasury_balance ≡ s.treasury_balance)
      × ((apply_transaction tx s).1.burned_amount ≡ s.burned_amount)
unfolding apply_transaction credit debit
apply_transaction-frame tx s = ground arith

apply_all-total :
    (txs : List Transaction) (s : State) {s' : State}
    → All IsNormal txs
    → apply_all txs s ≡ ok s'
    → total_balance s'.accounts + fees txs ≡ total_balance s.accounts
unfolding apply_all
apply_all-total [] s n h = ground arith
apply_all-total (tx ∷ txs) s {s'} n h =
    let (u, done, rest) =
      bind-eq-ok (apply_transaction tx s).0 (λ _. apply_all txs (apply_transaction tx s).1) h in
    ground (
      arith,
      n.0,
      apply_all-total txs (apply_transaction tx s).1 {s' = s'} n.1 rest,
      apply_transaction-conserves tx s done,
    )

apply_all-frame :
    (txs : List Transaction) (s : State) {s' : State}
    → apply_all txs s ≡ ok s'
    → (s'.treasury_balance ≡ s.treasury_balance) × (s'.burned_amount ≡ s.burned_amount)
unfolding apply_all
apply_all-frame [] s h = ground arith
apply_all-frame (tx ∷ txs) s {s'} h =
    let (u, done, rest) =
      bind-eq-ok (apply_transaction tx s).0 (λ _. apply_all txs (apply_transaction tx s).1) h in
    ground (
      arith,
      apply_all-frame txs (apply_transaction tx s).1 {s' = s'} rest,
      apply_transaction-frame tx s,
    )

-- A batch of normal transactions that `apply_transactions_atomically` accepts lowers the sum of all
-- balances by exactly the sum of their fees, and leaves the treasury and the burned amount alone.
pub apply_transactions_atomically-conserves :
    (txs : List Transaction) (s : State) {s' : State}
    → All IsNormal txs
    → apply_transactions_atomically txs s ≡ ok s'
    → (total_balance s'.accounts + fees txs ≡ total_balance s.accounts)
      × (s'.treasury_balance ≡ s.treasury_balance)
      × (s'.burned_amount ≡ s.burned_amount)
unfolding apply_transactions_atomically
apply_transactions_atomically-conserves txs s n h =
    let frame = apply_all-frame txs s h in (apply_all-total txs s n h, frame.0, frame.1)
