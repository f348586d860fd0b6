-- ===== src/State/Ledger.antt =====
-- The effect of an accepted transaction on every account (src/state/mod.rs), and why it cannot be
-- applied twice.
use aion_blockchain.Prelude.{
  inl, inr, str_eq_refl, Result-cases, err, ◌≤◌, Error, u64_mod, ◌≢◌, ◌<◌, false, ℕ, ◌+◌, ◌-◌, ◌≡◌,
  arith, if◌then◌else◌, Str, String, str_eq, str_eq_iff, checked_add, wrapping_add, ok,
}
use aion_blockchain.Core.Transaction.{Transaction}
use aion_blockchain.State.Accounts.{Account, insert, get_or_empty, lookup-insert}
use aion_blockchain.State.{
  apply_transaction, check_sender, State, balance_of, nonce_of, credit, debit,
}
use aion_blockchain.State.Transfer.{
  apply_transaction-passed, check_sender-Passed, apply_transaction-refused, Passed,
}

-- A transaction that passes its checks and is credited, seen from one account.
pub record Effect (tx : Transaction) (s s' : State) (a : Str) : Type 0 where
  pub balance :
      balance_of s' a + (if str_eq tx.from a then tx.amount + tx.fee else 0)
      ≡ balance_of s a + (if str_eq tx.to a then tx.amount else 0)
  pub nonce :
      nonce_of s' a ≡ (if str_eq tx.from a then wrapping_add (nonce_of s a) 1 else nonce_of s a)

Effect-credit :
    (tx : Transaction) (s : State) (sender : Account) (cost : ℕ) (e : String) (a : Str)
    → Passed tx s sender cost
    → (credit tx.to tx.amount e (debit tx.from sender cost s)).0 ≡ ok tt
    → Effect tx s (credit tx.to tx.amount e (debit tx.from sender cost s)).1 a
unfolding credit debit checked_add balance_of nonce_of
Effect-credit tx s sender cost e a p h =
    let paid : Account = record {
      balance = sender.balance - cost;
      nonce = wrapping_add sender.nonce 1;
    } in
    let m = insert tx.from paid s.accounts in
    let account = get_or_empty tx.to m in
    let raised : Account = record account { balance = account.balance + tx.amount } in
    ground (
      arith,
      p.known,
      p.total,
      p.covered,
      lookup-insert tx.from tx.to paid s.accounts,
      lookup-insert tx.from a paid s.accounts,
      lookup-insert tx.to a raised m,
      str_eq_iff tx.from a,
      str_eq_iff tx.to a,
      str_eq_iff tx.from tx.to,
    )

-- A normal transaction that is applied had a known sender with the transaction's nonce and a balance
-- that covers amount and fee; it lowers the sender's balance by both, raises the receiver's by the
-- amount (also where they are one account), advances the sender's nonce, and changes no other.
pub apply_transaction-Effect :
    (tx : Transaction) (s : State) (a : Str)
    → tx.coinbase ≡ false
    → (apply_transaction tx s).0 ≡ ok tt
    → (nonce_of s tx.from ≡ tx.nonce)
      × (tx.amount + tx.fee ≤ balance_of s tx.from)
      × Effect tx s (apply_transaction tx s).1 a
unfolding balance_of nonce_of
apply_transaction-Effect tx s a n h = elim (Result-cases (check_sender tx s)) [
  | inr (e, failed) ↦ let same = apply_transaction-refused tx s e n failed in absurd (cc (same, h))
  | inl ((sender, cost), passed) ↦
      let p = check_sender-Passed tx s passed in
      let same = apply_transaction-passed tx s sender cost n passed in
      (
        ground (arith, p.known, p.in_order),
        ground (arith, p.known, p.total, p.covered),
        rw same (Effect-credit tx s sender cost "Receiver balance overflow" a p (rw same at h)),
      )
]

check_sender-stale :
    (tx : Transaction) (s : State)
    → nonce_of s tx.from ≢ tx.nonce
    → (e : Error) × (check_sender tx s ≡ err e)
unfolding check_sender nonce_of
check_sender-stale tx s h = elim (Result-cases (check_sender tx s)) [
  | inr failed ↦ failed
  | inl ((sender, cost), passed) ↦
      let p = check_sender-Passed tx s passed in absurd (h (ground (arith, p.known, p.in_order)))
]

wrapping_add_one-ne : (n : ℕ) → n < u64_mod → wrapping_add n 1 ≢ n
unfolding wrapping_add
wrapping_add_one-ne n h = omega arith

-- No replay: a normal transaction with a 64-bit nonce that was applied is refused if it is applied
-- again, and the second attempt changes nothing.
pub apply_transaction_no_replay :
    (tx : Transaction) (s : State)
    → tx.coinbase ≡ false
    → tx.nonce < u64_mod
    → (apply_transaction tx s).0 ≡ ok tt
    → (e : Error) × (apply_transaction tx (apply_transaction tx s).1
        ≡ (err e, (apply_transaction tx s).1))
apply_transaction_no_replay tx s n bound h =
    let s' = (apply_transaction tx s).1 in
    let (in_order, covered, effect) = apply_transaction-Effect tx s tx.from n h in
    let (e, stale) = check_sender-stale tx s' (λ again.
      wrapping_add_one-ne tx.nonce bound
        (ground (arith, effect.nonce, in_order, again, str_eq_refl tx.from))) in
    (e, apply_transaction-refused tx s' e n stale)
