-- ===== src/State/Refinement.antt =====
-- What src/state/mod.rs promises, without its tables: a ledger that says for each address which
-- account it has, on which a transaction acts in one piece.
use aion_blockchain.Prelude.{
  ◌∙◌, Result-cases, inr, inl, str_eq_iff, refl, Bool-cases, ◌==◌, leb, wrapping_add, u64_mod, ◌+◌,
  ◌-◌, ok, arith, str_eq, ◌>>◌, err, Error, String, sym, ltb, ◌&&◌, ◌||◌, ◌≡◌, Result, ◌∷◌,
  if◌then◌else◌, checked_add, not, ℕ, Str, Option, none, some, Bool, true, false, List, [],
}
use aion_blockchain.Core.Transaction.{Transaction}
use aion_blockchain.State.Accounts.{Account, lookup, insert, or_empty, get_or_empty, lookup-insert}
use aion_blockchain.State.{
  Outcome, AccountMap, State, apply_transaction, apply_all, apply_transactions_atomically,
  check_sender, credit, debit,
}
use aion_blockchain.State.Transfer.{
  Passed, apply_transaction-passed, apply_transaction-refused, check_sender-Passed,
}

pub record Ledger : Type 0 where
  pub accounts : Str → Option Account
  pub treasury : ℕ
  pub burned : ℕ

abbrev pub view : State → Ledger
view s = record {
  accounts = λ a. lookup a s.accounts;
  treasury = s.treasury_balance;
  burned = s.burned_amount;
}

-- What a transaction takes from an account, and what it gives.
unfoldable pub taken : Transaction → Str → ℕ
taken tx a = if not tx.coinbase && str_eq tx.from a then tx.amount + tx.fee else 0

unfoldable pub given : Transaction → Str → ℕ
given tx a = if str_eq tx.to a then tx.amount else 0

-- A coinbase transaction has no sender; any other needs one that covers it, at its nonce.
unfoldable pub allows : Transaction → Option Account → Bool
allows tx none = tx.coinbase
allows tx (some sender) =
    tx.coinbase
    || (ltb (tx.amount + tx.fee) u64_mod
        && leb (tx.amount + tx.fee) sender.balance
        && sender.nonce == tx.nonce)

-- One account after the transaction.
unfoldable pub moved : Transaction → Str → Option Account → Option Account
moved tx a known =
    let account = or_empty known in
    let sends = not tx.coinbase && str_eq tx.from a in
    if sends || str_eq tx.to a
    then some (record {
      balance = account.balance - taken tx a + given tx a;
      nonce = if sends then wrapping_add account.nonce 1 else account.nonce;
    })
    else known

-- A transaction is done whole or not at all: it is allowed, and the receiver's balance stays in range.
unfoldable pub transfer : Transaction → Ledger → Option Ledger
transfer tx l =
    let receiver = or_empty (l.accounts tx.to) in
    if allows tx (l.accounts tx.from) && ltb (receiver.balance - taken tx tx.to + tx.amount) u64_mod
    then some (record l { accounts = λ a. moved tx a (l.accounts a) })
    else none

unfoldable pub transfer_all : List Transaction → Ledger → Option Ledger
transfer_all [] l = some l
transfer_all (tx ∷ txs) l = elim (transfer tx l) [
  | none ↦ none
  | some after ↦ transfer_all txs after
]

-- The ledger that a result shows; an error shows none.
abbrev pub shown : Result State → Option Ledger
shown (err _) = none
shown (ok s) = some (view s)

-- What a call of `apply_transaction` shows to a caller that drops the state after an error.
abbrev pub shown_outcome : Result (Unit {0}) × State → Option Ledger
shown_outcome (r, s) = shown (r >> ok s)

-- A ledger whose accounts are those of a state, with its treasury and its burned amount.
some-view :
    (s s' : State) (accounts : Str → Option Account)
    → ((a : Str) → accounts a ≡ lookup a s'.accounts)
    → s'.treasury_balance ≡ s.treasury_balance
    → s'.burned_amount ≡ s.burned_amount
    → some (record (view s) { accounts = accounts }) ≡ some (view s')
some-view s s' accounts h t b =
    λ i. some (record { accounts = λ a. h a i; treasury = sym t i; burned = sym b i })

shown-credited :
    (k : Str) (n : ℕ) (e : String) (s : State)
    → let account = get_or_empty k s.accounts in
      let raised : Account = record account { balance = account.balance + n } in
      shown_outcome (credit k n e s) ≡ (
        if ltb (account.balance + n) u64_mod
        then some (view (record s { accounts = insert k raised s.accounts }))
        else none)
unfolding credit checked_add
shown-credited k n e s = elim (Bool-cases (ltb ((get_or_empty k s.accounts).balance + n) u64_mod)) [
  | inl fits ↦ ground (arith, fits)
  | inr over ↦ ground (arith, over)
]

-- A credit, seen on the ledger.
shown-credit :
    (k : Str) (n : ℕ) (e : String) (s : State) (accounts : Str → Option Account)
    → let account = get_or_empty k s.accounts in
      let raised : Account = record account { balance = account.balance + n } in
      ((a : Str) → accounts a ≡ (if str_eq k a then some raised else lookup a s.accounts))
      → shown_outcome (credit k n e s) ≡ (
          if ltb (account.balance + n) u64_mod
          then some (record (view s) { accounts = accounts })
          else none)
shown-credit k n e s accounts same =
    let account = get_or_empty k s.accounts in
    let raised : Account = record account { balance = account.balance + n } in
    let agree =
      some-view s (record s { accounts = insert k raised s.accounts }) accounts
        (λ a. same a ∙ sym (lookup-insert k a raised s.accounts)) refl refl in
    rw agree (shown-credited k n e s)

-- An allowed transaction is a credit to the accounts that it has debited.
transfer-credit :
    (tx : Transaction) (s : State) (m : AccountMap) (e : String)
    → let account = get_or_empty tx.to m in
      let raised : Account = record account { balance = account.balance + tx.amount } in
      allows tx (lookup tx.from s.accounts) ≡ true
      → (or_empty (lookup tx.to s.accounts)).balance - taken tx tx.to ≡ account.balance
      → ((a : Str)
          → moved tx a (lookup a s.accounts) ≡ (if str_eq tx.to a then some raised else lookup a m))
      → transfer tx (view s) ≡ shown_outcome (credit tx.to tx.amount e (record s { accounts = m }))
unfolding transfer
transfer-credit tx s m e allowed left same =
    rw (allowed, left)
      (sym (
        shown-credit tx.to tx.amount e (record s { accounts = m })
          (λ a. moved tx a (lookup a s.accounts)) same))

apply_transaction-coinbase :
    (tx : Transaction) (s : State)
    → tx.coinbase ≡ true
    → apply_transaction tx s ≡ credit tx.to tx.amount "Coinbase overflow" s
unfolding apply_transaction
apply_transaction-coinbase tx s h = ground (arith, h)

transfer-coinbase :
    (tx : Transaction) (s : State)
    → tx.coinbase ≡ true
    → transfer tx (view s) ≡ shown_outcome (apply_transaction tx s)
unfolding allows moved taken given
transfer-coinbase tx s h = rw (apply_transaction-coinbase tx s h) (
    transfer-credit tx s s.accounts "Coinbase overflow" (ground (arith, h)) (ground (arith, h))
      (λ a. ground (arith, h, str_eq_iff tx.to a)))

allows-refused :
    (tx : Transaction) (s : State) {e : Error}
    → tx.coinbase ≡ false
    → check_sender tx s ≡ err e
    → allows tx (lookup tx.from s.accounts) ≡ false
unfolding check_sender checked_add allows
allows-refused tx s n h = ground arith

allows-Passed :
    (tx : Transaction) (s : State) {sender : Account} {cost : ℕ}
    → Passed tx s sender cost
    → allows tx (lookup tx.from s.accounts) ≡ true
unfolding allows
allows-Passed tx s p = ground (arith, p.known, p.total, p.fits, p.covered, p.in_order)

transfer-debit :
    (tx : Transaction) (s : State) {sender : Account} {cost : ℕ} (e : String)
    → tx.coinbase ≡ false
    → Passed tx s sender cost
    → transfer tx (view s) ≡ shown_outcome (credit tx.to tx.amount e (debit tx.from sender cost s))
unfolding debit moved taken given
transfer-debit tx s {sender} {cost} e n p =
    let paid : Account = record {
      balance = sender.balance - cost;
      nonce = wrapping_add sender.nonce 1;
    } in
    transfer-credit tx s (insert tx.from paid s.accounts) e (allows-Passed tx s p)
      (ground (
        arith,
        n,
        p.known,
        p.total,
        lookup-insert tx.from tx.to paid s.accounts,
        str_eq_iff tx.from tx.to,
      ))
      (λ a. ground (
        arith,
        n,
        p.known,
        p.total,
        lookup-insert tx.from tx.to paid s.accounts,
        lookup-insert tx.from a paid s.accounts,
        str_eq_iff tx.from a,
        str_eq_iff tx.to a,
        str_eq_iff tx.from tx.to,
      ))

transfer-refused :
    (tx : Transaction) (l : Ledger) → allows tx (l.accounts tx.from) ≡ false → transfer tx l ≡ none
unfolding transfer
transfer-refused tx l h = rw h refl

transfer-apply_transaction :
    (tx : Transaction) (s : State) → transfer tx (view s) ≡ shown_outcome (apply_transaction tx s)
transfer-apply_transaction tx s = elim (Bool-cases tx.coinbase) [
  | inl minted ↦ transfer-coinbase tx s minted
  | inr normal ↦ elim (Result-cases (check_sender tx s)) [
    | inr (e, failed) ↦
        rw (apply_transaction-refused tx s e normal failed)
          (transfer-refused tx (view s) (allows-refused tx s normal failed))
    | inl ((sender, cost), passed) ↦
        rw (apply_transaction-passed tx s sender cost normal passed)
          (transfer-debit tx s "Receiver balance overflow" normal (check_sender-Passed tx s passed))
  ]
]

transfer_all-next :
    (tx : Transaction) (txs : List Transaction) (s : State) (outcome : Outcome)
    → transfer tx (view s) ≡ shown_outcome outcome
    → shown (apply_all txs outcome.1) ≡ transfer_all txs (view outcome.1)
    → shown (outcome.0 >> apply_all txs outcome.1) ≡ transfer_all (tx ∷ txs) (view s)
unfolding transfer_all
transfer_all-next tx txs s (err e, after) first rest = rw (transfer_all, first) refl
transfer_all-next tx txs s (ok _, after) first rest = rw (transfer_all, first) rest

-- The account tables refine the ledger: applying transactions atomically to a state shows what the
-- abstract ledger does with them one by one, for every list of transactions and every state; they
-- are all done and the states agree on every account, the treasury and the burned amount, or
-- neither side does any.
pub shown-apply_transactions_atomically :
    (txs : List Transaction) (s : State)
    → shown (apply_transactions_atomically txs s) ≡ transfer_all txs (view s)
unfolding apply_transactions_atomically apply_all transfer_all
shown-apply_transactions_atomically [] s = refl
shown-apply_transactions_atomically (tx ∷ txs) s =
    transfer_all-next tx txs s (apply_transaction tx s) (transfer-apply_transaction tx s)
      (shown-apply_transactions_atomically txs (apply_transaction tx s).1)
