-- ===== src/Tests/Transfers.antt =====
-- Transactions at concrete inputs: the state, the pool, and what a refused transfer leaves.
use aion_blockchain.Prelude.{
  false, true, [], text, arith, refl, ok, err, ◌≡◌, ◌+◌, ◌≤◌, ◌<◌, ◌⊎◌, ◌++◌, ◌∷◌, ◌↔◌, All,
  if◌then◌else◌, length, u64_mod, is_err, Error,
}
use aion_blockchain.Protocol.{max_normal_transactions_per_block}
use aion_blockchain.Crypto.Toy.{toy}
use aion_blockchain.Core.Transaction.{Transaction}
use aion_blockchain.State.{
  State, balance_of, nonce_of, apply_transaction, apply_transactions_atomically,
}
use aion_blockchain.State.Accounts.{total_balance}
use aion_blockchain.State.Conservation.{
  IsNormal, charged, issued, apply_transaction-conserves, apply_transaction-atomic,
}
use aion_blockchain.State.Ledger.{Effect, apply_transaction-Effect, apply_transaction_no_replay}
use aion_blockchain.Chain.Mempool.{
  Mempool, add_transaction, take_valid_transactions, next_nonce, pending_cost, is_from,
}
use aion_blockchain.Chain.Mempool as Mempool
use aion_blockchain.Chain.Mempool.Admission.{
  Admissible, IsValid, HasRoom, add_transaction_exact, add_transaction-IsValid,
}
use mathlib.Core.List.{Perm}
use aion_blockchain.Chain.Mempool.Sweeps.{IsBounded}
use aion_blockchain.Chain.Mempool.Selection.{take_valid_transactions_lem}
use aion_blockchain.Tests.Scenario.{run, ledger, alice, bob, pool, payment}

unfoldable after : State
unfolding run
after = (apply_transaction payment ledger).1

applied : (apply_transaction payment ledger).0 ≡ ok tt
unfolding run
applied = refl

normal : payment.coinbase ≡ false
unfolding run
normal = refl

bounded : IsBounded ledger
unfolding run
bounded = omega arith

normal_pool : All IsNormal pool.transactions
unfolding run
normal_pool = (refl, tt)

apply_transaction-conserves_example :
    total_balance (apply_transaction payment ledger).1.accounts + charged payment
    ≡ total_balance ledger.accounts + issued payment
apply_transaction-conserves_example = apply_transaction-conserves payment ledger applied

-- Bob has no account, so that his payment is refused.
abbrev from_bob : Transaction
from_bob = record payment { from = bob.address }

abbrev refusal : Error
refusal = text "Sender account not found"

refused : (apply_transaction from_bob ledger).0 ≡ err refusal
unfolding run
refused = refl

apply_transaction-atomic_example : (apply_transaction from_bob ledger).1 ≡ ledger
apply_transaction-atomic_example =
    apply_transaction-atomic from_bob ledger refusal normal bounded refused

apply_transaction-Effect_example :
    (nonce_of ledger payment.from ≡ payment.nonce)
    × (payment.amount + payment.fee ≤ balance_of ledger payment.from)
    × Effect payment ledger (apply_transaction payment ledger).1 alice.address
apply_transaction-Effect_example =
    apply_transaction-Effect payment ledger alice.address normal applied

small : payment.nonce < u64_mod
unfolding run
small = omega arith

apply_transaction_no_replay_example :
    (e : Error) × (apply_transaction payment (apply_transaction payment ledger).1
      ≡ (err e, (apply_transaction payment ledger).1))
apply_transaction_no_replay_example =
    apply_transaction_no_replay payment ledger normal small applied

applied_batch : apply_transactions_atomically (payment ∷ []) ledger ≡ ok after
unfolding run after
applied_batch = refl

take_valid_transactions_example :
    let (rest, taken) = take_valid_transactions ledger pool in
    (final : State) × (apply_transactions_atomically taken ledger ≡ ok final)
    × Perm pool.transactions (taken ++ rest.transactions)
    × (length taken ≤ max_normal_transactions_per_block)
    × ((length taken ≡ max_normal_transactions_per_block)
        ⊎ All (λ tx. is_err (apply_transaction tx final).0 ≡ true) rest.transactions)
take_valid_transactions_example = take_valid_transactions_lem ledger pool normal_pool bounded

add_transaction_example :
    (((add_transaction payment pool).1 ≡ true) ↔ (Admissible payment × HasRoom payment pool))
    × ((add_transaction payment pool).0.transactions
        ≡ pool.transactions ++ (if (add_transaction payment pool).1 then payment ∷ [] else []))
add_transaction_example = add_transaction_exact payment pool

IsValid-new : IsValid Mempool.new
IsValid-new = record {
  within = omega arith;
  admissible = tt;
  distinct_ids = tt;
  distinct_slots = tt;
}

IsValid-pool : IsValid pool
IsValid-pool = add_transaction-IsValid payment Mempool.new IsValid-new

next : next_nonce pool alice.address 0 ≡ ok 1
unfolding run next_nonce Mempool.advance Mempool.pending_for_sender Mempool.sort_by_nonce
    Mempool.insert_by_nonce
next = refl
