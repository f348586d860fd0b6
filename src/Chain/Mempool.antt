-- ===== src/Chain/Mempool.antt =====
-- src/chain/mempool.rs: the pending transactions, their admission, and the choice of those that go
-- into the next block.
pub mod Admission
pub mod Sweeps
pub mod Selection
pub mod Nonces
use Prim.Native.Nat.{compare, Ordering}
use aion_blockchain.Prelude.{
  any, not, checked_add, ◌==◌, ◌||◌, ◌&&◌, ok_or, ◌++◌, ◌+◌, Result, keep, ◌∷◌, if◌then◌else◌, leb,
  str_eq, Bool, Str, length, List, ℕ, zero, suc, [], true, false, none, some, ok, err, ◌>>=◌, ◌>>◌,
}
use aion_blockchain.Protocol.{
  signature_hex_length, system_address, public_key_hex_length, address_hex_length,
  max_mempool_transactions, max_normal_transactions_per_block, hash_hex_length, is_fixed_hex,
}
use aion_blockchain.Crypto.{Crypto}
use aion_blockchain.Core.Transaction.{Transaction, message, calculate_id, is_signed}
use aion_blockchain.Wallet.{address_from_public_key, verify}
use aion_blockchain.State.{State, apply_transaction}

pub record Mempool : Type 0 where
  pub transactions : List Transaction

-- `Mempool::new`
abbrev pub new : Mempool
new = record { transactions = [] }

-- `Mempool::has_valid_protocol_format`
unfoldable pub has_valid_protocol_format : Transaction → Bool
has_valid_protocol_format tx =
    is_fixed_hex tx.id hash_hex_length
    && (is_fixed_hex tx.from address_hex_length
        && (is_fixed_hex tx.to address_hex_length
            && (is_fixed_hex tx.public_key public_key_hex_length && (elim tx.signature [
              | none ↦ false
              | some signature ↦ is_fixed_hex signature signature_hex_length
            ]))))

abbrev pub same_id : Transaction → Transaction → Bool
same_id tx existing = str_eq existing.id tx.id

abbrev pub same_slot : Transaction → Transaction → Bool
same_slot tx existing = str_eq existing.from tx.from && existing.nonce == tx.nonce

module _ ⦃c : Crypto⦄ where
  -- The key belongs to the sender, and the signature is the key's.
  unfoldable pub is_authentic : Transaction → Bool
  is_authentic tx = elim tx.signature [
    | none ↦ false
    | some signature ↦ elim (address_from_public_key tx.public_key) [
      | none ↦ false
      | some derived ↦ str_eq derived tx.from && verify tx.public_key (message tx) signature
    ]
  ]

  -- The early returns of `add_transaction`, in their order.
  unfoldable pub rejects : Transaction → Mempool → Bool
  rejects tx pool =
      leb max_mempool_transactions (length pool.transactions)
      || (tx.coinbase
          || (str_eq tx.from system_address
              || (tx.amount == 0
                  || (not (tx.reward_marker == 0)
                      || (not (has_valid_protocol_format tx)
                          || (not (str_eq tx.id (calculate_id tx))
                              || (not (is_signed tx)
                                  || (not (is_authentic tx)
                                      || (any (same_id tx) pool.transactions
                                          || any (same_slot tx) pool.transactions)))))))))

  -- `Mempool::add_transaction`
  unfoldable pub add_transaction : Transaction → Mempool → Mempool × Bool
  add_transaction tx pool =
      if rejects tx pool
      then (pool, false)
      else (record { transactions = pool.transactions ++ tx ∷ [] }, true)

-- `sort_by_key(nonce)`, which is stable.
unfoldable pub insert_by_nonce : Transaction → List Transaction → List Transaction
insert_by_nonce tx [] = tx ∷ []
insert_by_nonce tx (y ∷ ys) =
    if leb tx.nonce y.nonce then tx ∷ y ∷ ys else y ∷ insert_by_nonce tx ys

unfoldable pub sort_by_nonce : List Transaction → List Transaction
sort_by_nonce [] = []
sort_by_nonce (tx ∷ txs) = insert_by_nonce tx (sort_by_nonce txs)

abbrev pub is_from : Str → Transaction → Bool
is_from address tx = str_eq tx.from address

-- `Mempool::pending_for_sender`
unfoldable pub pending_for_sender : Mempool → Str → List Transaction
pending_for_sender pool address = sort_by_nonce (keep (is_from address) pool.transactions)

-- The loop of `next_nonce`.
unfoldable pub advance : ℕ → List Transaction → Result ℕ
advance expected [] = ok expected
advance expected (tx ∷ txs) = elim (compare tx.nonce expected) [
  | Ordering.lt ↦ advance expected txs
  | Ordering.gt ↦ ok expected
  | Ordering.eq ↦
      ok_or (checked_add expected 1) "Nonce overflow" >>= λ expected'. advance expected' txs
]

-- `Mempool::next_nonce`
unfoldable pub next_nonce : Mempool → Str → ℕ → Result ℕ
next_nonce pool address state_nonce = advance state_nonce (pending_for_sender pool address)

-- The loop of `pending_cost`.
unfoldable pub add_costs : ℕ → List Transaction → Result ℕ
add_costs total [] = ok total
add_costs total (tx ∷ txs) = do
  cost ← ok_or (checked_add tx.amount tx.fee) "Transaction cost overflow"
  total' ← ok_or (checked_add total cost) "Mempool total cost overflow"
  add_costs total' txs

-- `Mempool::pending_cost`
unfoldable pub pending_cost : Mempool → Str → Result ℕ
pending_cost pool address = add_costs 0 (keep (is_from address) pool.transactions)

-- What one pass of the loop over the pending transactions leaves: the temporary state, the
-- transactions that it has taken and left, in their order, and whether it took any.
pub record Sweep : Type 0 where
  pub state : State
  pub taken : List Transaction
  pub left : List Transaction
  pub progress : Bool

-- The `for` loop of `take_valid_transactions`, with `count` transactions taken before. A transaction
-- that fails leaves its mark on the temporary state, as in the source.
unfoldable pub sweep : State → ℕ → List Transaction → Sweep
sweep s count [] = record { state = s; taken = []; left = []; progress = false }
sweep s count (tx ∷ txs) = elim (leb max_normal_transactions_per_block count) [
  | true ↦ let r = sweep s count txs in record r { left = tx ∷ r.left }
  | false ↦
      let (outcome, s') = apply_transaction tx s in
      elim outcome [
        | ok _ ↦
            let r = sweep s' (count + 1) txs in record r { taken = tx ∷ r.taken; progress = true }
        | err _ ↦ let r = sweep s' count txs in record r { left = tx ∷ r.left }
      ]
]

-- The outer loop. A pass that goes on has taken a transaction, so that fuel beyond the length of
-- the pending list is never used up.
unfoldable pub collect : ℕ → State → ℕ → List Transaction → List Transaction × List Transaction
collect zero s count pending = ([], pending)
collect (suc fuel) s count [] = ([], [])
collect (suc fuel) s count (tx ∷ pending) =
    let r = sweep s count (tx ∷ pending) in
    let more = collect fuel r.state (count + length r.taken) r.left in
    if leb max_normal_transactions_per_block (count + length r.taken) || not r.progress
    then (r.taken, r.left)
    else (r.taken ++ more.0, more.1)

-- `Mempool::take_valid_transactions`
unfoldable pub take_valid_transactions : State → Mempool → Mempool × List Transaction
take_valid_transactions s pool =
    let (taken, left) = collect (length pool.transactions + 1) s 0 pool.transactions in
    (record { transactions = left }, taken)

-- `Mempool::len`
unfoldable pub len : Mempool → ℕ
len pool = length pool.transactions
