-- ===== src/Chain/Mempool/Selection.antt =====
-- The choice of transactions for a block, `take_valid_transactions` of src/chain/mempool.rs: it ends,
-- loses nothing, keeps the block's limit, and what it takes can be applied in that order.
use mathlib.Core.List.{Perm}
use mathlib.Core.List.Perm
use native.Mathlib.Decide.{dec_lt}
use aion_blockchain.Prelude.{
  ◌⊎◌, All-append, ◌||◌, length-append, Result-cases, bind-eq-ok, append_assoc, Bool-cases, is_err,
  All, ◌+◌, ◌≤◌, ◌++◌, arith, ◌∷◌, ◌≡◌, ◌<◌, ℕ, zero, suc, [], true, ok, refl, inl, inr,
}
use aion_blockchain.Core.Transaction.{Transaction}
use aion_blockchain.State.{apply_transactions_atomically, State, apply_transaction, apply_all}
use aion_blockchain.State.Conservation.{IsNormal}
use aion_blockchain.Chain.Mempool.{
  not, length, max_normal_transactions_per_block, leb, List, Mempool, Sweep, sweep, collect,
  take_valid_transactions,
}
use aion_blockchain.Chain.Mempool.Sweeps.{
  sweep-full, sweep-taken, sweep-refused, IsBounded, IsSweep, sweep-IsSweep,
}

apply_all-append :
    (xs ys : List Transaction) (s : State) {s₁ s₂ : State}
    → apply_all xs s ≡ ok s₁
    → apply_all ys s₁ ≡ ok s₂
    → apply_all (xs ++ ys) s ≡ ok s₂
unfolding apply_all
apply_all-append [] ys s h k = ground arith
apply_all-append (x ∷ xs) ys s {s₁} {s₂} h k =
    let (u, done, rest) =
      bind-eq-ok (apply_transaction x s).0 (λ _. apply_all xs (apply_transaction x s).1) {b = s₁}
        h in
    rw done (apply_all-append xs ys (apply_transaction x s).1 {s₁ = s₁} {s₂ = s₂} rest k)

-- What the choice guarantees, from the state, the count and the list that it began with.
record IsChoice (s : State) (count : ℕ) (txs taken left : List Transaction) : Type 0 where
  final : State
  applied : apply_all taken s ≡ ok final
  kept : Perm txs (taken ++ left)
  limited :
      count ≤ max_normal_transactions_per_block
      → count + length taken ≤ max_normal_transactions_per_block
  maximal :
      count + length taken < max_normal_transactions_per_block
      → All (λ tx. is_err (apply_transaction tx final).0 ≡ true) left

stop-IsChoice :
    (s : State) (count : ℕ) (txs : List Transaction) (r : Sweep)
    → IsSweep s count txs r
    → (r.progress ≡ true → max_normal_transactions_per_block ≤ count + length r.taken)
    → IsChoice s count txs r.taken r.left
stop-IsChoice s count txs r i full = record {
  final = r.state;
  applied = i.applied;
  kept = i.kept;
  limited = i.limited;
  maximal = λ lt. elim (Bool-cases r.progress) [
    | inl p ↦ absurd (omega (arith, full p))
    | inr p ↦ i.refused p (omega arith)
  ];
}

next-IsChoice :
    (s : State) (count : ℕ) (txs taken left : List Transaction) (r : Sweep)
    → IsSweep s count txs r
    → IsChoice r.state (count + length r.taken) r.left taken left
    → IsChoice s count txs (r.taken ++ taken) left
next-IsChoice s count txs taken left r i more = record {
  final = more.final;
  applied = apply_all-append r.taken taken s i.applied more.applied;
  kept = rw append_assoc (Perm.trans i.kept (Perm.append (Perm.refl r.taken) more.kept));
  limited = λ le. omega (arith, length-append {0} r.taken taken, more.limited (i.limited le));
  maximal = λ lt. more.maximal (omega (arith, length-append {0} r.taken taken));
}

collect-IsChoice :
    (fuel : ℕ) (s : State) (count : ℕ) (txs : List Transaction)
    → length txs < fuel
    → All IsNormal txs
    → IsBounded s
    → IsChoice s count txs (collect fuel s count txs).0 (collect fuel s count txs).1
unfolding collect apply_all
collect-IsChoice zero s count txs enough n b = absurd (omega arith)
collect-IsChoice (suc fuel) s count [] enough n b = record {
  final = s;
  applied = refl;
  kept = Perm.refl [];
  limited = λ le. omega arith;
  maximal = λ lt. tt;
}
collect-IsChoice (suc fuel) s count (tx ∷ txs) enough n b =
    let r = sweep s count (tx ∷ txs) in
    let i = sweep-IsSweep s count (tx ∷ txs) n b in
    elim (Bool-cases
      (leb max_normal_transactions_per_block (count + length r.taken) || not r.progress)) [
        | inl stop ↦ rw stop (stop-IsChoice s count (tx ∷ txs) r i (λ p. ground arith))
        | inr go ↦ rw go (
            next-IsChoice s count (tx ∷ txs) _ _ r i (
              collect-IsChoice fuel r.state (count + length r.taken) r.left
                (omega (arith, i.sizes, i.progressed (ground arith))) i.normal i.bounded))
      ]

-- From a state whose balances sum to less than 2^64 and a pool of normal transactions, the choice
-- ends; the taken transactions can be applied one after the other, in their order; taken and left
-- are together the pool; no more than the block's limit are taken; and either the limit is reached,
-- or every transaction that is left would be refused after those taken.
pub take_valid_transactions_lem :
    (s : State) (pool : Mempool)
    → All IsNormal pool.transactions
    → IsBounded s
    → let (rest, taken) = take_valid_transactions s pool in
      (final : State) × (apply_transactions_atomically taken s ≡ ok final)
      × Perm pool.transactions (taken ++ rest.transactions)
      × (length taken ≤ max_normal_transactions_per_block)
      × ((length taken ≡ max_normal_transactions_per_block)
          ⊎ All (λ tx. is_err (apply_transaction tx final).0 ≡ true) rest.transactions)
unfolding take_valid_transactions apply_transactions_atomically
take_valid_transactions_lem s pool n b =
    let txs = pool.transactions in
    let taken = (collect (length txs + 1) s 0 txs).0 in
    let i = collect-IsChoice (length txs + 1) s 0 txs (omega arith) n b in
    let limited : length taken ≤ max_normal_transactions_per_block =
      omega (arith, i.limited (omega arith)) in
    (
      i.final,
      i.applied,
      i.kept,
      limited,
      elim (dec_lt (length taken) max_normal_transactions_per_block) [
        | yes lt ↦ inr (i.maximal (omega arith))
        | no ge ↦ inl (omega arith)
      ],
    )

module _ (P : Transaction → Type 0) where
  sweep-All :
      (s : State) (count : ℕ) (txs : List Transaction)
      → All P txs
      → All P (sweep s count txs).taken × All P (sweep s count txs).left
  unfolding sweep
  sweep-All s count [] h = (tt, tt)
  sweep-All s count (tx ∷ txs) h = elim (Bool-cases (leb max_normal_transactions_per_block count)) [
    | inl full ↦
        let rest = sweep-All s count txs h.1 in
        rw (sweep-full s count tx txs full) (rest.0, (h.0, rest.1))
    | inr room ↦ elim (Result-cases (apply_transaction tx s).0) [
      | inl (u, done) ↦
          let rest = sweep-All (apply_transaction tx s).1 (count + 1) txs h.1 in
          rw (sweep-taken s count tx txs room done) ((h.0, rest.0), rest.1)
      | inr (e, failed) ↦
          let rest = sweep-All (apply_transaction tx s).1 count txs h.1 in
          rw (sweep-refused s count tx txs room failed) (rest.0, (h.0, rest.1))
    ]
  ]

  collect-All :
      (fuel : ℕ) (s : State) (count : ℕ) (txs : List Transaction)
      → All P txs
      → All P (collect fuel s count txs).0 × All P (collect fuel s count txs).1
  unfolding collect
  collect-All zero s count txs h = (tt, h)
  collect-All (suc fuel) s count [] h = (tt, tt)
  collect-All (suc fuel) s count (tx ∷ txs) h =
      let r = sweep s count (tx ∷ txs) in
      let parts = sweep-All s count (tx ∷ txs) h in
      elim (Bool-cases
        (leb max_normal_transactions_per_block (count + length r.taken) || not r.progress)) [
          | inl stop ↦ rw stop parts
          | inr go ↦
              let more = collect-All fuel r.state (count + length r.taken) r.left parts.1 in
              rw go (All-append P r.taken _ parts.0 more.0, more.1)
        ]

  -- What holds of every transaction of the pool holds of those taken and of those left.
  pub take_valid_transactions-All :
      (s : State) (pool : Mempool)
      → All P pool.transactions
      → All P (take_valid_transactions s pool).1
        × All P (take_valid_transactions s pool).0.transactions
  unfolding take_valid_transactions
  take_valid_transactions-All s pool h =
      collect-All (length pool.transactions + 1) s 0 pool.transactions h
