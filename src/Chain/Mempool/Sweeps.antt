-- ===== src/Chain/Mempool/Sweeps.antt =====
-- One pass over the pending transactions in `take_valid_transactions` of src/chain/mempool.rs.
use mathlib.Core.List.{Perm, perm_middle}
use mathlib.Core.List.Perm
use aion_blockchain.Prelude.{
  Result-cases, Bool-cases, is_err, All, ◌+◌, ◌≤◌, u64_mod, ◌++◌, Error, arith, ◌∷◌, ◌≡◌, ◌<◌, ℕ,
  [], true, false, ok, err, refl, inl, inr,
}
use aion_blockchain.Core.Transaction.{Transaction}
use aion_blockchain.State.{State, apply_transaction, apply_all}
use aion_blockchain.State.Accounts.{total_balance}
use aion_blockchain.State.Conservation.{
  IsNormal, apply_transaction-conserves, apply_transaction-atomic,
}
use aion_blockchain.Chain.Mempool.{
  length, max_normal_transactions_per_block, leb, List, Sweep, sweep,
}

-- The sum of all balances is a 64-bit number.
abbrev pub IsBounded : State → Type 0
IsBounded s = total_balance s.accounts < u64_mod

-- What a pass guarantees, from the state `s`, the count and the list that it began with.
pub record IsSweep (s : State) (count : ℕ) (txs : List Transaction) (r : Sweep) : Type 0 where
  pub applied : apply_all r.taken s ≡ ok r.state
  pub bounded : IsBounded r.state
  pub kept : Perm txs (r.taken ++ r.left)
  pub sizes : length r.taken + length r.left ≡ length txs
  pub limited :
      count ≤ max_normal_transactions_per_block
      → count + length r.taken ≤ max_normal_transactions_per_block
  pub normal : All IsNormal r.left
  pub progressed : r.progress ≡ true → 0 < length r.taken
  pub idle : r.progress ≡ false → r.taken ≡ []
  pub refused :
      r.progress ≡ false
      → count < max_normal_transactions_per_block
      → All (λ tx. is_err (apply_transaction tx r.state).0 ≡ true) r.left

-- The three ways that a pass treats its first transaction.
pub sweep-full :
    (s : State) (count : ℕ) (tx : Transaction) (txs : List Transaction)
    → leb max_normal_transactions_per_block count ≡ true
    → sweep s count (tx ∷ txs) ≡ record (sweep s count txs) { left = tx ∷ (sweep s count txs).left }
unfolding sweep
sweep-full s count tx txs h = ground arith

pub sweep-taken :
    (s : State) (count : ℕ) (tx : Transaction) (txs : List Transaction) {u : Unit {0}}
    → leb max_normal_transactions_per_block count ≡ false
    → (apply_transaction tx s).0 ≡ ok u
    → sweep s count (tx ∷ txs) ≡ record (sweep (apply_transaction tx s).1 (count + 1) txs) {
      taken = tx ∷ (sweep (apply_transaction tx s).1 (count + 1) txs).taken;
      progress = true;
    }
unfolding sweep
sweep-taken s count tx txs h e = ground arith

pub sweep-refused :
    (s : State) (count : ℕ) (tx : Transaction) (txs : List Transaction) {e : Error}
    → leb max_normal_transactions_per_block count ≡ false
    → (apply_transaction tx s).0 ≡ err e
    → sweep s count (tx ∷ txs) ≡ record (sweep (apply_transaction tx s).1 count txs) {
      left = tx ∷ (sweep (apply_transaction tx s).1 count txs).left;
    }
unfolding sweep
sweep-refused s count tx txs h e = ground arith

apply_all-cons :
    (tx : Transaction) (txs : List Transaction) (s : State) {u : Unit {0}} {s' : State}
    → (apply_transaction tx s).0 ≡ ok u
    → apply_all txs (apply_transaction tx s).1 ≡ ok s'
    → apply_all (tx ∷ txs) s ≡ ok s'
unfolding apply_all
apply_all-cons tx txs s h k = rw h k

pub IsBounded-apply_transaction :
    (tx : Transaction) (s : State)
    → tx.coinbase ≡ false
    → IsBounded s
    → (apply_transaction tx s).0 ≡ ok tt
    → IsBounded (apply_transaction tx s).1
IsBounded-apply_transaction tx s n b h = ground (arith, n, apply_transaction-conserves tx s h)

Perm-left :
    (x : Transaction) (xs ys zs : List Transaction)
    → Perm xs (ys ++ zs)
    → Perm (x ∷ xs) (ys ++ x ∷ zs)
Perm-left x xs ys zs h = Perm.trans (Perm.cons x h) (Perm.symm (perm_middle ys zs))

-- A pass whose first transaction was left.
IsSweep-left :
    (s : State) (count : ℕ) (tx : Transaction) (txs : List Transaction) (r : Sweep)
    → tx.coinbase ≡ false
    → (count < max_normal_transactions_per_block
        → r.progress ≡ false
        → is_err (apply_transaction tx r.state).0 ≡ true)
    → IsSweep s count txs r
    → IsSweep s count (tx ∷ txs) (record r { left = tx ∷ r.left })
IsSweep-left s count tx txs r n fails i = record {
  applied = i.applied;
  bounded = i.bounded;
  kept = Perm-left tx txs r.taken r.left i.kept;
  sizes = omega (arith, i.sizes);
  limited = i.limited;
  normal = (n, i.normal);
  progressed = i.progressed;
  idle = i.idle;
  refused = λ p lt. (fails lt p, i.refused p lt);
}

-- A pass whose first transaction was taken.
IsSweep-taken :
    (s : State) (count : ℕ) (tx : Transaction) (txs : List Transaction) (r : Sweep)
    → count < max_normal_transactions_per_block
    → (apply_transaction tx s).0 ≡ ok tt
    → IsSweep (apply_transaction tx s).1 (count + 1) txs r
    → IsSweep s count (tx ∷ txs) (record r { taken = tx ∷ r.taken; progress = true })
IsSweep-taken s count tx txs r room done i = record {
  applied = apply_all-cons tx r.taken s done i.applied;
  bounded = i.bounded;
  kept = Perm.cons tx i.kept;
  sizes = omega (arith, i.sizes);
  limited = λ le. omega (arith, i.limited);
  normal = i.normal;
  progressed = λ _. omega arith;
  idle = λ p. cc;
  refused = λ p. cc;
}

-- With no progress the temporary state is the one that the pass began with.
idle-state :
    (s : State) (count : ℕ) (txs : List Transaction) (r : Sweep)
    → IsSweep s count txs r
    → r.progress ≡ false
    → r.state ≡ s
unfolding apply_all
idle-state s count txs r i p = ground (arith, i.idle p, i.applied)

pub sweep-IsSweep :
    (s : State) (count : ℕ) (txs : List Transaction)
    → All IsNormal txs
    → IsBounded s
    → IsSweep s count txs (sweep s count txs)
unfolding sweep apply_all
sweep-IsSweep s count [] n b = record {
  applied = refl;
  bounded = b;
  kept = Perm.refl [];
  sizes = omega arith;
  limited = λ le. omega arith;
  normal = tt;
  progressed = λ p. cc;
  idle = λ p. refl;
  refused = λ p lt. tt;
}
sweep-IsSweep s count (tx ∷ txs) n b =
    elim (Bool-cases (leb max_normal_transactions_per_block count)) [
      | inl full ↦ rw (sweep-full s count tx txs full) (
          IsSweep-left s count tx txs (sweep s count txs) n.0 (λ lt _. absurd (ground arith))
            (sweep-IsSweep s count txs n.1 b))
      | inr room ↦ elim (Result-cases (apply_transaction tx s).0) [
        | inl (u, done) ↦ rw (sweep-taken s count tx txs room done) (
            IsSweep-taken s count tx txs (sweep (apply_transaction tx s).1 (count + 1) txs)
              (ground arith) done
              (sweep-IsSweep (apply_transaction tx s).1 (count + 1) txs n.1
                (IsBounded-apply_transaction tx s n.0 b done)))
        | inr (e, failed) ↦
            let same = apply_transaction-atomic tx s e n.0 b failed in
            let r = sweep s count txs in
            let i = sweep-IsSweep s count txs n.1 b in
            rw (sweep-refused s count tx txs room failed, same)
              (IsSweep-left s count tx txs r n.0
                (λ lt p. rw (idle-state s count txs r i p, failed) refl) i)
      ]
    ]
