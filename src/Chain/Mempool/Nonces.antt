-- ===== src/Chain/Mempool/Nonces.antt =====
-- The nonce that a sender must use next and the cost of what it has pending (src/chain/mempool.rs).
use native.Mathlib.Decide.{dec_lt}
use aion_blockchain.Prelude.{
  subst, ap, bind-eq-ok, ◌↔◌, ◌∙◌, ◌+◌, u64_mod, sym, ok_or, checked_add, ◌&&◌, All, arith,
  Bool-cases, ◌||◌, ◌<◌, ◌==◌, ◌≤◌, ◌≡◌, ℕ, [], true, false, ok, refl, inl, inr, ◌>>=◌,
}
use aion_blockchain.Core.Transaction.{Transaction}
use aion_blockchain.Chain.Mempool.{
  Str, leb, keep, ◌∷◌, any, List, Bool, Mempool, insert_by_nonce, sort_by_nonce, is_from,
  pending_for_sender, advance, next_nonce, add_costs, pending_cost,
}

abbrev pub has_nonce : ℕ → Transaction → Bool
has_nonce n tx = tx.nonce == n

-- The nonces rise along the list.
abbrev pub IsSorted : List Transaction → Type 0
IsSorted [] = Unit
IsSorted (tx ∷ txs) = All (λ (y : Transaction). tx.nonce ≤ y.nonce) txs × IsSorted txs

All-insert :
    (n : ℕ) (tx : Transaction) (txs : List Transaction)
    → n ≤ tx.nonce
    → All (λ (y : Transaction). n ≤ y.nonce) txs
    → All (λ (y : Transaction). n ≤ y.nonce) (insert_by_nonce tx txs)
unfolding insert_by_nonce
All-insert n tx [] h k = (h, tt)
All-insert n tx (y ∷ ys) h k = elim (Bool-cases (leb tx.nonce y.nonce)) [
  | inl e ↦ rw e (h, k)
  | inr e ↦ rw e (k.0, All-insert n tx ys h k.1)
]

All-le_trans :
    (m n : ℕ) (txs : List Transaction)
    → m ≤ n
    → All (λ (y : Transaction). n ≤ y.nonce) txs
    → All (λ (y : Transaction). m ≤ y.nonce) txs
All-le_trans m n [] h k = tt
All-le_trans m n (y ∷ ys) h k = (omega (arith, k.0), All-le_trans m n ys h k.1)

insert_by_nonce-IsSorted :
    (tx : Transaction) (txs : List Transaction) → IsSorted txs → IsSorted (insert_by_nonce tx txs)
unfolding insert_by_nonce
insert_by_nonce-IsSorted tx [] h = (tt, tt)
insert_by_nonce-IsSorted tx (y ∷ ys) h = elim (Bool-cases (leb tx.nonce y.nonce)) [
  | inl e ↦
      let le : tx.nonce ≤ y.nonce = ground arith in
      rw e ((le, All-le_trans tx.nonce y.nonce ys le h.0), h)
  | inr e ↦ rw e (All-insert y.nonce tx ys (ground arith) h.0, insert_by_nonce-IsSorted tx ys h.1)
]

sort_by_nonce-IsSorted : (txs : List Transaction) → IsSorted (sort_by_nonce txs)
unfolding sort_by_nonce
sort_by_nonce-IsSorted [] = tt
sort_by_nonce-IsSorted (tx ∷ txs) =
    insert_by_nonce-IsSorted tx (sort_by_nonce txs) (sort_by_nonce-IsSorted txs)

any-insert :
    (test : Transaction → Bool) (tx : Transaction) (txs : List Transaction)
    → any test (insert_by_nonce tx txs) ≡ (test tx || any test txs)
unfolding insert_by_nonce
any-insert test tx [] = refl
any-insert test tx (y ∷ ys) = ground (arith, any-insert test tx ys)

any-sort :
    (test : Transaction → Bool) (txs : List Transaction)
    → any test (sort_by_nonce txs) ≡ any test txs
unfolding sort_by_nonce
any-sort test [] = refl
any-sort test (tx ∷ txs) = ground (arith, any-insert test tx (sort_by_nonce txs), any-sort test txs)

any-filter :
    (test kept : Transaction → Bool) (txs : List Transaction)
    → any test (keep kept txs) ≡ any (λ tx. kept tx && test tx) txs
any-filter test kept [] = refl
any-filter test kept (tx ∷ txs) = ground (arith, any-filter test kept txs)

none_below :
    (m n : ℕ) (txs : List Transaction)
    → m < n
    → All (λ (y : Transaction). n ≤ y.nonce) txs
    → any (has_nonce m) txs ≡ false
none_below m n [] h k = refl
none_below m n (y ∷ ys) h k = ground (arith, k.0, none_below m n ys h k.1)

-- `n` is the first number from `start` on that is no nonce in the list.
pub record IsNext (start : ℕ) (txs : List Transaction) (n : ℕ) : Type 0 where
  pub from_start : start ≤ n
  pub unused : any (has_nonce n) txs ≡ false
  pub filled : (m : ℕ) → start ≤ m → m < n → any (has_nonce m) txs ≡ true

next_lem :
    (expected next : ℕ)
    → ok_or (checked_add expected 1) "Nonce overflow" ≡ ok next
    → next ≡ expected + 1
unfolding checked_add
next_lem expected next h = ground arith

module _ (expected : ℕ) (tx : Transaction) (txs : List Transaction) where
  advance-skip : tx.nonce < expected → advance expected (tx ∷ txs) ≡ advance expected txs
  unfolding advance
  advance-skip h = ground arith

  advance-stop : expected < tx.nonce → advance expected (tx ∷ txs) ≡ ok expected
  unfolding advance
  advance-stop h = ground arith

  advance-step :
      tx.nonce ≡ expected
      → advance expected (tx ∷ txs)
        ≡ (ok_or (checked_add expected 1) "Nonce overflow" >>= λ e. advance e txs)
  unfolding advance
  advance-step h = ground arith

  skip-IsNext : {n : ℕ} → tx.nonce < expected → IsNext expected txs n → IsNext expected (tx ∷ txs) n
  skip-IsNext lt i = record {
    from_start = i.from_start;
    unused = ground (arith, i.unused, i.from_start);
    filled = λ m le below. ground (arith, i.filled m le below);
  }

  stop-IsNext : IsSorted (tx ∷ txs) → expected < tx.nonce → IsNext expected (tx ∷ txs) expected
  stop-IsNext s lt = record {
    from_start = omega arith;
    unused = ground (arith, none_below expected tx.nonce txs lt s.0);
    filled = λ m le below. absurd (omega arith);
  }

  step-IsNext :
      {n : ℕ} → tx.nonce ≡ expected → IsNext (expected + 1) txs n → IsNext expected (tx ∷ txs) n
  step-IsNext here i = record {
    from_start = omega (arith, i.from_start);
    unused = ground (arith, i.unused, i.from_start);
    filled = λ m le below. elim (dec_lt expected m) [
      | yes later ↦ ground (arith, i.filled m (omega arith) below)
      | no first ↦ ground arith
    ];
  }

advance-IsNext :
    (expected : ℕ) (txs : List Transaction) {n : ℕ}
    → IsSorted txs
    → advance expected txs ≡ ok n
    → IsNext expected txs n
unfolding advance
advance-IsNext expected [] s h = record {
  from_start = ground arith;
  unused = refl;
  filled = λ m le lt. absurd (ground arith);
}
advance-IsNext expected (tx ∷ txs) {n} s h = elim (dec_lt tx.nonce expected) [
  | yes lt ↦
      skip-IsNext expected tx txs lt
        (advance-IsNext expected txs s.1 (sym (advance-skip expected tx txs lt) ∙ h))
  | no ge ↦ elim (dec_lt expected tx.nonce) [
    | yes gt ↦
        let e : expected ≡ n = ground (arith, advance-stop expected tx txs gt) in
        subst (IsNext expected (tx ∷ txs)) e (stop-IsNext expected tx txs s gt)
    | no le ↦
        let here : tx.nonce ≡ expected = omega arith in
        let (next, added, rest) =
          bind-eq-ok (ok_or (checked_add expected 1) "Nonce overflow") (λ e. advance e txs) {b = n}
            (sym (advance-step expected tx txs here) ∙ h) in
        let e : next ≡ expected + 1 = next_lem expected next added in
        step-IsNext expected tx txs here (rw e at (advance-IsNext next txs s.1 rest))
  ]
]

-- What `next_nonce` yields, if it succeeds, is the first number from the account's nonce on that no
-- pending transaction of the sender uses.
pub next_nonce-IsNext :
    (pool : Mempool) (address : Str) (state_nonce : ℕ) {n : ℕ}
    → next_nonce pool address state_nonce ≡ ok n
    → IsNext state_nonce (keep (is_from address) pool.transactions) n
unfolding next_nonce pending_for_sender
next_nonce-IsNext pool address state_nonce {n} h =
    let own = keep (is_from address) pool.transactions in
    let i = advance-IsNext state_nonce (sort_by_nonce own) (sort_by_nonce-IsSorted own) h in
    record {
      from_start = i.from_start;
      unused = sym (any-sort (has_nonce n) own) ∙ i.unused;
      filled = λ m le lt. sym (any-sort (has_nonce m) own) ∙ i.filled m le lt;
    }

-- What the transactions cost together, with no bound.
unfoldable pub costs : List Transaction → ℕ
costs [] = 0
costs (tx ∷ txs) = tx.amount + tx.fee + costs txs

add_costs-fits :
    (total : ℕ) (txs : List Transaction)
    → total + costs txs < u64_mod
    → add_costs total txs ≡ ok (total + costs txs)
unfolding add_costs costs checked_add
add_costs-fits total [] h = ground arith
add_costs-fits total (tx ∷ txs) h =
    ground (arith, add_costs-fits (total + (tx.amount + tx.fee)) txs)

add_costs-eq-ok :
    (total : ℕ) (txs : List Transaction) {n : ℕ}
    → total < u64_mod
    → add_costs total txs ≡ ok n
    → (n ≡ total + costs txs) × (n < u64_mod)
unfolding add_costs costs checked_add
add_costs-eq-ok total [] b h = ground arith
add_costs-eq-ok total (tx ∷ txs) {n} b h =
    ground (arith, add_costs-eq-ok (total + (tx.amount + tx.fee)) txs {n = n})

-- `pending_cost` is the sum of amounts and fees of the sender's pending transactions if that is
-- below 2^64, and an error otherwise.
pub pending_cost_exact :
    (pool : Mempool) (address : Str) (n : ℕ)
    → (pending_cost pool address ≡ ok n)
      ↔ ((n ≡ costs (keep (is_from address) pool.transactions)) × (n < u64_mod))
unfolding pending_cost
pending_cost_exact pool address n =
    let own = keep (is_from address) pool.transactions in
    (
      λ h. omega (arith, add_costs-eq-ok 0 own (omega arith) h),
      λ (e, b). add_costs-fits 0 own (omega arith) ∙ ap ok (omega arith),
    )
