-- ===== src/Node/Validation/Walk.antt =====
-- The loop over a block's transactions in `validate_and_apply_block` of src/node/mod.rs, step by step.
use aion_blockchain.Prelude.{
  branch-false, branch-true, Bool-cases, str_eq_iff, ◌==◌, ◌-◌, arith, ◌+◌, ◌≡◌, ℕ, true, false,
  none, some, ok, inl, inr, bind-eq-ok,
}
use aion_blockchain.Protocol.{system_address}
use aion_blockchain.Crypto.{Crypto}
use aion_blockchain.Core.Transaction.{Transaction, calculate_id}
use aion_blockchain.Core.Block.{Block}
use aion_blockchain.Economy.{Economy, distribute_fee}
use aion_blockchain.State.{apply_transaction}
use aion_blockchain.State.Accounts.{total_balance}
use aion_blockchain.State.Conservation.{apply_transaction-conserves, apply_transaction-frame}
use aion_blockchain.Chain.Blockchain.Settlement.{add_shares, finish}
use aion_blockchain.Chain.Blockchain.Conservation.{
  total_shares, distribute_fee-eq-ok, add_shares-eq-ok,
}
use aion_blockchain.Chain.Blockchain.Production.{finish-eq-ok}
use aion_blockchain.Node.Validation.{
  system_reward_signature, system_public_key, str_eq, not, length, fail_if, Option, Progress,
  check_block_coinbase, validate_transaction, apply_normal, note_coinbase, apply_one,
}

-- A coinbase that pays the block's reward to its validator.
pub record IsReward (block : Block) (economy : Economy) (tx : Transaction) : Type 0 where
  pub coinbase : tx.coinbase ≡ true
  pub receiver : tx.to ≡ block.validator
  pub amount : tx.amount ≡ economy.block_reward
  pub marker : tx.reward_marker ≡ block.index
  pub free : tx.fee ≡ 0

-- The fees so far have left the accounts for the totals, and nothing else has.
pub record Keeps (before after : Progress) : Type 0 where
  pub sum :
      total_balance after.state.accounts + total_shares after.totals
      ≡ total_balance before.state.accounts + total_shares before.totals
  pub treasury : after.state.treasury_balance ≡ before.state.treasury_balance
  pub burned_amount : after.state.burned_amount ≡ before.state.burned_amount
  pub burned_share : after.totals.burned ≡ before.totals.burned

check_block_coinbase-eq-ok :
    (block : Block) (economy : Economy) (position : ℕ) (coinbase : Option Transaction)
    (tx : Transaction) {u : Unit {0}}
    → tx.coinbase ≡ true
    → check_block_coinbase block economy position coinbase tx ≡ ok u
    → IsReward block economy tx × (coinbase ≡ none) × (position ≡ length block.transactions - 1)
unfolding check_block_coinbase
check_block_coinbase-eq-ok block economy position coinbase tx c h =
    let (_, e1, h) =
      bind-eq-ok
        (fail_if (elim coinbase [ none ↦ false | some _ ↦ true ])
          "Block contains more than one coinbase")
        _ h in
    let (_, e2, h) =
      bind-eq-ok
        (fail_if (not (position == length block.transactions - 1))
          "Coinbase must be the last transaction")
        _ h in
    let (_, e3, h) =
      bind-eq-ok (fail_if (not (str_eq tx.from system_address)) "Coinbase sender must be SYSTEM") _
        h in
    let (_, e4, h) =
      bind-eq-ok
        (fail_if (not (str_eq tx.public_key system_public_key)) "Coinbase public key is invalid") _
        h in
    let (_, e5, h) =
      bind-eq-ok
        (fail_if
          (not (elim tx.signature [ none ↦ false | some s ↦ str_eq s system_reward_signature ]))
          "Coinbase signature is invalid")
        _ h in
    (
      record {
        coinbase = c;
        receiver = ground (arith, h, str_eq_iff tx.to block.validator);
        amount = ground (arith, h);
        marker = ground (arith, h);
        free = ground (arith, h);
      },
      ground (arith, e1),
      ground (arith, e2),
    )

module _ ⦃c : Crypto⦄ where
  apply_normal-Keeps :
      (economy : Economy) (tx : Transaction) (p : Progress) {p' : Progress}
      → tx.coinbase ≡ false
      → apply_normal economy tx p ≡ ok p'
      → Keeps p p' × (p'.coinbase ≡ p.coinbase)
  unfolding apply_normal
  apply_normal-Keeps economy tx p {p'} n h =
      let (_, e1, h) =
        bind-eq-ok
          (fail_if (not (tx.reward_marker == 0)) "Normal transaction reward marker must be zero") _
          h in
      let (_, e2, h) = bind-eq-ok (validate_transaction tx p.state economy) _ h in
      let (s, e3, h) = bind-eq-ok (finish (apply_transaction tx p.state)) _ h in
      let (shares, e4, h) = bind-eq-ok (distribute_fee economy tx.fee) _ h in
      let (totals, e5, h) = bind-eq-ok (add_shares p.totals shares) _ h in
      let (done, same) = finish-eq-ok (apply_transaction tx p.state) e3 in
      let moved = apply_transaction-conserves tx p.state done in
      let frame = apply_transaction-frame tx p.state in
      let split = distribute_fee-eq-ok economy tx.fee e4 in
      let added = add_shares-eq-ok p.totals shares e5 in
      (
        record {
          sum = ground (arith, n, moved, same, split, added, h);
          treasury = ground (arith, frame, same, h);
          burned_amount = ground (arith, frame, same, h);
          burned_share = ground (arith, split, added, h);
        },
        ground (arith, h),
      )

  -- What one step of the loop does with a transaction of either kind.
  pub record Step (block : Block) (economy : Economy) (position : ℕ) (tx : Transaction)
      (p p' : Progress) : Type 0 where
    pub identified : tx.id ≡ calculate_id tx
    pub keeps : Keeps p p'
    pub normal : tx.coinbase ≡ false → p'.coinbase ≡ p.coinbase
    pub reward :
        tx.coinbase ≡ true
        → IsReward block economy tx
          × (p.coinbase ≡ none)
          × (position ≡ length block.transactions - 1)
          × (p'.coinbase ≡ some tx)

  Step-normal :
      (block : Block) (economy : Economy) (position : ℕ) (tx : Transaction) (p : Progress)
      {p' : Progress}
      → tx.id ≡ calculate_id tx
      → tx.coinbase ≡ false
      → apply_normal economy tx p ≡ ok p'
      → Step block economy position tx p p'
  Step-normal block economy position tx p identified n h =
      let (keeps, same) = apply_normal-Keeps economy tx p n h in
      record { identified = identified; keeps = keeps; normal = λ _. same; reward = λ c. cc }

  Step-reward :
      (block : Block) (economy : Economy) (position : ℕ) (tx : Transaction) (p : Progress)
      {p' : Progress}
      → tx.id ≡ calculate_id tx
      → tx.coinbase ≡ true
      → note_coinbase block economy position tx p ≡ ok p'
      → Step block economy position tx p p'
  unfolding note_coinbase
  Step-reward block economy position tx p {p'} identified c h =
      let (_, e, h) = bind-eq-ok (check_block_coinbase block economy position p.coinbase tx) _ h in
      let (reward, new, at) = check_block_coinbase-eq-ok block economy position p.coinbase tx c e in
      record {
        identified = identified;
        keeps = record {
          sum = ground (arith, h);
          treasury = ground (arith, h);
          burned_amount = ground (arith, h);
          burned_share = ground (arith, h);
        };
        normal = λ n. cc;
        reward = λ _. (reward, new, at, ground (arith, h));
      }

  pub apply_one-Step :
      (block : Block) (economy : Economy) (position : ℕ) (tx : Transaction) (p : Progress)
      {p' : Progress}
      → apply_one block economy position tx p ≡ ok p'
      → Step block economy position tx p p'
  unfolding apply_one
  apply_one-Step block economy position tx p {p'} h =
      let (_, e, h) =
        bind-eq-ok
          (fail_if (not (str_eq tx.id (calculate_id tx))) "Transaction ID inside block is invalid")
          _ h in
      let identified : tx.id ≡ calculate_id tx =
        ground (arith, e, str_eq_iff tx.id (calculate_id tx)) in
      elim (Bool-cases tx.coinbase) [
        | inl c ↦
            Step-reward block economy position tx p {p' = p'} identified c
              (branch-true tx.coinbase _ _ c h)
        | inr n ↦
            Step-normal block economy position tx p {p' = p'} identified n
              (branch-false tx.coinbase _ _ n h)
      ]
