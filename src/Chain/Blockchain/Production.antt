-- ===== src/Chain/Blockchain/Production.antt =====
-- What a produced block does to the money and to the chain: `create_block_from_mempool` of
-- src/chain/blockchain.rs.
use aion_blockchain.Prelude.{
  sym, ap, fail_if-eq-ok, ok_or-eq-ok, subst, ok-injective, ◌∷◌, ◌++◌, ◌≤◌, ◌+◌, All, arith,
  checked_add, ◌≡◌, ℕ, [], false, some, ok, refl, bind-eq-ok,
}
use aion_blockchain.Crypto.{Crypto}
use aion_blockchain.Core.Transaction
use aion_blockchain.Core.Transaction.{Transaction}
use aion_blockchain.Core.Block
use aion_blockchain.Core.Block.{Block}
use aion_blockchain.Economy
use aion_blockchain.Economy.{Economy, Shares}
use aion_blockchain.Economy.Supply.{IsCapped}
use aion_blockchain.State.{State, Outcome, apply_transaction, apply_transactions_atomically}
use aion_blockchain.State.Conservation.{
  IsNormal, apply_transaction-conserves, apply_transaction-frame,
  apply_transactions_atomically-conserves,
}
use aion_blockchain.State.Accounts.{total_balance}
use aion_blockchain.Wallet.{sign as wallet_sign, Wallet}
use aion_blockchain.Chain.Mempool.{Mempool, take_valid_transactions}
use aion_blockchain.Chain.Mempool.Selection.{take_valid_transactions-All}
use aion_blockchain.Chain.Blockchain.{
  validate_block_field_sizes, retain_unconfirmed, length, ok_or, is_empty, leb, public_key_hex,
  fail_if, last, List, checked_add, Str, Blockchain, Clock, Produced, execute,
  create_block_from_mempool, check_fees, validate_future_timestamp,
  validate_transaction_id_uniqueness,
}
use aion_blockchain.Chain.Blockchain.Settlement.{no_shares, sum_shares, settle_fees, finish}
use aion_blockchain.Chain.Blockchain.Conservation.{held, sum_shares-eq-ok, settle_fees-eq-ok}

-- Everything that was minted is in an account, in the treasury or in the reserve, and the supply is
-- within its cap.
pub record IsSolvent (s : State) (economy : Economy) : Type 0 where
  pub balanced : held s economy ≡ economy.total_supply
  pub capped : IsCapped economy

pub finish-eq-ok : (o : Outcome) {s : State} → finish o ≡ ok s → (o.0 ≡ ok tt) × (o.1 ≡ s)
finish-eq-ok o h = ground arith

reward_validator-eq-ok :
    (economy : Economy) {reward : ℕ} {after : Economy}
    → Economy.reward_validator economy ≡ ok (reward, after)
    → (reward ≡ economy.block_reward)
      × (after ≡ record economy { total_supply = economy.total_supply + economy.block_reward })
      × (economy.total_supply + economy.block_reward ≤ economy.max_supply)
unfolding Economy.reward_validator checked_add
reward_validator-eq-ok economy h = ground arith

module _ ⦃c : Crypto⦄ where
  credit_coinbase :
      (validator : Str) (reward index : ℕ) (s : State) {s' : State}
      → finish (apply_transaction (Transaction.new_coinbase validator reward index) s) ≡ ok s'
      → (total_balance s'.accounts ≡ total_balance s.accounts + reward)
        × (s'.treasury_balance ≡ s.treasury_balance)
        × (s'.burned_amount ≡ s.burned_amount)
  unfolding Transaction.new_coinbase
  credit_coinbase validator reward index s h =
      let coinbase = Transaction.new_coinbase validator reward index in
      let (done, same) = finish-eq-ok (apply_transaction coinbase s) h in
      ground (
        arith,
        same,
        apply_transaction-conserves coinbase s done,
        apply_transaction-frame coinbase s,
      )

  pub execute-IsSolvent :
      (validator : Str) (index : ℕ) (normal : List Transaction) (s : State) (economy : Economy)
      {s' : State} {economy' : Economy} {coinbase : Transaction}
      → All IsNormal normal
      → IsSolvent s economy
      → execute validator index normal s economy ≡ ok (s', economy', coinbase)
      → IsSolvent s' economy'
        × (economy'.total_supply ≡ economy.total_supply + economy.block_reward)
        × (s'.burned_amount ≡ s.burned_amount)
  unfolding execute
  execute-IsSolvent validator index normal s economy n solvent h =
      let (applied, e1, h) = bind-eq-ok (apply_transactions_atomically normal s) _ h in
      let (totals, e2, h) = bind-eq-ok (sum_shares economy no_shares normal) _ h in
      let ((settled, collected), e3, h) =
        bind-eq-ok (settle_fees validator totals applied economy) _ h in
      let ((reward, rewarded), e4, h) = bind-eq-ok (Economy.reward_validator collected) _ h in
      let (credited, e5, h) =
        bind-eq-ok
          (finish (apply_transaction (Transaction.new_coinbase validator reward index) settled)) _
          h in
      let paid = apply_transactions_atomically-conserves normal s n e1 in
      let shared = sum_shares-eq-ok economy no_shares normal n e2 in
      let settlement = settle_fees-eq-ok validator totals applied economy shared.1 e3 in
      let minted = reward_validator-eq-ok collected e4 in
      let issued = credit_coinbase validator reward index settled e5 in
      (
        record {
          balanced = ground (arith, solvent.balanced, paid, shared, settlement, minted, issued, h);
          capped = ground (arith, solvent.capped.machine, settlement.1, minted, h);
        },
        ground (arith, settlement.1, minted, h),
        ground (arith, paid, settlement, issued, h),
      )

  -- The block that production builds from its parts.
  abbrev pub built : ℕ → ℕ → Str → Wallet → List Transaction → Block
  built index timestamp previous_hash wallet transactions =
      let unsigned =
        Block.new index timestamp previous_hash wallet.address (public_key_hex wallet)
          transactions in
      Block.sign (wallet_sign wallet unsigned.hash) unsigned

  built-transactions :
      (index timestamp : ℕ) (previous_hash : Str) (wallet : Wallet)
      (transactions : List Transaction)
      → (built index timestamp previous_hash wallet transactions).transactions ≡ transactions
  unfolding Block.new Block.sign
  built-transactions index timestamp previous_hash wallet transactions = refl

  -- The steps of a production that succeeded.
  pub record Steps (clock : Clock) (timestamp : ℕ) (wallet : Wallet) (mempool : Mempool)
      (state : State) (bc : Blockchain) (p : Produced) : Type 0 where
    pub last_block : Block
    pub coinbase : Transaction
    pub is_last : last bc.chain ≡ some last_block
    pub later : leb timestamp last_block.timestamp ≡ false
    pub in_time : validate_future_timestamp clock timestamp ≡ ok tt
    pub some_normal : is_empty (take_valid_transactions state mempool).1 ≡ false
    pub fees_checked : check_fees bc.economy (take_valid_transactions state mempool).1 ≡ ok tt
    pub executed :
        execute wallet.address
          (length bc.chain)
          (take_valid_transactions state mempool).1
          state
          bc.economy
        ≡ ok (p.state, p.blockchain.economy, coinbase)
    pub block_is :
        p.block
        ≡ built
            (length bc.chain)
            timestamp
            last_block.hash
            wallet
            ((take_valid_transactions state mempool).1 ++ coinbase ∷ [])
    pub chain_is : p.blockchain.chain ≡ bc.chain ++ p.block ∷ []
    pub mempool_is : p.mempool ≡ retain_unconfirmed p.block.transactions mempool
    pub format : validate_block_field_sizes p.block ≡ ok tt
    pub new_ids : validate_transaction_id_uniqueness bc p.block ≡ ok tt

  pub create_block-Steps :
      (clock : Clock) (timestamp : ℕ) (wallet : Wallet) (mempool : Mempool) (state : State)
      (bc : Blockchain) {p : Produced}
      → create_block_from_mempool clock timestamp wallet mempool state bc ≡ ok p
      → Steps clock timestamp wallet mempool state bc p
  unfolding create_block_from_mempool
  create_block-Steps clock timestamp wallet mempool state bc {p} h =
      let normal = (take_valid_transactions state mempool).1 in
      let (_, e1, h) =
        bind-eq-ok (fail_if (is_empty mempool.transactions) "Mempool is empty") _ h in
      let (last_block, e2, h) = bind-eq-ok (ok_or (last bc.chain) "Blockchain is empty") _ h in
      let (_, e3, h) =
        bind-eq-ok
          (fail_if (leb timestamp last_block.timestamp)
            "New block timestamp must be greater than the previous block timestamp")
          _ h in
      let (_, e4, h) = bind-eq-ok (validate_future_timestamp clock timestamp) _ h in
      let (_, e5, h) = bind-eq-ok (fail_if (is_empty normal) "No valid transactions") _ h in
      let (_, e6, h) = bind-eq-ok (check_fees bc.economy normal) _ h in
      let ((credited, rewarded, coinbase), e7, h) =
        bind-eq-ok (execute wallet.address (length bc.chain) normal state bc.economy) _ h in
      let block =
        built (length bc.chain) timestamp last_block.hash wallet (normal ++ coinbase ∷ []) in
      let (_, e8, h) = bind-eq-ok (validate_block_field_sizes block) _ h in
      let (_, e9, h) = bind-eq-ok (validate_transaction_id_uniqueness bc block) _ h in
      let same : record {
        block = block;
        blockchain = record { chain = bc.chain ++ block ∷ []; economy = rewarded };
        mempool = retain_unconfirmed (normal ++ coinbase ∷ []) mempool;
        state = credited;
      }
          ≡ p =
        ok-injective h in
      subst (Steps clock timestamp wallet mempool state bc) same (record {
        last_block = last_block;
        coinbase = coinbase;
        is_last = ok_or-eq-ok (last bc.chain) "Blockchain is empty" e2;
        later =
            fail_if-eq-ok (leb timestamp last_block.timestamp)
              "New block timestamp must be greater than the previous block timestamp" e3;
        in_time = e4;
        some_normal = fail_if-eq-ok (is_empty normal) "No valid transactions" e5;
        fees_checked = e6;
        executed = e7;
        block_is = refl;
        chain_is = refl;
        mempool_is =
            ap (λ t. retain_unconfirmed t mempool)
              (sym (
                built-transactions (length bc.chain) timestamp last_block.hash wallet
                  (normal ++ coinbase ∷ [])));
        format = e8;
        new_ids = e9;
      })

  -- A production that succeeds, from a solvent node whose pool holds no coinbase, leaves it solvent;
  -- the supply rises by exactly the block reward, nothing is burned, and the chain grows by the
  -- returned block alone.
  pub create_block_from_mempool-IsSolvent :
      (clock : Clock) (timestamp : ℕ) (wallet : Wallet) (mempool : Mempool) (state : State)
      (bc : Blockchain) {p : Produced}
      → All IsNormal mempool.transactions
      → IsSolvent state bc.economy
      → create_block_from_mempool clock timestamp wallet mempool state bc ≡ ok p
      → IsSolvent p.state p.blockchain.economy
        × (p.blockchain.economy.total_supply ≡ bc.economy.total_supply + bc.economy.block_reward)
        × (p.state.burned_amount ≡ state.burned_amount)
        × (p.blockchain.chain ≡ bc.chain ++ p.block ∷ [])
  create_block_from_mempool-IsSolvent clock timestamp wallet mempool state bc normal solvent h =
      let steps = create_block-Steps clock timestamp wallet mempool state bc h in
      let taken = (take_valid_transactions-All IsNormal state mempool normal).0 in
      let (kept, supply, burned) =
        execute-IsSolvent wallet.address (length bc.chain) (take_valid_transactions state mempool).1
          state bc.economy taken solvent steps.executed in
      (kept, supply, burned, steps.chain_is)
