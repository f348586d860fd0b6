-- ===== src/Node/Validation/Solvency.antt =====
-- The money that a block accepted by `validate_and_apply_block` of src/node/mod.rs moves.
use aion_blockchain.Prelude.{
  ◌∷◌, ok_or-eq-ok, ◌++◌, subst, arith, ◌+◌, ◌≡◌, [], some, ok, bind-eq-ok,
}
use aion_blockchain.Crypto.{Crypto}
use aion_blockchain.Core.Transaction.{Transaction}
use aion_blockchain.Core.Block.{Block}
use aion_blockchain.Economy
use aion_blockchain.Economy.{Economy}
use aion_blockchain.Economy.Supply.{mint-eq-ok}
use aion_blockchain.State.{State, apply_transaction}
use aion_blockchain.State.Conservation.{apply_transaction-conserves, apply_transaction-frame}
use aion_blockchain.Consensus.{Consensus}
use aion_blockchain.Chain.Blockchain.Settlement.{settle_fees, finish}
use aion_blockchain.Chain.Blockchain.Conservation.{settle_fees-eq-ok}
use aion_blockchain.Chain.Blockchain.Production.{IsSolvent, finish-eq-ok}
use aion_blockchain.Chain.Blockchain.{Blockchain, Clock}
use aion_blockchain.Node.Validation.{ok_or, Progress, conclude, validate_and_apply_block}
use aion_blockchain.Node.Validation.Walk.{IsReward, Keeps}
use aion_blockchain.Node.Validation.Applied.{
  start, validated-Steps, walked_lem, ends_with_reward, validate_and_apply_block-chain,
}

module _ ⦃c : Crypto⦄ where
  conclude-IsSolvent :
      (block : Block) (economy : Economy) (state : State) (p : Progress) (cb : Transaction)
      {state' : State} {economy' : Economy}
      → Keeps (start state) p
      → p.coinbase ≡ some cb
      → IsReward block economy cb
      → IsSolvent state economy
      → conclude block economy p ≡ ok (state', economy')
      → IsSolvent state' economy'
        × (economy'.total_supply ≡ economy.total_supply + economy.block_reward)
        × (state'.burned_amount ≡ state.burned_amount)
  unfolding conclude
  conclude-IsSolvent block economy state p cb {state'} {economy'} keeps found reward solvent h =
      let (coinbase, e1, h) =
        bind-eq-ok (ok_or p.coinbase "Coinbase transaction was not found") _ h in
      let ((settled, collected), e2, h) =
        bind-eq-ok (settle_fees block.validator p.totals p.state economy) _ h in
      let (minted, e3, h) = bind-eq-ok (Economy.mint coinbase.amount collected) _ h in
      let (final, e4, h) = bind-eq-ok (finish (apply_transaction coinbase settled)) _ h in
      let read = ok_or-eq-ok p.coinbase "Coinbase transaction was not found" e1 in
      let same : cb ≡ coinbase = cc (found, read) in
      let pays : IsReward block economy coinbase = subst (IsReward block economy) same reward in
      let settlement =
        settle_fees-eq-ok block.validator p.totals p.state economy keeps.burned_share e2 in
      let supply = mint-eq-ok coinbase.amount collected e3 in
      let (done, after) = finish-eq-ok (apply_transaction coinbase settled) e4 in
      let issued = apply_transaction-conserves coinbase settled done in
      let frame = apply_transaction-frame coinbase settled in
      (
        record {
          balanced = ground (
            arith, solvent.balanced, keeps.sum, keeps.treasury, pays.coinbase, pays.amount,
            settlement, supply, issued, frame, after, h,
          );
          capped = ground (arith, solvent.capped.machine, settlement.1, supply, h);
        },
        ground (arith, settlement.1, supply, pays.amount, h),
        ground (arith, keeps.burned_amount, settlement.2, frame, after, h),
      )

  -- A block that is accepted from a solvent state leaves it solvent: what it moved between accounts,
  -- treasury and reserve sums up, only the block reward is new, and nothing is burned. The chain
  -- grows by the block alone.
  pub validate_and_apply_block-IsSolvent :
      (clock : Clock) (consensus : Consensus) (block : Block) (bc : Blockchain) (state : State)
      {bc' : Blockchain} {state' : State}
      → IsSolvent state bc.economy
      → validate_and_apply_block clock consensus block bc state ≡ ok (bc', state')
      → IsSolvent state' bc'.economy
        × (bc'.economy.total_supply ≡ bc.economy.total_supply + bc.economy.block_reward)
        × (state'.burned_amount ≡ state.burned_amount)
        × (bc'.chain ≡ bc.chain ++ block ∷ [])
  validate_and_apply_block-IsSolvent clock consensus block bc state {bc'} {state'} solvent h =
      let steps = validated-Steps clock consensus block bc state h in
      let (keeps, ids, shape) = walked_lem block bc.economy state steps.end steps.walked in
      let ends = ends_with_reward block bc.economy steps.end shape steps.concluded in
      let (kept, supply, burned) =
        conclude-IsSolvent block bc.economy state steps.end ends.coinbase keeps ends.found
          ends.reward solvent steps.concluded in
      (kept, supply, burned, validate_and_apply_block-chain clock consensus block bc state h)
