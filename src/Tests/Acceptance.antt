-- ===== src/Tests/Acceptance.antt =====
-- Blocks at concrete inputs: production and acceptance in the small network.
use aion_blockchain.Prelude.{true, [], List, arith, refl, ok, ◌≡◌, ◌+◌, ◌++◌, ◌∷◌, ◌↔◌, All}
use aion_blockchain.Core.Transaction.{Transaction}
use aion_blockchain.Crypto.Toy.{toy}
use aion_blockchain.State.Conservation.{IsNormal}
use aion_blockchain.Chain.Blockchain.{
  add_received_block, is_valid, is_sealed, Blockchain, chain_ids,
}
use aion_blockchain.Chain.Blockchain.Format.{validate_block_field_sizes}
use aion_blockchain.Chain.Blockchain.WellFormed.{BlockFormat, validate_block_field_sizes_exact}
use aion_blockchain.Chain.Blockchain.Production.{IsSolvent, create_block_from_mempool-IsSolvent}
use aion_blockchain.Chain.Blockchain.Acceptance.{
  Fits, add_received_block_exact, create_block_from_mempool-add_received_block,
}
use aion_blockchain.Chain.Blockchain.Validity.{GoodChain, GoodTransaction, is_valid_exact}
use aion_blockchain.Chain.Blockchain.Identifiers.{NewIds}
use aion_blockchain.Node.Validation.Solvency.{validate_and_apply_block-IsSolvent}
use aion_blockchain.Node.Validation.Authority.{
  IsAuthorized, validate_and_apply_block-IsAuthorized, validate_and_apply_block-is_valid,
}
use aion_blockchain.Node.Validation.Walk.{IsReward}
use aion_blockchain.Tests.Scenario.{
  run, chain, ledger, economy, clock, alice, pool, produced, produces, accepts, chain_is_valid,
  validators,
}

solvent : IsSolvent ledger economy
unfolding run
solvent = record { balanced = refl; capped = omega arith }

normal_pool : All IsNormal pool.transactions
unfolding run
normal_pool = (refl, tt)

validate_and_apply_block-IsSolvent_example :
    IsSolvent produced.state produced.blockchain.economy
    × (produced.blockchain.economy.total_supply ≡ economy.total_supply + economy.block_reward)
    × (produced.state.burned_amount ≡ ledger.burned_amount)
    × (produced.blockchain.chain ≡ chain.chain ++ produced.block ∷ [])
validate_and_apply_block-IsSolvent_example =
    validate_and_apply_block-IsSolvent clock validators produced.block chain ledger solvent accepts

validate_and_apply_block-is_valid_example : is_valid produced.blockchain ≡ true
validate_and_apply_block-is_valid_example =
    validate_and_apply_block-is_valid clock validators produced.block chain ledger chain_is_valid
      accepts

validate_and_apply_block-IsAuthorized_example :
    IsAuthorized validators produced.block
    × ((normal : List Transaction) × (coinbase : Transaction) × (produced.block.transactions
          ≡ normal ++ coinbase ∷ [])
        × All IsNormal normal
        × IsReward produced.block economy coinbase)
validate_and_apply_block-IsAuthorized_example =
    validate_and_apply_block-IsAuthorized clock validators produced.block chain ledger accepts

create_block_from_mempool-IsSolvent_example :
    IsSolvent produced.state produced.blockchain.economy
    × (produced.blockchain.economy.total_supply ≡ economy.total_supply + economy.block_reward)
    × (produced.state.burned_amount ≡ ledger.burned_amount)
    × (produced.blockchain.chain ≡ chain.chain ++ produced.block ∷ [])
create_block_from_mempool-IsSolvent_example =
    create_block_from_mempool-IsSolvent clock 1_500 alice pool ledger chain normal_pool solvent
      produces

create_block_from_mempool-add_received_block_example :
    add_received_block clock produced.block chain
    ≡ ok (record chain { chain = produced.blockchain.chain })
create_block_from_mempool-add_received_block_example =
    create_block_from_mempool-add_received_block clock 1_500 alice pool ledger chain produces

is_valid_example : (is_valid produced.blockchain ≡ true) ↔ GoodChain produced.blockchain.chain
is_valid_example = is_valid_exact produced.blockchain

add_received_block_example : (add_received_block clock produced.block chain ≡ ok chain) ↔ (
    Fits clock produced.block chain
    × (chain ≡ record chain { chain = chain.chain ++ produced.block ∷ [] }))
add_received_block_example = add_received_block_exact clock produced.block chain chain

good_transactions : All (GoodTransaction produced.block.index) produced.block.transactions
unfolding run
good_transactions = (
  record { identified = refl; marked = λ h. ground arith },
  (record { identified = refl; marked = λ h. refl }, tt),
)

sealed : is_sealed produced.block ≡ true
unfolding run
sealed = refl

abbrev extended : Blockchain
extended = record chain { chain = chain.chain ++ produced.block ∷ [] }

received : add_received_block clock produced.block chain ≡ ok extended
unfolding run
received = refl

distinct_ids : NewIds [] (chain_ids chain.chain)
unfolding run
distinct_ids = tt

validate_block_field_sizes_example :
    (validate_block_field_sizes produced.block ≡ ok tt) ↔ BlockFormat produced.block
validate_block_field_sizes_example = validate_block_field_sizes_exact produced.block
