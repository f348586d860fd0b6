-- ===== src/Node/Validation/Authority.antt =====
-- Who made a block that `validate_and_apply_block` of src/node/mod.rs accepts, and why the chain with it
-- is valid.
use aion_blockchain.Prelude.{
  str_eq_iff, ◌∷◌, ok_or-eq-ok, ◌++◌, ◌∙◌, sym, subst, arith, All, ◌≡◌, [], true, some, ok,
  bind-eq-ok,
}
use aion_blockchain.Crypto.{Crypto}
use aion_blockchain.Core.Transaction.{Transaction, calculate_id}
use aion_blockchain.Core.Block.{Block}
use aion_blockchain.Economy.{Economy}
use aion_blockchain.State.{State}
use aion_blockchain.State.Conservation.{IsNormal}
use aion_blockchain.Consensus.{
  Consensus, Validator, select_validator_from_hash, is_validator_allowed,
}
use aion_blockchain.Chain.Blockchain.Validity.{GoodTransaction}
use aion_blockchain.Chain.Blockchain.Extension.{add_received_block-is_valid}
use aion_blockchain.Chain.Blockchain.Links.{IsSealed, is_sealed-IsSealed}
use aion_blockchain.Chain.Blockchain.{Blockchain, Clock, is_sealed, is_valid}
use aion_blockchain.Node.Validation.{
  str_eq, not, List, ok_or, fail_if, check_validator, validate_and_apply_block,
}
use aion_blockchain.Node.Validation.Walk.{IsReward}
use aion_blockchain.Node.Validation.Applied.{validated-Steps, walked_lem, ends_with_reward}

module _ ⦃c : Crypto⦄ where
  -- The validator is the one that the previous hash selects and is registered, the key is its, and
  -- the signature on the block's hash is the key's.
  pub record IsAuthorized (consensus : Consensus) (block : Block) : Type 0 where
    pub selected : Validator
    pub is_selected : select_validator_from_hash consensus block.previous_hash ≡ some selected
    pub is_validator : selected.address ≡ block.validator
    pub registered : is_validator_allowed consensus block.validator ≡ true
    pub sealed : IsSealed block

  check_validator-IsAuthorized :
      (consensus : Consensus) (block : Block)
      → check_validator consensus block ≡ ok tt
      → IsAuthorized consensus block
  unfolding check_validator is_sealed
  check_validator-IsAuthorized consensus block h =
      let (v, e1, h) =
        bind-eq-ok
          (ok_or (select_validator_from_hash consensus block.previous_hash)
            "Validator could not be selected")
          _ h in
      let (_, e2, h) =
        bind-eq-ok
          (fail_if (not (str_eq block.validator v.address))
            "Selected validator for this block is different")
          _ h in
      record {
        selected = v;
        is_selected =
            ok_or-eq-ok (select_validator_from_hash consensus block.previous_hash)
              "Validator could not be selected" e1;
        is_validator = ground (arith, e2, str_eq_iff block.validator v.address);
        registered = ground (arith, h);
        sealed = (is_sealed-IsSealed block).0 (ground (arith, h));
      }

  goods :
      (block : Block) (economy : Economy) (normal : List Transaction) (cb : Transaction)
      → All (λ (t : Transaction). t.id ≡ calculate_id t) (normal ++ cb ∷ [])
      → All IsNormal normal
      → IsReward block economy cb
      → All (GoodTransaction block.index) (normal ++ cb ∷ [])
  goods block economy [] cb ids n reward =
      (record { identified = ids.0; marked = λ c. reward.marker }, tt)
  goods block economy (tx ∷ normal) cb ids n reward = (
    record { identified = ids.0; marked = λ c. absurd (ground (arith, c, n.0)) },
    goods block economy normal cb ids.1 n.1 reward,
  )

  -- An accepted block was made by the validator that consensus selects, and it consists of normal
  -- transactions and one coinbase, the last, which pays the block reward to that validator.
  pub validate_and_apply_block-IsAuthorized :
      (clock : Clock) (consensus : Consensus) (block : Block) (bc : Blockchain) (state : State)
      {bc' : Blockchain} {state' : State}
      → validate_and_apply_block clock consensus block bc state ≡ ok (bc', state')
      → IsAuthorized consensus block
        × ((normal : List Transaction) × (coinbase : Transaction) × (block.transactions
              ≡ normal ++ coinbase ∷ [])
            × All IsNormal normal
            × IsReward block bc.economy coinbase)
  validate_and_apply_block-IsAuthorized clock consensus block bc state h =
      let steps = validated-Steps clock consensus block bc state h in
      let (keeps, ids, shape) = walked_lem block bc.economy state steps.end steps.walked in
      let ends = ends_with_reward block bc.economy steps.end shape steps.concluded in
      (
        check_validator-IsAuthorized consensus block steps.validator_checked,
        (ends.normal, ends.coinbase, ends.split, ends.normals, ends.reward),
      )

  is_valid-chain : (a b : Blockchain) → a.chain ≡ b.chain → is_valid a ≡ is_valid b
  unfolding is_valid
  is_valid-chain a b e = rw e

  -- A node that accepts a block on a valid chain has a valid chain: what `add_received_block` does
  -- not check is checked here.
  pub validate_and_apply_block-is_valid :
      (clock : Clock) (consensus : Consensus) (block : Block) (bc : Blockchain) (state : State)
      {bc' : Blockchain} {state' : State}
      → is_valid bc ≡ true
      → validate_and_apply_block clock consensus block bc state ≡ ok (bc', state')
      → is_valid bc' ≡ true
  validate_and_apply_block-is_valid clock consensus block bc state {bc'} valid h =
      let steps = validated-Steps clock consensus block bc state h in
      let (keeps, ids, shape) = walked_lem block bc.economy state steps.end steps.walked in
      let ends = ends_with_reward block bc.economy steps.end shape steps.concluded in
      let good =
        goods block bc.economy ends.normal ends.coinbase
          (subst (All (λ (t : Transaction). t.id ≡ calculate_id t)) ends.split ids) ends.normals
          ends.reward in
      is_valid-chain bc' steps.candidate steps.chain_is
      ∙ add_received_block-is_valid clock block bc valid steps.received
          (subst (All (GoodTransaction block.index)) (sym ends.split) good)
          ((is_sealed-IsSealed block).1
            (check_validator-IsAuthorized consensus block steps.validator_checked).sealed)
