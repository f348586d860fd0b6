-- ===== src/Chain/Blockchain/Extension.antt =====
-- Growing a valid chain by a received block (src/chain/blockchain.rs): what `add_received_block` does
-- not check itself are the transactions' identifiers and the validator's seal.
use aion_blockchain.Prelude.{
  append_assoc, sym, ◌∙◌, ap, subst, append-nil, ◌∷◌, ◌+◌, All, ◌++◌, arith, ◌≡◌, [], true, none,
  some, ok,
}
use aion_blockchain.Crypto.{Crypto}
use aion_blockchain.Core.Block.{Block}
use aion_blockchain.Chain.Blockchain.Links.{is_sealed-IsSealed}
use aion_blockchain.Chain.Blockchain.Identifiers.{ids, NewIds, NewIds-together}
use aion_blockchain.Chain.Blockchain.Acceptance.{add_received_block_exact}
use aion_blockchain.Chain.Blockchain.Validity.{
  GoodTransaction, GoodBlock, is_valid_exact, last_or, GoodBlocks-snoc,
}
use aion_blockchain.Chain.Blockchain.{
  length, ◌∷◌, last, Option, List, Blockchain, Clock, chain_ids, is_sealed, is_valid,
  add_received_block,
}

last-last_or :
    (previous : Option Block) (blocks : List Block) {b : Block}
    → last blocks ≡ some b
    → last_or previous blocks ≡ some b
last-last_or previous [] h = absurd (ground arith)
last-last_or previous (x ∷ []) h = h
last-last_or previous (x ∷ y ∷ blocks) h = last-last_or (some x) (y ∷ blocks) h

chain_ids-snoc :
    (blocks : List Block) (block : Block)
    → chain_ids (blocks ++ block ∷ []) ≡ chain_ids blocks ++ ids block.transactions
unfolding chain_ids
chain_ids-snoc [] block = append-nil (ids block.transactions)
chain_ids-snoc (x ∷ blocks) block =
    ap (λ r. ids x.transactions ++ r) (chain_ids-snoc blocks block)
    ∙ sym (append_assoc (ids x.transactions) (chain_ids blocks) (ids block.transactions))

module _ ⦃c : Crypto⦄ where
  -- A valid chain that accepts a block stays valid if the block is sealed by its validator and its
  -- transactions carry their own identifiers and the block's index as reward marker.
  pub add_received_block-is_valid :
      (clock : Clock) (block : Block) (bc : Blockchain) {after : Blockchain}
      → is_valid bc ≡ true
      → add_received_block clock block bc ≡ ok after
      → All (GoodTransaction block.index) block.transactions
      → is_sealed block ≡ true
      → is_valid after ≡ true
  add_received_block-is_valid clock block bc {after} valid h goods seal =
      let g = (is_valid_exact bc).0 valid in
      let (f, same) = (add_received_block_exact clock block bc after).0 h in
      let previous = last-last_or none bc.chain f.is_last in
      let new : GoodBlock (0 + length bc.chain) (last_or none bc.chain) block = record {
        format = f.format;
        indexed = omega (arith, f.indexed);
        transactions =
            subst (λ i. All (GoodTransaction i) block.transactions) (omega (arith, f.indexed))
              goods;
        hashed = f.hashed;
        linked = rw previous (f.later, f.linked, (is_sealed-IsSealed block).0 seal);
      } in
      let distinct : NewIds [] (chain_ids (bc.chain ++ block ∷ [])) =
        rw (chain_ids-snoc bc.chain block) (
          (NewIds-together (chain_ids bc.chain) (ids block.transactions) g.distinct).0 f.new_ids) in
      rw same (
        (is_valid_exact (record bc { chain = bc.chain ++ block ∷ [] })).1 (record {
          blocks_good = GoodBlocks-snoc 0 none bc.chain block g.blocks_good new;
          distinct = distinct;
        }))
