-- ===== src/Chain/Blockchain/Validity.antt =====
-- What `is_valid` of src/chain/blockchain.rs establishes of a whole chain, and how a received block
-- extends it.
use aion_blockchain.Prelude.{
  ◌++◌, ◌↔◌, subst, str_eq_iff, sym, Option-cases, ◌+◌, arith, ◌∙◌, All, ◌≡◌, ℕ, [], true, false,
  none, some, ok, refl, inl, inr,
}
use aion_blockchain.Crypto.{Crypto}
use aion_blockchain.Core.Transaction.{Transaction, calculate_id}
use aion_blockchain.Core.Block.{Block, calculate_hash}
use aion_blockchain.Chain.Blockchain.Format.{validate_block_field_sizes}
use aion_blockchain.Chain.Blockchain.WellFormed.{BlockFormat, validate_block_field_sizes_exact}
use aion_blockchain.Chain.Blockchain.Links.{Follows, links-Follows}
use aion_blockchain.Chain.Blockchain.Identifiers.{ids, NewIds, NewIds-append, pushed}
use aion_blockchain.Chain.Blockchain.{
  length, ◌∷◌, Str, List, Option, Blockchain, chain_ids, contains, see_transactions, links,
  is_valid_from, is_valid,
}

-- The last block, or the one before if there is none.
abbrev pub last_or : Option Block → List Block → Option Block
last_or previous [] = previous
last_or previous (block ∷ blocks) = last_or (some block) blocks

module _ ⦃c : Crypto⦄ where
  -- A transaction of the block with the index.
  pub record GoodTransaction (index : ℕ) (tx : Transaction) : Type 0 where
    pub identified : tx.id ≡ calculate_id tx
    pub marked : tx.coinbase ≡ true → tx.reward_marker ≡ index

  -- A block at a position, after the block before it.
  pub record GoodBlock (position : ℕ) (previous : Option Block) (block : Block) : Type 0 where
    pub format : BlockFormat block
    pub indexed : block.index ≡ position
    pub transactions : All (GoodTransaction position) block.transactions
    pub hashed : block.hash ≡ calculate_hash block
    pub linked : Follows previous block

  abbrev pub GoodBlocks : ℕ → Option Block → List Block → Type 0
  GoodBlocks position previous [] = Unit
  GoodBlocks position previous (block ∷ blocks) =
      GoodBlock position previous block × GoodBlocks (position + 1) (some block) blocks

  see_step :
      (index : ℕ) (seen : List Str) (tx : Transaction) (txs : List Transaction)
      → contains seen tx.id ≡ false
      → GoodTransaction index tx
      → see_transactions index seen (tx ∷ txs) ≡ see_transactions index (tx.id ∷ seen) txs
  unfolding see_transactions
  see_step index seen tx txs new good =
      ground (arith, new, good.identified, good.marked, str_eq_iff tx.id (calculate_id tx))

  see_head :
      (index : ℕ) (seen : List Str) (tx : Transaction) (txs : List Transaction) {seen' : List Str}
      → see_transactions index seen (tx ∷ txs) ≡ some seen'
      → (contains seen tx.id ≡ false) × GoodTransaction index tx
  unfolding see_transactions
  see_head index seen tx txs h = (
    ground arith,
    record {
      identified = ground (arith, str_eq_iff tx.id (calculate_id tx));
      marked = λ c. ground arith;
    },
  )

  see_transactions-some :
      (index : ℕ) (seen : List Str) (txs : List Transaction) {seen' : List Str}
      → see_transactions index seen txs ≡ some seen'
      → All (GoodTransaction index) txs × NewIds seen (ids txs) × (seen' ≡ pushed seen (ids txs))
  unfolding see_transactions
  see_transactions-some index seen [] h = (tt, tt, ground arith)
  see_transactions-some index seen (tx ∷ txs) {seen'} h =
      let (new, good) = see_head index seen tx txs h in
      let (goods, news, same) =
        see_transactions-some index (tx.id ∷ seen) txs {seen' = seen'}
          (sym (see_step index seen tx txs new good) ∙ h) in
      ((good, goods), (new, news), same)

  some-see_transactions :
      (index : ℕ) (seen : List Str) (txs : List Transaction)
      → All (GoodTransaction index) txs
      → NewIds seen (ids txs)
      → see_transactions index seen txs ≡ some (pushed seen (ids txs))
  unfolding see_transactions
  some-see_transactions index seen [] goods news = refl
  some-see_transactions index seen (tx ∷ txs) goods news =
      see_step index seen tx txs news.0 goods.0
      ∙ some-see_transactions index (tx.id ∷ seen) txs goods.1 news.1

  valid_head :
      (position : ℕ) (seen : List Str) (previous : Option Block) (block : Block)
      (blocks : List Block)
      → is_valid_from position seen previous (block ∷ blocks) ≡ true
      → (seen' : List Str) × (validate_block_field_sizes block ≡ ok tt)
        × (block.index ≡ position)
        × (see_transactions block.index seen block.transactions ≡ some seen')
        × (block.hash ≡ calculate_hash block)
        × (links previous block ≡ true)
        × (is_valid_from (position + 1) seen' (some block) blocks ≡ true)
  unfolding is_valid_from
  valid_head position seen previous block blocks h =
      elim (Option-cases (see_transactions block.index seen block.transactions)) [
        | inl e ↦ absurd (ground arith)
        | inr (seen', e) ↦ (
          seen',
          ground arith,
          ground arith,
          e,
          ground (arith, str_eq_iff block.hash (calculate_hash block)),
          ground arith,
          ground arith,
        )
      ]

  valid_step :
      (position : ℕ) (seen seen' : List Str) (previous : Option Block) (block : Block)
      (blocks : List Block)
      → validate_block_field_sizes block ≡ ok tt
      → block.index ≡ position
      → see_transactions block.index seen block.transactions ≡ some seen'
      → block.hash ≡ calculate_hash block
      → links previous block ≡ true
      → is_valid_from position seen previous (block ∷ blocks)
        ≡ is_valid_from (position + 1) seen' (some block) blocks
  unfolding is_valid_from
  valid_step position seen seen' previous block blocks e1 e2 e3 e4 e5 =
      ground (arith, str_eq_iff block.hash (calculate_hash block))

  is_valid_from-Good :
      (position : ℕ) (seen : List Str) (previous : Option Block) (blocks : List Block)
      → is_valid_from position seen previous blocks ≡ true
      → GoodBlocks position previous blocks × NewIds seen (chain_ids blocks)
  unfolding is_valid_from chain_ids
  is_valid_from-Good position seen previous [] h = (tt, tt)
  is_valid_from-Good position seen previous (block ∷ blocks) h =
      let (seen', format, indexed, seen_all, hashed, linked, rest) =
        valid_head position seen previous block blocks h in
      let (goods, news, same) =
        see_transactions-some block.index seen block.transactions {seen' = seen'} seen_all in
      let (good_rest, new_rest) =
        is_valid_from-Good (position + 1) seen' (some block) blocks rest in
      (
        (
          record {
            format = (validate_block_field_sizes_exact block).0 format;
            indexed = indexed;
            transactions = subst (λ i. All (GoodTransaction i) block.transactions) indexed goods;
            hashed = hashed;
            linked = (links-Follows previous block).0 linked;
          },
          good_rest,
        ),
        (NewIds-append seen (ids block.transactions) (chain_ids blocks)).1
            (news, subst (λ s. NewIds s (chain_ids blocks)) same new_rest),
      )

  Good-is_valid_from :
      (position : ℕ) (seen : List Str) (previous : Option Block) (blocks : List Block)
      → GoodBlocks position previous blocks
      → NewIds seen (chain_ids blocks)
      → is_valid_from position seen previous blocks ≡ true
  unfolding is_valid_from chain_ids
  Good-is_valid_from position seen previous [] g n = refl
  Good-is_valid_from position seen previous (block ∷ blocks) g n =
      let news = (NewIds-append seen (ids block.transactions) (chain_ids blocks)).0 n in
      let goods =
        subst (λ i. All (GoodTransaction i) block.transactions) (sym g.0.indexed)
          g.0.transactions in
      valid_step position seen (pushed seen (ids block.transactions)) previous block blocks
        ((validate_block_field_sizes_exact block).1 g.0.format) g.0.indexed
        (some-see_transactions block.index seen block.transactions goods news.0) g.0.hashed
        ((links-Follows previous block).1 g.0.linked)
      ∙ Good-is_valid_from (position + 1) (pushed seen (ids block.transactions)) (some block) blocks
          g.1 news.1

  -- A chain whose blocks are each in order at their position and whose identifiers are distinct.
  pub record GoodChain (blocks : List Block) : Type 0 where
    pub blocks_good : GoodBlocks 0 none blocks
    pub distinct : NewIds [] (chain_ids blocks)

  -- `is_valid` holds exactly of the chains in which every block has the right format, index, hash,
  -- transaction identifiers and reward marker; the first names no predecessor, and every other is
  -- later than the block before it, names its hash and carries its validator's signature; and no two
  -- transactions of the whole chain share an identifier.
  pub is_valid_exact : (bc : Blockchain) → (is_valid bc ≡ true) ↔ GoodChain bc.chain
  unfolding is_valid
  is_valid_exact bc = (
    λ h.
        let (blocks, ids) = is_valid_from-Good 0 [] none bc.chain h in
        record { blocks_good = blocks; distinct = ids },
    λ g. Good-is_valid_from 0 [] none bc.chain g.blocks_good g.distinct,
  )

  pub GoodBlocks-snoc :
      (position : ℕ) (previous : Option Block) (blocks : List Block) (block : Block)
      → GoodBlocks position previous blocks
      → GoodBlock (position + length blocks) (last_or previous blocks) block
      → GoodBlocks position previous (blocks ++ block ∷ [])
  GoodBlocks-snoc position previous [] block g b =
      (subst (λ n. GoodBlock n previous block) (omega arith) b, tt)
  GoodBlocks-snoc position previous (x ∷ blocks) block g b = (
    g.0,
    GoodBlocks-snoc (position + 1) (some x) blocks block g.1
        (subst (λ n. GoodBlock n (last_or (some x) blocks) block) (omega arith) b),
  )
