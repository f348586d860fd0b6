-- ===== src/Chain/Blockchain/Acceptance.antt =====
-- What `add_received_block` of src/chain/blockchain.rs demands of a block, and why it accepts the
-- block that `create_block_from_mempool` has made.
use aion_blockchain.Prelude.{
  none, ◌≤◌, checked_add, u64_mod, ◌+◌, ap, str_eq_iff, ok_or-eq-ok, sym, arith, ◌∙◌, ◌<◌, ◌∷◌,
  ◌++◌, ◌↔◌, subst, ◌≡◌, ℕ, [], some, ok, refl, bind-eq-ok,
}
use aion_blockchain.Crypto.{Crypto}
use aion_blockchain.Core.Transaction.{Transaction}
use aion_blockchain.Core.Block
use aion_blockchain.Core.Block.{Block, calculate_hash, preimage}
use aion_blockchain.State.{State}
use aion_blockchain.Wallet.{Wallet}
use aion_blockchain.Chain.Mempool.{Mempool}
use aion_blockchain.Protocol.{max_future_drift_seconds}
use aion_blockchain.Chain.Blockchain.Format.{validate_block_field_sizes}
use aion_blockchain.Chain.Blockchain.WellFormed.{BlockFormat, validate_block_field_sizes_exact}
use aion_blockchain.Chain.Blockchain.Identifiers.{
  ids, NewIds, validate_transaction_id_uniqueness-NewIds,
}
use aion_blockchain.Chain.Blockchain.{
  chain_ids, checked_add, ok_or, length, List, last, Str, Blockchain, Clock, Produced,
  create_block_from_mempool, add_received_block, validate_future_timestamp,
  validate_transaction_id_uniqueness,
}
use aion_blockchain.Chain.Blockchain.Production.{built, create_block-Steps}

-- The clock can be read, and the timestamp is no more than the allowed drift ahead of it.
abbrev pub IsInTime : Clock → ℕ → Type 0
IsInTime clock timestamp =
    (now : ℕ) × (clock ≡ some now)
    × (now + max_future_drift_seconds < u64_mod)
    × (timestamp ≤ now + max_future_drift_seconds)

validate_future_timestamp-IsInTime :
    (clock : Clock) (timestamp : ℕ)
    → (validate_future_timestamp clock timestamp ≡ ok tt) ↔ IsInTime clock timestamp
unfolding validate_future_timestamp checked_add
validate_future_timestamp-IsInTime none timestamp =
    (λ h. absurd (ground arith), λ t. absurd (ground (arith, t)))
validate_future_timestamp-IsInTime (some now) timestamp =
    (λ h. (now, refl, ground arith, ground arith), λ t. ground (arith, t))

module _ ⦃c : Crypto⦄ where
  -- A block fits on a chain: its fields are well formed, no identifier of its transactions is used
  -- before, it follows the last block in hash, time and index, it is not too far in the future, and
  -- its hash is right.
  pub record Fits (clock : Clock) (block : Block) (bc : Blockchain) : Type 0 where
    pub last_block : Block
    pub format : BlockFormat block
    pub new_ids : NewIds (chain_ids bc.chain) (ids block.transactions)
    pub is_last : last bc.chain ≡ some last_block
    pub linked : block.previous_hash ≡ last_block.hash
    pub later : last_block.timestamp < block.timestamp
    pub in_time : IsInTime clock block.timestamp
    pub hashed : block.hash ≡ calculate_hash block
    pub indexed : block.index ≡ length bc.chain

  -- `add_received_block` accepts exactly the blocks that fit, and appends them.
  add_received_block-Fits :
      (clock : Clock) (block : Block) (bc : Blockchain) {after : Blockchain}
      → add_received_block clock block bc ≡ ok after
      → Fits clock block bc × (after ≡ record bc { chain = bc.chain ++ block ∷ [] })
  unfolding add_received_block
  add_received_block-Fits clock block bc {after} h =
      let (_, e1, h) = bind-eq-ok (validate_block_field_sizes block) _ h in
      let (_, e2, h) = bind-eq-ok (validate_transaction_id_uniqueness bc block) _ h in
      let (last_block, e3, h) = bind-eq-ok (ok_or (last bc.chain) "Blockchain is empty") _ h in
      (
        record {
          last_block = last_block;
          format = (validate_block_field_sizes_exact block).0 e1;
          new_ids = (validate_transaction_id_uniqueness-NewIds bc block).0 e2;
          is_last = ok_or-eq-ok (last bc.chain) "Blockchain is empty" e3;
          linked = ground (arith, h, str_eq_iff block.previous_hash last_block.hash);
          later = ground (arith, h);
          in_time =
              (validate_future_timestamp-IsInTime clock block.timestamp).0 (ground (arith, h));
          hashed = ground (arith, h, str_eq_iff block.hash (calculate_hash block));
          indexed = ground (arith, h);
        },
        ground (arith, h),
      )

  Fits-add_received_block :
      (clock : Clock) (block : Block) (bc : Blockchain)
      → Fits clock block bc
      → add_received_block clock block bc ≡ ok (record bc { chain = bc.chain ++ block ∷ [] })
  unfolding add_received_block
  Fits-add_received_block clock block bc f = ground (
    arith,
    (validate_block_field_sizes_exact block).1 f.format,
    (validate_transaction_id_uniqueness-NewIds bc block).1 f.new_ids,
    f.is_last,
    f.linked,
    f.later,
    (validate_future_timestamp-IsInTime clock block.timestamp).1 f.in_time,
    f.hashed,
    f.indexed,
    str_eq_iff block.previous_hash f.last_block.hash,
    str_eq_iff block.hash (calculate_hash block),
  )

  -- `add_received_block` succeeds exactly for a block that fits, and then appends it and leaves the
  -- economy alone.
  pub add_received_block_exact :
      (clock : Clock) (block : Block) (bc after : Blockchain)
      → (add_received_block clock block bc ≡ ok after)
        ↔ (Fits clock block bc × (after ≡ record bc { chain = bc.chain ++ block ∷ [] }))
  add_received_block_exact clock block bc after = (
    add_received_block-Fits clock block bc,
    λ (f, e). Fits-add_received_block clock block bc f ∙ ap ok (sym e),
  )

  -- Neither the hash nor the signature is part of what is hashed.
  built-fields :
      (index timestamp : ℕ) (previous_hash : Str) (wallet : Wallet)
      (transactions : List Transaction)
      → let block = built index timestamp previous_hash wallet transactions in
        (block.index ≡ index)
        × (block.timestamp ≡ timestamp)
        × (block.previous_hash ≡ previous_hash)
        × (block.hash ≡ calculate_hash block)
  unfolding Block.new Block.sign calculate_hash preimage
  built-fields index timestamp previous_hash wallet transactions = (refl, refl, refl, refl)

  -- The block that a production returns is accepted by `add_received_block` on the chain from which
  -- it was made, at the same clock, and leads to the producer's new chain.
  pub create_block_from_mempool-add_received_block :
      (clock : Clock) (timestamp : ℕ) (wallet : Wallet) (mempool : Mempool) (state : State)
      (bc : Blockchain) {p : Produced}
      → create_block_from_mempool clock timestamp wallet mempool state bc ≡ ok p
      → add_received_block clock p.block bc ≡ ok (record bc { chain = p.blockchain.chain })
  create_block_from_mempool-add_received_block clock timestamp wallet mempool state bc {p} h =
      let steps = create_block-Steps clock timestamp wallet mempool state bc h in
      let fields =
        subst
          (λ b.
            (b.index ≡ length bc.chain)
            × (b.timestamp ≡ timestamp)
            × (b.previous_hash ≡ steps.last_block.hash)
            × (b.hash ≡ calculate_hash b))
          (sym steps.block_is)
          (built-fields (length bc.chain) timestamp steps.last_block.hash wallet _) in
      Fits-add_received_block clock p.block bc (record {
        last_block = steps.last_block;
        format = (validate_block_field_sizes_exact p.block).0 steps.format;
        new_ids = (validate_transaction_id_uniqueness-NewIds bc p.block).0 steps.new_ids;
        is_last = steps.is_last;
        linked = fields.2;
        later = ground (arith, steps.later, fields.1);
        in_time =
            (validate_future_timestamp-IsInTime clock p.block.timestamp).0
              (rw fields.1 steps.in_time);
        hashed = fields.3;
        indexed = fields.0;
      })
      ∙ ap (λ chain. ok (record bc { chain = chain })) (sym steps.chain_is)
