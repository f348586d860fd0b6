-- ===== src/Runtime/Requests.antt =====
-- How many requests the synchronization of src/runtime.rs sends: every answer that is taken brings at
-- least one block.
use aion_blockchain.Prelude.{
  length-take, false, subst, is_empty, checked_add, arith, bind-eq-ok, ok-injective, Bool-cases,
  Result-cases, inl, inr, ap, ◌≡◌, ◌≤◌, ◌<◌, ◌+◌, ◌-◌, ◌++◌, ◌∷◌, List, [], length, ok, refl, ℕ,
  length-append, ltb, take,
}
use aion_blockchain.Crypto.{Crypto}
use aion_blockchain.Core.Block.{Block}
use aion_blockchain.Chain.Blockchain.{Clock}
use aion_blockchain.Node.{Node}
use aion_blockchain.Node.Messages.{apply_block_to_sync_candidate}
use aion_blockchain.Node.Validation.{validate_and_apply_block}
use aion_blockchain.Node.Validation.Applied.{validate_and_apply_block-chain}
use aion_blockchain.Runtime.Serving.{is_empty-length}
use aion_blockchain.Runtime.Sync.{
  Answer, ChainChunk, apply_blocks, chunk_of, fetch_blocks, request_chunk, validate_chunk,
}

nonempty : (xs : List Block) → is_empty xs ≡ false → 0 < length xs
nonempty [] h = cc
nonempty (x ∷ xs) h = omega arith

validate_chunk-nonempty :
    (chunk : ChainChunk) (start total : ℕ)
    → validate_chunk chunk start ≡ ok tt
    → total ≤ chunk.total_blocks
    → start < total
    → 0 < length chunk.blocks
unfolding validate_chunk checked_add
validate_chunk-nonempty chunk start total h announced before =
    elim (Bool-cases (is_empty chunk.blocks)) [
      | inr some_block ↦ nonempty chunk.blocks some_block
      | inl none_left ↦ absurd (ground (arith, is_empty-length chunk.blocks))
    ]

-- A chunk that is taken before the announced end holds a block.
request_chunk-nonempty :
    (answer : Answer) (start total : ℕ) {chunk : ChainChunk}
    → request_chunk answer start ≡ ok chunk
    → total ≤ chunk.total_blocks
    → start < total
    → 0 < length chunk.blocks
unfolding request_chunk
request_chunk-nonempty answer start total {chunk} h announced before =
    let (message, _, h) = bind-eq-ok answer.message _ h in
    let (received, _, h) = bind-eq-ok (chunk_of message) _ h in
    let (_, valid, h) = bind-eq-ok (validate_chunk received start) _ h in
    validate_chunk-nonempty chunk start total
      (subst (λ (k : ChainChunk). validate_chunk k start ≡ ok tt) (ok-injective h) valid) announced
      before

module _ ⦃c : Crypto⦄ where
  apply_blocks-length :
      (clock : Clock) (blocks : List Block) (n : Node) {m : Node}
      → apply_blocks clock blocks n ≡ ok m
      → length m.blockchain.chain ≡ length n.blockchain.chain + length blocks
  unfolding apply_blocks apply_block_to_sync_candidate
  apply_blocks-length clock [] n h = ground (arith, h)
  apply_blocks-length clock (block ∷ blocks) n {m} h =
      let (extended, e, h) = bind-eq-ok (apply_block_to_sync_candidate clock block n) _ h in
      let ((bc, state), v, e) =
        bind-eq-ok (validate_and_apply_block clock n.consensus block n.blockchain n.state) _ e in
      let chain = validate_and_apply_block-chain clock n.consensus block n.blockchain n.state v in
      omega (
        arith,
        apply_blocks-length clock blocks extended h,
        ap length chain,
        ap (λ (r : Node). length r.blockchain.chain) (ok-injective e),
        length-append {0} n.blockchain.chain (block ∷ []),
      )

  -- The loop has asked for all that is missing after at most as many answers as blocks are missing:
  -- whatever the peer would send after that many answers is not read.
  pub fetch_blocks-bounded :
      (total : ℕ) (answers unread : List Answer) (n : Node)
      → total - length n.blockchain.chain ≤ length answers
      → fetch_blocks total (answers ++ unread) n ≡ fetch_blocks total answers n
  unfolding fetch_blocks
  fetch_blocks-bounded total [] [] n enough = refl
  fetch_blocks-bounded total [] (answer ∷ unread) n enough = ground arith
  fetch_blocks-bounded total (answer ∷ answers) unread n enough =
      let next = length n.blockchain.chain in
      elim (Bool-cases (ltb next total)) [
        | inr done ↦ rw done refl
        | inl more ↦ elim (Result-cases (request_chunk answer next)) [
          | inr (_, e) ↦ rw (more, e) refl
          | inl (chunk, e) ↦ elim (Bool-cases (ltb chunk.total_blocks total)) [
            | inl fewer ↦ rw (more, e, fewer) refl
            | inr announced ↦
                let blocks = take (total - next) chunk.blocks in
                elim (Result-cases (apply_blocks answer.time blocks n)) [
                  | inr (_, a) ↦ rw (more, e, announced, a) refl
                  | inl (extended, a) ↦
                      let grown = apply_blocks-length answer.time blocks n a in
                      let some_block =
                        request_chunk-nonempty answer next total e (ground (arith, announced))
                          (ground (arith, more)) in
                      rw (more, e, announced, a)
                        (fetch_blocks-bounded total answers unread extended (
                          ground (
                            arith,
                            grown,
                            some_block,
                            more,
                            length-take (total - next) chunk.blocks,
                          )))
                ]
          ]
        ]
      ]
