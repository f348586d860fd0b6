-- ===== src/Runtime/Serving.antt =====
-- The two ends of the synchronization in src/runtime.rs agree: what one node serves, the other takes.
use aion_blockchain.Prelude.{
  length-take, ◌==◌, is_empty, ◌↔◌, checked_add, arith, ◌≡◌, ◌≤◌, ◌<◌, ◌+◌, ◌-◌, ◌∷◌, List, [],
  drop, length, min, ok, refl, subst, take, u64_mod, ℕ, zero, suc,
}
use aion_blockchain.Core.Block.{Block}
use aion_blockchain.Chain.Blockchain.{Clock}
use aion_blockchain.Protocol.{max_sync_blocks_per_message}
use aion_blockchain.Node.{Node}
use aion_blockchain.Node.Messages.{chunk_at}
use aion_blockchain.Node.Chunks.{IsIndexed}
use aion_blockchain.Runtime.{chain_chunk_response}
use aion_blockchain.Runtime.Sync.{ChainChunk, check_order, chunk_of, request_chunk, validate_chunk}

length-drop : (n : ℕ) (xs : List Block) → length (drop n xs) ≡ length xs - n
length-drop zero xs = omega arith
length-drop (suc n) [] = omega arith
length-drop (suc n) (x ∷ xs) = omega (arith, length-drop n xs)

IsIndexed-drop :
    (n position : ℕ) (xs : List Block)
    → IsIndexed position xs
    → IsIndexed (position + n) (drop n xs)
IsIndexed-drop zero position xs h = subst (λ i. IsIndexed i xs) (omega arith) h
IsIndexed-drop (suc n) position [] h = tt
IsIndexed-drop (suc n) position (x ∷ xs) h =
    subst (λ i. IsIndexed i (drop n xs)) (omega arith) (IsIndexed-drop n (position + 1) xs h.1)

IsIndexed-take :
    (n position : ℕ) (xs : List Block) → IsIndexed position xs → IsIndexed position (take n xs)
IsIndexed-take zero position xs h = tt
IsIndexed-take (suc n) position [] h = tt
IsIndexed-take (suc n) position (x ∷ xs) h = (h.0, IsIndexed-take n (position + 1) xs h.1)

length-chunk_at :
    (start : ℕ) (chain : List Block)
    → length (chunk_at start chain)
      ≡ min
          (length chain - start)
          (min (start + max_sync_blocks_per_message) (length chain) - start)
unfolding chunk_at
length-chunk_at start chain =
    let end = min (start + max_sync_blocks_per_message) (length chain) in
    omega (arith, length-take (end - start) (drop start chain), length-drop start chain)

IsIndexed-chunk_at :
    (start : ℕ) (chain : List Block) → IsIndexed 0 chain → IsIndexed start (chunk_at start chain)
unfolding chunk_at
IsIndexed-chunk_at start chain h =
    IsIndexed-take (min (start + max_sync_blocks_per_message) (length chain) - start) start
      (drop start chain)
      (subst (λ i. IsIndexed i (drop start chain)) (omega arith) (IsIndexed-drop start 0 chain h))

check_order-IsIndexed :
    (start offset : ℕ) (blocks : List Block)
    → IsIndexed (start + offset) blocks
    → start + offset + length blocks < u64_mod
    → check_order start offset blocks ≡ ok tt
unfolding check_order checked_add
check_order-IsIndexed start offset [] h small = refl
check_order-IsIndexed start offset (block ∷ blocks) h small = ground (
  arith,
  h.0,
  check_order-IsIndexed start (offset + 1) blocks
      (subst (λ i. IsIndexed i blocks) (omega arith) h.1) (omega (arith, small)),
)

pub is_empty-length : (xs : List Block) → is_empty xs ≡ (length xs == 0)
is_empty-length [] = refl
is_empty-length (x ∷ xs) = ground arith

validate_chunk-ok :
    (start total : ℕ) (blocks : List Block)
    → check_order start 0 blocks ≡ ok tt
    → 0 < total
    → total < u64_mod
    → length blocks ≤ max_sync_blocks_per_message
    → start + length blocks ≤ total
    → ((length blocks ≡ 0) ↔ (start ≡ total))
    → validate_chunk (record { start_index = start; total_blocks = total; blocks = blocks }) start
      ≡ ok tt
unfolding validate_chunk checked_add
validate_chunk-ok start total blocks ordered some_block small limit within ends =
    ground (arith, ordered, is_empty-length blocks, ends.0, ends.1)

-- A request from anywhere within a non-empty chain whose blocks carry their positions and whose length
-- is a 64-bit number is answered, the asking node takes the answer as the blocks from there on, and
-- before the end of the chain there is at least one.
pub request_chunk-chain_chunk_response :
    (time : Clock) (start : ℕ) (n : Node)
    → IsIndexed 0 n.blockchain.chain
    → length n.blockchain.chain < u64_mod
    → 0 < length n.blockchain.chain
    → start ≤ length n.blockchain.chain
    → let blocks = chunk_at start n.blockchain.chain in
      let served : ChainChunk = record {
        start_index = start;
        total_blocks = length n.blockchain.chain;
        blocks = blocks;
      } in
      (request_chunk (record { time = time; message = chain_chunk_response start n }) start
        ≡ ok served)
      × ((length blocks ≡ 0) ↔ (start ≡ length n.blockchain.chain))
unfolding request_chunk chain_chunk_response chunk_of
request_chunk-chain_chunk_response time start n indexed small some_block within =
    let size = length-chunk_at start n.blockchain.chain in
    let blocks = chunk_at start n.blockchain.chain in
    let ordered =
      check_order-IsIndexed start 0 blocks
        (subst (λ i. IsIndexed i blocks) (omega arith)
          (IsIndexed-chunk_at start n.blockchain.chain indexed))
        (omega (arith, size)) in
    let ends : (length blocks ≡ 0) ↔ (start ≡ length n.blockchain.chain) =
      (λ h. omega (arith, h, size), λ h. omega (arith, h, size)) in
    let valid =
      validate_chunk-ok start (length n.blockchain.chain) blocks ordered some_block small
        (omega (arith, size)) (omega (arith, size)) ends in
    (ground (arith, within, valid), ends)
