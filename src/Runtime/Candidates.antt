-- ===== src/Runtime/Candidates.antt =====
-- The copies of a node on which src/runtime.rs builds another chain: what they keep, and how many
-- answers of the peer it takes.
use aion_blockchain.Prelude.{
  length-take, length-append, take, fail_if, max, ltb, arith, bind-eq-ok, ok-injective, Bool-cases,
  inl, inr, subst, sym, ap, append_assoc, append-nil, ◌∙◌, ◌≡◌, ◌≤◌, ◌-◌, ◌++◌, ◌∷◌, List, [],
  length, ok, true, ℕ,
}
use aion_blockchain.Crypto.{Crypto}
use aion_blockchain.Core.Block.{Block}
use aion_blockchain.Chain.Blockchain.{Clock, is_valid}
use aion_blockchain.Chain.Blockchain.Production.{IsSolvent}
use aion_blockchain.Node.Validation.Authority.{validate_and_apply_block-is_valid}
use aion_blockchain.Node.{Node}
use aion_blockchain.Node.Messages.{apply_block_to_sync_candidate}
use aion_blockchain.Node.Validation.{validate_and_apply_block}
use aion_blockchain.Node.Validation.Solvency.{validate_and_apply_block-IsSolvent}
use aion_blockchain.Runtime.Sync.{Answer, apply_blocks, fetch_blocks, request_chunk}

module _ ⦃c : Crypto⦄ where
  -- A node whose money sums up and whose chain is valid.
  pub record IsCandidate (n : Node) : Type 0 where
    pub solvent : IsSolvent n.state n.blockchain.economy
    pub valid : is_valid n.blockchain ≡ true

  -- A candidate that has grown from another.
  pub record Grown (n : Node) (added : List Block) (m : Node) : Type 0 where
    pub candidate : IsCandidate m
    pub chain : m.blockchain.chain ≡ n.blockchain.chain ++ added

  apply_block-Grown :
      (clock : Clock) (block : Block) (n : Node) {m : Node}
      → IsCandidate n
      → apply_block_to_sync_candidate clock block n ≡ ok m
      → Grown n (block ∷ []) m
  unfolding apply_block_to_sync_candidate
  apply_block-Grown clock block n {m} k h =
      let ((bc, state), e, h) =
        bind-eq-ok (validate_and_apply_block clock n.consensus block n.blockchain n.state) _ h in
      let (solvent, _, _, chain) =
        validate_and_apply_block-IsSolvent clock n.consensus block n.blockchain n.state k.solvent
          e in
      subst (λ (r : Node). Grown n (block ∷ []) r) (ok-injective h)
        (record {
          candidate = record {
            solvent = solvent;
            valid =
                validate_and_apply_block-is_valid clock n.consensus block n.blockchain n.state
                  k.valid e;
          };
          chain = chain;
        })

  unchanged-Grown : (n : Node) → IsCandidate n → Grown n [] n
  unchanged-Grown n k = record { candidate = k; chain = sym (append-nil n.blockchain.chain) }

  and-Grown :
      {n m r : Node} (xs ys : List Block) → Grown n xs m → Grown m ys r → Grown n (xs ++ ys) r
  and-Grown {n} xs ys a b = record {
    candidate = b.candidate;
    chain = b.chain ∙ ap (λ l. l ++ ys) a.chain ∙ append_assoc n.blockchain.chain xs ys;
  }

  -- Applying blocks that are all accepted adds exactly those blocks.
  pub apply_blocks-Grown :
      (clock : Clock) (blocks : List Block) (n : Node) {m : Node}
      → IsCandidate n
      → apply_blocks clock blocks n ≡ ok m
      → Grown n blocks m
  unfolding apply_blocks
  apply_blocks-Grown clock [] n k h =
      subst (λ (r : Node). Grown n [] r) (ok-injective h) (unchanged-Grown n k)
  apply_blocks-Grown clock (block ∷ blocks) n k h =
      let (extended, e, h) = bind-eq-ok (apply_block_to_sync_candidate clock block n) _ h in
      let first = apply_block-Grown clock block n k e in
      and-Grown (block ∷ []) blocks first
        (apply_blocks-Grown clock blocks extended first.candidate h)

  -- The chain that the loop has fetched: it extends the candidate's, reaches the total, and is no
  -- longer than the total unless it already was.
  pub record Fetched (total : ℕ) (n m : Node) : Type 0 where
    pub added : List Block
    pub grown : Grown n added m
    pub complete : length m.blockchain.chain ≡ max total (length n.blockchain.chain)

  Fetched-nothing :
      (total : ℕ) (n : Node) → IsCandidate n → total ≤ length n.blockchain.chain → Fetched total n n
  Fetched-nothing total n k enough = record {
    added = [];
    grown = unchanged-Grown n k;
    complete = omega (arith, enough);
  }

  pub fetch_blocks-Fetched :
      (total : ℕ) (answers : List Answer) (n : Node) {m : Node}
      → IsCandidate n
      → fetch_blocks total answers n ≡ ok m
      → Fetched total n m
  unfolding fetch_blocks
  fetch_blocks-Fetched total [] n {m} k h =
      subst (Fetched total n) {x = n} (ground (arith, h))
        (Fetched-nothing total n k (ground (arith, h)))
  fetch_blocks-Fetched total (answer ∷ answers) n {m} k h =
      elim (Bool-cases (ltb (length n.blockchain.chain) total)) [
        | inr enough ↦
            subst (Fetched total n) {x = n} (ok-injective (rw enough at h))
              (Fetched-nothing total n k (ground (arith, enough)))
        | inl more ↦
            let next = length n.blockchain.chain in
            let (chunk, e1, h) = bind-eq-ok (request_chunk answer next) _ {b = m} (rw more at h) in
            let (_, e2, h) =
              bind-eq-ok
                (fail_if (ltb chunk.total_blocks total)
                  "Remote total block count decreased during chain synchronization")
                _ h in
            let blocks = take (total - next) chunk.blocks in
            let (extended, e3, h) = bind-eq-ok (apply_blocks answer.time blocks n) _ h in
            let step = apply_blocks-Grown answer.time blocks n k e3 in
            let rest = fetch_blocks-Fetched total answers extended step.candidate h in
            record {
              added = blocks ++ rest.added;
              grown = and-Grown blocks rest.added step rest.grown;
              complete = ground (
                arith,
                rest.complete,
                ap length step.chain,
                length-append {0} n.blockchain.chain blocks,
                length-take (total - next) chunk.blocks,
                more,
              );
            }
      ]
