-- ===== src/Runtime/Adopting.antt =====
-- What a synchronization of src/runtime.rs leaves of the node, whatever the peer answers and whatever
-- other tasks have done to the node in between.
use aion_blockchain.Prelude.{
  sym, ltb, ◌||◌, str_eq, last, checked_sub, first, not, ok_or, fail_if, arith, bind-eq-ok,
  ok-injective, Bool-cases, inl, inr, subst, ◌≡◌, ◌==◌, ◌+◌, List, length, ok, true, ℕ, Str, drop,
}
use aion_blockchain.Crypto.{Crypto, IsLawful}
use aion_blockchain.Core.Block.{calculate_hash, Block}
use aion_blockchain.Chain.Blockchain.{Clock, is_valid}
use aion_blockchain.Node.{Disk, Node}
use aion_blockchain.Node
use aion_blockchain.Chain.Blockchain.Production.{IsSolvent}
use aion_blockchain.Bootstrap.{CanonicalBootstrap, canonical_bootstrap}
use aion_blockchain.Bootstrap.Nodes.{canonical-IsStart, canonical-IsSolvent}
use aion_blockchain.Node.Messages.{
  adopt_validated_sync_candidate, sync_candidate_snapshot, verify_equal_chain,
}
use aion_blockchain.Node.Soundness.{IsSound, Keeps, unchanged}
use aion_blockchain.Node.Adoption.{synchronize_chain_lem}
use aion_blockchain.Node.Answering.{adopt-Keeps, adopt_lem}
use aion_blockchain.Runtime.Candidates.{IsCandidate, apply_blocks-Grown, fetch_blocks-Fetched}
use aion_blockchain.Runtime.Sync.{
  Answer, ChainChunk, apply_blocks, commit, compare_equal, extend_from_common_tip, fetch_blocks,
  follow_longer, next_chunk, read_anchor, read_chain, replace_from_full_chain_stream,
  sync_from_peer,
}

module _ ⦃c : Crypto⦄ where
  canonical_lem :
      (laws : IsLawful c) {b : CanonicalBootstrap}
      → canonical_bootstrap ≡ ok b
      → IsSolvent b.state b.blockchain.economy × (is_valid b.blockchain ≡ true)
  canonical_lem laws built =
      let start = canonical-IsStart laws built in (canonical-IsSolvent laws built, start.valid)

  -- What is kept of a node, the validity of its chain included.
  pub record Advances (n n' : Node) : Type 0 where
    pub keeps : Keeps n n'
    pub valid : is_valid n'.blockchain ≡ true

  -- A node that other tasks and the synchronization rely on.
  pub record IsRunning (n : Node) : Type 0 where
    pub sound : IsSound n
    pub valid : is_valid n.blockchain ≡ true

  stays : (n : Node) → IsRunning n → Advances n n
  stays n r = record { keeps = unchanged n r.sound; valid = r.valid }

  adopt-is_valid :
      (disk : Disk) (candidate n : Node) {n' : Node}
      → IsCandidate candidate
      → IsRunning n
      → adopt_validated_sync_candidate disk candidate.blockchain candidate.state n ≡ ok n'
      → is_valid n'.blockchain ≡ true
  adopt-is_valid disk candidate n k r h =
      elim (adopt_lem disk candidate.blockchain candidate.state n h) [
        | inl same ↦ subst (λ (m : Node). is_valid m.blockchain ≡ true) same r.valid
        | inr (taken, _) ↦ subst (λ (m : Node). is_valid m.blockchain ≡ true) taken k.valid
      ]

  commit-Advances :
      (disk : Disk) (height : ℕ) (candidate n : Node) {n' : Node}
      → IsCandidate candidate
      → IsRunning n
      → commit disk height candidate n ≡ ok n'
      → Advances n n'
  unfolding commit
  commit-Advances disk height candidate n k r h =
      let (_, _, h) =
        bind-eq-ok
          (fail_if (not (length n.blockchain.chain == height))
            "Local tip changed during chain synchronization")
          _ h in
      record {
        keeps = adopt-Keeps disk candidate.blockchain candidate.state n k.solvent r.sound h;
        valid = adopt-is_valid disk candidate n k r h;
      }

  extend-Advances :
      (clock : Clock) (disk : Disk) (status : ChainChunk) (height : ℕ) (suffix : List Block)
      (answers : List Answer) (copied n : Node) {n' : Node}
      → IsRunning copied
      → IsRunning n
      → extend_from_common_tip clock disk status height suffix answers copied n ≡ ok n'
      → Advances n n'
  unfolding extend_from_common_tip sync_candidate_snapshot Node.new
  extend-Advances clock disk status height suffix answers copied n rc r h =
      let copy = Node.new copied.blockchain copied.state copied.consensus in
      let (candidate, e1, h) = bind-eq-ok (apply_blocks clock suffix copy) _ h in
      let (_, _, h) =
        bind-eq-ok
          (fail_if (ltb (length candidate.blockchain.chain) height)
            "Candidate blockchain fell behind the local tip")
          _ h in
      let (complete, e2, h) = bind-eq-ok (fetch_blocks status.total_blocks answers candidate) _ h in
      let start : IsCandidate copy = record { solvent = rc.sound.solvent; valid = rc.valid } in
      let grown = apply_blocks-Grown clock suffix copy start e1 in
      let fetched = fetch_blocks-Fetched status.total_blocks answers candidate grown.candidate e2 in
      commit-Advances disk (length copied.blockchain.chain) complete n fetched.grown.candidate r h

  replace-Advances :
      (laws : IsLawful c) (clock : Clock) (disk : Disk) (status : ChainChunk)
      (answers : List Answer) (measured n : Node) {n' : Node}
      → IsRunning n
      → replace_from_full_chain_stream clock disk status answers measured n ≡ ok n'
      → Advances n n'
  unfolding replace_from_full_chain_stream Node.new
  replace-Advances laws clock disk status answers measured n r h =
      let (bootstrap, built, h) = bind-eq-ok canonical_bootstrap _ h in
      let start = Node.new bootstrap.blockchain bootstrap.state bootstrap.consensus in
      let (own, _, h) =
        bind-eq-ok
          (ok_or (first start.blockchain.chain) "Canonical candidate genesis was not found") _ h in
      let (remote, _, h) =
        bind-eq-ok (ok_or (first status.blocks) "Remote full-chain chunk does not contain genesis")
          _ h in
      let (_, _, h) =
        bind-eq-ok
          (fail_if
            (not (str_eq remote.hash own.hash) || not (str_eq remote.hash (calculate_hash remote)))
            "Remote full-chain genesis is invalid")
          _ h in
      let (started, e1, h) = bind-eq-ok (apply_blocks clock (drop 1 status.blocks) start) _ h in
      let (complete, e2, h) = bind-eq-ok (fetch_blocks status.total_blocks answers started) _ h in
      let (solvent, valid) = canonical_lem laws built in
      let first : IsCandidate start = record { solvent = solvent; valid = valid } in
      let grown = apply_blocks-Grown clock (drop 1 status.blocks) start first e1 in
      let fetched = fetch_blocks-Fetched status.total_blocks answers started grown.candidate e2 in
      commit-Advances disk (length measured.blockchain.chain) complete n fetched.grown.candidate r h

  compare-Advances :
      (clock : Clock) (disk : Disk) (status : ChainChunk) (tip : Str) (answers : List Answer)
      (n : Node) {n' : Node}
      → IsRunning n
      → compare_equal clock disk status tip answers n ≡ ok n'
      → Advances n n'
  unfolding compare_equal verify_equal_chain
  compare-Advances clock disk status tip answers n r h =
      let (remote, _, h) = bind-eq-ok (read_chain status.total_blocks status.blocks answers) _ h in
      let (last_block, _, h) = bind-eq-ok (ok_or (last remote) "Remote blockchain is empty") _ h in
      let (_, _, h) =
        bind-eq-ok
          (fail_if (not (str_eq last_block.hash tip))
            "Different remote fork with equal length was rejected")
          _ h in
      let (_, same, h) =
        bind-eq-ok
          (fail_if (not (length remote == length n.blockchain.chain))
            "Remote chain to validate is not the same length as the local chain")
          _ h in
      elim (synchronize_chain_lem clock disk remote n h) [
        | inl e ↦ subst (Advances n) (sym e) (stays n r)
        | inr a ↦ absurd (ground (arith, same, a.longer))
      ]

  follow-Advances :
      (laws : IsLawful c) (clock : Clock) (disk : Disk) (status : ChainChunk) (height : ℕ)
      (tip : Str) (answers : List Answer) (middle n : Node) {n' : Node}
      → IsRunning middle
      → IsRunning n
      → follow_longer clock disk status height tip answers middle n ≡ ok n'
      → Advances n n'
  unfolding follow_longer
  follow-Advances laws clock disk status height tip answers middle n {n'} rm r h =
      let (index, _, h) =
        bind-eq-ok (ok_or (checked_sub height 1) "Local blockchain is empty") _ h in
      let (((start, blocks), rest), _, h) = bind-eq-ok (read_anchor index status answers) _ h in
      let (offset, _, h) =
        bind-eq-ok (ok_or (checked_sub index start) "Remote anchor index moved backwards") _ h in
      let (anchor, _, h) =
        bind-eq-ok
          (ok_or (first (drop offset blocks))
            "Remote chain does not contain the local tip anchor block")
          _ h in
      elim (Bool-cases (str_eq anchor.hash tip)) [
        | inl e ↦
            extend-Advances clock disk status height (drop (offset + 1) blocks) rest middle n rm r
              (rw e at h)
        | inr e ↦ replace-Advances laws clock disk status rest middle n r (rw e at h)
      ]

  -- With crates that behave as documented: whatever a peer answers, and whatever other tasks have made
  -- of the node between the first look at it, the copy and the adoption, a synchronization that
  -- succeeds leaves the node's money balanced, its pool and registry valid, its chain valid and no
  -- shorter than it was, if the node was sound and its chain valid at the copy and at the adoption.
  pub sync_from_peer-Advances :
      (laws : IsLawful c) (clock : Clock) (disk : Disk) (answers : List Answer)
      (early middle n : Node) {n' : Node}
      → IsRunning middle
      → IsRunning n
      → sync_from_peer clock disk answers early middle n ≡ ok n'
      → Advances n n'
  unfolding sync_from_peer
  sync_from_peer-Advances laws clock disk answers early middle n {n'} rm r h =
      let height = length early.blockchain.chain in
      let ((status, rest), _, h) = bind-eq-ok (next_chunk 0 answers) _ h in
      let (genesis, _, h) =
        bind-eq-ok (ok_or (first early.blockchain.chain) "Local blockchain is empty") _ h in
      let (tip, _, h) =
        bind-eq-ok (ok_or (last early.blockchain.chain) "Local blockchain is empty") _ h in
      let (remote, _, h) =
        bind-eq-ok (ok_or (first status.blocks) "Remote status chunk does not contain genesis") _
          h in
      let (_, _, h) =
        bind-eq-ok
          (fail_if
            (not (remote.index == 0)
              || (not (str_eq remote.hash (calculate_hash remote))
                  || not (str_eq remote.hash genesis.hash)))
            "Remote genesis does not match the canonical genesis")
          _ h in
      elim (Bool-cases (ltb status.total_blocks height)) [
        | inl shorter ↦ subst (Advances n) (ok-injective (rw shorter at h)) (stays n r)
        | inr longer ↦ elim (Bool-cases (status.total_blocks == height)) [
          | inl same ↦ compare-Advances clock disk status tip.hash rest n r (rw (longer, same) at h)
          | inr other ↦
              follow-Advances laws clock disk status height tip.hash rest middle n rm r
                (rw (longer, other) at h)
        ]
      ]
