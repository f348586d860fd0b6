-- ===== src/Node/Chunks.antt =====
-- The buffer in which a node of src/node/mod.rs assembles another chain, chunk by chunk.
use aion_blockchain.Prelude.{
  checked_add, bind-eq-ok, ok-injective, Bool-cases, Result-cases, length-append, sym, subst,
  length, ltb, is_empty, fail_if, ◌&&◌, ◌==◌, ◌>>◌, ◌∷◌, ◌++◌, ◌≡◌, ◌≤◌, ◌<◌, ◌+◌, List, Option, ℕ,
  arith, refl, [], false, none, some, ok, inl, inr,
}
use aion_blockchain.Crypto.{Crypto}
use aion_blockchain.Core.Block.{Block}
use aion_blockchain.Chain.Blockchain.{Clock}
use aion_blockchain.Node.{
  checked_add, Node, Disk, check_chunk, open_buffer, check_indices, rebuild_chain,
  synchronize_chain, complete_sync, accept_chain_chunk,
}

-- The blocks carry the numbers from `position` on.
abbrev pub IsIndexed : ℕ → List Block → Type 0
IsIndexed position [] = Unit
IsIndexed position (block ∷ blocks) = (block.index ≡ position) × IsIndexed (position + 1) blocks

-- The buffer is empty if no length is announced, and never longer than the announced one.
abbrev pub Within : Option ℕ → ℕ → Type 0
Within none size = size ≡ 0
Within (some total) size = size ≤ total

pub record IsBuffered (n : Node) : Type 0 where
  pub indexed : IsIndexed 0 n.sync_buffer
  pub within : Within n.sync_expected_total (length n.sync_buffer)

IsIndexed-append :
    (position : ℕ) (xs ys : List Block)
    → IsIndexed position xs
    → IsIndexed (position + length xs) ys
    → IsIndexed position (xs ++ ys)
IsIndexed-append position [] ys h k = subst (λ i. IsIndexed i ys) (omega arith) k
IsIndexed-append position (x ∷ xs) ys h k =
    (h.0, IsIndexed-append (position + 1) xs ys h.1 (subst (λ i. IsIndexed i ys) (omega arith) k))

check_indices-IsIndexed :
    (start offset : ℕ) (blocks : List Block)
    → check_indices start offset blocks ≡ ok tt
    → IsIndexed (start + offset) blocks
unfolding check_indices checked_add
check_indices-IsIndexed start offset [] h = tt
check_indices-IsIndexed start offset (block ∷ blocks) h =
    let rest = check_indices-IsIndexed start (offset + 1) blocks (ground arith) in
    (ground arith, subst (λ i. IsIndexed i blocks) (omega arith) rest)

check_chunk-eq-ok :
    (start total : ℕ) (blocks : List Block)
    → check_chunk start total blocks ≡ ok tt
    → start + length blocks ≤ total
unfolding check_chunk checked_add
check_chunk-eq-ok start total blocks h = ground arith

-- What is buffered once a chunk may be added.
record Opened (start total : ℕ) (n : Node) : Type 0 where
  size : length n.sync_buffer ≡ start
  expected : n.sync_expected_total ≡ some total
  indexed : IsIndexed 0 n.sync_buffer

open_buffer-Opened :
    (start total : ℕ) (n : Node) {n' : Node}
    → IsBuffered n
    → open_buffer start total n ≡ ok n'
    → Opened start total n'
unfolding open_buffer
open_buffer-Opened start total n {n'} b h = elim (Bool-cases (start == 0)) [
  | inl z ↦
      subst (Opened start total) (ok-injective (rw z at h))
        (record { size = ground arith; expected = refl; indexed = tt })
  | inr z ↦
      let same : n ≡ n' = ground (arith, rw z at h) in
      subst (Opened start total) same (record {
        size = ground (arith, rw z at h);
        expected = ground (arith, rw z at h);
        indexed = b.indexed;
      })
]

module _ ⦃c : Crypto⦄ where
  synchronize_chain-buffer :
      (clock : Clock) (disk : Disk) (chain : List Block) (n : Node) {n' : Node}
      → synchronize_chain clock disk chain n ≡ ok n'
      → (n'.sync_buffer ≡ n.sync_buffer) × (n'.sync_expected_total ≡ n.sync_expected_total)
  unfolding synchronize_chain rebuild_chain
  synchronize_chain-buffer clock disk chain n h = ground arith

  buffered :
      (total : ℕ) (n : Node)
      → IsIndexed 0 n.sync_buffer
      → n.sync_expected_total ≡ some total
      → length n.sync_buffer ≤ total
      → IsBuffered n
  buffered total n i e l = record {
    indexed = i;
    within = subst (λ x. Within x (length n.sync_buffer)) (sym e) l;
  }

  emptied : (n : Node) → n.sync_buffer ≡ [] → n.sync_expected_total ≡ none → IsBuffered n
  emptied n b e = record {
    indexed = subst (IsIndexed 0) (sym b) tt;
    within = subst (λ x. Within x (length n.sync_buffer)) (sym e) (ground (arith, b));
  }

  complete_sync-IsBuffered :
      (clock : Clock) (disk : Disk) (total : ℕ) (n : Node)
      → IsBuffered n
      → IsBuffered (complete_sync clock disk total n).1
  unfolding complete_sync
  complete_sync-IsBuffered clock disk total n b =
      elim (Bool-cases (ltb (length n.sync_buffer) total)) [
        | inl less ↦ rw less b
        | inr no_less ↦ elim (Bool-cases (length n.sync_buffer == total)) [
          | inr more ↦ rw (no_less, more) b
          | inl full ↦
              let taken = record n { sync_buffer = []; sync_expected_total = none } in
              elim (Result-cases (synchronize_chain clock disk n.sync_buffer taken)) [
                | inr (_, e) ↦ rw (no_less, full, e) (emptied taken refl refl)
                | inl (after, e) ↦
                    let (same, none_expected) =
                      synchronize_chain-buffer clock disk n.sync_buffer taken e in
                    rw (no_less, full, e) (emptied after same none_expected)
              ]
        ]
      ]

  -- If the buffered blocks are numbered from 0 on and no more than the announced total, and there
  -- are none where no total is announced, then all this holds again after a chunk, whether it is
  -- accepted or not and whether the assembled chain is adopted or not.
  pub accept_chain_chunk-IsBuffered :
      (clock : Clock) (disk : Disk) (start total : ℕ) (blocks : List Block) (n : Node)
      → IsBuffered n
      → IsBuffered (accept_chain_chunk clock disk start total blocks n).1
  unfolding accept_chain_chunk
  accept_chain_chunk-IsBuffered clock disk start total blocks n b =
      elim (Result-cases (check_chunk start total blocks >> open_buffer start total n)) [
        | inr (_, e) ↦ subst IsBuffered {x = n} (ground (arith, e)) b
        | inl (opened, e) ↦
            let (_, e1, e2) = bind-eq-ok (check_chunk start total blocks) _ e in
            let fits = check_chunk-eq-ok start total blocks e1 in
            let o = open_buffer-Opened start total n b e2 in
            elim (Result-cases (
              check_indices start 0 blocks
              >> fail_if (is_empty blocks && ltb start total) "Sync chunk is unexpectedly empty")) [
                | inr (_, d) ↦
                    subst IsBuffered {x = opened} (ground (arith, e, d))
                      (buffered total opened o.indexed o.expected (omega (arith, o.size, fits)))
                | inl (_, d) ↦
                    let extended = record opened { sync_buffer = opened.sync_buffer ++ blocks } in
                    let (_, d1, d2) = bind-eq-ok (check_indices start 0 blocks) _ d in
                    let numbered = check_indices-IsIndexed start 0 blocks d1 in
                    let size = length-append {0} opened.sync_buffer blocks in
                    let whole =
                      IsIndexed-append 0 opened.sync_buffer blocks o.indexed
                        (subst (λ i. IsIndexed i blocks) (omega (arith, o.size)) numbered) in
                    subst IsBuffered {x = (complete_sync clock disk total extended).1}
                      (ground (arith, e, d))
                      (complete_sync-IsBuffered clock disk total extended (
                        buffered total extended whole o.expected
                          (omega (arith, size, o.size, fits))))
              ]
      ]

  complete_sync_next :
      (clock : Clock) (disk : Disk) (total : ℕ) (n : Node) {next : ℕ}
      → (complete_sync clock disk total n).0 ≡ ok (some next)
      → ((complete_sync clock disk total n).1 ≡ n) × (next ≡ length n.sync_buffer) × (next < total)
  unfolding complete_sync
  complete_sync_next clock disk total n h = elim (Bool-cases (ltb (length n.sync_buffer) total)) [
    | inl less ↦ let h = rw less at h in (rw less refl, ground (arith, h), ground (arith, h, less))
    | inr no_less ↦ absurd (ground (arith, h, no_less))
  ]

  not_empty : (blocks : List Block) → is_empty blocks ≡ false → 0 < length blocks
  not_empty [] h = absurd (ground arith)
  not_empty (b ∷ blocks) h = omega arith

  -- A chunk after which the node, from such a buffer, asks for more has extended the buffer: the
  -- node asks from the chunk's end on, which is beyond its start and below the announced total.
  pub accept_chain_chunk_next :
      (clock : Clock) (disk : Disk) (start total : ℕ) (blocks : List Block) (n : Node) {next : ℕ}
      → IsBuffered n
      → (accept_chain_chunk clock disk start total blocks n).0 ≡ ok (some next)
      → (next ≡ start + length blocks)
        × (start < next)
        × (next < total)
        × (length (accept_chain_chunk clock disk start total blocks n).1.sync_buffer ≡ next)
  unfolding accept_chain_chunk
  accept_chain_chunk_next clock disk start total blocks n {next} b h =
      elim (Result-cases (check_chunk start total blocks >> open_buffer start total n)) [
        | inr (_, e) ↦ absurd (ground (arith, e, h))
        | inl (opened, e) ↦
            let (_, e1, e2) = bind-eq-ok (check_chunk start total blocks) _ e in
            let o = open_buffer-Opened start total n b e2 in
            elim (Result-cases (
              check_indices start 0 blocks
              >> fail_if (is_empty blocks && ltb start total) "Sync chunk is unexpectedly empty")) [
                | inr (_, d) ↦ absurd (ground (arith, e, d, h))
                | inl (_, d) ↦
                    let (_, d1, d2) = bind-eq-ok (check_indices start 0 blocks) _ d in
                    let extended = record opened { sync_buffer = opened.sync_buffer ++ blocks } in
                    let end : (complete_sync clock disk total extended).0 ≡ ok (some next) =
                      ground (arith, e, d, h) in
                    let (same, size, below) = complete_sync_next clock disk total extended end in
                    let count = length-append {0} opened.sync_buffer blocks in
                    let reached : next ≡ start + length blocks =
                      omega (arith, size, count, o.size) in
                    let more = not_empty blocks (ground (arith, d2, reached, below)) in
                    (reached, omega (arith, reached, more), below, ground (arith, e, d, same, size))
              ]
      ]
