-- ===== src/Chain/Blockchain/Identifiers.antt =====
-- The identifiers of transactions on a chain: the sets that src/chain/blockchain.rs collects, and
-- what their checks say together.
use aion_blockchain.Prelude.{
  ap, ◌∙◌, Bool-cases, sym, ◌++◌, arith, ◌||◌, ◌↔◌, ◌≡◌, [], false, ok, refl, inl, inr,
}
use aion_blockchain.Core.Transaction.{Transaction}
use aion_blockchain.Core.Block.{Block}
use aion_blockchain.Chain.Blockchain.{
  str_eq, ◌∷◌, map, Str, List, Bool, Blockchain, chain_ids, contains, check_new_ids,
  validate_transaction_id_uniqueness,
}

abbrev pub ids : List Transaction → List Str
ids txs = map (λ (tx : Transaction). tx.id) txs

-- Each identifier is new when its turn comes.
abbrev pub NewIds : List Str → List Str → Type 0
NewIds seen [] = Unit
NewIds seen (i ∷ is) = (contains seen i ≡ false) × NewIds (i ∷ seen) is

-- The set after the identifiers have been inserted.
abbrev pub pushed : List Str → List Str → List Str
pushed seen [] = seen
pushed seen (i ∷ is) = pushed (i ∷ seen) is

pub contains-pushed :
    (seen is : List Str) (j : Str)
    → contains (pushed seen is) j ≡ (contains is j || contains seen j)
contains-pushed seen [] j = refl
contains-pushed seen (i ∷ is) j = ground (arith, contains-pushed (i ∷ seen) is j)

pub NewIds-append :
    (seen is js : List Str) → NewIds seen (is ++ js) ↔ (NewIds seen is × NewIds (pushed seen is) js)
NewIds-append seen [] js = (λ h. (tt, h), λ h. h.1)
NewIds-append seen (i ∷ is) js =
    let rest = NewIds-append (i ∷ seen) is js in
    (λ h. let (a, b) = rest.0 h.1 in ((h.0, a), b), λ h. (h.0.0, rest.1 (h.0.1, h.1)))

-- Only the members of the set matter.
pub NewIds-same :
    (seen seen' is : List Str)
    → ((j : Str) → contains seen j ≡ contains seen' j)
    → NewIds seen is
    → NewIds seen' is
NewIds-same seen seen' [] same h = tt
NewIds-same seen seen' (i ∷ is) same h = (
  sym (same i) ∙ h.0,
  NewIds-same (i ∷ seen) (i ∷ seen') is (λ j. ap (λ b. str_eq j i || b) (same j)) h.1,
)

or-false : (b : Bool) → (b || false) ≡ b
or-false b = ground arith

check_new_ids-NewIds :
    (seen : List Str) (txs : List Transaction)
    → (check_new_ids seen txs ≡ ok tt) ↔ NewIds seen (ids txs)
unfolding check_new_ids
check_new_ids-NewIds seen [] = (λ h. tt, λ h. refl)
check_new_ids-NewIds seen (tx ∷ txs) = elim (Bool-cases (contains seen tx.id)) [
  | inl old ↦ (λ h. absurd (ground arith), λ h. absurd (cc (h.0, old)))
  | inr new ↦
      let rest = check_new_ids-NewIds (tx.id ∷ seen) txs in
      (λ h. (new, rest.0 (rw new at h)), λ h. rw new (rest.1 h.1))
]

pub validate_transaction_id_uniqueness-NewIds :
    (bc : Blockchain) (block : Block)
    → (validate_transaction_id_uniqueness bc block ≡ ok tt)
      ↔ NewIds (chain_ids bc.chain) (ids block.transactions)
unfolding validate_transaction_id_uniqueness
validate_transaction_id_uniqueness-NewIds bc block =
    check_new_ids-NewIds (chain_ids bc.chain) block.transactions

-- Distinct identifiers and new ones are distinct together.
pub NewIds-together : (old new : List Str) → NewIds [] old → NewIds old new ↔ NewIds [] (old ++ new)
NewIds-together old new distinct =
    let same : (j : Str) → contains (pushed [] old) j ≡ contains old j =
      λ j. contains-pushed [] old j ∙ or-false (contains old j) in
    (
      λ h.
          (NewIds-append [] old new).1
            (distinct, NewIds-same old (pushed [] old) new (λ j. sym (same j)) h),
      λ h. NewIds-same (pushed [] old) old new same ((NewIds-append [] old new).0 h).1,
    )

-- On a chain of distinct identifiers, `validate_transaction_id_uniqueness` accepts a block exactly
-- when the identifiers of the chain and the block together are distinct.
pub validate_transaction_id_uniqueness_exact :
    (bc : Blockchain) (block : Block)
    → NewIds [] (chain_ids bc.chain)
    → (validate_transaction_id_uniqueness bc block ≡ ok tt)
      ↔ NewIds [] (chain_ids bc.chain ++ ids block.transactions)
validate_transaction_id_uniqueness_exact bc block distinct =
    let check = validate_transaction_id_uniqueness-NewIds bc block in
    let together = NewIds-together (chain_ids bc.chain) (ids block.transactions) distinct in
    (λ h. together.0 (check.0 h), λ h. check.1 (together.1 h))
