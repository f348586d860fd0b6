-- ===== src/Node/Validation/Shape.antt =====
-- The whole loop of `validate_and_apply_block` of src/node/mod.rs: the shape of an accepted block and
-- the fees that it leaves to be paid.
use aion_blockchain.Prelude.{
  arith, Bool-cases, subst, ap, ◌-◌, ok-injective, ◌++◌, ◌∷◌, All, ◌+◌, ◌≡◌, ◌∙◌, ℕ, suc, [], false,
  none, some, ok, refl, inl, inr, bind-eq-ok,
}
use aion_blockchain.Crypto.{Crypto}
use aion_blockchain.Core.Transaction.{Transaction, calculate_id}
use aion_blockchain.Core.Block.{Block}
use aion_blockchain.Economy.{Economy}
use aion_blockchain.State.Conservation.{IsNormal}
use aion_blockchain.Node.Validation.{length, List, Progress, apply_one, walk}
use aion_blockchain.Node.Validation.Walk.{IsReward, Keeps, apply_one-Step}

Keeps-refl : (p : Progress) → Keeps p p
Keeps-refl p = record { sum = refl; treasury = refl; burned_amount = refl; burned_share = refl }

Keeps-trans : (p q r : Progress) → Keeps p q → Keeps q r → Keeps p r
Keeps-trans p q r a b = record {
  sum = b.sum ∙ a.sum;
  treasury = b.treasury ∙ a.treasury;
  burned_amount = b.burned_amount ∙ a.burned_amount;
  burned_share = b.burned_share ∙ a.burned_share;
}

-- Either no coinbase was met, or one, behind all other transactions.
pub data Shape (block : Block) (economy : Economy) (txs : List Transaction) (p : Progress)
    : Type 0 where
  no_coinbase : All IsNormal txs → p.coinbase ≡ none → Shape block economy txs p
  coinbase_last :
      (normal : List Transaction) (coinbase : Transaction)
      → txs ≡ normal ++ coinbase ∷ []
      → All IsNormal normal
      → IsReward block economy coinbase
      → p.coinbase ≡ some coinbase
      → Shape block economy txs p

Shape-cons :
    (block : Block) (economy : Economy) (tx : Transaction) (txs : List Transaction) (p : Progress)
    → tx.coinbase ≡ false
    → Shape block economy txs p
    → Shape block economy (tx ∷ txs) p
Shape-cons block economy tx txs p n (no_coinbase normals e) = no_coinbase (n, normals) e
Shape-cons block economy tx txs p n (coinbase_last normal cb split normals reward e) =
    coinbase_last (tx ∷ normal) cb (ap (◌∷◌ tx) split) (n, normals) reward e

module _ ⦃c : Crypto⦄ where
  walk-last :
      (block : Block) (economy : Economy) (position : ℕ) (tx : Transaction) (txs : List Transaction)
      (p p' : Progress)
      → position + suc (length txs) ≡ length block.transactions
      → position ≡ length block.transactions - 1
      → IsReward block economy tx
      → p.coinbase ≡ some tx
      → walk block economy (position + 1) txs p ≡ ok p'
      → Keeps p p'
        × All (λ (t : Transaction). t.id ≡ calculate_id t) txs
        × Shape block economy (tx ∷ txs) p'
  unfolding walk
  walk-last block economy position tx [] p p' size at reward e h =
      let same : p ≡ p' = ok-injective h in
      (
        subst (Keeps p) same (Keeps-refl p),
        tt,
        coinbase_last [] tx refl tt reward (subst (λ q. q.coinbase ≡ some tx) same e),
      )
  walk-last block economy position tx (x ∷ txs) p p' size at reward e h = absurd (omega arith)

  -- From a point with no coinbase yet, the loop keeps the sum of balances and totals, every
  -- identifier is right, and at most the last transaction is a coinbase.
  pub walk-Shape :
      (block : Block) (economy : Economy) (position : ℕ) (txs : List Transaction) (p p' : Progress)
      → position + length txs ≡ length block.transactions
      → p.coinbase ≡ none
      → walk block economy position txs p ≡ ok p'
      → Keeps p p'
        × All (λ (t : Transaction). t.id ≡ calculate_id t) txs
        × Shape block economy txs p'
  unfolding walk
  walk-Shape block economy position [] p p' size e h =
      let same : p ≡ p' = ok-injective h in
      (
        subst (Keeps p) same (Keeps-refl p),
        tt,
        no_coinbase tt (subst (λ q. q.coinbase ≡ none) same e),
      )
  walk-Shape block economy position (tx ∷ txs) p p' size e h =
      let (q, one, h) = bind-eq-ok (apply_one block economy position tx p) _ h in
      let step = apply_one-Step block economy position tx p one in
      elim (Bool-cases tx.coinbase) [
        | inl c ↦
            let (reward, _, at, found) = step.reward c in
            let (keeps, ids, shape) =
              walk-last block economy position tx txs q p' size at reward found h in
            (Keeps-trans p q p' step.keeps keeps, (step.identified, ids), shape)
        | inr n ↦
            let (keeps, ids, shape) =
              walk-Shape block economy (position + 1) txs q p' (omega arith) (step.normal n ∙ e)
                h in
            (
              Keeps-trans p q p' step.keeps keeps,
              (step.identified, ids),
              Shape-cons block economy tx txs p' n shape,
            )
      ]
