-- ===== src/Consensus/Selection.antt =====
-- The choice of a validator is stake-weighted (src/consensus/mod.rs): the numbers below the total
-- stake fall into consecutive intervals, one for each validator, as long as its stake.
use native.Mathlib.Decide.{dec_lt}
use native.Mathlib.Nat.{mod-lt, mod-eq_of_lt}
use aion_blockchain.Prelude.{
  ap, [], wrapping_add-fits, ◌%◌, ◌++◌, ◌≤◌, arith, u64_mod, ◌≡◌, ◌+◌, ◌<◌, ℕ, refl,
}
use aion_blockchain.Consensus.{
  wrapping_add, some, ◌∷◌, List, Validator, Consensus, sum_stakes, total_stake, select_from,
  select_validator,
}

-- The sum of the stakes, with no bound.
unfoldable pub stakes : List Validator → ℕ
stakes [] = 0
stakes (v ∷ vs) = v.stake + stakes vs

sum_stakes-fits :
    (acc : ℕ) (vs : List Validator)
    → acc + stakes vs < u64_mod
    → sum_stakes acc vs ≡ acc + stakes vs
unfolding sum_stakes stakes
sum_stakes-fits acc [] h = omega arith
sum_stakes-fits acc (v ∷ vs) h = ground (arith, sum_stakes-fits (acc + v.stake) vs)

pub total_stake-fits :
    (consensus : Consensus)
    → stakes consensus.validators < u64_mod
    → total_stake consensus ≡ stakes consensus.validators
unfolding total_stake
total_stake-fits consensus h = omega (arith, sum_stakes-fits 0 consensus.validators)

-- `v` stands in the list, and `target` lies in its interval, if the first one begins at `start`.
pub record Owns (start target : ℕ) (vs : List Validator) (v : Validator) : Type 0 where
  pub before : List Validator
  pub after : List Validator
  pub place : vs ≡ before ++ v ∷ after
  pub above : start + stakes before ≤ target
  pub below : target < start + stakes before + v.stake

select_from-Owns :
    (target current : ℕ) (vs : List Validator)
    → current + stakes vs < u64_mod
    → current ≤ target
    → target < current + stakes vs
    → (v : Validator) × (select_from target current vs ≡ some v) × Owns current target vs v
unfolding select_from stakes
select_from-Owns target current [] fits above below = absurd (omega arith)
select_from-Owns target current (v ∷ vs) fits above below =
    let next : wrapping_add current v.stake ≡ current + v.stake =
      wrapping_add-fits current v.stake (omega arith) in
    elim (dec_lt target (current + v.stake)) [
      | yes here ↦ (
        v,
        ground (arith, next),
        record { before = []; after = vs; place = refl; above = omega arith; below = omega arith },
      )
      | no later ↦
          let (w, found, owns) =
            select_from-Owns target (current + v.stake) vs (omega arith) (omega arith)
              (omega arith) in
          (
            w,
            ground (arith, next, found),
            record {
              before = v ∷ owns.before;
              after = owns.after;
              place = ap (◌∷◌ v) owns.place;
              above = omega (arith, owns.above);
              below = omega (arith, owns.below);
            },
          )
    ]

select_from-interval :
    (target current : ℕ) (before : List Validator) (v : Validator) (after : List Validator)
    → current + stakes (before ++ v ∷ after) < u64_mod
    → current + stakes before ≤ target
    → target < current + stakes before + v.stake
    → select_from target current (before ++ v ∷ after) ≡ some v
unfolding select_from stakes
select_from-interval target current [] v after fits above below =
    ground (arith, wrapping_add-fits current v.stake)
select_from-interval target current (w ∷ before) v after fits above below = ground (
  arith,
  wrapping_add-fits current w.stake,
  select_from-interval target (current + w.stake) before v after,
)

-- With stakes whose sum is positive and below 2^64, every seed selects a registered validator,
-- namely one in whose interval the seed lies modulo the total stake.
pub select_validator_total :
    (consensus : Consensus) (value : ℕ)
    → 0 < stakes consensus.validators
    → stakes consensus.validators < u64_mod
    → (v : Validator) × (select_validator consensus value ≡ some v)
      × Owns 0 (value % stakes consensus.validators) consensus.validators v
unfolding select_validator
select_validator_total consensus value pos fits =
    let total = total_stake-fits consensus fits in
    let (v, found, owns) =
      select_from-Owns (value % stakes consensus.validators) 0 consensus.validators (omega arith)
        (omega arith) (omega (arith, mod-lt value pos)) in
    (v, ground (arith, total, found), owns)

pub stakes-middle :
    (before : List Validator) (v : Validator) (after : List Validator)
    → stakes (before ++ v ∷ after) ≡ stakes before + v.stake + stakes after
unfolding stakes
stakes-middle [] v after = omega arith
stakes-middle (w ∷ before) v after = omega (arith, stakes-middle before v after)

-- With stakes whose sum is below 2^64, a validator is selected by each of the numbers in its
-- interval, which starts at the sum of the stakes before it and is as long as its stake.
pub select_validator_interval :
    (consensus : Consensus) (value : ℕ) (before : List Validator) (v : Validator)
    (after : List Validator)
    → consensus.validators ≡ before ++ v ∷ after
    → stakes consensus.validators < u64_mod
    → stakes before ≤ value
    → value < stakes before + v.stake
    → select_validator consensus value ≡ some v
unfolding select_validator
select_validator_interval consensus value before v after place fits above below =
    let sum = stakes-middle before v after in
    let same : stakes consensus.validators ≡ stakes (before ++ v ∷ after) = ap stakes place in
    let small : value % stakes consensus.validators ≡ value =
      mod-eq_of_lt (omega (arith, sum, same)) in
    let found : select_from value 0 consensus.validators ≡ some v = rw place (
      select_from-interval value 0 before v after (omega (arith, same)) (omega arith)
        (omega arith)) in
    ground (arith, total_stake-fits consensus fits, small, found, sum, same)
