-- ===== src/Consensus/Registry.antt =====
-- The registry of validators (src/consensus/mod.rs): no address is registered twice, and a change of
-- a stake changes one stake.
use aion_blockchain.Prelude.{
  subst, if◌then◌else◌, bind-eq-ok, ◌==◌, ◌≢◌, ◌∙◌, str_eq_refl, Bool-cases, str_eq_iff, ◌+◌, arith,
  ◌<◌, ◌||◌, ◌↔◌, ◌++◌, ◌≡◌, ℕ, refl, [], true, false, inl, inr,
}
use aion_blockchain.Consensus.{
  find, ok, Result, str_eq, ◌∷◌, any, List, Str, Validator, Consensus, has_address, add_validator,
  change_first, lower_stake, decrease_stake, is_validator_allowed, get_validator,
}
use aion_blockchain.Consensus.Selection.{stakes-middle, stakes}

-- No address is registered twice.
abbrev pub IsDistinct : List Validator → Type 0
IsDistinct [] = Unit
IsDistinct (v ∷ vs) = (any (has_address v.address) vs ≡ false) × IsDistinct vs

any-snoc :
    (address : Str) (vs : List Validator) (v : Validator)
    → any (has_address address) (vs ++ v ∷ [])
      ≡ (any (has_address address) vs || str_eq v.address address)
any-snoc address [] v = ground arith
any-snoc address (w ∷ vs) v = ground (arith, any-snoc address vs v)

IsDistinct-snoc :
    (vs : List Validator) (v : Validator)
    → any (has_address v.address) vs ≡ false
    → IsDistinct vs
    → IsDistinct (vs ++ v ∷ [])
IsDistinct-snoc [] v new h = (refl, tt)
IsDistinct-snoc (w ∷ vs) v new h = (
  ground (
    arith,
    any-snoc w.address vs v,
    h.0,
    str_eq_iff w.address v.address,
    str_eq_iff v.address w.address,
  ),
  IsDistinct-snoc vs v (ground arith) h.1,
)

stakes-snoc : (vs : List Validator) (v : Validator) → stakes (vs ++ v ∷ []) ≡ stakes vs + v.stake
unfolding stakes
stakes-snoc vs v = stakes-middle vs v [] ∙ omega arith

added_lem :
    (vs : List Validator) (v : Validator)
    → any (has_address v.address) vs ≡ false
    → (any (has_address v.address) (vs ++ v ∷ []) ≡ true)
      × (IsDistinct vs → IsDistinct (vs ++ v ∷ []))
      × (stakes (vs ++ v ∷ []) ≡ stakes vs + v.stake)
added_lem vs v new = (
  ground (arith, any-snoc v.address vs v, str_eq_refl v.address),
  IsDistinct-snoc vs v new,
  stakes-snoc vs v,
)

-- In a registry of distinct addresses, `add_validator` returns `true` exactly for a positive stake and
-- an address that was not registered; the validator is appended if so and nothing changes if not, the
-- sum of the stakes rises accordingly, and the addresses stay distinct.
pub add_validator_lem :
    (address : Str) (stake : ℕ) (consensus : Consensus)
    → IsDistinct consensus.validators
    → let (after, added) = add_validator address stake consensus in
      ((added ≡ true) ↔ ((0 < stake) × (is_validator_allowed consensus address ≡ false)))
      × (is_validator_allowed after address ≡ (added || is_validator_allowed consensus address))
      × (stakes after.validators ≡ stakes consensus.validators + (if added then stake else 0))
      × IsDistinct after.validators
unfolding add_validator is_validator_allowed
add_validator_lem address stake consensus d =
    elim (Bool-cases (any (has_address address) consensus.validators)) [
      | inl known ↦ elim (Bool-cases (stake == 0)) [
        | inl z ↦ rw (z, known) (ground arith, refl, omega arith, d)
        | inr z ↦ rw (z, known) (ground arith, known, omega arith, d)
      ]
      | inr new ↦
          let v : Validator = record { address = address; stake = stake } in
          let (found, distinct, sum) = added_lem consensus.validators v new in
          elim (Bool-cases (stake == 0)) [
            | inl z ↦ rw (z, new) (ground arith, refl, omega arith, d)
            | inr positive ↦ rw (positive, new) (ground arith, found, sum, distinct d)
          ]
    ]

lower_stake-eq-ok :
    (amount : ℕ) (v : Validator) {v' : Validator}
    → lower_stake amount v ≡ ok v'
    → (v'.address ≡ v.address) × (v'.stake + amount ≡ v.stake)
unfolding lower_stake
lower_stake-eq-ok amount v h = ground arith

change_first-stakes :
    (address : Str) (change : Validator → Result Validator) (amount : ℕ) (vs : List Validator)
    {vs' : List Validator}
    → ((v v' : Validator)
        → change v ≡ ok v'
        → (v'.address ≡ v.address) × (v'.stake + amount ≡ v.stake))
    → change_first address change vs ≡ ok vs'
    → (stakes vs' + amount ≡ stakes vs)
      × ((other : Str)
          → other ≢ address
          → find (has_address other) vs' ≡ find (has_address other) vs)
      × ((other : Str) → any (has_address other) vs' ≡ any (has_address other) vs)
unfolding change_first stakes
change_first-stakes address change amount [] f h = cc
change_first-stakes address change amount (v ∷ vs) {vs'} f h =
    elim (Bool-cases (str_eq v.address address)) [
      | inl here ↦
          let (v', changed, e) =
            bind-eq-ok (change v) (λ v'. ok (v' ∷ vs)) {b = vs'} (rw here at h) in
          let kept = f v v' changed in
          (
            ground (arith, kept, e),
            λ other ne.
                ground (arith, kept, e, str_eq_iff v.address address, str_eq_iff v.address other),
            λ other. ground (arith, kept, e),
          )
      | inr there ↦
          let (ws, changed, e) =
            bind-eq-ok (change_first address change vs) (λ ws. ok (v ∷ ws)) {b = vs'}
              (rw there at h) in
          let rest = change_first-stakes address change amount vs f changed in
          (
            ground (arith, rest.0, e),
            λ other ne. ground (arith, rest.1 other ne, e),
            λ other. ground (arith, rest.2 other, e),
          )
    ]

-- A successful `decrease_stake` takes exactly the amount from the sum of the stakes, with no wrap,
-- and leaves the entry of every other address as it was.
pub decrease_stake_lem :
    (address other : Str) (amount : ℕ) (consensus : Consensus) {after : Consensus}
    → other ≢ address
    → decrease_stake address amount consensus ≡ ok after
    → (stakes after.validators + amount ≡ stakes consensus.validators)
      × (get_validator after other ≡ get_validator consensus other)
      × (is_validator_allowed after other ≡ is_validator_allowed consensus other)
unfolding decrease_stake get_validator is_validator_allowed
decrease_stake_lem address other amount consensus {after} ne h =
    let (vs, changed, e) =
      bind-eq-ok (change_first address (lower_stake amount) consensus.validators)
        (λ vs. ok (record { validators = vs })) {b = after} h in
    let same : vs ≡ after.validators = ground (arith, e) in
    let (sum, others, allowed) =
      change_first-stakes address (lower_stake amount) amount consensus.validators
        (λ v v' p. lower_stake-eq-ok amount v p) changed in
    subst
      (λ ws.
        (stakes ws + amount ≡ stakes consensus.validators)
        × (find (has_address other) ws ≡ find (has_address other) consensus.validators)
        × (any (has_address other) ws ≡ any (has_address other) consensus.validators))
      same (sum, others other ne, allowed other)
