-- ===== src/Consensus.antt =====
-- src/consensus/mod.rs: the registered validators, their stakes and the choice of the next one.
pub mod Registry
pub mod Selection
use aion_blockchain.Prelude.{
  true, ◌-◌, ◌++◌, some, ok, ◌%◌, ◌>>=◌, false, any, text, ltb, ◌==◌, str_eq, if◌then◌else◌, Bool,
  none, find, err, take, ◌∷◌, wrapping_add, List, Option, Result, length, [], Str, ℕ,
}
use aion_blockchain.Crypto.{Crypto}
use aion_blockchain.Core.Encoding.{be_value}

pub record Validator : Type 0 where
  pub address : Str
  pub stake : ℕ

pub record Consensus : Type 0 where
  pub validators : List Validator

-- `Consensus::new`
abbrev pub new : Consensus
new = record { validators = [] }

abbrev pub has_address : Str → Validator → Bool
has_address address v = str_eq v.address address

-- `Consensus::is_validator_allowed`
unfoldable pub is_validator_allowed : Consensus → Str → Bool
is_validator_allowed consensus address = any (has_address address) consensus.validators

-- `Consensus::add_validator`
unfoldable pub add_validator : Str → ℕ → Consensus → Consensus × Bool
add_validator address stake consensus =
    if stake == 0
    then (consensus, false)
    else if any (has_address address) consensus.validators
    then (consensus, false)
    else (
      record {
        validators = consensus.validators ++ record { address = address; stake = stake } ∷ [];
      },
      true,
    )

-- A change of the first validator with the address, which `iter_mut().find` yields.
unfoldable pub change_first :
    Str → (Validator → Result Validator) → List Validator → Result (List Validator)
change_first address change [] = err (text "Validator was not found")
change_first address change (v ∷ vs) =
    if str_eq v.address address
    then (change v >>= λ v'. ok (v' ∷ vs))
    else (change_first address change vs >>= λ vs'. ok (v ∷ vs'))

-- `Consensus::increase_stake`; the addition is not checked.
unfoldable pub increase_stake : Str → ℕ → Consensus → Result Consensus
increase_stake address amount consensus = do
  vs ←
      change_first address (λ v. ok (record v { stake = wrapping_add v.stake amount }))
        consensus.validators
  ok (record { validators = vs })

-- The guarded subtraction of `decrease_stake`.
unfoldable pub lower_stake : ℕ → Validator → Result Validator
lower_stake amount v =
    if ltb v.stake amount
    then err (text "Insufficient stake")
    else ok (record v { stake = v.stake - amount })

-- `Consensus::decrease_stake`
unfoldable pub decrease_stake : Str → ℕ → Consensus → Result Consensus
decrease_stake address amount consensus = do
  vs ← change_first address (lower_stake amount) consensus.validators
  ok (record { validators = vs })

-- `Consensus::get_validator`
unfoldable pub get_validator : Consensus → Str → Option Validator
get_validator consensus address = find (has_address address) consensus.validators

unfoldable pub sum_stakes : ℕ → List Validator → ℕ
unfolding wrapping_add
sum_stakes acc [] = acc
sum_stakes acc (v ∷ vs) = sum_stakes (wrapping_add acc v.stake) vs

-- `Consensus::total_stake`; `sum()` wraps in a release build.
unfoldable pub total_stake : Consensus → ℕ
unfolding sum_stakes
total_stake consensus = sum_stakes 0 consensus.validators

-- `Consensus::validator_count`
unfoldable pub validator_count : Consensus → ℕ
validator_count consensus = length consensus.validators

-- The loop of `select_validator`.
unfoldable pub select_from : ℕ → ℕ → List Validator → Option Validator
unfolding wrapping_add
select_from target current [] = none
select_from target current (v ∷ vs) =
    let current' = wrapping_add current v.stake in
    if ltb target current' then some v else select_from target current' vs

-- `Consensus::select_validator`
unfoldable pub select_validator : Consensus → ℕ → Option Validator
select_validator consensus value =
    let total = total_stake consensus in
    if total == 0 then none else select_from (value % total) 0 consensus.validators

-- `Consensus::select_validator_from_hash`
unfoldable pub select_validator_from_hash : ⦃c : Crypto⦄ → Consensus → Str → Option Validator
select_validator_from_hash ⦃c⦄ consensus previous_hash =
    select_validator consensus (be_value 0 (take 8 (c.sha256 previous_hash)))
