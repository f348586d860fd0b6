-- ===== src/Bootstrap/Genesis.antt =====
-- What src/bootstrap.rs builds from a genesis configuration.
use aion_blockchain.Prelude.{
  append_assoc, ap, ◌∙◌, append-nil, sym, ok-injective, ◌==◌, inr, subst, inl, true, str_eq_iff,
  map, str_eq_refl, checked_add, ◌++◌, Option-cases, ◌<◌, checked_add-eq-some, arith, bind-eq-ok,
  ok_or-eq-ok, ◌≡◌, ◌+◌, ◌∷◌, List, [], ok, ℕ, some, none, All,
}
use aion_blockchain.State
use aion_blockchain.State.{State, balance_of}
use aion_blockchain.State.Accounts.{
  lookup, total_balance, total_balance-insert, lookup-insert, Account,
}
use aion_blockchain.Consensus
use aion_blockchain.Consensus.{Consensus, Validator}
use aion_blockchain.Consensus.Registry.{IsDistinct, add_validator_lem}
use aion_blockchain.Bootstrap.{
  configured_fee_percent, not, fail_if, Str, checked_add, ok_or, allocated_supply, add_validators,
  create_accounts, check_configuration,
}
use aion_blockchain.Bootstrap.Configuration.{
  GenesisAllocation, GenesisConfiguration, GenesisValidatorConfiguration,
}

-- The sum of the allocated balances.
unfoldable pub allocated : List GenesisAllocation → ℕ
allocated [] = 0
allocated (a ∷ rest) = a.balance + allocated rest

allocated_supply-eq-ok :
    (total : ℕ) (allocations : List GenesisAllocation) {n : ℕ}
    → allocated_supply total allocations ≡ ok n
    → n ≡ total + allocated allocations
unfolding allocated_supply allocated
allocated_supply-eq-ok total [] h = ground (arith, h)
allocated_supply-eq-ok total (a ∷ rest) h =
    let (sum, e, h) =
      bind-eq-ok (ok_or (checked_add total a.balance) "Canonical genesis allocation overflow") _
        h in
    let (same, _) = checked_add-eq-some total a.balance (ok_or-eq-ok _ _ e) in
    omega (arith, same, allocated_supply-eq-ok sum rest h)

-- One account is created: its address was free.
created-eq-ok :
    (a : GenesisAllocation) (rest : List GenesisAllocation) (s : State) {s' : State}
    → create_accounts (a ∷ rest) s ≡ ok s'
    → (lookup a.address s.accounts ≡ none)
      × (create_accounts rest (State.create_account a.address a.balance s) ≡ ok s')
unfolding create_accounts
created-eq-ok a rest s h = elim (Option-cases (lookup a.address s.accounts)) [
  | inl e ↦ (e, ground (arith, e, h))
  | inr (_, e) ↦ absurd (ground (arith, e, h))
]

pub create_accounts-total :
    (allocations : List GenesisAllocation) (s : State) {s' : State}
    → create_accounts allocations s ≡ ok s'
    → total_balance s'.accounts ≡ total_balance s.accounts + allocated allocations
unfolding create_accounts allocated State.create_account
create_accounts-total [] s h = ground (arith, h)
create_accounts-total (a ∷ rest) s h =
    let (free, h) = created-eq-ok a rest s h in
    ground (
      arith,
      free,
      total_balance-insert a.address (record { balance = a.balance; nonce = 0 }) s.accounts,
      create_accounts-total rest (State.create_account a.address a.balance s) h,
    )

-- An account that is there is not touched by those that are created after it.
create_accounts-lookup :
    (address : Str) (account : Account) (allocations : List GenesisAllocation) (s : State)
    {s' : State}
    → lookup address s.accounts ≡ some account
    → create_accounts allocations s ≡ ok s'
    → lookup address s'.accounts ≡ some account
unfolding create_accounts State.create_account
create_accounts-lookup address account [] s known h = ground (arith, known, h)
create_accounts-lookup address account (a ∷ rest) s known h =
    let (free, h) = created-eq-ok a rest s h in
    create_accounts-lookup address account rest (State.create_account a.address a.balance s)
      (ground (
        arith,
        known,
        free,
        str_eq_iff a.address address,
        lookup-insert a.address address (record { balance = a.balance; nonce = 0 }) s.accounts,
      ))
      h

-- Every allocation is the balance of its account.
pub create_accounts-balances :
    (allocations : List GenesisAllocation) (s : State) {s' : State}
    → create_accounts allocations s ≡ ok s'
    → All (λ (a : GenesisAllocation). balance_of s' a.address ≡ a.balance) allocations
unfolding balance_of State.create_account
create_accounts-balances [] s h = tt
create_accounts-balances (a ∷ rest) s {s'} h =
    let account : Account = record { balance = a.balance; nonce = 0 } in
    let (free, h) = created-eq-ok a rest s h in
    let known =
      create_accounts-lookup a.address account rest (State.create_account a.address a.balance s)
        (ground
          (arith, str_eq_refl a.address, lookup-insert a.address a.address account s.accounts))
        h in
    (
      ground (arith, known),
      create_accounts-balances rest (State.create_account a.address a.balance s) h,
    )

abbrev pub to_validator : GenesisValidatorConfiguration → Validator
to_validator v = record { address = v.address; stake = v.stake }

added-eq :
    (address : Str) (stake : ℕ) (consensus : Consensus)
    → (Consensus.add_validator address stake consensus).1 ≡ true
    → (Consensus.add_validator address stake consensus).0.validators
      ≡ consensus.validators ++ record { address = address; stake = stake } ∷ []
unfolding Consensus.add_validator
added-eq address stake consensus h = ground (arith, h)

pub add_validators-eq-ok :
    (configured : List GenesisValidatorConfiguration) (consensus : Consensus) {after : Consensus}
    → IsDistinct consensus.validators
    → add_validators configured consensus ≡ ok after
    → IsDistinct after.validators
      × (after.validators ≡ consensus.validators ++ map to_validator configured)
unfolding add_validators
add_validators-eq-ok [] consensus {after} d h =
    subst (λ (r : Consensus). IsDistinct r.validators × (r.validators ≡ consensus.validators ++ []))
      (ok-injective h) (d, sym (append-nil consensus.validators))
add_validators-eq-ok (v ∷ vs) consensus {after} d h =
    let step = Consensus.add_validator v.address v.stake consensus in
    let (_, added, h) =
      bind-eq-ok (fail_if (not step.1) "Canonical genesis validator could not be added") _ h in
    let (_, _, _, distinct) = add_validator_lem v.address v.stake consensus d in
    let (kept, all) = add_validators-eq-ok vs step.0 distinct h in
    (
      kept,
      all
          ∙ ap (λ r. r ++ map to_validator vs)
              (added-eq v.address v.stake consensus (ground (arith, added)))
          ∙ append_assoc consensus.validators (to_validator v ∷ []) (map to_validator vs),
    )

-- What the checks of a configuration establish.
pub record IsConsistent (configuration : GenesisConfiguration) : Type 0 where
  pub divisor : 0 < configuration.fee_divisor
  pub percents :
      configuration.validator_fee_percent + configuration.liquidity_fee_percent
        + configuration.treasury_fee_percent + configuration.burn_fee_percent
      ≡ 100
  pub allocations : allocated configuration.allocations ≡ configuration.genesis_supply

pub check_configuration-eq-ok :
    (configuration : GenesisConfiguration) {u : Unit {0}}
    → check_configuration configuration ≡ ok u
    → IsConsistent configuration
unfolding check_configuration configured_fee_percent checked_add
check_configuration-eq-ok configuration h =
    let (_, e1, h) =
      bind-eq-ok
        (fail_if (configuration.fee_divisor == 0)
          "Canonical transaction fee divisor cannot be zero")
        _ h in
    let (percent, e2, h) =
      bind-eq-ok (ok_or (configured_fee_percent configuration) "Canonical fee percentages overflow")
        _ h in
    let (_, e3, h) =
      bind-eq-ok (fail_if (not (percent == 100)) "Canonical fee percentages are invalid") _ h in
    let (sum, e4, h) = bind-eq-ok (allocated_supply 0 configuration.allocations) _ h in
    record {
      divisor = ground (arith, e1);
      percents = ground (arith, e2, e3);
      allocations = ground (arith, h, allocated_supply-eq-ok 0 configuration.allocations e4);
    }
