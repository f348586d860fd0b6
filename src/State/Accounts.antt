-- ===== src/State/Accounts.antt =====
-- The account map of src/state/mod.rs. `HashMap<String, Account>` is an association list, whose
-- order the program never observes.
use aion_blockchain.Prelude.{
  ℕ, ◌+◌, ◌≤◌, ◌≡◌, refl, Option, none, some, List, [], ◌∷◌, arith, if◌then◌else◌, Str, str_eq,
  str_eq_iff,
}

pub record Account : Type 0 where
  pub balance : ℕ
  pub nonce : ℕ

abbrev pub AccountMap : Type 0
AccountMap = List (Str × Account)

-- `accounts.get(address)`
unfoldable pub lookup : Str → AccountMap → Option Account
lookup k [] = none
lookup k ((j, a) ∷ m) = if str_eq j k then some a else lookup k m

-- `accounts.insert(address, account)`, and a write through `get_mut` or `entry`
unfoldable pub insert : Str → Account → AccountMap → AccountMap
insert k a [] = (k, a) ∷ []
insert k a ((j, b) ∷ m) = if str_eq j k then (j, a) ∷ m else (j, b) ∷ insert k a m

abbrev pub empty : Account
empty = record { balance = 0; nonce = 0 }

abbrev pub or_empty : Option Account → Account
or_empty none = empty
or_empty (some a) = a

-- What `entry(address).or_insert(empty)` refers to.
abbrev pub get_or_empty : Str → AccountMap → Account
get_or_empty k m = or_empty (lookup k m)

-- The sum of all balances.
unfoldable pub total_balance : AccountMap → ℕ
total_balance [] = 0
total_balance ((_, a) ∷ m) = a.balance + total_balance m

pub lookup-insert :
    (k j : Str) (a : Account) (m : AccountMap)
    → lookup j (insert k a m) ≡ (if str_eq k j then some a else lookup j m)
unfolding lookup insert
lookup-insert k j a [] = refl
lookup-insert k j a ((i, b) ∷ m) =
    ground (arith, str_eq_iff k j, str_eq_iff i k, str_eq_iff i j, lookup-insert k j a m)

pub total_balance-insert :
    (k : Str) (a : Account) (m : AccountMap)
    → total_balance (insert k a m) + (get_or_empty k m).balance ≡ total_balance m + a.balance
unfolding lookup insert total_balance
total_balance-insert k a [] = omega arith
total_balance-insert k a ((i, b) ∷ m) = ground (arith, total_balance-insert k a m)

pub balance-le-total : (k : Str) (m : AccountMap) → (get_or_empty k m).balance ≤ total_balance m
unfolding lookup total_balance
balance-le-total k [] = omega arith
balance-le-total k ((i, b) ∷ m) = ground (arith, balance-le-total k m)
