-- ===== src/Prelude/Words.antt =====
-- Unsigned 64-bit integers as natural numbers below `u64_mod`: the arithmetic that the program
-- checks, and the arithmetic of a release build, which wraps.
use Prim.Native.Nat.{ℕ, ◌+◌, ◌-◌, ◌%◌, ◌^◌, ◌<◌}
use mathlib.Core.Path.{◌≡◌}
use mathlib.Core.Option.{Option, none, some}
use native.Mathlib.Omega.{arith}
use aion_blockchain.Prelude.Tests.{ltb, leb, if◌then◌else◌}

abbrev pub u64_mod : ℕ
u64_mod = 2 ^ 64

-- `u64::checked_add`
unfoldable pub checked_add : ℕ → ℕ → Option ℕ
checked_add a b = if ltb (a + b) u64_mod then some (a + b) else none

-- `u64::checked_sub`
unfoldable pub checked_sub : ℕ → ℕ → Option ℕ
checked_sub a b = if leb b a then some (a - b) else none

-- `a + b` in a release build
unfoldable pub wrapping_add : ℕ → ℕ → ℕ
wrapping_add a b = (a + b) % u64_mod

pub checked_add-eq-some : (a b : ℕ) {c : ℕ} → checked_add a b ≡ some c → (c ≡ a + b) × (c < u64_mod)
unfolding checked_add
checked_add-eq-some a b h = ground arith

pub checked_add-fits : (a b : ℕ) → a + b < u64_mod → checked_add a b ≡ some (a + b)
unfolding checked_add
checked_add-fits a b h = ground arith

pub wrapping_add-fits : (a b : ℕ) → a + b < u64_mod → wrapping_add a b ≡ a + b
unfolding wrapping_add
wrapping_add-fits a b h = omega arith
