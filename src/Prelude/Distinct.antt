-- ===== src/Prelude/Distinct.antt =====
-- Lists of which no two elements are the same under a Boolean test.
use Prim.Native.Nat.{◌≤◌}
use mathlib.Core.Path.{◌≡◌, refl}
use mathlib.Core.Bool.{Bool, false, ◌||◌}
use mathlib.Core.List.{List, [], ◌∷◌, ◌++◌}
use native.Mathlib.Omega.{arith}
use aion_blockchain.Prelude.Tests.{Bool-cases}
use aion_blockchain.Prelude.Lists.{length, any, keep, All}
use mathlib.Core.Logic.{inl, inr}

module _ {ℓ} {A : Type ℓ} (same : A → A → Bool) where
  abbrev pub AllDistinct : List A → Type 0
  AllDistinct [] = Unit
  AllDistinct (x ∷ xs) = (any (same x) xs ≡ false) × AllDistinct xs

module _ {ℓ} {A : Type ℓ} where
  pub any-snoc :
      (test : A → Bool) (xs : List A) (y : A) → any test (xs ++ y ∷ []) ≡ (any test xs || test y)
  any-snoc test [] y = ground arith
  any-snoc test (x ∷ xs) y = ground (arith, any-snoc test xs y)

  pub any-keep :
      (test kept : A → Bool) (xs : List A) → any test xs ≡ false → any test (keep kept xs) ≡ false
  any-keep test kept [] h = refl
  any-keep test kept (x ∷ xs) h = ground (arith, any-keep test kept xs)

  pub All-keep {κ} :
      (P : A → Type κ) (kept : A → Bool) (xs : List A) → All P xs → All P (keep kept xs)
  All-keep P kept [] h = tt
  All-keep P kept (x ∷ xs) h = elim (Bool-cases (kept x)) [
    | inl e ↦ rw e (h.0, All-keep P kept xs h.1)
    | inr e ↦ rw e (All-keep P kept xs h.1)
  ]

  pub length-keep-le : (kept : A → Bool) (xs : List A) → length (keep kept xs) ≤ length xs
  length-keep-le kept [] = omega arith
  length-keep-le kept (x ∷ xs) = ground (arith, length-keep-le kept xs)

module _ {ℓ} {A : Type ℓ} (same : A → A → Bool) where
  pub AllDistinct-snoc :
      (xs : List A) (y : A)
      → ((a b : A) → same a b ≡ same b a)
      → any (same y) xs ≡ false
      → AllDistinct same xs
      → AllDistinct same (xs ++ y ∷ [])
  AllDistinct-snoc [] y symmetric new h = (refl, tt)
  AllDistinct-snoc (x ∷ xs) y symmetric new h = (
    ground (arith, any-snoc (same x) xs y, symmetric x y, h.0),
    AllDistinct-snoc xs y symmetric (ground arith) h.1,
  )

  pub AllDistinct-keep :
      (kept : A → Bool) (xs : List A) → AllDistinct same xs → AllDistinct same (keep kept xs)
  AllDistinct-keep kept [] h = tt
  AllDistinct-keep kept (x ∷ xs) h = elim (Bool-cases (kept x)) [
    | inl e ↦ rw e (any-keep (same x) kept xs h.0, AllDistinct-keep kept xs h.1)
    | inr e ↦ rw e (AllDistinct-keep kept xs h.1)
  ]
