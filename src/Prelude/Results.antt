-- ===== src/Prelude/Results.antt =====
-- Rust's `Result<A, String>`. An error is its fixed text, with the values that `format!` puts in;
-- `panic` is a failed `expect`, which ends the call the same way.
use Prim.Native.Nat.{ℕ}
use Prim.Native.String.{String}
use mathlib.Core.Path.{◌≡◌, refl}
use mathlib.Core.Bool.{Bool, true, false}
use mathlib.Core.Logic.{◌⊎◌, inl, inr}
use mathlib.Core.Option.{Option, none, some}
use mathlib.Core.List.{List}

pub data Error : Type 0 where
  text : String → Error
  text_about : String → List ℕ → Error
  text_expected : String → ℕ → ℕ → Error
  panic : String → Error

pub data Result {ℓ} (A : Type ℓ) : Type ℓ where
  ok : A → Result A
  err : Error → Result A

-- `result.is_err()`
abbrev pub is_err {ℓ} : {A : Type ℓ} → Result A → Bool
is_err (ok a) = false
is_err (err e) = true

-- Rust's `?`: the first error ends the whole.
infixl 5 ◌>>=◌
abbrev pub ◌>>=◌ {ℓ κ} : {A : Type ℓ} {B : Type κ} (r : Result A) (next : A → Result B) → Result B
(err e) >>= next = err e
(ok a) >>= next = next a

-- `if test { return Err(e.into()) }`
abbrev pub fail_if : Bool → String → Result (Unit {0})
fail_if true e = err (text e)
fail_if false e = ok tt

-- A step whose value is not used.
infixl 5 ◌>>◌
abbrev pub ◌>>◌ {ℓ} : {B : Type ℓ} (check : Result (Unit {0})) (rest : Result B) → Result B
check >> rest = check >>= λ _. rest

-- `option.ok_or(e)?`
abbrev pub ok_or {ℓ} : {A : Type ℓ} → Option A → String → Result A
ok_or none e = err (text e)
ok_or (some a) e = ok a

pub Result-cases {ℓ} :
    {A : Type ℓ} (r : Result A) → ((a : A) × (r ≡ ok a)) ⊎ ((e : Error) × (r ≡ err e))
Result-cases (ok a) = inl (a, refl)
Result-cases (err e) = inr (e, refl)

-- Inversion of a successful step.
pub bind-eq-ok {ℓ κ} :
    {A : Type ℓ} {B : Type κ} (r : Result A) (next : A → Result B) {b : B} (h : (r >>= next) ≡ ok b)
    → (a : A) × (r ≡ ok a) × (next a ≡ ok b)
bind-eq-ok (err e) next h = cc
bind-eq-ok (ok a) next h = (a, refl, h)

pub fail_if-eq-ok : (test : Bool) (e : String) {u : Unit {0}} → fail_if test e ≡ ok u → test ≡ false
fail_if-eq-ok true e h = cc
fail_if-eq-ok false e h = refl

pub ok_or-eq-ok {ℓ} :
    {A : Type ℓ} (o : Option A) (e : String) {a : A} → ok_or o e ≡ ok a → o ≡ some a
ok_or-eq-ok none e h = cc
ok_or-eq-ok (some b) e h = cc

or_else {ℓ} : {A : Type ℓ} → A → Result A → A
or_else d (ok a) = a
or_else d (err e) = d

pub ok-injective {ℓ} : {A : Type ℓ} {a b : A} → ok a ≡ ok b → a ≡ b
unfolding or_else
ok-injective {a} h = λ i. or_else a (h i)
