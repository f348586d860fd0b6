-- ===== src/Prelude/Text.antt =====
-- A Rust `String` is the list of its bytes, which is what the program measures, hashes and compares.
use Prim.Native.Nat.{ℕ, zero, suc, ◌+◌, ◌-◌, ◌*◌, ◌/◌, ◌%◌, ◌^◌, ◌<◌}
use Prim.Native.Char.{code}
use Prim.Native.String.{String}
use mathlib.Core.Path.{◌≡◌, refl, sym, ap, ◌∙◌}
use mathlib.Core.Logic.{◌↔◌, inl, inr}
use mathlib.Core.Bool.{Bool, true, false, ◌&&◌}
use mathlib.Core.List.{List, [], ◌∷◌}
use native.Mathlib.Omega.{arith}
use aion_blockchain.Prelude.Tests.{◌==◌, ltb, Bool-cases, if◌then◌else◌}

abbrev pub Bytes : Type 0
Bytes = List ℕ

abbrev pub Str : Type 0
Str = List ℕ

-- The bytes of an ASCII literal.
abbrev pub bytes_of : String → Str
bytes_of String.[] = []
bytes_of (String.◌∷◌ c s) = code c ∷ bytes_of s

-- `==` on strings
unfoldable pub str_eq : Str → Str → Bool
str_eq [] [] = true
str_eq (a ∷ s) (b ∷ t) = a == b && str_eq s t
str_eq _ _ = false

pub str_eq_iff : (s t : Str) → (str_eq s t ≡ true) ↔ (s ≡ t)
unfolding str_eq
str_eq_iff [] [] = ground arith
str_eq_iff [] (b ∷ t) = ground arith
str_eq_iff (a ∷ s) [] = ground arith
str_eq_iff (a ∷ s) (b ∷ t) = ground (arith, str_eq_iff s t)

pub str_eq_refl : (s : Str) → str_eq s s ≡ true
str_eq_refl s = (str_eq_iff s s).1 refl

pub str_eq_comm : (s t : Str) → str_eq s t ≡ str_eq t s
str_eq_comm s t = ground (arith, str_eq_iff s t, str_eq_iff t s)

-- The decimal digits of a number before a text; the fuel bounds how many there are.
unfoldable pub decimal_before : ℕ → ℕ → Str → Str
decimal_before zero n rest = rest
decimal_before (suc fuel) n rest =
    let more = decimal_before fuel (n / 10) ((b'0' + n % 10) ∷ rest) in
    if ltb n 10 then (b'0' + n) ∷ rest else more

-- `format!("{}", n)` for a `u64`, which has at most 20 digits.
unfoldable pub decimal : ℕ → Str
unfolding decimal_before
decimal n = decimal_before 20 n []

-- The number that digits spell, after a number that has been read.
unfoldable pub decimal_value : ℕ → Str → ℕ
decimal_value acc [] = acc
decimal_value acc (d ∷ ds) = decimal_value (acc * 10 + (d - b'0')) ds

decimal_value-decimal_before :
    (fuel n : ℕ) (rest : Str)
    → n < 10 ^ fuel
    → decimal_value 0 (decimal_before fuel n rest) ≡ decimal_value n rest
unfolding decimal_value decimal_before
decimal_value-decimal_before zero n rest h = ap (λ m. decimal_value m rest) (omega (arith, h))
decimal_value-decimal_before (suc fuel) n rest h = elim (Bool-cases (ltb n 10)) [
  | inl e ↦ rw e (ap (λ m. decimal_value m rest) (omega arith))
  | inr e ↦ rw e (
      decimal_value-decimal_before fuel (n / 10) ((b'0' + n % 10) ∷ rest) (omega (arith, h))
      ∙ ap (λ m. decimal_value m rest) (omega arith))
]

-- Printing a number loses nothing.
pub decimal-injective : (m n : ℕ) → m < 10 ^ 20 → n < 10 ^ 20 → decimal m ≡ decimal n → m ≡ n
unfolding decimal decimal_value
decimal-injective m n hm hn h =
    sym (decimal_value-decimal_before 20 m [] hm)
    ∙ ap (decimal_value 0) h
    ∙ decimal_value-decimal_before 20 n [] hn
