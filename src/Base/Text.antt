-- ===== src/Base/Text.antt =====
-- `std::string` as the list of its bytes.
use Prim.Native.Nat.{ℕ, zero, suc, ◌+◌, ◌/◌, ◌%◌}
use mathlib.Core.Path.{◌≡◌, refl}
use native.Mathlib.Omega.{arith}
use Prim.Native.Char.{code}
use Prim.Native.String.{String}
use mathlib.Core.Bool.{Bool, true, false, ◌&&◌}
use mathlib.Core.List.{List, [], ◌∷◌, ◌++◌}
use ubersdr_dsc.Base.Tests.{ltb, ◌==◌, if◌then◌else◌}

abbrev pub Text : Type 0
Text = List ℕ

-- The bytes of an ASCII literal.
abbrev pub codes : String → Text
codes String.[] = []
codes (String.◌∷◌ c s) = code c ∷ codes s

abbrev pub text_eq : Text → Text → Bool
text_eq [] [] = true
text_eq [] (y ∷ ys) = false
text_eq (x ∷ xs) [] = false
text_eq (x ∷ xs) (y ∷ ys) = x == y && text_eq xs ys

abbrev pub is_empty : Text → Bool
is_empty [] = true
is_empty (x ∷ xs) = false

abbrev pub digit : ℕ → ℕ
digit n = b'0' + n % 10

-- printf's `%d` for a number of up to `fuel` digits.
abbrev pub decimal_fuel : ℕ → ℕ → Text
decimal_fuel zero n = []
decimal_fuel (suc f) n =
    let high = decimal_fuel f (n / 10) in if ltb n 10 then digit n ∷ [] else high ++ digit n ∷ []

pub text_eq_sound : (s t : Text) → text_eq s t ≡ true → s ≡ t
text_eq_sound [] [] e = refl
text_eq_sound [] (y ∷ ys) e = cc
text_eq_sound (x ∷ xs) [] e = cc
text_eq_sound (x ∷ xs) (y ∷ ys) e = ground (arith, text_eq_sound xs ys)
