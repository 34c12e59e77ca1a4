-- ===== src/Base/Result.antt =====
-- How a run of C++ code ends: with a value, by an exception, or in undefined behaviour.
use mathlib.Core.Path.{◌≡◌, refl}
use mathlib.Core.Option.{Option, none, some}

pub data Result {ℓ} (A : Type ℓ) : Type ℓ where
  ok : A → Result A
  -- A read outside an array, which C++ leaves undefined.
  out_of_bounds : Result A
  -- `std::out_of_range`, which nothing in the program catches.
  out_of_range : Result A
  -- An `int` out of its range, which C++ leaves undefined.
  overflow : Result A

infixl 5 ◌>>=◌
abbrev pub ◌>>=◌ {ℓ κ} : {A : Type ℓ} {B : Type κ} → Result A → (A → Result B) → Result B
out_of_bounds >>= next = out_of_bounds
out_of_range >>= next = out_of_range
overflow >>= next = overflow
ok value >>= next = next value

-- The element of an array, where the index is in range.
abbrev pub in_bounds {ℓ} : {A : Type ℓ} → Option A → Result A
in_bounds none = out_of_bounds
in_bounds (some a) = ok a

-- A chain that ends with a value has one after its first part.
pub >>=-eq-ok {ℓ κ} :
    {A : Type ℓ} {B : Type κ} (run : Result A) (next : A → Result B) {end : B}
    → (run >>= next) ≡ ok end
    → (middle : A) × (run ≡ ok middle) × (next middle ≡ ok end)
>>=-eq-ok out_of_bounds next e = cc
>>=-eq-ok out_of_range next e = cc
>>=-eq-ok overflow next e = cc
>>=-eq-ok (ok middle) next e = (middle, refl, e)

-- A run that ends with a value.
abbrev pub IsOk {ℓ} : {A : Type ℓ} → Result A → Type 0
IsOk (ok a) = Unit
IsOk out_of_bounds = ⊥
IsOk out_of_range = ⊥
IsOk overflow = ⊥

pub IsOk-bind {ℓ κ} :
    {A : Type ℓ} {B : Type κ} (m : Result A) (f : A → Result B)
    → IsOk m
    → ((a : A) → IsOk (f a))
    → IsOk (m >>= f)
IsOk-bind (ok a) f h k = k a
IsOk-bind out_of_bounds f h k = absurd h
IsOk-bind out_of_range f h k = absurd h
IsOk-bind overflow f h k = absurd h
