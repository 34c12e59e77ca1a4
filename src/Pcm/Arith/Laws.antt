-- ===== src/Pcm/Arith/Laws.antt =====
-- What the integer helpers of src/pcm_v4.hpp compute.
use ubersdr_dsc.Base.{ℕ, ◌≤◌, ◌<◌, ◌^◌, ◌≡◌, refl, arith, ◌⊎◌}
use ubersdr_dsc.Base.Int.{ℤ, pos, negsuc, ◌+ℤ◌, ◌-ℤ◌, ◌*ℤ◌, magnitude, int_laws, magnitude-mul}
use ubersdr_dsc.Pcm.Arith.{sign, flag, leak, clamp_tap, tap_limit, to_uint, to_int, wrap_32}

-- A residual and the prediction give the sample back.
pub sub-add : (x p : ℤ) → x -ℤ p +ℤ p ≡ x
sub-add x p = omega int_laws

pub magnitude-sign : (v : ℤ) → magnitude (sign v) ≤ 1
unfolding sign flag ◌-ℤ◌
magnitude-sign v = ground arith

pub sign_zero : sign (pos 0) ≡ pos 0
unfolding sign flag ◌-ℤ◌
sign_zero = refl

pub sign-cases : (v : ℤ) → (sign v ≡ pos 0) ⊎ (sign v ≡ pos 1) ⊎ (sign v ≡ negsuc 0)
unfolding sign flag ◌-ℤ◌
sign-cases v = ground arith

pub mul-one-sign : (m : ℕ) (v : ℤ) → magnitude (pos m *ℤ sign v) ≤ m
mul-one-sign m v = grind (arith, magnitude-mul (pos m) (sign v), magnitude-sign v)

-- The leakage takes a tap towards zero.
pub magnitude-leak : (w : ℤ) (shift : ℕ) → magnitude (w -ℤ leak w shift) ≤ magnitude w
unfolding leak ◌-ℤ◌
magnitude-leak (pos n) shift = ground arith
magnitude-leak (negsuc n) shift = ground arith

pub magnitude-clamp_tap : (w : ℤ) → magnitude (clamp_tap w) ≤ tap_limit
unfolding clamp_tap
magnitude-clamp_tap w = ground arith

pub clamp_tap-eq_of_le : (w : ℤ) → magnitude w ≤ tap_limit → clamp_tap w ≡ w
unfolding clamp_tap
clamp_tap-eq_of_le w h = ground arith

pub wrap_32-eq_of_lt : (v : ℤ) → magnitude v < 2 ^ 31 → wrap_32 v ≡ v
unfolding wrap_32 to_int to_uint
wrap_32-eq_of_lt (pos n) h = ground arith
wrap_32-eq_of_lt (negsuc n) h = ground arith
