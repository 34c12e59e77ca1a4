-- ===== src/Pcm/Arith.antt =====
-- The integer helpers of src/pcm_v4.hpp: signs, rounding shift, leakage, clamp, words of C's integer types.
-- `int64_t` is an integer; where the source goes through an unsigned type, the wrap is written out.
pub mod Laws
use ubersdr_dsc.Base.{
  ℕ, zero, suc, ◌+◌, ◌-◌, ◌*◌, ◌/◌, ◌%◌, ◌^◌, bit_xor, Bool, true, false, if◌then◌else◌, ltb, ◌==◌,
}
use ubersdr_dsc.Base.Int.{ℤ, pos, negsuc, neg, ltb_ℤ, ◌-ℤ◌, ◌+ℤ◌}

-- Fixed-point scale of the filter taps.
abbrev pub tap_shift : ℕ
tap_shift = 16

-- The bound of a tap's magnitude.
abbrev pub tap_limit : ℕ
tap_limit = 2 ^ 24

abbrev pub leak_shift_complex : ℕ
leak_shift_complex = 14

abbrev pub leak_shift_real : ℕ
leak_shift_real = 16

flag : Bool → ℤ
flag true = pos 1
flag false = pos 0

-- -1, 0 or 1
unfoldable pub sign : ℤ → ℤ
unfolding flag ◌-ℤ◌
sign v = flag (ltb_ℤ (pos 0) v) -ℤ flag (ltb_ℤ v (pos 0))

-- Division by `2 ^ shift`, on the magnitude.
unfoldable pub round_shift : ℤ → ℕ → ℤ
round_shift (pos n) shift = pos ((n + 2 ^ (shift - 1)) / 2 ^ shift)
round_shift (negsuc n) shift = neg (pos ((suc n + 2 ^ (shift - 1)) / 2 ^ shift))

unfoldable pub leak : ℤ → ℕ → ℤ
leak (pos n) shift = pos (n / 2 ^ shift)
leak (negsuc n) shift = neg (pos (suc n / 2 ^ shift))

unfoldable pub clamp_tap : ℤ → ℤ
clamp_tap w =
    if ltb_ℤ (pos tap_limit) w
    then pos tap_limit
    else if ltb_ℤ w (neg (pos tap_limit))
    then neg (pos tap_limit)
    else w

-- The low `bits` bits of an integer, as an unsigned word, and the signed reading of a word.
unfoldable pub to_uint : ℕ → ℤ → ℕ
to_uint bits (pos n) = n % 2 ^ bits
to_uint bits (negsuc n) = 2 ^ bits - 1 - n % 2 ^ bits

unfoldable pub to_int : ℕ → ℕ → ℤ
to_int bits n = if ltb n (2 ^ (bits - 1)) then pos n else negsuc (2 ^ bits - 1 - n)

-- An integer stored in `int32_t`.
unfoldable pub wrap_32 : ℤ → ℤ
unfolding to_int to_uint
wrap_32 v = to_int 32 (to_uint 32 v)

-- `(u >> 1) ^ (0 - (u & 1))` of a word, read as a signed integer.
unfoldable pub unzigzag : ℕ → ℕ → ℤ
unzigzag bits u = to_int bits (bit_xor (u / 2) ((2 ^ bits - u % 2) % 2 ^ bits))

unfoldable pub trailing_zeros_fuel : ℕ → ℕ → ℕ
trailing_zeros_fuel zero x = 0
trailing_zeros_fuel (suc f) x =
    let more = trailing_zeros_fuel f (x / 2) in if x % 2 == 0 then more + 1 else 0

-- 64 for zero; no other 64-bit word has more than 63.
unfoldable pub trailing_zeros : ℕ → ℕ
unfolding trailing_zeros_fuel
trailing_zeros x = if x == 0 then 64 else trailing_zeros_fuel 64 x

-- The length of the history window of a filter.
unfoldable pub history_len : ℕ → ℕ
history_len order = if ltb (order * 8) 64 then 64 else order * 8
