-- ===== src/Decoder/Symbol.antt =====
-- `DSCDecoder::reverse` and `DSCDecoder::bitsToSymbol` of src/dsc.cpp, `popcount` of
-- src/popcount.h, and `symbolToBits` of the repository's test of the demodulator.
use ubersdr_dsc.Base.{
  ℕ, zero, suc, ◌+◌, ◌-◌, ◌*◌, ◌/◌, ◌%◌, ◌^◌, ◌==◌, if◌then◌else◌, bit_and, bit_or,
}

-- A shift left is cut off where the result is stored.
infixl 75 ◌<<<◌ ◌>>>◌
abbrev pub ◌<<<◌ : ℕ → ℕ → ℕ
x <<< k = x * 2 ^ k

abbrev pub ◌>>>◌ : ℕ → ℕ → ℕ
x >>> k = x / 2 ^ k

abbrev u8 : ℕ → ℕ
u8 x = x % 2 ^ 8

-- The bits of a byte in reverse order.
unfoldable pub reverse : ℕ → ℕ
reverse b =
    let b1 = u8 (bit_or (bit_and b 0xf0 >>> 4) (bit_and b 0x0f <<< 4)) in
    let b2 = u8 (bit_or (bit_and b1 0xcc >>> 2) (bit_and b1 0x33 <<< 2)) in
    u8 (bit_or (bit_and b2 0xaa >>> 1) (bit_and b2 0x55 <<< 1))

-- The loop of `popcount` over `n` bits from bit `i` on.
popcount_loop : ℕ → ℕ → ℕ → ℕ → ℕ
popcount_loop zero i number cnt = cnt
popcount_loop (suc n) i number cnt = popcount_loop n (i + 1) number (cnt + bit_and (number >>> i) 1)

unfoldable pub popcount : ℕ → ℕ
unfolding popcount_loop
popcount number = popcount_loop 32 0 number 0

-- Seven bits of the symbol, lowest first, then the number of zeros among them. 255 is -1. The
-- symbol is below 128, so the subtraction does not go below 0.
unfoldable pub bits_to_symbol : ℕ → ℕ
unfolding reverse popcount
bits_to_symbol bits =
    let symbol = reverse (u8 (bits >>> 3)) >>> 1 in
    let zeros = 7 - popcount symbol in
    let expected_zeros = bit_and bits 0x7 in if zeros == expected_zeros then symbol else 255

-- The encoder's loop over `n` bits of the symbol from bit `i` on: the reversed bits, and the ones.
symbol_bits : ℕ → ℕ → ℕ → ℕ → ℕ → ℕ × ℕ
symbol_bits zero i s rev ones = (rev, ones)
symbol_bits (suc n) i s rev ones =
    let clear = bit_and s (1 <<< i) == 0 in
    symbol_bits n (i + 1) s (if clear then rev else bit_or rev (1 <<< (6 - i)))
      (if clear then ones else ones + 1)

unfoldable pub symbol_to_bits : ℕ → ℕ
unfolding symbol_bits
symbol_to_bits s = let (rev, ones) = symbol_bits 7 0 s 0 0 in bit_or (rev <<< 3) (7 - ones)
