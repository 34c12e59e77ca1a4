-- ===== src/Pcm/Rice/Spec.antt =====
-- The Rice code of src/pcm_v4.hpp on a list of bits: the high part in unary, a stop bit, the low
-- `k` bits, lowest first.
use ubersdr_dsc.Base.{
  ℕ, zero, suc, ◌+◌, ◌*◌, ◌/◌, ◌%◌, ◌^◌, Bool, true, false, ◌==◌, List, [], ◌∷◌, ◌++◌,
}
use ubersdr_dsc.Base.Int.{ℤ, pos, negsuc}
use ubersdr_dsc.Pcm.Arith.{unzigzag}
use ubersdr_dsc.Pcm.Attempt.{Attempt, done, failed, ◌>>=◌, truncated_bitstream, truncated_remainder}
use ubersdr_dsc.Pcm.Window.{replicate}

-- The lowest `n` bits, lowest first, and the bits of bytes.
abbrev pub bits_low : ℕ → ℕ → List Bool
bits_low zero a = []
bits_low (suc n) a = (a % 2 == 1) ∷ bits_low n (a / 2)

abbrev pub byte_bits : List ℕ → List Bool
byte_bits [] = []
byte_bits (b ∷ bs) = bits_low 8 b ++ byte_bits bs

abbrev pub bit : Bool → ℕ
bit true = 1
bit false = 0

unfoldable pub count_ones : ℕ → List Bool → Attempt (ℕ × List Bool)
count_ones q [] = failed truncated_bitstream
count_ones q (true ∷ bs) = count_ones (q + 1) bs
count_ones q (false ∷ bs) = done (q, bs)

unfoldable pub take_bits : ℕ → List Bool → Attempt (ℕ × List Bool)
take_bits zero bs = done (0, bs)
take_bits (suc k) [] = failed truncated_remainder
take_bits (suc k) (b ∷ bs) = do high ← take_bits k bs; done (bit b + 2 * high.0, high.1)

-- The value of a code's two parts, in 32 bits.
abbrev pub code_value : ℕ → ℕ → ℕ → ℤ
code_value k q low = unzigzag 32 (q * 2 ^ k % 2 ^ 32 + low)

unfoldable pub read_code : ℕ → List Bool → Attempt (ℤ × List Bool)
unfolding count_ones take_bits
read_code k bits = do
  high ← count_ones 0 bits
  low ← take_bits k high.1
  done (code_value k (high.0 % 2 ^ 32) low.0, low.1)

unfoldable pub read_codes : ℕ → ℕ → List Bool → Attempt (List ℤ)
unfolding read_code
read_codes k zero bits = done []
read_codes k (suc count) bits = do
  first ← read_code k bits
  more ← read_codes k count first.1
  done (first.0 ∷ more)

-- The zigzag of a residual and its code, as the decoder's comments describe them.
unfoldable pub zigzag : ℤ → ℕ
zigzag (pos n) = 2 * n
zigzag (negsuc n) = 2 * n + 1

unfoldable pub write_code : ℕ → ℤ → List Bool
unfolding zigzag
write_code k e = replicate (zigzag e / 2 ^ k) true ++ false ∷ bits_low k (zigzag e)

unfoldable pub write_codes : ℕ → List ℤ → List Bool
unfolding write_code
write_codes k [] = []
write_codes k (e ∷ es) = write_code k e ++ write_codes k es
