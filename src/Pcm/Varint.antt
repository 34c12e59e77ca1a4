-- ===== src/Pcm/Varint.antt =====
-- Varints, as src/pcm_v4.hpp reads them: seven bits in a byte, the lowest first.
pub mod Roundtrip
use ubersdr_dsc.Base.{
  ℕ, zero, suc, ◌+◌, ◌*◌, ◌%◌, ◌^◌, bit_or, bit_and, Bool, ◌&&◌, if◌then◌else◌, ltb, ◌==◌, Option,
  none, some, List, [], ◌∷◌,
}
use ubersdr_dsc.Base.Int.{ℤ}
use ubersdr_dsc.Pcm.Arith.{unzigzag}

-- `left` bytes may still follow; the tenth byte holds one bit.
unfoldable pub uvarint : ℕ → ℕ → ℕ → List ℕ → Option (ℕ × List ℕ)
uvarint zero shift x bytes = none
uvarint (suc left) shift x [] = none
uvarint (suc left) shift x (b ∷ bs) =
    let more = uvarint left (shift + 7) (bit_or x (bit_and b 0x7f * 2 ^ shift % 2 ^ 64)) bs in
    if ltb b 0x80
    then if left == 0 && ltb 1 b then none else some (bit_or x (b * 2 ^ shift % 2 ^ 64), bs)
    else more

-- The value and the bytes after it.
unfoldable pub read_uvarint : List ℕ → Option (ℕ × List ℕ)
unfolding uvarint
read_uvarint = uvarint 10 0 0

signed : ℕ × List ℕ → ℤ × List ℕ
signed (u, rest) = (unzigzag 64 u, rest)

unfoldable pub read_varint : List ℕ → Option (ℤ × List ℕ)
unfolding read_uvarint signed
read_varint bytes = elim (read_uvarint bytes) [ none ↦ none | some r ↦ some (signed r) ]
