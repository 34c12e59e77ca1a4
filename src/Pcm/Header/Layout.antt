-- ===== src/Pcm/Header/Layout.antt =====
-- The layout of a packet header that src/pcm_v4.hpp describes, written as bytes.
use ubersdr_dsc.Base.{ℕ, zero, suc, ◌/◌, ◌%◌, List, [], ◌∷◌, ◌++◌}
use ubersdr_dsc.Base.Int.{ℤ}
use ubersdr_dsc.Pcm.Arith.{to_uint}
use ubersdr_dsc.Pcm.Varint.Roundtrip.{write_uvarint}

-- `n` bytes of a word, the lowest first.
abbrev pub le_bytes : ℕ → ℕ → List ℕ
le_bytes zero v = []
le_bytes (suc n) v = v % 256 ∷ le_bytes n (v / 256)

-- A resynchronisation point with all its fields, and the body after it.
unfoldable pub write_resync : ℕ → ℕ → ℕ → ℕ → ℕ → ℤ → ℤ → List ℕ → List ℕ
write_resync flags ts count rate channels power noise body =
    0x50
    ∷ 0x43
    ∷ 0x4D
    ∷ 0x34
    ∷ flags
    ∷ (le_bytes 8 ts
        ++ (write_uvarint count
            ++ (write_uvarint rate
                ++ channels
                  ∷ (le_bytes 2 (to_uint 16 power) ++ (le_bytes 2 (to_uint 16 noise) ++ body)))))
