-- ===== src/Decoder/Phasing.antt =====
-- The table of phasing patterns of src/dsc.cpp, which `dsc_rx` looks for in the received bits.
use ubersdr_dsc.Base.{
  ℕ, ◌+◌, ◌-◌, ◌*◌, ◌/◌, ◌%◌, ◌<◌, ◌==◌, ◌≡◌, refl, arith, Bool, true, false, ◌&&◌, get_elem?, none,
  some, List, [], ◌∷◌, if◌then◌else◌,
}
use ubersdr_dsc.Base.Check.{all_below, all_below_sound}
use ubersdr_dsc.Decoder.Symbol.{symbol_to_bits}
use ubersdr_dsc.Decoder.{expected_symbols}

-- Thirty bits, and how many phasing symbols come after them.
pub record PhasingPattern : Type 0 where
  pub pattern : ℕ
  pub offset : ℕ

abbrev entry : ℕ → ℕ → PhasingPattern
entry p n = record { pattern = p; offset = n }

abbrev pub phasing_patterns : List PhasingPattern
phasing_patterns =
    entry 0b1011111001_1111011001_1011111001 9
    ∷ entry 0b1111011001_1011111001_0111011010 8
    ∷ entry 0b1011111001_0111011010_1011111001 7
    ∷ entry 0b0111011010_1011111001_1011011010 6
    ∷ entry 0b1011111001_1011011010_1011111001 5
    ∷ entry 0b1011011010_1011111001_0011011011 4
    ∷ entry 0b1011111001_0011011011_1011111001 3
    ∷ entry 0b0011011011_1011111001_1101011010 2
    ∷ entry 0b1011111001_1101011010_1011111001 1
    ∷ entry 0b1101011010_1011111001_0101011011 0
    ∷ []

abbrev pub phasing_patterns_size : ℕ
phasing_patterns_size = 10

-- The phasing sequence: 125 in every DX place, and 111, 110, 109, … in the RX places between.
abbrev pub phasing_symbol : ℕ → ℕ
phasing_symbol i = if i % 2 == 0 then 125 else 111 - i / 2

-- Three codewords of the sequence from place `i` on, as thirty bits.
abbrev pub window : ℕ → ℕ
window i =
    (symbol_to_bits (phasing_symbol i) * 1024 + symbol_to_bits (phasing_symbol (i + 1))) * 1024
    + symbol_to_bits (phasing_symbol (i + 2))

matches_window : ℕ → Bool
matches_window i = elim (get_elem? phasing_patterns i) [
  | none ↦ false
  | some e ↦ e.pattern == window i && e.offset == 9 - i
]

patterns_table : all_below 10 matches_window ≡ true
unfolding all_below matches_window symbol_to_bits
patterns_table = refl

expected_at : ℕ → Bool
expected_at j = elim (get_elem? expected_symbols j) [
  | none ↦ false
  | some s ↦ s == phasing_symbol (j + 3)
]

expected_table : all_below 9 expected_at ≡ true
unfolding all_below expected_at
expected_table = refl

-- Entry `i` of the table is the three codewords of the phasing sequence from place `i` on, and its
-- offset is the number of phasing symbols after them, up to the last one, 106 in place 11.
pub phasing_patterns_lem :
    (i : ℕ)
    → i < 10
    → get_elem? phasing_patterns i ≡ some (record { pattern = window i; offset = 9 - i })
unfolding matches_window
phasing_patterns_lem i h = ground (arith, all_below_sound 10 matches_window i patterns_table h)

-- The symbols that the decoder expects are those of the phasing sequence from place 3 on.
pub expected_symbols_lem :
    (j : ℕ) → j < 9 → get_elem? expected_symbols j ≡ some (phasing_symbol (j + 3))
unfolding expected_at
expected_symbols_lem j h = ground (arith, all_below_sound 9 expected_at j expected_table h)
