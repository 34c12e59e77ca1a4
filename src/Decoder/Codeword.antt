-- ===== src/Decoder/Codeword.antt =====
-- The ten-bit code of src/dsc.cpp against the encoder of the repository's test.
use ubersdr_dsc.Base.{
  ℕ, ◌<◌, ◌==◌, ◌!=◌, ◌≡◌, ◌≢◌, ◌↔◌, ◌⊎◌, inl, inr, refl, sym, ◌∙◌, ap, arith, true, ◌&&◌, ◌||◌,
  bit_and, ltb,
}
use ubersdr_dsc.Base.Check.{all_below, all_below_sound}
use ubersdr_dsc.Decoder.Symbol.{bits_to_symbol, symbol_to_bits}

symbols_table :
    all_below 128 (λ s. bits_to_symbol (symbol_to_bits s) == s && ltb (symbol_to_bits s) 1024)
    ≡ true
unfolding all_below bits_to_symbol symbol_to_bits
symbols_table = refl

words_table :
    all_below 1024 (λ b.
      bits_to_symbol b == 255
      || (ltb (bits_to_symbol b) 128 && symbol_to_bits (bits_to_symbol b) == b))
    ≡ true
unfolding all_below bits_to_symbol symbol_to_bits
words_table = refl

-- No codeword holds all the ones of another.
antichain_table :
    all_below 128 (λ s.
      all_below 128
        (λ t. s == t || bit_and (symbol_to_bits s) (symbol_to_bits t) != symbol_to_bits s))
    ≡ true
unfolding all_below symbol_to_bits
antichain_table = refl

-- A word of ten bits is read as an error, or as a symbol that it is the codeword of.
word_cases :
    (b : ℕ)
    → b < 1024
    → (bits_to_symbol b ≡ 255)
      ⊎ ((bits_to_symbol b < 128) × (symbol_to_bits (bits_to_symbol b) ≡ b))
word_cases b h = ground (arith, all_below_sound 1024 _ b words_table h)

-- Every codeword is read back as the symbol that it stands for.
pub bits_to_symbol-symbol_to_bits : (s : ℕ) → s < 128 → bits_to_symbol (symbol_to_bits s) ≡ s
bits_to_symbol-symbol_to_bits s h = ground (arith, all_below_sound 128 _ s symbols_table h)

pub symbol_to_bits-lt : (s : ℕ) → s < 128 → symbol_to_bits s < 1024
symbol_to_bits-lt s h = ground (arith, all_below_sound 128 _ s symbols_table h)

-- A word of ten bits is read as the symbol `s`, below 128, exactly when it is the codeword of `s`.
pub bits_to_symbol_iff :
    (b s : ℕ) → b < 1024 → s < 128 → (bits_to_symbol b ≡ s) ↔ (b ≡ symbol_to_bits s)
bits_to_symbol_iff b s hb hs =
    (λ e. ground (arith, word_cases b hb), λ e. rw e (bits_to_symbol-symbol_to_bits s hs))

codewords_incomparable :
    (s t : ℕ)
    → s < 128
    → t < 128
    → bit_and (symbol_to_bits s) (symbol_to_bits t) ≡ symbol_to_bits s
    → s ≡ t
codewords_incomparable s t hs ht e =
    ground (arith, all_below_sound 128 _ t (all_below_sound 128 _ s antichain_table hs) ht)

-- Errors in one direction are detected: a word of ten bits that differs from the codeword of `s`
-- only by ones that became zeros, or only by zeros that became ones, is read as an error, however
-- many bits are wrong.
pub one_way_errors_detected :
    (s b : ℕ)
    → s < 128
    → b < 1024
    → b ≢ symbol_to_bits s
    → (bit_and b (symbol_to_bits s) ≡ b) ⊎ (bit_and (symbol_to_bits s) b ≡ symbol_to_bits s)
    → bits_to_symbol b ≡ 255
one_way_errors_detected s b hs hb wrong lost = elim (word_cases b hb) [
  | inl e ↦ e
  | inr (lt, e) ↦ absurd (wrong (sym e ∙ ap symbol_to_bits (same lt e lost)))
]
  where
    same :
        bits_to_symbol b < 128
        → symbol_to_bits (bits_to_symbol b) ≡ b
        → (bit_and b (symbol_to_bits s) ≡ b) ⊎ (bit_and (symbol_to_bits s) b ≡ symbol_to_bits s)
        → bits_to_symbol b ≡ s
    same lt e (inl l) = codewords_incomparable (bits_to_symbol b) s lt hs (rw e l)
    same lt e (inr l) = sym (codewords_incomparable s (bits_to_symbol b) hs lt (rw e l))
