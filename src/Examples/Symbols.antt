-- ===== src/Examples/Symbols.antt =====
-- Runs of the symbol decoder on concrete symbols.
use ubersdr_dsc.Base.{
  ℕ, zero, suc, ◌<◌, ◌==◌, ◌||◌, ◌≡◌, ◌≢◌, ◌↔◌, inl, refl, arith, Bool, true, [], ◌∷◌, not, ◌&&◌,
}
use ubersdr_dsc.Base.Check.{all_below, all_below_sound}
use ubersdr_dsc.Tables.{is_end_of_signal}
use ubersdr_dsc.Decoder.{Decoder, decode_all, expected_symbols, done, no_eos}
use ubersdr_dsc.Decoder as Decoder
use ubersdr_dsc.Decoder.Symbol.{bits_to_symbol, symbol_to_bits}
use ubersdr_dsc.Decoder.Codeword.{bits_to_symbol_iff, one_way_errors_detected}
use ubersdr_dsc.Decoder.Phasing.{phasing_symbol}
use ubersdr_dsc.Decoder.Invariant.{RunIsSafe, decode_all-RunIsSafe}
use ubersdr_dsc.Decoder.Progress.{Completes, decode_all-Completes}
use ubersdr_dsc.Decoder.Spec.{tabulate, burst, corrected, EndsAfter, Endless, Reports}
use ubersdr_dsc.Decoder.Refinement.{decode_all-burst, decode_all-burst_endless}
use ubersdr_dsc.Decoder.Diversity.{Survives, decode_all-burst_survives, clean_burst_errors}
use ubersdr_dsc.Decoder.Clean.{phased, decode_all-phasing}
use ubersdr_dsc.Examples.{at, alert_bytes, damaged_bytes, decoder, ends_after, ends_after_sound}

bits_to_symbol_iff_example :
    (bits_to_symbol 0b1011111001 ≡ 125) ↔ (0b1011111001 ≡ symbol_to_bits 125)
bits_to_symbol_iff_example = bits_to_symbol_iff 0b1011111001 125 (omega arith) (omega arith)

-- Two ones of the codeword of 125 are lost.
lost_ones : (0b1001111000 ≢ symbol_to_bits 125)
unfolding symbol_to_bits
lost_ones = omega arith

one_way_errors_detected_example : bits_to_symbol 0b1001111000 ≡ 255
unfolding symbol_to_bits
one_way_errors_detected_example =
    one_way_errors_detected 125 0b1001111000 (omega arith) (omega arith) lost_ones (inl refl)

decode_all-RunIsSafe_example : RunIsSafe (decode_all (Decoder.init decoder 9) (300 ∷ 7 ∷ []))
decode_all-RunIsSafe_example = decode_all-RunIsSafe decoder 9 (300 ∷ 7 ∷ []) (omega arith)

decode_all-Completes_example :
    Completes (decode_all (Decoder.init decoder 0) (tabulate (λ k. 5) 0 86))
decode_all-Completes_example =
    decode_all-Completes decoder 0 (tabulate (λ k. 5) 0 86) (omega arith) (omega arith)

decode_all-phasing_example :
    decode_all (Decoder.init decoder 2) (125 ∷ 106 ∷ 112 ∷ [])
    ≡ decode_all (Decoder.init (phased decoder 2) 0) (112 ∷ [])
decode_all-phasing_example = decode_all-phasing decoder 2 (112 ∷ []) (omega arith)

alert_ends : EndsAfter (at alert_bytes) 0 16
unfolding is_end_of_signal ends_after
alert_ends = ends_after_sound (at alert_bytes) 0 16 refl

corrected_ends : EndsAfter (corrected (at damaged_bytes) (at alert_bytes)) 0 16
unfolding is_end_of_signal ends_after
corrected_ends = ends_after_sound (corrected (at damaged_bytes) (at alert_bytes)) 0 16 refl

decode_all-burst_example :
    Reports done alert_bytes 1
      (decode_all (Decoder.init decoder 0) (burst (at damaged_bytes) (at alert_bytes) 106 105 17))
decode_all-burst_example =
    decode_all-burst (at damaged_bytes) (at alert_bytes) decoder 106 105 16 (omega arith)
      corrected_ends

endless : (n : ℕ) (k : ℕ) → Endless (corrected (λ j. 5) (λ j. 5)) k n
unfolding is_end_of_signal
endless zero k = tt
endless (suc n) k = (refl, endless n (suc k))

decode_all-burst_endless_example :
    Reports no_eos
      (tabulate (λ k. 5) 0 41)
      0
      (decode_all (Decoder.init decoder 0) (burst (λ k. 5) (λ k. 5) 106 105 40))
decode_all-burst_endless_example =
    decode_all-burst_endless (λ k. 5) (λ k. 5) decoder 106 105 (endless 40 0)

survives_at : ℕ → Bool
survives_at j =
    not (at alert_bytes j == 255)
    && (at damaged_bytes j == at alert_bytes j || at damaged_bytes j == 255)

survives_table : all_below 18 survives_at ≡ true
unfolding all_below survives_at
survives_table = refl

survives : (j : ℕ) → j < 18 → Survives (at alert_bytes j) (at damaged_bytes j) (at alert_bytes j)
unfolding survives_at
survives j h = ground (arith, all_below_sound 18 survives_at j survives_table h)

decode_all-burst_survives_example :
    Reports done alert_bytes 1
      (decode_all (Decoder.init decoder 0) (burst (at damaged_bytes) (at alert_bytes) 106 105 17))
decode_all-burst_survives_example =
    decode_all-burst_survives (at alert_bytes) (at damaged_bytes) (at alert_bytes) decoder 106 105
      16 (omega arith) alert_ends survives

clean_burst_errors_example : Reports done alert_bytes 2 (
    decode_all
      (Decoder.init decoder 0)
      (burst (at alert_bytes) (at alert_bytes) (phasing_symbol 13) (phasing_symbol 15) 17))
clean_burst_errors_example =
    clean_burst_errors (at alert_bytes) decoder 16 (omega arith) alert_ends λ j h. (survives j h).0
