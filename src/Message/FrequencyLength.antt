-- ===== src/Message/FrequencyLength.antt =====
-- The reads of `decodeFrequency` of src/dsc.cpp.
use ubersdr_dsc.Base.{
  ℕ, zero, suc, ◌+◌, ◌*◌, ◌≤◌, ◌<◌, ◌==◌, ◌≡◌, ◌||◌, refl, arith, if◌then◌else◌, List, [], length,
  length-append,
}
use ubersdr_dsc.Base.Text.{Text, codes}
use ubersdr_dsc.Base.Result.{Result, ok, ◌>>=◌}
use ubersdr_dsc.Message.Digits.{byte, symbols_to_digits, char_at, substr_from}
use ubersdr_dsc.Message.Frequency.{
  Frequency, all_126, int, digits_value, atoi_times, set_frequency, set_channel, by_first_digit,
  read_frequency, frequency_digits, frequency_symbols, decode_frequency,
}
use ubersdr_dsc.Message.Bounds.{
  Good, Good-bind, Good-weaken, Good-if, byte-Good, digits-Good, char_at-Good, substr_from-Good,
}

module _ (F : Type 0) where
  abbrev KeepsIdx : Frequency → Frequency → Type 0
  KeepsIdx f f' = f'.idx ≡ f.idx

  int-Good : (n : ℕ) → Good F (λ m. Unit) (int n)
  int-Good n = ground arith

  atoi_times-Good : (s : Text) (scale : ℕ) → Good F (λ m. Unit) (atoi_times s scale)
  atoi_times-Good s scale =
      Good-bind _ _ (λ m. Unit) (int (digits_value 0 s)) _ (int-Good (digits_value 0 s))
        λ n p. int-Good (n * scale)

  set_frequency-Good :
      (f : Frequency) (hz : Result ℕ)
      → Good F (λ n. Unit) hz
      → Good F (KeepsIdx f) (set_frequency f hz)
  set_frequency-Good f hz h = Good-bind _ _ _ hz _ h λ n p. refl

  set_channel-Good :
      (f : Frequency) (rest : Result Text) (after : Text)
      → Good F (λ s. Unit) rest
      → Good F (KeepsIdx f) (set_channel f rest after)
  set_channel-Good f rest after h = Good-bind _ _ _ rest _ h λ n p. refl

  by_first_digit-Good :
      (s : Text) (f : Frequency) (first : ℕ)
      → 6 ≤ length s
      → Good F (KeepsIdx f) (by_first_digit s f first)
  by_first_digit-Good s f first h =
      Good-if _ _ (first == b'0' || first == b'1' || first == b'2') _ _
        (λ x. set_frequency-Good f (atoi_times s 100) (atoi_times-Good s 100))
        λ x.
          Good-if _ _ (first == b'3') _ _
            (λ x. set_channel-Good f (substr_from s 1) [] (substr_from-Good F s 1 (omega arith)))
            λ x.
              Good-if _ _ (first == b'4') _ _
                (λ x. set_frequency-Good f (substr_from s 1 >>= λ t. atoi_times t 10) (
                  Good-bind _ _ (λ m. Unit) (substr_from s 1) _
                    (substr_from-Good F s 1 (omega arith)) λ t p. atoi_times-Good t 10))
                λ x.
                  Good-if _ _ (first == b'9') _ _
                    (λ x.
                      set_channel-Good f (substr_from s 2) (codes "VHF")
                        (substr_from-Good F s 2 (omega arith)))
                    λ x. refl

  read_frequency-Good :
      (s : Text) (f : Frequency) → 6 ≤ length s → Good F (KeepsIdx f) (read_frequency s f)
  unfolding read_frequency
  read_frequency-Good s f h =
      Good-bind _ _ _ (char_at s 0) _ (char_at-Good F s 0 (omega arith))
        λ first p. by_first_digit-Good s f first h

  all_126-Good :
      (bytes : List ℕ) (idx k : ℕ)
      → (length bytes < idx + k → F)
      → Good F (λ b. Unit) (all_126 bytes idx k)
  all_126-Good bytes idx zero h = tt
  all_126-Good bytes idx (suc k) h =
      Good-bind _ _ _ (byte bytes idx) _ (byte-Good F bytes idx λ p. h (omega arith)) λ b p.
        Good-if _ _ (b == 126) _ _ (λ x. all_126-Good bytes (idx + 1) k λ q. h (omega arith))
          λ x. tt

  abbrev pub Takes : Frequency → Frequency → Type 0
  Takes f f' = (f.idx + 3 ≤ f'.idx) × (f'.idx ≤ f.idx + 4)

  frequency_symbols-Good :
      (s : Text) → 6 ≤ length s → Good F (λ k. (3 ≤ k) × (k ≤ 4)) (frequency_symbols s)
  frequency_symbols-Good s h =
      Good-bind _ _ (λ k. (3 ≤ k) × (k ≤ 4)) (char_at s 0) _ (char_at-Good F s 0 (omega arith))
        λ first p. ground arith

  frequency_digits-Good :
      (bytes : List ℕ) (idx : ℕ) (s : Text)
      → 6 ≤ length s
      → (length bytes < idx + 4 → F)
      → Good F (λ (t : Text). 6 ≤ length t) (frequency_digits bytes idx s)
  frequency_digits-Good bytes idx s h short =
      Good-bind _ _ (λ (t : Text). 6 ≤ length t) (char_at s 0) _ (char_at-Good F s 0 (omega arith))
        λ first p.
          Good-bind _ (λ t. Unit) (λ (t : Text). 6 ≤ length t)
            (if first == b'4' then symbols_to_digits bytes (idx + 3) 1 else ok []) _
            (Good-if _ _ (first == b'4') _ _
              (λ x.
                Good-weaken _ _ _ (symbols_to_digits bytes (idx + 3) 1)
                  (digits-Good F bytes 1 (idx + 3) λ q. short (omega arith)) λ t q. tt)
              λ x. tt)
            λ more q. omega (arith, length-append s more)

  -- A frequency or channel takes three symbols or four.
  pub decode_frequency-Good :
      (bytes : List ℕ) (f : Frequency)
      → (length bytes < f.idx + 4 → F)
      → Good F (Takes f) (decode_frequency bytes f)
  unfolding decode_frequency
  decode_frequency-Good bytes f h =
      Good-bind _ _ (Takes f) (all_126 bytes f.idx 3) _
        (all_126-Good bytes f.idx 3 λ p. h (omega arith))
        λ nothing p.
          Good-if _ (Takes f) nothing _ _ (λ x. omega arith)
            λ x.
              Good-bind _ _ (Takes f) (symbols_to_digits bytes f.idx 3) _
                (digits-Good F bytes 3 f.idx λ q. h (omega arith))
                λ three q.
                  Good-bind _ _ (Takes f) (frequency_symbols three) _
                    (frequency_symbols-Good three (omega arith))
                    λ count k.
                      Good-bind _ _ (Takes f) (frequency_digits bytes f.idx three) _
                        (frequency_digits-Good bytes f.idx three (omega arith) h)
                        λ s l.
                          Good-weaken _ (KeepsIdx (record f { idx = f.idx + count })) (Takes f)
                            (read_frequency s _)
                            (read_frequency-Good s (record f { idx = f.idx + count }) l)
                            λ f' e. omega arith
