-- ===== src/Message/Frequency.antt =====
-- `decodeFrequency` of src/dsc.cpp.
use ubersdr_dsc.Base.{
  ℕ, zero, suc, ◌+◌, ◌-◌, ◌*◌, ◌^◌, ◌==◌, ltb, if◌then◌else◌, Bool, true, false, ◌||◌, List, [],
  ◌∷◌, ◌++◌,
}
use ubersdr_dsc.Base.Text.{Text, codes}
use ubersdr_dsc.Base.Result.{Result, ok, overflow, ◌>>=◌}
use ubersdr_dsc.Message.Digits.{byte, char_at, substr_from, symbols_to_digits}

-- The value of a text of digits.
abbrev pub digits_value : ℕ → Text → ℕ
digits_value acc [] = acc
digits_value acc (c ∷ s) = digits_value (acc * 10 + (c - b'0')) s

-- An `int` that is not negative.
abbrev pub int : ℕ → Result ℕ
int n = if ltb n (2 ^ 31) then ok n else overflow

-- `atoi` of a text of digits, times `scale`.
abbrev pub atoi_times : Text → ℕ → Result ℕ
atoi_times s scale = do n ← int (digits_value 0 s); int (n * scale)

pub record Frequency : Type 0 where
  pub idx : ℕ
  pub frequency : ℕ
  pub channel : Text

-- Whether three bytes are 126; a byte is read only if those before it are.
abbrev pub all_126 : List ℕ → ℕ → ℕ → Result Bool
all_126 bytes idx zero = ok true
all_126 bytes idx (suc n) = do
  b ← byte bytes idx
  let rest = all_126 bytes (idx + 1) n
  if b == 126 then rest else ok false

abbrev pub set_frequency : Frequency → Result ℕ → Result Frequency
set_frequency f hz = hz >>= λ n. ok (record f { frequency = n })

abbrev pub set_channel : Frequency → Result Text → Text → Result Frequency
set_channel f rest after = rest >>= λ s. ok (record f { channel = codes "CH" ++ s ++ after })

-- What the digits say, by the first of them.
abbrev pub by_first_digit : Text → Frequency → ℕ → Result Frequency
by_first_digit s f first =
    if first == b'0' || first == b'1' || first == b'2'
    then set_frequency f (atoi_times s 100)
    else if first == b'3'
    then set_channel f (substr_from s 1) []
    else if first == b'4'
    then set_frequency f (substr_from s 1 >>= λ t. atoi_times t 10)
    else if first == b'9'
    then set_channel f (substr_from s 2) (codes "VHF")
    else ok f

unfoldable pub read_frequency : Text → Frequency → Result Frequency
read_frequency s f = char_at s 0 >>= by_first_digit s f

-- Three symbols, and one more where the first digit is 4.
abbrev pub frequency_digits : List ℕ → ℕ → Text → Result Text
frequency_digits bytes idx s = do
  first ← char_at s 0
  more ← if first == b'4' then symbols_to_digits bytes (idx + 3) 1 else ok []
  ok (s ++ more)

abbrev pub frequency_symbols : Text → Result ℕ
frequency_symbols s = do first ← char_at s 0; ok (if first == b'4' then 4 else 3)

unfoldable pub decode_frequency : List ℕ → Frequency → Result Frequency
unfolding read_frequency
decode_frequency bytes f = do
  nothing ← all_126 bytes f.idx 3
  let something = do
    three ← symbols_to_digits bytes f.idx 3
    count ← frequency_symbols three
    s ← frequency_digits bytes f.idx three
    read_frequency s (record f { idx = f.idx + count })
  if nothing then ok (record f { idx = f.idx + 3 }) else something
