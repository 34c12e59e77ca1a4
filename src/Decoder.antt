-- ===== src/Decoder.antt =====
-- `DSCDecoder` of src/dsc.h and src/dsc.cpp: from received symbols to the bytes of a message.
-- A `signed char` is its bit pattern, a number below 256; -1, which marks a symbol that was
-- received with an error, is 255. An index outside an array (undefined in C++) is `none`.
pub mod Symbol
pub mod Codeword
pub mod Phasing
pub mod Invariant
pub mod Progress
pub mod Spec
pub mod Refinement
pub mod Diversity
pub mod Clean
use ubersdr_dsc.Base.{
  ℕ, zero, suc, ◌+◌, ◌-◌, ◌%◌, ◌==◌, ◌!=◌, ltb, length, get_elem?, if◌then◌else◌, Bool, true, false,
  ◌&&◌, ◌||◌, Option, none, some, List, [], ◌∷◌, ◌++◌,
}
use ubersdr_dsc.Tables.{is_end_of_signal}
use Symbol.{bits_to_symbol}

-- `enum State`
pub data State : Type 0 where
  phasing fill_dx fill_rx dx rx dx_eos rx_eos done no_eos : State

-- `signed char m_buf[3]`
pub record Buffer : Type 0 where
  pub at0 : ℕ
  pub at1 : ℕ
  pub at2 : ℕ

abbrev pub buffer_size : ℕ
buffer_size = 3

-- `m_buf[i]`
abbrev pub load : Buffer → ℕ → Option ℕ
load b zero = some b.at0
load b (suc zero) = some b.at1
load b (suc (suc zero)) = some b.at2
load b (suc (suc (suc i))) = none

-- `m_buf[i] = symbol`
abbrev pub store : Buffer → ℕ → ℕ → Option Buffer
store b zero symbol = some (record b { at0 = symbol })
store b (suc zero) symbol = some (record b { at1 = symbol })
store b (suc (suc zero)) symbol = some (record b { at2 = symbol })
store b (suc (suc (suc i))) symbol = none

pub record Decoder : Type 0 where
  pub buf : Buffer
  pub state : State
  pub idx : ℕ
  pub errors : ℕ
  pub phase_idx : ℕ
  pub eos : Bool
  pub bytes : List ℕ

-- The phasing symbols that may follow the one pattern with offset 9.
abbrev pub expected_symbols : List ℕ
expected_symbols = 110 ∷ 125 ∷ 109 ∷ 125 ∷ 108 ∷ 125 ∷ 107 ∷ 125 ∷ 106 ∷ []

abbrev pub max_bytes : ℕ
max_bytes = 40

-- -1, as a `signed char`
abbrev pub error_symbol : ℕ
error_symbol = 255

infixl 5 ◌>>=◌
abbrev ◌>>=◌ {ℓ κ} : {A : Type ℓ} {B : Type κ} → Option A → (A → Option B) → Option B
none >>= f = none
some a >>= f = f a

unfoldable pub init : Decoder → ℕ → Decoder
init d offset =
    let started =
      if offset == 0
      then record d { state = fill_dx }
      else record d { phase_idx = offset; state = phasing } in
    record started { idx = 0; errors = 0; bytes = []; eos = false }

-- The value that `selectSymbol` returns, of two copies of one symbol.
abbrev pub selected : ℕ → ℕ → ℕ
selected first second =
    if first != error_symbol then first else if second != error_symbol then second else b'*'

-- What `selectSymbol` adds to the count of errors.
abbrev pub select_errors : ℕ → ℕ → ℕ
select_errors first second =
    if first != error_symbol
    then (if first != second then 1 else 0)
    else if second != error_symbol
    then 1
    else 2

unfoldable pub select_symbol : Decoder → ℕ → ℕ → Decoder × ℕ
select_symbol d first second = (
  record d {
    errors = d.errors + select_errors first second;
    bytes = d.bytes ++ selected first second ∷ [];
  },
  selected first second,
)

-- One case of the switch each.
abbrev on_phasing : Decoder → ℕ → Option (Decoder × Bool)
on_phasing d symbol = do
  expected ← if ltb 9 d.phase_idx then none else get_elem? expected_symbols (9 - d.phase_idx)
  let errors = if symbol != expected then d.errors + 1 else d.errors
  let left = d.phase_idx - 1
  some (
    record d { errors = errors; phase_idx = left; state = if left == 0 then fill_dx else phasing },
    false,
  )

abbrev on_fill_dx : Decoder → ℕ → Option (Decoder × Bool)
on_fill_dx d symbol = do
  filled ← store d.buf d.idx symbol
  some (
    if d.idx + 1 == buffer_size
        then record d { buf = filled; idx = 0; state = rx }
        else record d { buf = filled; idx = d.idx + 1; state = fill_rx },
    false,
  )

abbrev on_fill_rx : Decoder → ℕ → Option (Decoder × Bool)
on_fill_rx d symbol =
    let unexpected = (d.idx == 1 && symbol != 106) || (d.idx == 2 && symbol != 105) in
    some
      (record d { errors = if unexpected then d.errors + 1 else d.errors; state = fill_dx }, false)

abbrev on_rx : Decoder → ℕ → Option (Decoder × Bool)
on_rx d symbol = do
  first ← load d.buf d.idx
  let (selecting, a) = select_symbol d first symbol
  let next = if is_end_of_signal a then dx_eos else dx
  some (
      if ltb max_bytes (length selecting.bytes)
      then (record selecting { state = no_eos }, true)
      else (record selecting { state = next }, false))

abbrev on_dx : State → Decoder → ℕ → Option (Decoder × Bool)
on_dx next d symbol = do
  filled ← store d.buf d.idx symbol
  some (record d { buf = filled; idx = (d.idx + 1) % buffer_size; state = next }, false)

abbrev on_rx_eos : Decoder → ℕ → Option (Decoder × Bool)
on_rx_eos d symbol = do
  first ← load d.buf d.idx
  some (record (select_symbol d first symbol).0 { state = done }, true)

dispatch : State → Decoder → ℕ → Option (Decoder × Bool)
unfolding select_symbol
dispatch phasing d symbol = on_phasing d symbol
dispatch fill_dx d symbol = on_fill_dx d symbol
dispatch fill_rx d symbol = on_fill_rx d symbol
dispatch rx d symbol = on_rx d symbol
dispatch dx d symbol = on_dx rx d symbol
dispatch dx_eos d symbol = on_dx rx_eos d symbol
dispatch rx_eos d symbol = on_rx_eos d symbol
dispatch done d symbol = some (d, false)
dispatch no_eos d symbol = some (d, false)

-- The new state, and whether the message is complete.
unfoldable pub decode_symbol : Decoder → ℕ → Option (Decoder × Bool)
unfolding dispatch
decode_symbol d symbol = dispatch d.state d symbol

unfoldable pub decode_bits : Decoder → ℕ → Option (Decoder × Bool)
unfolding decode_symbol
decode_bits d bits = decode_symbol d (bits_to_symbol bits)

-- How a run over some symbols ends: an index out of bounds, the symbols used up before a message is
-- complete, or a complete message and how many symbols were left then.
pub data Run : Type 0 where
  fault : Run
  unfinished : Decoder → Run
  complete : Decoder → ℕ → Run

-- What comes after a step: the rest, unless the message is complete.
abbrev pub resume : (Decoder → Run) → ℕ → Option (Decoder × Bool) → Run
resume k left none = fault
resume k left (some (d, true)) = complete d left
resume k left (some (d, false)) = k d

-- The symbols of a burst, one after another, until a message is complete.
unfoldable pub decode_all : Decoder → List ℕ → Run
decode_all d [] = unfinished d
decode_all d (s ∷ rest) = resume (λ e. decode_all e rest) (length rest) (decode_symbol d s)
