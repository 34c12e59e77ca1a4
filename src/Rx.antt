-- ===== src/Rx.antt =====
-- `dsc_rx` of src/dsc_rx.h and src/dsc_rx.cpp from the received bits on: how the receiver finds a
-- phasing pattern, cuts the bits into symbols, and hands a complete message on. The
-- samples and the filters that give the bits are in Demod; what the framing keeps of
-- floating-point numbers is an abstract type with the operations that the code uses.
pub mod Config
pub mod Words
pub mod Framing
pub mod Delivery
use ubersdr_dsc.Base.{
  ℕ, ◌+◌, ◌-◌, ◌*◌, ◌%◌, ◌^◌, ◌==◌, ltb, if◌then◌else◌, Bool, true, false, Option, none, some, List,
  [], ◌∷◌, ◌++◌, bit_and, bit_or,
}
use ubersdr_dsc.Base.Text.{Text}
use ubersdr_dsc.Base.Result.{Result, ok, in_bounds, ◌>>=◌}
use ubersdr_dsc.Decoder.{Decoder, decode_bits}
use ubersdr_dsc.Decoder
use ubersdr_dsc.Decoder.Phasing.{PhasingPattern, phasing_patterns}
use ubersdr_dsc.Message.{Message}
use ubersdr_dsc.Message.Decode.{dsc_message}
use Config.{RateConfig}

-- `double` and `float`: what the framing does with them.
pub record Reals (R : Type 0) : Type 0 where
  pub nought : R
  pub minus_hundred : R
  -- -(double)n / 2.0
  pub minus_half : ℕ → R
  -- a sum divided by a count
  pub mean : R → ℕ → R
  -- x > 0.0
  pub is_positive : R → Bool
  -- 10.0 * log10(x)
  pub decibels : R → R

pub record Rx (R : Type 0) : Type 0 where
  pub rate : RateConfig
  pub exp_idx : ℕ
  pub clock_count : R
  pub data_bit : Bool
  pub data_prev : Bool
  pub dsc_decoder : Decoder
  pub bits : ℕ
  pub bit_count : ℕ
  pub got_sop : Bool
  pub rssi_mag_sq_sum : R
  pub rssi_mag_sq_count : ℕ

-- A call of `m_callback`.
pub record Event (R : Type 0) : Type 0 where
  pub message : Message
  pub errors : ℕ
  pub rssi : R

-- The offset of the first pattern that the thirty bits are.
unfoldable pub search_patterns : ℕ → List PhasingPattern → Option ℕ
search_patterns pat [] = none
search_patterns pat (p ∷ rest) =
    if pat == p.pattern then some p.offset else search_patterns pat rest

-- The shift register of 32 bits takes in a bit from the right.
abbrev pub shift_in : ℕ → Bool → ℕ
shift_in bits bit = bit_or (bits * 2 % 2 ^ 32) (if bit then 1 else 0)

-- `reals` are the floating-point operations, `time_to_iso8601` is the C library's formatting of a
-- time, and `now` the time at which a message is complete.
module _ {R : Type 0} (reals : Reals R) (time_to_iso8601 : ℕ → Text) (now : ℕ) where
  -- `dsc_rx::init`
  unfoldable pub init : Rx R → Rx R
  init rx = record rx {
    exp_idx = 0;
    bits = 0;
    bit_count = 0;
    got_sop = false;
    clock_count = reals.minus_half rx.rate.samples_per_bit;
    data_bit = false;
    data_prev = false;
    rssi_mag_sq_sum = reals.nought;
    rssi_mag_sq_count = 0;
  }

  abbrev pub lock : Rx R → ℕ → Rx R
  lock rx offset = record rx {
    dsc_decoder = Decoder.init rx.dsc_decoder offset;
    got_sop = true;
    bit_count = 0;
    rssi_mag_sq_sum = reals.nought;
    rssi_mag_sq_count = 0;
  }

  -- Before the start of a phasing pattern is found: the last thirty bits are looked up.
  abbrev pub hunt : Rx R → Rx R
  hunt rx =
      let slid = record rx { bit_count = rx.bit_count - 1 } in
      let found : Rx R = elim (search_patterns (bit_and rx.bits 0x3FFFFFFF) phasing_patterns) [
        | none ↦ slid
        | some offset ↦ lock slid offset
      ] in
      if rx.bit_count == 30 then found else rx

  abbrev pub rssi_of : Rx R → R
  rssi_of rx =
      let average = reals.mean rx.rssi_mag_sq_sum rx.rssi_mag_sq_count in
      if ltb 0 rx.rssi_mag_sq_count
      then (if reals.is_positive average then reals.decibels average else reals.minus_hundred)
      else reals.minus_hundred

  -- A complete message goes to the callback, and the receiver hunts again.
  abbrev pub deliver : Rx R → Result (Rx R × List (Event R))
  deliver rx = do
    m ← dsc_message time_to_iso8601 rx.dsc_decoder.bytes now
    let event : Event R = record { message = m; errors = rx.dsc_decoder.errors; rssi = rssi_of rx }
    ok (record (init rx) { bit_count = 0 }, event ∷ [])

  -- Every tenth bit ends a symbol.
  abbrev pub collect : Rx R → Result (Rx R × List (Event R))
  collect rx =
      let symbol : Result (Rx R × List (Event R)) =
        (in_bounds (decode_bits rx.dsc_decoder (bit_and rx.bits 0x3FF)) >>= λ step.
        let rx' = record rx { dsc_decoder = step.0 } in
        if step.1 then deliver rx' else ok (record rx' { bit_count = 0 }, [])) in
      if rx.bit_count == 10 then symbol else ok (rx, [])

  unfoldable pub receive_bit : Rx R → Bool → Result (Rx R × List (Event R))
  unfolding init
  receive_bit rx bit =
      let shifted = record rx { bits = shift_in rx.bits bit; bit_count = rx.bit_count + 1 } in
      if rx.got_sop then collect shifted else ok (hunt shifted, [])

  -- Bits one after another, with the events in the order of the calls. What `processOneSample` does
  -- between two bits, of which the framing reads only the sum for the signal strength, is left out.
  unfoldable pub receive_bits : Rx R → List Bool → Result (Rx R × List (Event R))
  receive_bits rx [] = ok (rx, [])
  receive_bits rx (b ∷ rest) = receive_bit rx b >>= λ first.
      receive_bits first.0 rest >>= λ others. ok (others.0, first.1 ++ others.1)
