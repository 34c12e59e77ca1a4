-- ===== src/Rx/Config.antt =====
-- `dsc_rx::rateConfigFor` of src/dsc_rx.cpp: the sample counts that a rate determines. The three
-- floating-point fields are not modelled; the low-pass filter's sample rate is the rate itself.
use ubersdr_dsc.Base.{
  ℕ, ◌*◌, ◌/◌, ◌%◌, ◌^◌, ◌<◌, ◌==◌, ltb, if◌then◌else◌, ◌&&◌, Bool, true, false, ◌≡◌, arith, ◌↔◌,
  ap,
}
use ubersdr_dsc.Base.Int.{ℤ, pos, negsuc}

abbrev channel_sample_rate : ℕ
channel_sample_rate = 1000

abbrev baud_rate : ℕ
baud_rate = 100

abbrev frequency_shift : ℕ
frequency_shift = 170

abbrev base_exp_length : ℕ
base_exp_length = 600

pub record RateConfig : Type 0 where
  pub supported : Bool
  pub sample_rate : ℤ
  pub rate_scale : ℕ
  pub exp_length : ℕ
  pub samples_per_bit : ℕ
  pub movmax_window : ℕ

abbrev unsupported : ℤ → RateConfig
unsupported rate = record {
  supported = false;
  sample_rate = rate;
  rate_scale = 0;
  exp_length = 0;
  samples_per_bit = 0;
  movmax_window = 0;
}

abbrev scaled : ℤ → ℕ → RateConfig
scaled rate scale = record {
  supported = true;
  sample_rate = rate;
  rate_scale = scale;
  exp_length = base_exp_length * scale;
  samples_per_bit = channel_sample_rate * scale / baud_rate;
  movmax_window = channel_sample_rate * scale / baud_rate * 8;
}

unfoldable pub rate_config_for : ℤ → RateConfig
rate_config_for (negsuc n) = unsupported (negsuc n)
rate_config_for (pos n) =
    if ltb 0 n && n % channel_sample_rate == 0
    then scaled (pos n) (n / channel_sample_rate)
    else unsupported (pos n)

-- What the demodulator needs of a supported configuration.
pub record IsTuned (rate : ℕ) (c : RateConfig) : Type 0 where
  -- The table of the exponential closes: it holds 51 whole cycles of half the frequency shift.
  pub closes : c.exp_length * (frequency_shift / 2) ≡ 51 * rate
  -- A bit is a whole number of samples, and the moving maximum eight bits.
  pub whole_bits : c.samples_per_bit * baud_rate ≡ rate
  pub window : c.movmax_window ≡ 8 * c.samples_per_bit
  -- No `int` overflows, and the table is not empty.
  pub fits : c.exp_length < 2 ^ 31
  pub nonempty : 0 < c.exp_length

pos-injective : (a b : ℕ) → pos a ≡ pos b → a ≡ b
pos-injective a b e = cc

-- A rate is supported exactly when it is a positive multiple of 1000 Hz.
pub supported_iff :
    (rate : ℤ)
    → ((rate_config_for rate).supported ≡ true) ↔ ((k : ℕ) × (0 < k) × (rate ≡ pos (1000 * k)))
unfolding rate_config_for
supported_iff (negsuc n) = (λ e. cc, λ h. absurd (grind (arith, h.2)))
supported_iff (pos n) = (
  λ e. (n / 1000, ground arith, ap pos (ground arith)),
  λ h. ground (arith, h.1, pos-injective n (1000 * h.0) h.2),
)

-- A supported rate below 2 ^ 31 is tuned: whole cycles in the exponential table, whole samples in a
-- bit, a moving maximum of eight bits, and no overflow.
pub rate_config_for-IsTuned :
    (n : ℕ)
    → n < 2 ^ 31
    → (rate_config_for (pos n)).supported ≡ true
    → IsTuned n (rate_config_for (pos n))
unfolding rate_config_for
rate_config_for-IsTuned n h s = ground arith
