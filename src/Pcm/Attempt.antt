-- ===== src/Pcm/Attempt.antt =====
-- How a decoder of src/pcm_v4.hpp ends: with a value, or with the text that it puts in `err`.

pub data PcmError : Type 0 where
  empty_bitstream : PcmError
  invalid_k : PcmError
  truncated_bitstream : PcmError
  truncated_remainder : PcmError
  packet_too_short : PcmError
  bad_magic : PcmError
  escape_and_silent : PcmError
  truncated_timestamp : PcmError
  delta_before_resync : PcmError
  malformed_delta : PcmError
  malformed_count : PcmError
  malformed_rate : PcmError
  truncated_channels : PcmError
  payload_before_metadata : PcmError
  truncated_quality : PcmError
  implausible_metadata : PcmError
  implausible_count : PcmError
  unknown_profile : PcmError
  bad_sample_count : PcmError
  escape_truncated : PcmError
  empty_payload : PcmError
  silent_with_body : PcmError
  no_shift : PcmError
  shift_out_of_range : PcmError

pub data Attempt {ℓ} (A : Type ℓ) : Type ℓ where
  done : A → Attempt A
  failed : PcmError → Attempt A

infixl 5 ◌>>=◌
abbrev pub ◌>>=◌ {ℓ κ} : {A : Type ℓ} {B : Type κ} → Attempt A → (A → Attempt B) → Attempt B
failed e >>= next = failed e
done a >>= next = next a
