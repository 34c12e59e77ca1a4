-- ===== src/Pcm/Header.antt =====
-- The packet header of src/pcm_v4.hpp: PCMv4Header and PCMv4HeaderDecoder.
pub mod Layout
pub mod Resync
use ubersdr_dsc.Base.{
  ℕ, ◌+◌, ◌*◌, ◌%◌, ◌^◌, bit_or, bit_and, Bool, true, false, ◌&&◌, ◌||◌, not, if◌then◌else◌, ltb,
  ◌==◌, ◌!=◌, Option, none, some, List, [], ◌∷◌, length, take, drop,
}
use ubersdr_dsc.Base.Int.{ℤ, pos, negsuc, ltb_ℤ}
use ubersdr_dsc.Pcm.Arith.{to_int, to_uint}
use ubersdr_dsc.Pcm.Varint.{read_uvarint, read_varint}
use ubersdr_dsc.Pcm.Attempt

-- "PCM4", little-endian.
abbrev pub pcm_v4_magic : ℕ
pcm_v4_magic = 0x344D4350

abbrev pub zstd_magic : ℕ
zstd_magic = 0xFD2FB528

abbrev pub flag_escape : ℕ
flag_escape = 2 ^ 7

abbrev pub flag_quality : ℕ
flag_quality = 2 ^ 6

abbrev pub flag_metadata : ℕ
flag_metadata = 2 ^ 5

abbrev pub flag_silent : ℕ
flag_silent = 2 ^ 4

abbrev pub flag_count : ℕ
flag_count = 2 ^ 3

abbrev pub profile_field_mask : ℕ
profile_field_mask = 0x07

-- What the decoder carries forward.
pub record HeaderState : Type 0 where
  pub have_metadata : Bool
  pub last_ts : ℕ
  pub rate : ℤ
  pub channels : ℤ
  pub count : ℤ
  pub power : ℤ
  pub noise : ℤ

abbrev pub reset_header : HeaderState
reset_header = record {
  have_metadata = false;
  last_ts = 0;
  rate = pos 0;
  channels = pos 0;
  count = pos 0;
  power = pos 0;
  noise = pos 0;
}

pub record PcmHeader : Type 0 where
  pub timestamp_nanos : ℕ
  pub sample_rate : ℤ
  pub channels : ℤ
  pub sample_count : ℤ
  -- Centidecibels, or nothing for the codepoint that means no reading.
  pub baseband_power : Option ℤ
  pub noise : Option ℤ
  pub profile : ℕ
  pub shift : ℕ
  pub escape : Bool
  pub silent : Bool

-- A flag of the header's flags byte.
unfoldable pub has_flag : ℕ → ℕ → Bool
has_flag flags mask = bit_and flags mask != 0

-- Little-endian bytes, each put below what follows it.
unfoldable pub little_endian : ℕ → List ℕ → ℕ
little_endian bits [] = 0
little_endian bits (b ∷ bs) = bit_or (little_endian bits bs * 256 % 2 ^ bits) b

unfoldable pub read_magic : List ℕ → ℕ
unfolding little_endian
read_magic bytes = little_endian 32 (take 4 bytes)

-- A stage of the decoder, whose changes to the state stay also where it fails.
abbrev pub Outcome : Type 0 → Type 0
Outcome A = HeaderState × Attempt.Attempt A

abbrev pub and_then : {A B : Type 0} → Outcome A → (HeaderState → A → Outcome B) → Outcome B
and_then (s, Attempt.failed e) next = (s, Attempt.failed e)
and_then (s, Attempt.done a) next = next s a

-- A full timestamp at a resynchronisation point.
unfoldable pub full_timestamp : HeaderState → List ℕ → Outcome (List ℕ)
unfolding little_endian
full_timestamp s rest =
    if ltb (length rest) 8
    then (s, Attempt.failed Attempt.truncated_timestamp)
    else (record s { last_ts = little_endian 64 (take 8 rest) }, Attempt.done (drop 8 rest))

advanced : HeaderState → Option (ℤ × List ℕ) → Outcome (List ℕ)
advanced s none = (s, Attempt.failed Attempt.malformed_delta)
advanced s (some (delta, rest)) =
    (record s { last_ts = (s.last_ts + to_uint 64 delta) % 2 ^ 64 }, Attempt.done rest)

unfoldable pub delta_timestamp : HeaderState → List ℕ → Outcome (List ℕ)
unfolding advanced
delta_timestamp s rest =
    if s.have_metadata
    then advanced s (read_varint rest)
    else (s, Attempt.failed Attempt.delta_before_resync)

unfoldable pub read_timestamp : ℕ → HeaderState → List ℕ → Outcome (List ℕ)
unfolding full_timestamp delta_timestamp has_flag
read_timestamp flags s rest =
    if has_flag flags flag_metadata then full_timestamp s rest else delta_timestamp s rest

-- `(int)` of a 64-bit word.
unfoldable pub narrowed : ℕ → ℤ
narrowed u = to_int 32 (u % 2 ^ 32)

counted : HeaderState → Option (ℕ × List ℕ) → Outcome (List ℕ)
unfolding narrowed
counted s none = (s, Attempt.failed Attempt.malformed_count)
counted s (some (n, rest)) = (record s { count = narrowed n }, Attempt.done rest)

unfoldable pub read_count : ℕ → HeaderState → List ℕ → Outcome (List ℕ)
unfolding counted has_flag
read_count flags s rest =
    if has_flag flags flag_count then counted s (read_uvarint rest) else (s, Attempt.done rest)

rated : HeaderState → Option (ℕ × List ℕ) → Outcome (List ℕ)
unfolding narrowed
rated s none = (s, Attempt.failed Attempt.malformed_rate)
rated s (some (rate, [])) = (s, Attempt.failed Attempt.truncated_channels)
rated s (some (rate, c ∷ rest)) =
    (record s { rate = narrowed rate; channels = pos c; have_metadata = true }, Attempt.done rest)

unfoldable pub read_metadata : ℕ → HeaderState → List ℕ → Outcome (List ℕ)
unfolding rated has_flag
read_metadata flags s rest =
    if has_flag flags flag_metadata
    then rated s (read_uvarint rest)
    else if s.have_metadata
    then (s, Attempt.done rest)
    else (s, Attempt.failed Attempt.payload_before_metadata)

-- Power and noise, each an `int16_t`.
unfoldable pub read_quality : ℕ → HeaderState → List ℕ → Outcome (List ℕ)
unfolding little_endian has_flag
read_quality flags s rest =
    if has_flag flags flag_quality
    then if ltb (length rest) 4 then (s, Attempt.failed Attempt.truncated_quality) else (
      record s {
        power = to_int 16 (little_endian 16 (take 2 rest));
        noise = to_int 16 (little_endian 16 (take 2 (drop 2 rest)));
      },
      Attempt.done (drop 4 rest),
    )
    else (s, Attempt.done rest)

-- Nothing for the codepoint -32768.
unfoldable pub quality : ℤ → Option ℤ
quality (pos n) = some (pos n)
quality (negsuc n) = if n == 32767 then none else some (negsuc n)

is_positive : ℤ → Bool
is_positive v = ltb_ℤ (pos 0) v

unfoldable pub finish : ℕ → HeaderState → List ℕ → Outcome (PcmHeader × List ℕ)
unfolding is_positive quality has_flag
finish flags s rest =
    if not (is_positive s.rate) || not (is_positive s.channels)
    then (s, Attempt.failed Attempt.implausible_metadata)
    else if not (is_positive s.count)
    then (s, Attempt.failed Attempt.implausible_count)
    else (
      s,
      Attempt.done (
        record {
          timestamp_nanos = s.last_ts;
          sample_rate = s.rate;
          channels = s.channels;
          sample_count = s.count;
          baseband_power = quality s.power;
          noise = quality s.noise;
          profile = bit_and flags profile_field_mask;
          shift = 0;
          escape = has_flag flags flag_escape;
          silent = has_flag flags flag_silent;
        },
        rest,
      ),
    )

-- The stages after the flags byte.
unfoldable pub decode_fields : ℕ → HeaderState → List ℕ → Outcome (PcmHeader × List ℕ)
unfolding read_timestamp read_count read_metadata read_quality finish
decode_fields flags s rest = and_then (read_timestamp flags s rest) λ s1 r1.
    and_then (read_count flags s1 r1) λ s2 r2.
      and_then (read_metadata flags s2 r2)
        λ s3 r3. and_then (read_quality flags s3 r3) (finish flags)

after_magic : HeaderState → List ℕ → Outcome (PcmHeader × List ℕ)
unfolding decode_fields has_flag
after_magic s [] = (s, Attempt.failed Attempt.packet_too_short)
after_magic s (flags ∷ rest) =
    if has_flag flags flag_escape && has_flag flags flag_silent
    then (s, Attempt.failed Attempt.escape_and_silent)
    else decode_fields flags s rest

-- The header and the bytes of the body.
unfoldable pub decode_header : HeaderState → List ℕ → Outcome (PcmHeader × List ℕ)
unfolding after_magic read_magic
decode_header s pkt =
    if ltb (length pkt) 5
    then (s, Attempt.failed Attempt.packet_too_short)
    else if read_magic pkt != pcm_v4_magic
    then (s, Attempt.failed Attempt.bad_magic)
    else after_magic s (drop 4 pkt)
