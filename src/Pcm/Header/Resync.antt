-- ===== src/Pcm/Header/Resync.antt =====
-- Resynchronisation points in the header decoder of src/pcm_v4.hpp.
use ubersdr_dsc.Base.{
  ℕ, zero, suc, ◌-◌, ◌*◌, ◌/◌, ◌%◌, ◌^◌, ◌<◌, ◌≡◌, refl, ap, ◌∙◌, arith, bit_or, bit_and, true,
  false, ◌&&◌, ltb, List, ◌∷◌, ◌++◌, length, length-append,
}
use ubersdr_dsc.Base.Int.{ℤ, pos, negsuc}
use ubersdr_dsc.Pcm.Arith.{to_int, to_uint}
use ubersdr_dsc.Pcm.Attempt.{done}
use ubersdr_dsc.Pcm.Header.{
  HeaderState, PcmHeader, decode_header, after_magic, decode_fields, read_timestamp, full_timestamp,
  read_count, read_metadata, read_quality, finish, counted, rated, has_flag, little_endian,
  read_magic, narrowed, quality, is_positive, flag_metadata, flag_count, flag_quality, flag_escape,
  flag_silent, profile_field_mask,
}
use ubersdr_dsc.Pcm.Header.Layout.{le_bytes, write_resync}
use ubersdr_dsc.Pcm.Varint.Roundtrip.{write_uvarint, read-write_uvarint}
use ubersdr_dsc.Pcm.Codec.Stages.{IsInt16}
use ubersdr_dsc.Pcm.Rice.Words.{bit_or_below}
use native.Mathlib.Nat.{mod-eq_of_lt, pow-suc}

-- Little-endian bytes read back.
put_below : (bits v : ℕ) → v < 2 ^ bits → bit_or (v / 256 * 256 % 2 ^ bits) (v % 256) ≡ v
put_below bits v h =
    ap (λ (t : ℕ). bit_or t (v % 256)) (mod-eq_of_lt (omega arith))
    ∙ bit_or_below 8 (v / 256) (v % 256) (omega arith)
    ∙ omega arith

little_endian-le_bytes :
    (bits n v : ℕ) → v < 2 ^ bits → v < 256 ^ n → little_endian bits (le_bytes n v) ≡ v
unfolding little_endian
little_endian-le_bytes bits zero v h k = omega arith
little_endian-le_bytes bits (suc n) v h k =
    rw (little_endian-le_bytes bits n (v / 256) (omega arith) (omega (arith, pow-suc 256 n)))
      (put_below bits v h)

little_endian_8 : (v : ℕ) → v < 2 ^ 64 → little_endian 64 (le_bytes 8 v) ≡ v
little_endian_8 v h = little_endian-le_bytes 64 8 v h h

little_endian_2 : (v : ℕ) → v < 2 ^ 16 → little_endian 16 (le_bytes 2 v) ≡ v
little_endian_2 v h = little_endian-le_bytes 16 2 v h h

signed_16 : (q : ℤ) → IsInt16 q → to_int 16 (little_endian 16 (le_bytes 2 (to_uint 16 q))) ≡ q
unfolding to_int to_uint
signed_16 (pos n) h = rw (little_endian_2 (n % 2 ^ 16) (omega arith)) (ground arith)
signed_16 (negsuc n) h = rw (little_endian_2 (2 ^ 16 - 1 - n % 2 ^ 16) (omega arith)) (ground arith)

narrowed_lem : (n : ℕ) → n < 2 ^ 31 → narrowed n ≡ pos n
unfolding narrowed to_int
narrowed_lem n h = ground arith

-- What the layout leaves in the state.
abbrev pub resynced : HeaderState → ℕ → ℕ → ℕ → ℕ → ℤ → ℤ → HeaderState
resynced s ts count rate channels power noise = record {
  have_metadata = true;
  last_ts = ts;
  rate = pos rate;
  channels = pos channels;
  count = pos count;
  power = power;
  noise = noise;
}

-- The stages on the layout's parts.
timestamp_stage :
    (flags ts : ℕ) (s : HeaderState) (rest : List ℕ)
    → has_flag flags flag_metadata ≡ true
    → ts < 2 ^ 64
    → read_timestamp flags s (le_bytes 8 ts ++ rest) ≡ (record s { last_ts = ts }, done rest)
unfolding read_timestamp full_timestamp
timestamp_stage flags ts s rest set h =
    let long : ltb (length (le_bytes 8 ts ++ rest)) 8 ≡ false =
      ground (arith, length-append (le_bytes 8 ts) rest) in
    rw (set, long) (ap (λ (t : ℕ). (record s { last_ts = t }, done rest)) (little_endian_8 ts h))

count_stage :
    (flags count : ℕ) (s : HeaderState) (rest : List ℕ)
    → has_flag flags flag_count ≡ true
    → count < 2 ^ 31
    → read_count flags s (write_uvarint count ++ rest) ≡ (record s { count = pos count }, done rest)
unfolding read_count counted
count_stage flags count s rest set h =
    rw (set, read-write_uvarint count rest (omega arith), narrowed_lem count h) refl

metadata_stage :
    (flags rate channels : ℕ) (s : HeaderState) (rest : List ℕ)
    → has_flag flags flag_metadata ≡ true
    → rate < 2 ^ 31
    → read_metadata flags s (write_uvarint rate ++ channels ∷ rest)
      ≡ (record s { rate = pos rate; channels = pos channels; have_metadata = true }, done rest)
unfolding read_metadata rated
metadata_stage flags rate channels s rest set h =
    rw (set, read-write_uvarint rate (channels ∷ rest) (omega arith), narrowed_lem rate h) refl

quality_stage :
    (flags : ℕ) (power noise : ℤ) (s : HeaderState) (rest : List ℕ)
    → has_flag flags flag_quality ≡ true
    → IsInt16 power
    → IsInt16 noise
    → read_quality flags s
        (le_bytes 2 (to_uint 16 power) ++ (le_bytes 2 (to_uint 16 noise) ++ rest))
      ≡ (record s { power = power; noise = noise }, done rest)
unfolding read_quality
quality_stage flags power noise s rest set h k =
    let long : ltb
          (length (le_bytes 2 (to_uint 16 power) ++ (le_bytes 2 (to_uint 16 noise) ++ rest))) 4
        ≡ false =
      ground arith in
    rw (set, long)
      (ap
          (λ (p : ℤ). (
            record s {
              power = p;
              noise = to_int 16 (little_endian 16 (le_bytes 2 (to_uint 16 noise)));
            },
            done rest,
          ))
          (signed_16 power h)
        ∙ ap (λ (n : ℤ). (record s { power = power; noise = n }, done rest)) (signed_16 noise k))

-- The header that the fields make.
abbrev pub resync_header : ℕ → ℕ → ℕ → ℕ → ℕ → ℤ → ℤ → PcmHeader
resync_header flags ts count rate channels power noise = record {
  timestamp_nanos = ts;
  sample_rate = pos rate;
  channels = pos channels;
  sample_count = pos count;
  baseband_power = quality power;
  noise = quality noise;
  profile = bit_and flags profile_field_mask;
  shift = 0;
  escape = has_flag flags flag_escape;
  silent = has_flag flags flag_silent;
}

positive : (n : ℕ) → 0 < n → is_positive (pos n) ≡ true
unfolding is_positive
positive n h = ground arith

-- From every state, the first packets of a stream included: a resynchronisation point with a
-- count and a quality, whose flags do not say both escape and silent, laid out as the header's
-- description says, with a timestamp of 64 bits, a positive count and rate below 2 ^ 31, a
-- positive number of channels, and powers of 16 bits, is read as exactly these fields; what
-- follows them is the body, and the state carries all of them on.
pub decode_header-write_resync :
    (s : HeaderState) (flags ts count rate channels : ℕ) (power noise : ℤ) (body : List ℕ)
    → has_flag flags flag_metadata ≡ true
    → has_flag flags flag_count ≡ true
    → has_flag flags flag_quality ≡ true
    → (has_flag flags flag_escape && has_flag flags flag_silent) ≡ false
    → ts < 2 ^ 64
    → (0 < count) × (count < 2 ^ 31)
    → (0 < rate) × (rate < 2 ^ 31)
    → 0 < channels
    → IsInt16 power × IsInt16 noise
    → decode_header s (write_resync flags ts count rate channels power noise body) ≡ (
      resynced s ts count rate channels power noise,
      done (resync_header flags ts count rate channels power noise, body),
    )
unfolding decode_header write_resync after_magic decode_fields finish read_magic little_endian
decode_header-write_resync s flags ts count rate channels power noise body metadata counts qualities
      exclusive ts_fits count_fits rate_fits some_channels levels =
    let rest2 = le_bytes 2 (to_uint 16 power) ++ (le_bytes 2 (to_uint 16 noise) ++ body) in
    let rest1 = write_uvarint rate ++ channels ∷ rest2 in
    let long : ltb (length (write_resync flags ts count rate channels power noise body)) 5 ≡ false =
      ground arith in
    rw
      (
        long,
        exclusive,
        timestamp_stage flags ts s (write_uvarint count ++ rest1) metadata ts_fits,
        count_stage flags count (record s { last_ts = ts }) rest1 counts count_fits.1,
        metadata_stage flags rate channels (record s { last_ts = ts; count = pos count }) rest2
            metadata rate_fits.1,
        quality_stage flags power noise
            (record s {
              last_ts = ts;
              count = pos count;
              rate = pos rate;
              channels = pos channels;
              have_metadata = true;
            })
            body qualities levels.0 levels.1,
        positive rate rate_fits.0,
        positive channels some_channels,
        positive count count_fits.0,
      )
      refl
