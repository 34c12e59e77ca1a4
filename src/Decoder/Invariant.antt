-- ===== src/Decoder/Invariant.antt =====
-- An invariant of the decoder of src/dsc.cpp: what holds in each of its states.
use ubersdr_dsc.Base.{
  ℕ, zero, suc, ◌-◌, ◌≤◌, ◌≡◌, refl, sym, arith, Bool, true, false, Option, none, some, List, [],
  ◌∷◌, length, length-append,
}
use ubersdr_dsc.Decoder.Phasing.{expected_symbols_lem}
use ubersdr_dsc.Decoder.{
  Buffer, load, Run, fault, unfinished, complete, resume, Decoder, State, phasing, fill_dx, fill_rx,
  dx, rx, dx_eos, rx_eos, done, no_eos, init, dispatch, decode_symbol, decode_all, selected,
}

-- What holds of a decoder in a state.
abbrev pub Fits : State → Decoder → Type 0
Fits phasing d = (1 ≤ d.phase_idx) × (d.phase_idx ≤ 9) × (d.idx ≡ 0) × (length d.bytes ≡ 0)
Fits fill_dx d = (d.idx ≤ 2) × (length d.bytes ≡ 0)
Fits fill_rx d = (1 ≤ d.idx) × (d.idx ≤ 2) × (length d.bytes ≡ 0)
Fits rx d = (d.idx ≤ 2) × (length d.bytes ≤ 40)
Fits dx d = (d.idx ≤ 2) × (1 ≤ length d.bytes) × (length d.bytes ≤ 40)
Fits dx_eos d = (d.idx ≤ 2) × (1 ≤ length d.bytes) × (length d.bytes ≤ 40)
Fits rx_eos d = (d.idx ≤ 2) × (1 ≤ length d.bytes) × (length d.bytes ≤ 40)
Fits done d = (2 ≤ length d.bytes) × (length d.bytes ≤ 41)
Fits no_eos d = length d.bytes ≡ 41

abbrev pub IsValid : Decoder → Type 0
IsValid d = Fits d.state d

-- The states after which a message is reported.
abbrev pub is_final : State → Bool
is_final done = true
is_final no_eos = true
is_final _ = false

-- A step stayed within its arrays, left a valid decoder, and reported a message exactly on
-- entering a final state.
abbrev pub IsSafe : Option (Decoder × Bool) → Type 0
IsSafe none = ⊥
IsSafe (some (d, report)) = IsValid d × (report ≡ is_final d.state)

pub init-IsValid : (d : Decoder) (offset : ℕ) → offset ≤ 9 → IsValid (init d offset)
unfolding init
init-IsValid d zero h = omega arith
init-IsValid d (suc n) h = ground arith

pub init_not_final : (d : Decoder) (offset : ℕ) → is_final (init d offset).state ≡ false
unfolding init
init_not_final d offset = ground arith

pub load_in_range : (b : Buffer) (i : ℕ) → i ≤ 2 → (v : ℕ) × (load b i ≡ some v)
load_in_range b zero h = (b.at0, refl)
load_in_range b (suc zero) h = (b.at1, refl)
load_in_range b (suc (suc zero)) h = (b.at2, refl)
load_in_range b (suc (suc (suc i))) h = absurd (omega arith)

dispatch-IsSafe :
    (st : State) (d : Decoder) (s : ℕ) → Fits st d → is_final st ≡ false → IsSafe (dispatch st d s)
unfolding dispatch
dispatch-IsSafe phasing d s v f = ground (arith, expected_symbols_lem (9 - d.phase_idx))
dispatch-IsSafe fill_dx d s v f = ground arith
dispatch-IsSafe fill_rx d s v f = ground arith
dispatch-IsSafe rx d s v f =
    let (first, e) = load_in_range d.buf d.idx v.0 in
    ground (arith, e, length-append d.bytes (selected first s ∷ []))
dispatch-IsSafe dx d s v f = ground arith
dispatch-IsSafe dx_eos d s v f = ground arith
dispatch-IsSafe rx_eos d s v f =
    let (first, e) = load_in_range d.buf d.idx v.0 in
    ground (arith, e, length-append d.bytes (selected first s ∷ []))
dispatch-IsSafe done d s v f = cc
dispatch-IsSafe no_eos d s v f = cc

pub decode_symbol-IsSafe :
    (d : Decoder) (s : ℕ) → IsValid d → is_final d.state ≡ false → IsSafe (decode_symbol d s)
unfolding decode_symbol
decode_symbol-IsSafe d s v f = dispatch-IsSafe d.state d s v f

-- The same of a whole run.
abbrev pub RunIsSafe : Run → Type 0
RunIsSafe fault = ⊥
RunIsSafe (unfinished d) = IsValid d × (is_final d.state ≡ false)
RunIsSafe (complete d left) = IsValid d × (is_final d.state ≡ true)

resume-RunIsSafe :
    (k : Decoder → Run) (left : ℕ) (o : Option (Decoder × Bool))
    → ((e : Decoder) → IsValid e → is_final e.state ≡ false → RunIsSafe (k e))
    → IsSafe o
    → RunIsSafe (resume k left o)
resume-RunIsSafe k left none h v = v
resume-RunIsSafe k left (some (d, true)) h v = (v.0, sym v.1)
resume-RunIsSafe k left (some (d, false)) h v = h d v.0 (sym v.1)

decode_all-RunIsSafe-from :
    (ss : List ℕ) (d : Decoder) → IsValid d → is_final d.state ≡ false → RunIsSafe (decode_all d ss)
unfolding decode_all
decode_all-RunIsSafe-from [] d v f = (v, f)
decode_all-RunIsSafe-from (s ∷ rest) d v f =
    resume-RunIsSafe _ _ (decode_symbol d s) (decode_all-RunIsSafe-from rest)
      (decode_symbol-IsSafe d s v f)

-- From `init` with any offset of the pattern table, whatever symbols are received, no index
-- leaves its array; the message is reported on entering DONE or NO_EOS and in no other state; and
-- the bounds of `Fits` hold, by which a reported message has 2 to 41 bytes.
pub decode_all-RunIsSafe :
    (d : Decoder) (offset : ℕ) (ss : List ℕ)
    → offset ≤ 9
    → RunIsSafe (decode_all (init d offset) ss)
decode_all-RunIsSafe d offset ss h =
    decode_all-RunIsSafe-from ss (init d offset) (init-IsValid d offset h) (init_not_final d offset)
