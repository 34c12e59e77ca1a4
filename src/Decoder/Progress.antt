-- ===== src/Decoder/Progress.antt =====
-- A measure of the symbols that the decoder of src/dsc.cpp may still take.
use ubersdr_dsc.Base.{
  ℕ, ◌+◌, ◌-◌, ◌*◌, ◌≤◌, ◌<◌, ◌≡◌, sym, arith, Bool, true, false, Option, none, some, List, [], ◌∷◌,
  length, length-append,
}
use ubersdr_dsc.Decoder.Phasing.{expected_symbols_lem}
use ubersdr_dsc.Decoder.{
  Decoder, State, phasing, fill_dx, fill_rx, dx, rx, dx_eos, rx_eos, done, no_eos, init, dispatch,
  decode_symbol, decode_all, selected, resume, Run, fault, unfinished, complete,
}
use ubersdr_dsc.Decoder.Invariant.{
  Fits, IsValid, is_final, IsSafe, decode_symbol-IsSafe, load_in_range, init-IsValid,
  init_not_final,
}

-- How many more symbols a decoder takes, at most, to report a message.
abbrev pub symbols_left : State → Decoder → ℕ
symbols_left phasing d = d.phase_idx + 86
symbols_left fill_dx d = 2 * (2 - d.idx) + 82
symbols_left fill_rx d = 2 * (3 - d.idx) + 81
symbols_left rx d = 2 * (40 - length d.bytes) + 1
symbols_left dx d = 2 * (41 - length d.bytes)
symbols_left dx_eos d = 2
symbols_left rx_eos d = 1
symbols_left done d = 0
symbols_left no_eos d = 0

symbols_left-pos :
    (st : State) (d : Decoder) → Fits st d → is_final st ≡ false → 0 < symbols_left st d
symbols_left-pos phasing d v f = omega arith
symbols_left-pos fill_dx d v f = omega arith
symbols_left-pos fill_rx d v f = omega arith
symbols_left-pos rx d v f = omega arith
symbols_left-pos dx d v f = omega arith
symbols_left-pos dx_eos d v f = omega arith
symbols_left-pos rx_eos d v f = omega arith
symbols_left-pos done d v f = cc
symbols_left-pos no_eos d v f = cc

symbols_left-init :
    (d : Decoder) (offset : ℕ) → symbols_left (init d offset).state (init d offset) ≡ 86 + offset
unfolding init
symbols_left-init d offset = ground arith

abbrev Falls : ℕ → Option (Decoder × Bool) → Type 0
Falls n none = ⊥
Falls n (some (d, true)) = Unit
Falls n (some (d, false)) = symbols_left d.state d < n

dispatch-Falls :
    (st : State) (d : Decoder) (s : ℕ)
    → Fits st d
    → is_final st ≡ false
    → Falls (symbols_left st d) (dispatch st d s)
unfolding dispatch
dispatch-Falls phasing d s v f = ground (arith, expected_symbols_lem (9 - d.phase_idx))
dispatch-Falls fill_dx d s v f = ground arith
dispatch-Falls fill_rx d s v f = ground arith
dispatch-Falls rx d s v f =
    let (first, e) = load_in_range d.buf d.idx v.0 in
    ground (arith, e, length-append d.bytes (selected first s ∷ []))
dispatch-Falls dx d s v f = ground arith
dispatch-Falls dx_eos d s v f = ground arith
dispatch-Falls rx_eos d s v f = let (first, e) = load_in_range d.buf d.idx v.0 in ground (arith, e)
dispatch-Falls done d s v f = cc
dispatch-Falls no_eos d s v f = cc

abbrev pub Completes : Run → Type 0
Completes fault = ⊥
Completes (unfinished d) = ⊥
Completes (complete d left) = (is_final d.state ≡ true) × IsValid d

resume-Completes :
    (n : ℕ) (k : Decoder → Run) (left : ℕ) (o : Option (Decoder × Bool))
    → ((e : Decoder)
        → IsValid e
        → is_final e.state ≡ false
        → symbols_left e.state e < n
        → Completes (k e))
    → IsSafe o
    → Falls n o
    → Completes (resume k left o)
resume-Completes n k left none h v f = v
resume-Completes n k left (some (d, true)) h v f = (sym v.1, v.0)
resume-Completes n k left (some (d, false)) h v f = h d v.0 (sym v.1) f

decode_all-Completes-from :
    (ss : List ℕ) (d : Decoder)
    → IsValid d
    → is_final d.state ≡ false
    → symbols_left d.state d ≤ length ss
    → Completes (decode_all d ss)
unfolding decode_all
decode_all-Completes-from [] d v f h = absurd (omega (arith, symbols_left-pos d.state d v f))
decode_all-Completes-from (s ∷ rest) d v f h =
    resume-Completes (symbols_left d.state d) _ _ (decode_symbol d s)
      (λ e v' f' l. decode_all-Completes-from rest e v' f' (omega arith))
      (decode_symbol-IsSafe d s v f) (unfold decode_symbol in dispatch-Falls d.state d s v f)

-- From `init` with an offset of the pattern table, any 86 + offset symbols complete a message:
-- the decoder does not read on for ever, whatever is received.
pub decode_all-Completes :
    (d : Decoder) (offset : ℕ) (ss : List ℕ)
    → offset ≤ 9
    → 86 + offset ≤ length ss
    → Completes (decode_all (init d offset) ss)
decode_all-Completes d offset ss h enough =
    decode_all-Completes-from ss (init d offset) (init-IsValid d offset h) (init_not_final d offset)
      (omega (arith, symbols_left-init d offset))
