-- ===== src/Decoder/Clean.antt =====
-- The rest of the phasing sequence before a burst.
use ubersdr_dsc.Base.{ℕ, zero, suc, ◌-◌, ◌≤◌, ◌≡◌, refl, arith, List, ◌++◌, ◌==◌, if◌then◌else◌}
use ubersdr_dsc.Decoder.{Decoder, init, decode_symbol, decode_all}
use ubersdr_dsc.Decoder.Phasing.{phasing_symbol}
use ubersdr_dsc.Decoder.Spec.{tabulate}

-- The phasing symbols from place `12 - n` to the last.
abbrev pub phasing_tail : ℕ → List ℕ
phasing_tail n = tabulate phasing_symbol (12 - n) n

-- What is left of a decoder once the phasing is over.
abbrev pub phased : Decoder → ℕ → Decoder
phased d offset = record d { phase_idx = if offset == 0 then d.phase_idx else 0 }

-- The phasing symbols that follow a pattern of the table leave the decoder as if it had been
-- started behind them, and count no error.
pub decode_all-phasing :
    (d : Decoder) (offset : ℕ) (rest : List ℕ)
    → offset ≤ 9
    → decode_all (init d offset) (phasing_tail offset ++ rest)
      ≡ decode_all (init (phased d offset) 0) rest
unfolding decode_all decode_symbol init
decode_all-phasing d zero rest h = refl
decode_all-phasing d (suc zero) rest h = refl
decode_all-phasing d (suc (suc zero)) rest h = refl
decode_all-phasing d (suc (suc (suc zero))) rest h = refl
decode_all-phasing d (suc (suc (suc (suc zero)))) rest h = refl
decode_all-phasing d (suc (suc (suc (suc (suc zero))))) rest h = refl
decode_all-phasing d (suc (suc (suc (suc (suc (suc zero)))))) rest h = refl
decode_all-phasing d (suc (suc (suc (suc (suc (suc (suc zero))))))) rest h = refl
decode_all-phasing d (suc (suc (suc (suc (suc (suc (suc (suc zero)))))))) rest h = refl
decode_all-phasing d (suc (suc (suc (suc (suc (suc (suc (suc (suc zero))))))))) rest h = refl
decode_all-phasing d (suc (suc (suc (suc (suc (suc (suc (suc (suc (suc n)))))))))) rest h =
    absurd (omega arith)
