-- ===== src/Decoder/Diversity.antt =====
-- Time diversity: what the second copy of each symbol makes good.
use ubersdr_dsc.Base.{ℕ, zero, suc, ◌+◌, ◌≤◌, ◌<◌, ◌≡◌, ◌≢◌, ◌⊎◌, inl, inr, refl, arith}
use ubersdr_dsc.Decoder.{Decoder, done, init, decode_all, selected}
use ubersdr_dsc.Decoder.Phasing.{phasing_symbol}
use ubersdr_dsc.Decoder.Spec.{
  tabulate, total, burst, corrected, disagreements, fill_errors, EndsAfter, Reports,
}
use ubersdr_dsc.Decoder.Refinement.{decode_all-burst, Reports_regroup}

-- At least one copy of a symbol came through, and the first is not a wrong symbol: it is right, or
-- it was received with a detected error (255) and the second is right.
abbrev pub Survives : ℕ → ℕ → ℕ → Type 0
Survives s first second = (s ≢ 255) × ((first ≡ s) ⊎ ((first ≡ 255) × (second ≡ s)))

selected-Survives : (s first second : ℕ) → Survives s first second → selected first second ≡ s
selected-Survives s first second (h, inl e) = ground arith
selected-Survives s first second (h, inr (e, e')) = ground arith

-- Equality of two sequences at the `n` places from `k` on.
abbrev Same : (ℕ → ℕ) → (ℕ → ℕ) → ℕ → ℕ → Type 0
Same f g k zero = Unit
Same f g k (suc n) = (f k ≡ g k) × Same f g (suc k) n

tabulate-Same : (f g : ℕ → ℕ) (k n : ℕ) → Same f g k n → tabulate f k n ≡ tabulate g k n
tabulate-Same f g k zero h = refl
tabulate-Same f g k (suc n) h = cc (h.0, tabulate-Same f g (suc k) n h.1)

EndsAfter-Same : (f g : ℕ → ℕ) (k n : ℕ) → Same f g k (suc n) → EndsAfter g k n → EndsAfter f k n
EndsAfter-Same f g k zero h e = rw h.0 e
EndsAfter-Same f g k (suc n) h e = (rw h.0 e.0, EndsAfter-Same f g (suc k) n h.1 e.1)

Same-shorter : (f g : ℕ → ℕ) (k n : ℕ) → Same f g k (suc n) → Same f g k n
Same-shorter f g k zero h = tt
Same-shorter f g k (suc n) h = (h.0, Same-shorter f g (suc k) n h.1)

total_zero : (f : ℕ → ℕ) (k n : ℕ) → ((j : ℕ) → k ≤ j → j < k + n → f j ≡ 0) → total f k n ≡ 0
total_zero f k zero h = refl
total_zero f k (suc n) h = omega (
  arith,
  h k (omega arith) (omega arith),
  total_zero f (suc k) n (λ j p q. h j (omega arith) (omega arith)),
)

module _ (s first second : ℕ → ℕ) where
  corrected-Same :
      (k n : ℕ)
      → ((j : ℕ) → k ≤ j → j < k + n → Survives (s j) (first j) (second j))
      → Same (corrected first second) s k n
  corrected-Same k zero h = tt
  corrected-Same k (suc n) h = (
    selected-Survives (s k) (first k) (second k) (h k (omega arith) (omega arith)),
    corrected-Same (suc k) n (λ j p q. h j (omega arith) (omega arith)),
  )

  -- Where the first copy of each symbol is right, or is detected as an error while the second copy
  -- is right, the message is received as it was sent: its symbols up to the first, `n`, that ends a
  -- call (`n` below 40), and the check symbol. Wrong first copies that are codewords are left out.
  pub decode_all-burst_survives :
      (d : Decoder) (f g n : ℕ)
      → n < 40
      → EndsAfter s 0 n
      → ((j : ℕ) → j < suc (suc n) → Survives (s j) (first j) (second j))
      → Reports done
          (tabulate s 0 (suc (suc n)))
          (fill_errors f g + total (disagreements first second) 0 (suc (suc n)))
          (decode_all (init d 0) (burst first second f g (suc n)))
  decode_all-burst_survives d f g n lt ends h =
      let same : Same (corrected first second) s 0 (suc (suc n)) =
        corrected-Same 0 (suc (suc n)) (λ j p q. h j (omega arith)) in
      Reports_regroup _ _ _ _ _ _ (tabulate-Same (corrected first second) s 0 (suc (suc n)) same)
        refl
        (decode_all-burst first second d f g n lt
          (EndsAfter-Same (corrected first second) s 0 n (Same-shorter _ _ 0 (suc n) same) ends))

-- A burst received without any error, with the next two symbols of the phasing sequence, 105 and
-- 104, in the RX places of the fill, is received as it was sent; but two errors are counted, since
-- the decoder looks for 106 and 105 there.
pub clean_burst_errors :
    (s : ℕ → ℕ) (d : Decoder) (n : ℕ)
    → n < 40
    → EndsAfter s 0 n
    → ((j : ℕ) → j < suc (suc n) → s j ≢ 255)
    → Reports done
        (tabulate s 0 (suc (suc n)))
        2
        (decode_all (init d 0) (burst s s (phasing_symbol 13) (phasing_symbol 15) (suc n)))
clean_burst_errors s d n lt ends h =
    Reports_regroup _ _ _ _ _ _ refl
      (omega (
        arith,
        total_zero (disagreements s s) 0 (suc (suc n))
            λ j p q. no_disagreement j (h j (omega arith)),
      ))
      (decode_all-burst_survives s s s d 105 104 n lt ends (λ j p. (h j p, inl refl)))
  where
    no_disagreement : (j : ℕ) → s j ≢ 255 → disagreements s s j ≡ 0
    no_disagreement j h' = ground arith
