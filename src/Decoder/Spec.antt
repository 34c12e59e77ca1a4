-- ===== src/Decoder/Spec.antt =====
-- What a burst is, and what a receiver should make of it, described without the decoder's states.
-- `dx k` and `rx k` are the two received copies of symbol `k`: in a burst, DX and RX places
-- alternate, and the RX copy of a symbol comes five places after its DX copy.
use ubersdr_dsc.Base.{ℕ, zero, suc, ◌+◌, ◌!=◌, ◌≡◌, if◌then◌else◌, true, false, List, [], ◌∷◌}
use ubersdr_dsc.Tables.{is_end_of_signal}
use ubersdr_dsc.Decoder.{State, Run, fault, unfinished, complete, selected, select_errors}

-- The values of `f` at `n` places from `k` on.
abbrev pub tabulate {ℓ} : {A : Type ℓ} → (ℕ → A) → ℕ → ℕ → List A
tabulate f k zero = []
tabulate f k (suc n) = f k ∷ tabulate f (suc k) n

abbrev pub total : (ℕ → ℕ) → ℕ → ℕ → ℕ
total f k zero = 0
total f k (suc n) = f k + total f (suc k) n

-- RX and DX places in turn: `n` pairs from symbol `k` on, and one more RX place.
abbrev pub places : (ℕ → ℕ) → (ℕ → ℕ) → ℕ → ℕ → List ℕ
places dx rx k zero = rx k ∷ []
places dx rx k (suc n) = rx k ∷ dx (suc (suc (suc k))) ∷ places dx rx (suc k) n

-- From the first symbol of the message on: three DX places, with the last two phasing symbols `f`
-- and `g` in the RX places between them, and then the places from the first RX copy on.
abbrev pub burst : (ℕ → ℕ) → (ℕ → ℕ) → ℕ → ℕ → ℕ → List ℕ
burst dx rx f g n = dx 0 ∷ f ∷ dx 1 ∷ g ∷ dx 2 ∷ places dx rx 0 n

-- The symbol that the two copies give together.
abbrev pub corrected : (ℕ → ℕ) → (ℕ → ℕ) → ℕ → ℕ
corrected dx rx k = selected (dx k) (rx k)

abbrev pub disagreements : (ℕ → ℕ) → (ℕ → ℕ) → ℕ → ℕ
disagreements dx rx k = select_errors (dx k) (rx k)

-- The errors that the decoder counts in the two places of the fill.
abbrev pub fill_errors : ℕ → ℕ → ℕ
fill_errors f g = (if f != 106 then 1 else 0) + (if g != 105 then 1 else 0)

-- The first symbol from `k` on that ends a call comes `n` symbols later.
abbrev pub EndsAfter : (ℕ → ℕ) → ℕ → ℕ → Type 0
EndsAfter f k zero = is_end_of_signal (f k) ≡ true
EndsAfter f k (suc n) = (is_end_of_signal (f k) ≡ false) × EndsAfter f (suc k) n

-- None of the `n` symbols from `k` on ends a call.
abbrev pub Endless : (ℕ → ℕ) → ℕ → ℕ → Type 0
Endless f k zero = Unit
Endless f k (suc n) = (is_end_of_signal (f k) ≡ false) × Endless f (suc k) n

-- The last symbol completes a message, with these bytes and this count of errors.
abbrev pub Reports : State → List ℕ → ℕ → Run → Type 0
Reports st bytes errors fault = ⊥
Reports st bytes errors (unfinished d) = ⊥
Reports st bytes errors (complete d left) =
    (left ≡ 0) × (d.state ≡ st) × (d.bytes ≡ bytes) × (d.errors ≡ errors)
