-- ===== src/Decoder/Refinement.antt =====
-- The decoder of src/dsc.cpp against the description of a burst in `Spec`.
use ubersdr_dsc.Base.{
  ℕ, zero, suc, ◌+◌, ◌<◌, ◌≡◌, inl, inr, refl, ◌∙◌, arith, Bool, true, false, List, [], ◌∷◌, ◌++◌,
  length, length-append, ltb, ◌!=◌, Bool-cases,
}
use mathlib.Core.List.{append_assoc}
use ubersdr_dsc.Tables.{is_end_of_signal}
use ubersdr_dsc.Decoder.{
  Buffer, Decoder, Run, fault, unfinished, complete, State, rx, done, no_eos, init, decode_symbol,
  decode_all, selected, select_errors,
}
use ubersdr_dsc.Decoder.Spec.{
  tabulate, total, places, EndsAfter, Endless, Reports, burst, corrected, disagreements,
  fill_errors,
}

-- The three symbols that wait for their second copy, oldest first, in the ring that starts at `i`.
abbrev ring : (ℕ → ℕ) → ℕ → ℕ → Buffer
ring first k zero = record { at0 = first k; at1 = first (suc k); at2 = first (suc (suc k)) }
ring first k (suc zero) = record { at1 = first k; at2 = first (suc k); at0 = first (suc (suc k)) }
ring first k (suc (suc i)) = record {
  at2 = first k;
  at0 = first (suc k);
  at1 = first (suc (suc k));
}

-- What the decoder holds besides, between two symbols.
record Rest : Type 0 where
  errors : ℕ
  phase_idx : ℕ
  eos : Bool
  bytes : List ℕ

abbrev waiting : (ℕ → ℕ) → ℕ → ℕ → Rest → Decoder
waiting first k i r = record {
  buf = ring first k i;
  state = rx;
  idx = i;
  errors = r.errors;
  phase_idx = r.phase_idx;
  eos = r.eos;
  bytes = r.bytes;
}

abbrev reported : ℕ → ℕ → Rest → Rest
reported a b r = record r {
  errors = r.errors + select_errors a b;
  bytes = r.bytes ++ selected a b ∷ [];
}

abbrev after : ℕ → ℕ
after zero = 1
after (suc zero) = 2
after (suc (suc i)) = 0

not_full : (bytes : List ℕ) (x : ℕ) → length bytes < 40 → ltb 40 (length (bytes ++ x ∷ [])) ≡ false
not_full bytes x h = ground (arith, length-append bytes (x ∷ []))

full : (bytes : List ℕ) (x : ℕ) → length bytes ≡ 40 → ltb 40 (length (bytes ++ x ∷ [])) ≡ true
full bytes x h = ground (arith, length-append bytes (x ∷ []))

pub Reports_regroup :
    (st : State) (bs cs : List ℕ) (m n : ℕ) (r : Run)
    → bs ≡ cs
    → m ≡ n
    → Reports st bs m r
    → Reports st cs n r
Reports_regroup st bs cs m n fault p q v = v
Reports_regroup st bs cs m n (unfinished d) p q v = v
Reports_regroup st bs cs m n (complete d left) p q v = (v.0, v.1, v.2 ∙ p, v.3 ∙ q)

module _ (first second : ℕ → ℕ) where
  -- A pair of places, where no message ends.
  round :
      (k i : ℕ) (r : Rest) (rest : List ℕ)
      → i < 3
      → length r.bytes < 40
      → is_end_of_signal (corrected first second k) ≡ false
      → decode_all (waiting first k i r) (second k ∷ first (suc (suc (suc k))) ∷ rest)
        ≡ decode_all (waiting first (suc k) (after i) (reported (first k) (second k) r)) rest
  unfolding decode_all decode_symbol
  round k zero r rest h l e = rw (not_full r.bytes (corrected first second k) l, e)
  round k (suc zero) r rest h l e = rw (not_full r.bytes (corrected first second k) l, e)
  round k (suc (suc zero)) r rest h l e = rw (not_full r.bytes (corrected first second k) l, e)
  round k (suc (suc (suc i))) r rest h l e = absurd (omega arith)

  -- The last symbol of the message proper, and the check symbol after it.
  last_round :
      (k i : ℕ) (r : Rest)
      → i < 3
      → length r.bytes < 40
      → is_end_of_signal (corrected first second k) ≡ true
      → Reports done
          (r.bytes ++ tabulate (corrected first second) k 2)
          (r.errors + total (disagreements first second) k 2)
          (decode_all (waiting first k i r) (places first second k 1))
  unfolding decode_all decode_symbol
  last_round k zero r h l e =
      rw (not_full r.bytes (corrected first second k) l, e)
        (refl, refl, append_assoc r.bytes _ _, omega arith)
  last_round k (suc zero) r h l e =
      rw (not_full r.bytes (corrected first second k) l, e)
        (refl, refl, append_assoc r.bytes _ _, omega arith)
  last_round k (suc (suc zero)) r h l e =
      rw (not_full r.bytes (corrected first second k) l, e)
        (refl, refl, append_assoc r.bytes _ _, omega arith)
  last_round k (suc (suc (suc i))) r h l e = absurd (omega arith)

  -- The 41st symbol of a message that does not end.
  full_round :
      (k i : ℕ) (r : Rest)
      → i < 3
      → length r.bytes ≡ 40
      → Reports no_eos
          (r.bytes ++ tabulate (corrected first second) k 1)
          (r.errors + total (disagreements first second) k 1)
          (decode_all (waiting first k i r) (places first second k 0))
  unfolding decode_all decode_symbol
  full_round k zero r h l =
      rw (full r.bytes (corrected first second k) l) (refl, refl, refl, omega arith)
  full_round k (suc zero) r h l =
      rw (full r.bytes (corrected first second k) l) (refl, refl, refl, omega arith)
  full_round k (suc (suc zero)) r h l =
      rw (full r.bytes (corrected first second k) l) (refl, refl, refl, omega arith)
  full_round k (suc (suc (suc i))) r h l = absurd (omega arith)

  after-lt : (i : ℕ) → after i < 3
  after-lt zero = omega arith
  after-lt (suc zero) = omega arith
  after-lt (suc (suc i)) = omega arith

  rounds_ending :
      (m k i : ℕ) (r : Rest)
      → i < 3
      → length r.bytes + m < 40
      → EndsAfter (corrected first second) k m
      → Reports done
          (r.bytes ++ tabulate (corrected first second) k (suc (suc m)))
          (r.errors + total (disagreements first second) k (suc (suc m)))
          (decode_all (waiting first k i r) (places first second k (suc m)))
  rounds_ending zero k i r h l e = last_round k i r h (omega arith) e
  rounds_ending (suc m) k i r h l e =
      rw (round k i r (places first second (suc k) (suc m)) h (omega arith) e.0) (
        Reports_regroup _ _ _ _ _ _ (append_assoc r.bytes _ _) (omega arith) (
          rounds_ending m (suc k) (after i) (reported (first k) (second k) r) (after-lt i)
            (omega (arith, length-append r.bytes (corrected first second k ∷ []))) e.1))

  rounds_endless :
      (m k i : ℕ) (r : Rest)
      → i < 3
      → length r.bytes + m ≡ 40
      → Endless (corrected first second) k m
      → Reports no_eos
          (r.bytes ++ tabulate (corrected first second) k (suc m))
          (r.errors + total (disagreements first second) k (suc m))
          (decode_all (waiting first k i r) (places first second k m))
  rounds_endless zero k i r h l e = full_round k i r h (omega arith)
  rounds_endless (suc m) k i r h l e =
      rw (round k i r (places first second (suc k) m) h (omega arith) e.0) (
        Reports_regroup _ _ _ _ _ _ (append_assoc r.bytes _ _) (omega arith) (
          rounds_endless m (suc k) (after i) (reported (first k) (second k) r) (after-lt i)
            (omega (arith, length-append r.bytes (corrected first second k ∷ []))) e.1))

  abbrev filled : Decoder → ℕ → ℕ → Rest
  filled d f g = record {
    errors = fill_errors f g;
    phase_idx = d.phase_idx;
    eos = false;
    bytes = [];
  }

  fill_lem :
      (d : Decoder) (f g n : ℕ)
      → decode_all (init d 0) (burst first second f g n)
        ≡ decode_all (waiting first 0 0 (filled d f g)) (places first second 0 n)
  unfolding decode_all decode_symbol init
  fill_lem d f g n = elim (Bool-cases (f != 106)) [
    | inl p ↦ elim (Bool-cases (g != 105)) [ inl q ↦ rw (p, q) | inr q ↦ rw (p, q) ]
    | inr p ↦ elim (Bool-cases (g != 105)) [ inl q ↦ rw (p, q) | inr q ↦ rw (p, q) ]
  ]

  -- A burst whose symbol `n`, below 40, is the first to end a call is reported after the RX copy of
  -- symbol `n + 1`: the message is the corrected symbols 0 to `n + 1`, the last being the check
  -- symbol, and the errors are those of the fill and the disagreements of the copies.
  pub decode_all-burst :
      (d : Decoder) (f g n : ℕ)
      → n < 40
      → EndsAfter (corrected first second) 0 n
      → Reports done
          (tabulate (corrected first second) 0 (suc (suc n)))
          (fill_errors f g + total (disagreements first second) 0 (suc (suc n)))
          (decode_all (init d 0) (burst first second f g (suc n)))
  decode_all-burst d f g n h e =
      rw (fill_lem d f g (suc n)) (rounds_ending n 0 0 (filled d f g) (omega arith) (omega arith) e)

  -- A burst none of whose first 40 symbols ends a call is given up after 41 symbols, in the state
  -- NO_EOS: they are reported, corrected, with the errors of the fill and the disagreements of
  -- the copies.
  pub decode_all-burst_endless :
      (d : Decoder) (f g : ℕ)
      → Endless (corrected first second) 0 40
      → Reports no_eos
          (tabulate (corrected first second) 0 41)
          (fill_errors f g + total (disagreements first second) 0 41)
          (decode_all (init d 0) (burst first second f g 40))
  decode_all-burst_endless d f g e =
      rw (fill_lem d f g 40) (rounds_endless 40 0 0 (filled d f g) (omega arith) refl e)
