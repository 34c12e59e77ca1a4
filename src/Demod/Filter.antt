-- ===== src/Demod/Filter.antt =====
-- `FirFilter` of src/firfilter.h: a filter with symmetric taps over a ring of samples.
pub mod Convolution
use ubersdr_dsc.Base.{
  ℕ, zero, suc, ◌+◌, ◌-◌, ◌==◌, if◌then◌else◌, List, [], ◌∷◌, length, none, some, get_elem?,
}

-- What the filter does with samples of a type `C` and taps of a type `R`, both floating point.
pub record Products (R : Type 0) (C : Type 0) : Type 0 where
  pub nothing : C
  pub plus : C → C → C
  pub scaled : C → R → C

-- The taps up to the middle one, which comes last.
pub record FirFilter (R : Type 0) (C : Type 0) : Type 0 where
  pub taps : List R
  pub samples : List C
  pub ptr : ℕ

abbrev pub set_elem : {C : Type 0} → List C → ℕ → C → List C
set_elem [] i v = []
set_elem (x ∷ xs) zero v = v ∷ xs
set_elem (x ∷ xs) (suc i) v = x ∷ set_elem xs i v

-- The places before and after one in a ring.
abbrev pub before : ℕ → ℕ → ℕ
before n a = if a == 0 then n - 1 else a - 1

abbrev pub behind : ℕ → ℕ → ℕ
behind n b = if b == n - 1 then 0 else b + 1

module _ {R C : Type 0} (products : Products R C) where
  -- A sample of the ring; `nothing` outside it, where the code never reads.
  abbrev pub sample_at : List C → ℕ → C
  sample_at samples i = elim (get_elem? samples i) [ none ↦ products.nothing | some x ↦ x ]

  -- `init`: a ring of zeros.
  abbrev pub zeros : ℕ → List C
  zeros zero = []
  zeros (suc n) = products.nothing ∷ zeros n

  unfoldable pub new_filter : List R → ℕ → FirFilter R C
  new_filter taps n = record { taps = taps; samples = zeros n; ptr = 0 }

  -- The loop over the taps, and the middle tap after it. A filter has at least one tap:
  -- `generateLowPassFilter` of src/firfilter.cpp makes nTaps / 2 + 1. Of none the source would index outside its vectors, and
  -- the sum here is the one so far.
  unfoldable pub accumulate : List C → List R → ℕ → ℕ → C → C
  accumulate samples [] a b acc = acc
  accumulate samples (t ∷ []) a b acc = products.plus acc (products.scaled (sample_at samples a) t)
  accumulate samples (t ∷ u ∷ taps) a b acc =
      accumulate samples (u ∷ taps) (before (length samples) a) (behind (length samples) b) (
        products.plus acc
          (products.scaled (products.plus (sample_at samples a) (sample_at samples b)) t))

  unfoldable pub filter : FirFilter R C → C → C × FirFilter R C
  unfolding accumulate
  filter f sample =
      let stored = set_elem f.samples f.ptr sample in
      let n = length f.samples in
      (
        accumulate stored f.taps f.ptr (behind n f.ptr) products.nothing,
        record f { samples = stored; ptr = behind n f.ptr },
      )
