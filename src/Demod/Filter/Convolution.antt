-- ===== src/Demod/Filter/Convolution.antt =====
-- `FirFilter` of src/firfilter.h on a whole stream of samples, against the list of the samples.
use ubersdr_dsc.Base.{
  ℕ, zero, suc, ◌+◌, ◌-◌, ◌<◌, ◌≤◌, ◌==◌, ◌≡◌, refl, ap, sym, ◌∙◌, subst, arith, false, ltb,
  if◌then◌else◌, List, [], ◌∷◌, length,
}
use ubersdr_dsc.Demod.Filter.{
  Products, FirFilter, set_elem, before, behind, sample_at, zeros, new_filter, accumulate, filter,
}

-- The place of the sample before `k` others, in a ring of `n` whose next sample goes to `p`.
abbrev place : ℕ → ℕ → ℕ → ℕ
place n p k = if ltb k p then p - 1 - k else n + p - 1 - k

place-behind_newest : (n p : ℕ) → p < n → place n (behind n p) 0 ≡ p
place-behind_newest n p h = ground arith

place-behind_oldest : (n p : ℕ) → p < n → place n (behind n p) (n - 1 - 0) ≡ behind n p
place-behind_oldest n p h = ground arith

place_shifted : (n p k : ℕ) → p < n → k + 1 < n → place n (behind n p) (suc k) ≡ place n p k
place_shifted n p k h l = ground arith

place-before : (n p k : ℕ) → p < n → suc k < n → place n p (suc k) ≡ before n (place n p k)
place-before n p k h l = ground arith

place-behind :
    (n p k : ℕ) → p < n → suc k < n → place n p (n - 1 - suc k) ≡ behind n (place n p (n - 1 - k))
place-behind n p k h l = ground arith

place_next : (n p : ℕ) → p < n → behind n p < n
place_next n p h = ground arith

place_apart : (n p k : ℕ) → p < n → suc k < n → (place n p k == p) ≡ false
place_apart n p k h l = ground arith

pub length-set_elem :
    {C : Type 0} (xs : List C) (i : ℕ) (v : C) → length (set_elem xs i v) ≡ length xs
length-set_elem [] i v = refl
length-set_elem (x ∷ xs) zero v = refl
length-set_elem (x ∷ xs) (suc i) v = ap suc (length-set_elem xs i v)

module _ {R C : Type 0} (products : Products R C) where
  -- The sample before `k` others, the last one first; zeros came before all samples.
  abbrev pub recall : List C → ℕ → C
  recall history k = sample_at products history k

  pub stored_there :
      (xs : List C) (i : ℕ) (v : C) → i < length xs → sample_at products (set_elem xs i v) i ≡ v
  stored_there [] i v h = absurd (omega arith)
  stored_there (x ∷ xs) zero v h = refl
  stored_there (x ∷ xs) (suc i) v h = stored_there xs i v (omega arith)

  kept_elsewhere :
      (xs : List C) (i j : ℕ) (v : C)
      → (j == i) ≡ false
      → sample_at products (set_elem xs i v) j ≡ sample_at products xs j
  kept_elsewhere [] i j v e = refl
  kept_elsewhere (x ∷ xs) zero zero v e = cc
  kept_elsewhere (x ∷ xs) zero (suc j) v e = refl
  kept_elsewhere (x ∷ xs) (suc i) zero v e = refl
  kept_elsewhere (x ∷ xs) (suc i) (suc j) v e = kept_elsewhere xs i j v (ground arith)

  -- The last `n` samples, weighed with taps that are the same from both ends.
  abbrev pub weighed : List C → ℕ → List R → ℕ → C → C
  weighed history n [] k acc = acc
  weighed history n (t ∷ []) k acc = products.plus acc (products.scaled (recall history k) t)
  weighed history n (t ∷ u ∷ taps) k acc = weighed history n (u ∷ taps) (suc k) (
      products.plus acc
        (products.scaled (products.plus (recall history k) (recall history (n - 1 - k))) t))

  -- The answers of the filter to some samples, after others.
  abbrev pub responses : ℕ → List R → List C → List C → List C
  responses n taps history [] = []
  responses n taps history (x ∷ xs) =
      weighed (x ∷ history) n taps 0 products.nothing ∷ responses n taps (x ∷ history) xs

  -- `filter` on some samples, one after another.
  abbrev pub filter_all : FirFilter R C → List C → List C
  filter_all f [] = []
  filter_all f (x ∷ xs) = let step = filter products f x in step.0 ∷ filter_all step.1 xs

  -- A ring that holds the last `n` samples.
  record Holds (n : ℕ) (samples : List C) (ptr : ℕ) (history : List C) : Type 0 where
    full : length samples ≡ n
    inside : ptr < n
    held : (k : ℕ) → k < n → sample_at products samples (place n ptr k) ≡ recall history k

  stored-Holds :
      (n : ℕ) (samples : List C) (p : ℕ) (history : List C) (x : C)
      → Holds n samples p history
      → Holds n (set_elem samples p x) (behind n p) (x ∷ history)
  stored-Holds n samples p history x h = record {
    full = length-set_elem samples p x ∙ h.full;
    inside = place_next n p h.inside;
    held = held;
  }
    where
      held :
          (k : ℕ)
          → k < n
          → sample_at products (set_elem samples p x) (place n (behind n p) k)
            ≡ recall (x ∷ history) k
      held zero l =
          ap (sample_at products (set_elem samples p x)) (place-behind_newest n p h.inside)
          ∙ stored_there samples p x (subst (λ (m : ℕ). p < m) (sym h.full) h.inside)
      held (suc k) l =
          ap (sample_at products (set_elem samples p x))
            (place_shifted n p k h.inside (omega arith))
          ∙ kept_elsewhere samples p (place n p k) x (place_apart n p k h.inside l)
          ∙ h.held k (omega arith)

  accumulate-Holds :
      (n : ℕ) (samples : List C) (p : ℕ) (history : List C)
      → Holds n samples p history
      → (taps : List R) (k : ℕ) (acc : C) → k + length taps ≤ n
      → accumulate products samples taps (place n p k) (place n p (n - 1 - k)) acc
        ≡ weighed history n taps k acc
  unfolding accumulate
  accumulate-Holds n samples p history h [] k acc l = refl
  accumulate-Holds n samples p history h (t ∷ []) k acc l =
      ap (λ (c : C). products.plus acc (products.scaled c t)) (h.held k (omega arith))
  accumulate-Holds n samples p history h (t ∷ u ∷ taps) k acc l =
      ap (λ (m : ℕ). go (before m (place n p k)) (behind m (place n p (n - 1 - k)))) h.full
      ∙ ap (λ (a : ℕ). go a (behind n (place n p (n - 1 - k))))
          (sym (place-before n p k h.inside (omega arith)))
      ∙ ap (λ (b : ℕ). go (place n p (suc k)) b) (sym (place-behind n p k h.inside (omega arith)))
      ∙ accumulate-Holds n samples p history h (u ∷ taps) (suc k) (added newest oldest)
          (omega arith)
      ∙ ap (λ (c : C). weighed history n (u ∷ taps) (suc k) (added c oldest))
          (h.held k (omega arith))
      ∙ ap (λ (c : C). weighed history n (u ∷ taps) (suc k) (added (recall history k) c))
          (h.held (n - 1 - k) (omega arith))
    where
      newest : C
      newest = sample_at products samples (place n p k)

      oldest : C
      oldest = sample_at products samples (place n p (n - 1 - k))

      added : C → C → C
      added c d = products.plus acc (products.scaled (products.plus c d) t)

      go : ℕ → ℕ → C
      go a b = accumulate products samples (u ∷ taps) a b (added newest oldest)

  filter-Holds :
      (taps : List R) (n : ℕ) (samples : List C) (p : ℕ) (history : List C) (x : C)
      → Holds n samples p history
      → length taps ≤ n
      → filter products (record { taps = taps; samples = samples; ptr = p }) x ≡ (
        weighed (x ∷ history) n taps 0 products.nothing,
        record { taps = taps; samples = set_elem samples p x; ptr = behind n p },
      )
  unfolding filter
  filter-Holds taps n samples p history x h l =
      ap
        (λ (m : ℕ). (
          accumulate products (set_elem samples p x) taps p (behind m p) products.nothing,
          record { taps = taps; samples = set_elem samples p x; ptr = behind m p },
        ))
        h.full
      ∙ ap
          (λ (c : C). (c, record { taps = taps; samples = set_elem samples p x; ptr = behind n p }))
          (ap
              (λ (a : ℕ).
                accumulate products (set_elem samples p x) taps a (behind n p) products.nothing)
              (sym (place-behind_newest n p h.inside))
            ∙ ap
                (λ (b : ℕ).
                  accumulate products (set_elem samples p x) taps (place n (behind n p) 0) b
                    products.nothing)
                (sym (place-behind_oldest n p h.inside))
            ∙ accumulate-Holds n (set_elem samples p x) (behind n p) (x ∷ history)
                (stored-Holds n samples p history x h) taps 0 products.nothing (omega arith))

  filter_all-Holds :
      (taps : List R) (n : ℕ) (xs : List C) (samples : List C) (p : ℕ) (history : List C)
      → Holds n samples p history
      → length taps ≤ n
      → filter_all (record { taps = taps; samples = samples; ptr = p }) xs
        ≡ responses n taps history xs
  filter_all-Holds taps n [] samples p history h l = refl
  filter_all-Holds taps n (x ∷ xs) samples p history h l =
      ap (λ (step : C × FirFilter R C). step.0 ∷ filter_all step.1 xs)
        (filter-Holds taps n samples p history x h l)
      ∙ ap (weighed (x ∷ history) n taps 0 products.nothing ∷◌) (
          filter_all-Holds taps n xs (set_elem samples p x) (behind n p) (x ∷ history)
            (stored-Holds n samples p history x h) l)

  length-zeros : (n : ℕ) → length (zeros products n) ≡ n
  length-zeros zero = refl
  length-zeros (suc n) = ap suc (length-zeros n)

  sample_at-zeros : (n i : ℕ) → sample_at products (zeros products n) i ≡ products.nothing
  sample_at-zeros zero i = refl
  sample_at-zeros (suc n) zero = refl
  sample_at-zeros (suc n) (suc i) = sample_at-zeros n i

  -- A new filter of n samples, where n is not 0, with at most n taps, answers each sample of a
  -- stream with a sum over the taps in their order: each tap but the last weighs the sum of the
  -- sample of its age, from the last sample on, and of the sample as far from the oldest of the last
  -- n; the last tap weighs the sample of its age; before the first sample all are zero.
  pub filter_all-eq-responses :
      (taps : List R) (n : ℕ) (xs : List C)
      → 0 < n
      → length taps ≤ n
      → filter_all (new_filter products taps n) xs ≡ responses n taps [] xs
  unfolding new_filter
  filter_all-eq-responses taps n xs h l =
      filter_all-Holds taps n xs (zeros products n) 0 []
        (record {
          full = length-zeros n;
          inside = h;
          held = λ k m. sample_at-zeros n (place n 0 k);
        })
        l
