-- ===== src/Pcm/Window.antt =====
-- The history of a filter in src/pcm_v4.hpp: a linear buffer, whose newest entries are slid back
-- to its front when it is full.
pub mod Map
use ubersdr_dsc.Base.{
  ℕ, zero, suc, ◌+◌, ◌-◌, ◌<◌, ◌≤◌, ◌≡◌, refl, ap, arith, if◌then◌else◌, ◌==◌, List, [], ◌∷◌, ◌++◌,
  length, take, drop, length-append, ◌∙◌, Bool-cases, inl, inr, All, All-append,
}

module _ {ℓ} {A : Type ℓ} where
  abbrev pub replicate : ℕ → A → List A
  replicate zero x = []
  replicate (suc n) x = x ∷ replicate n x

  -- A write out of bounds changes nothing.
  abbrev pub set : List A → ℕ → A → List A
  set [] i v = []
  set (x ∷ xs) zero v = v ∷ xs
  set (x ∷ xs) (suc i) v = x ∷ set xs i v

  -- The `order` entries below the index.
  unfoldable pub window : ℕ → ℕ → List A → List A
  window order idx history = take order (drop (idx - order) history)

  -- The newest `order` entries copied to the front, from the index down.
  unfoldable pub slide : ℕ → ℕ → List A → List A
  slide order idx history = take order (drop (idx - order) history) ++ drop order history

  -- The entry written at the index, and the buffer slid when that fills it.
  unfoldable pub store : ℕ → ℕ → List A → A → List A
  unfolding slide
  store order idx history x =
      let written = set history idx x in
      if idx + 1 == length history then slide order (idx + 1) written else written

  -- The index after a write.
  unfoldable pub advance : ℕ → ℕ → List A → ℕ
  advance order idx history = if idx + 1 == length history then order else idx + 1

  pub length-replicate : (n : ℕ) (x : A) → length (replicate n x) ≡ n
  length-replicate zero x = refl
  length-replicate (suc n) x = ap suc (length-replicate n x)

  pub length-set : (xs : List A) (i : ℕ) (v : A) → length (set xs i v) ≡ length xs
  length-set [] i v = refl
  length-set (x ∷ xs) zero v = refl
  length-set (x ∷ xs) (suc i) v = ap suc (length-set xs i v)

  pub length-take : (n : ℕ) (xs : List A) → n ≤ length xs → length (take n xs) ≡ n
  length-take zero xs h = refl
  length-take (suc n) [] h = absurd (omega arith)
  length-take (suc n) (x ∷ xs) h = ap suc (length-take n xs (omega arith))

  pub length-drop : (n : ℕ) (xs : List A) → length (drop n xs) ≡ length xs - n
  length-drop zero xs = omega arith
  length-drop (suc n) [] = omega arith
  length-drop (suc n) (x ∷ xs) = omega (arith, length-drop n xs)

  take-append_left : (n : ℕ) (xs ys : List A) → length xs ≡ n → take n (xs ++ ys) ≡ xs
  take-append_left zero [] ys e = refl
  take-append_left zero (x ∷ xs) ys e = absurd (omega arith)
  take-append_left (suc n) [] ys e = absurd (omega arith)
  take-append_left (suc n) (x ∷ xs) ys e = ap (λ l. x ∷ l) (take-append_left n xs ys (omega arith))

  take-set :
      (n : ℕ) (xs : List A) (v : A)
      → n < length xs
      → take (suc n) (set xs n v) ≡ take n xs ++ v ∷ []
  take-set n [] v h = absurd (omega arith)
  take-set zero (x ∷ xs) v h = refl
  take-set (suc n) (x ∷ xs) v h = ap (λ l. x ∷ l) (take-set n xs v (omega arith))

  -- A write at `lo + order` moves the window at `lo` on by one.
  shifted :
      (lo n : ℕ) (xs : List A) (v : A)
      → lo + suc n < length xs
      → take (suc n) (drop (suc lo) (set xs (lo + suc n) v))
        ≡ drop 1 (take (suc n) (drop lo xs)) ++ v ∷ []
  shifted lo n [] v h = absurd (omega arith)
  shifted zero n (x ∷ xs) v h = rw (at_front n) (take-set n xs v (omega arith))
    where
      at_front : (k : ℕ) → 0 + suc k ≡ suc k
      at_front k = omega arith
  shifted (suc lo) n (x ∷ xs) v h = rw (one_more lo n) (shifted lo n xs v (omega arith))
    where
      one_more : (a b : ℕ) → suc a + suc b ≡ suc (a + suc b)
      one_more a b = omega arith

  -- What a filter needs of its buffer: the index leaves room for the window below it.
  abbrev pub Fits : ℕ → ℕ → List A → Type 0
  Fits order idx history = (0 < order) × (order ≤ idx) × (idx < length history)

  shifted_at :
      (lo n idx : ℕ) (xs : List A) (v : A)
      → idx ≡ lo + suc n
      → idx - suc n ≡ lo
      → idx + 1 - suc n ≡ suc lo
      → idx < length xs
      → take (suc n) (drop (idx + 1 - suc n) (set xs idx v))
        ≡ drop 1 (take (suc n) (drop (idx - suc n) xs)) ++ v ∷ []
  shifted_at lo n idx xs v here this next h =
      rw (next, this, here) (shifted lo n xs v (omega arith))

  unslid :
      (order idx : ℕ) (xs : List A) (v : A)
      → Fits order idx xs
      → take order (drop (idx + 1 - order) (set xs idx v))
        ≡ drop 1 (take order (drop (idx - order) xs)) ++ v ∷ []
  unslid zero idx xs v fits = absurd (omega arith)
  unslid (suc n) idx xs v fits =
      shifted_at (idx - suc n) n idx xs v (omega arith) refl (omega arith) (fits.2)

  at_front : (n : ℕ) (xs : List A) → take n (drop (n - n) xs) ≡ take n xs
  at_front n xs = ap (λ (k : ℕ). take n (drop k xs)) (none_left n)
    where
      none_left : (k : ℕ) → k - k ≡ 0
      none_left k = omega arith

  slid :
      (order idx : ℕ) (xs ys : List A)
      → order ≤ idx
      → idx ≤ length xs
      → take order (drop (order - order) (take order (drop (idx - order) xs) ++ ys))
        ≡ take order (drop (idx - order) xs)
  slid order idx xs ys h k =
      at_front order _
      ∙ take-append_left order (take order (drop (idx - order) xs)) ys
          (length-take order (drop (idx - order) xs) (omega (arith, length-drop (idx - order) xs)))

  -- Whether the buffer is slid or not, the window moves on by one entry.
  pub window-store :
      (order idx : ℕ) (xs : List A) (v : A)
      → Fits order idx xs
      → window order (advance order idx xs) (store order idx xs v)
        ≡ drop 1 (window order idx xs) ++ v ∷ []
  unfolding window advance store
  window-store order idx xs v fits = elim (Bool-cases (idx + 1 == length xs)) [
    | inl full ↦ rw full (
        slid order (idx + 1) (set xs idx v) (drop order (set xs idx v)) (omega arith)
          (omega (arith, length-set xs idx v))
        ∙ unslid order idx xs v fits)
    | inr room ↦ rw room (unslid order idx xs v fits)
  ]

  pub length-store :
      (order idx : ℕ) (xs : List A) (v : A)
      → Fits order idx xs
      → length (store order idx xs v) ≡ length xs
  unfolding store
  length-store order idx xs v fits = elim (Bool-cases (idx + 1 == length xs)) [
    | inl full ↦ rw full (
        omega (
          arith,
          length-append (take order (drop (idx + 1 - order) (set xs idx v)))
              (drop order (set xs idx v)),
          length-take order (drop (idx + 1 - order) (set xs idx v))
              (omega (arith, length-drop (idx + 1 - order) (set xs idx v), length-set xs idx v)),
          length-drop order (set xs idx v),
          length-set xs idx v,
        ))
    | inr room ↦ rw room (length-set xs idx v)
  ]

  -- A buffer longer than the order keeps room for its window.
  pub Fits-store :
      (order idx : ℕ) (xs : List A) (v : A)
      → Fits order idx xs
      → order < length xs
      → Fits order (advance order idx xs) (store order idx xs v)
  unfolding advance
  Fits-store order idx xs v fits room = ground (arith, length-store order idx xs v fits)

  pub length-window :
      (order idx : ℕ) (xs : List A) → Fits order idx xs → length (window order idx xs) ≡ order
  unfolding window
  length-window order idx xs fits =
      length-take order (drop (idx - order) xs) (omega (arith, length-drop (idx - order) xs))

  module _ {κ} (P : A → Type κ) where
    pub All-replicate : (n : ℕ) (x : A) → P x → All P (replicate n x)
    All-replicate zero x p = tt
    All-replicate (suc n) x p = (p, All-replicate n x p)

    pub All-set : (xs : List A) (i : ℕ) (v : A) → All P xs → P v → All P (set xs i v)
    All-set [] i v all p = tt
    All-set (x ∷ xs) zero v all p = (p, all.1)
    All-set (x ∷ xs) (suc i) v all p = (all.0, All-set xs i v all.1 p)

    pub All-take : (n : ℕ) (xs : List A) → All P xs → All P (take n xs)
    All-take zero xs all = tt
    All-take (suc n) [] all = tt
    All-take (suc n) (x ∷ xs) all = (all.0, All-take n xs all.1)

    pub All-drop : (n : ℕ) (xs : List A) → All P xs → All P (drop n xs)
    All-drop zero xs all = all
    All-drop (suc n) [] all = tt
    All-drop (suc n) (x ∷ xs) all = All-drop n xs all.1

    pub All-window : (order idx : ℕ) (xs : List A) → All P xs → All P (window order idx xs)
    unfolding window
    All-window order idx xs all =
        All-take order (drop (idx - order) xs) (All-drop (idx - order) xs all)

    pub All-store :
        (order idx : ℕ) (xs : List A) (v : A) → All P xs → P v → All P (store order idx xs v)
    unfolding store
    All-store order idx xs v all p = elim (Bool-cases (idx + 1 == length xs)) [
      | inl full ↦ rw full (
          All-append P (take order (drop (idx + 1 - order) (set xs idx v)))
            (drop order (set xs idx v))
            (All-take order (drop (idx + 1 - order) (set xs idx v))
              (All-drop (idx + 1 - order) (set xs idx v) (All-set xs idx v all p)))
            (All-drop order (set xs idx v) (All-set xs idx v all p)))
      | inr room ↦ rw room (All-set xs idx v all p)
    ]
