-- ===== src/Base/Lists.antt =====
-- Lists measured and indexed by native numbers, under the library's names.
use Prim.Native.Nat.{ℕ, zero, suc, ◌+◌, ◌-◌, ◌<◌, ◌≤◌}
use mathlib.Core.Path.{◌≡◌, refl, ap, sym, ◌∙◌}
use mathlib.Core.List.{List, [], ◌∷◌, ◌++◌}
use mathlib.Core.Option.{Option, none, some}
use native.Mathlib.Omega.{arith}

module _ {ℓ} {A : Type ℓ} where
  abbrev pub length : List A → ℕ
  length [] = 0
  length (x ∷ xs) = suc (length xs)

  abbrev pub get_elem? : List A → ℕ → Option A
  get_elem? [] i = none
  get_elem? (x ∷ xs) zero = some x
  get_elem? (x ∷ xs) (suc i) = get_elem? xs i

  abbrev pub take : ℕ → List A → List A
  take zero xs = []
  take (suc n) [] = []
  take (suc n) (x ∷ xs) = x ∷ take n xs

  abbrev pub drop : ℕ → List A → List A
  drop zero xs = xs
  drop (suc n) [] = []
  drop (suc n) (x ∷ xs) = drop n xs

  pub length-append : (xs ys : List A) → length (xs ++ ys) ≡ length xs + length ys
  length-append [] ys = omega arith
  length-append (x ∷ xs) ys = omega (arith, length-append xs ys)

  -- A predicate on every element.
  abbrev pub All {κ} : (A → Type κ) → List A → Type κ
  All P [] = Unit
  All P (x ∷ xs) = P x × All P xs

  pub All-append {κ} : (P : A → Type κ) (xs ys : List A) → All P xs → All P ys → All P (xs ++ ys)
  All-append P [] ys h k = k
  All-append P (x ∷ xs) ys h k = (h.0, All-append P xs ys h.1 k)

  pub All-weaken {κ μ} :
      (P : A → Type κ) (Q : A → Type μ)
      → ((x : A) → P x → Q x)
      → (xs : List A) → All P xs
      → All Q xs
  All-weaken P Q keep [] h = tt
  All-weaken P Q keep (x ∷ xs) h = (keep x h.0, All-weaken P Q keep xs h.1)

  pub get_elem?_in_range :
      (xs : List A) (i : ℕ) → i < length xs → (x : A) × (get_elem? xs i ≡ some x)
  get_elem?_in_range [] i h = absurd (omega arith)
  get_elem?_in_range (x ∷ xs) zero h = (x, refl)
  get_elem?_in_range (x ∷ xs) (suc i) h = get_elem?_in_range xs i (omega arith)

  pub get_elem?_beyond : (xs : List A) (i : ℕ) → length xs ≤ i → get_elem? xs i ≡ none
  get_elem?_beyond [] i h = refl
  get_elem?_beyond (x ∷ xs) zero h = absurd (omega arith)
  get_elem?_beyond (x ∷ xs) (suc i) h = get_elem?_beyond xs i (omega arith)

  -- The last elements, at most `n`.
  abbrev pub lasts : ℕ → List A → List A
  lasts n xs = drop (length xs - n) xs

  pub length-drop : (k : ℕ) (xs : List A) → length (drop k xs) ≡ length xs - k
  length-drop zero xs = omega arith
  length-drop (suc k) [] = omega arith
  length-drop (suc k) (x ∷ xs) = omega (arith, length-drop k xs)

  pub drop-append : (k : ℕ) (xs ys : List A) → k ≤ length xs → drop k (xs ++ ys) ≡ drop k xs ++ ys
  drop-append zero xs ys h = refl
  drop-append (suc k) [] ys h = absurd (omega arith)
  drop-append (suc k) (x ∷ xs) ys h = drop-append k xs ys (omega arith)

  drop-drop : (k : ℕ) (xs : List A) → drop (suc k) xs ≡ drop 1 (drop k xs)
  drop-drop zero xs = refl
  drop-drop (suc k) [] = refl
  drop-drop (suc k) (x ∷ xs) = drop-drop k xs

  pub length-lasts : (n : ℕ) (xs : List A) → n ≤ length xs → length (lasts n xs) ≡ n
  length-lasts n xs h = omega (arith, length-drop (length xs - n) xs)

  pub lasts_all : (n : ℕ) (xs : List A) → length xs ≤ n → lasts n xs ≡ xs
  lasts_all n xs h = ap (λ (k : ℕ). drop k xs) nothing
    where
      nothing : length xs - n ≡ 0
      nothing = omega arith

  -- One element more, while there are fewer, and when there are enough.
  pub lasts_room :
      (n : ℕ) (xs : List A) (x : A) → length xs < n → lasts n (xs ++ x ∷ []) ≡ lasts n xs ++ x ∷ []
  lasts_room n xs x h =
      lasts_all n (xs ++ x ∷ []) (omega (arith, length-append xs (x ∷ [])))
      ∙ ap (λ (ys : List A). ys ++ x ∷ []) (sym (lasts_all n xs (omega arith)))

  pub lasts_full :
      (n : ℕ) (xs : List A) (x : A)
      → 0 < n
      → n ≤ length xs
      → lasts n (xs ++ x ∷ []) ≡ drop 1 (lasts n xs) ++ x ∷ []
  lasts_full n xs x h l =
      ap (λ (k : ℕ). drop k (xs ++ x ∷ [])) more
      ∙ drop-append (suc (length xs - n)) xs (x ∷ []) (omega arith)
      ∙ ap (λ (ys : List A). ys ++ x ∷ []) (drop-drop (length xs - n) xs)
    where
      more : length (xs ++ x ∷ []) - n ≡ suc (length xs - n)
      more = omega (arith, length-append xs (x ∷ []))
