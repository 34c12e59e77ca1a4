-- ===== src/Pcm/Window/Map.antt =====
-- A buffer beside its history in src/pcm_v4.hpp that holds a function of each entry, as the signs do.
use ubersdr_dsc.Base.{
  ℕ, zero, suc, ◌+◌, ◌-◌, ◌≡◌, refl, ap, ◌==◌, Bool-cases, inl, inr, List, [], ◌∷◌, ◌++◌, map,
  length, take, drop,
}
use ubersdr_dsc.Pcm.Window.{set, window, slide, store}

module _ {ℓ κ} {A : Type ℓ} {B : Type κ} (f : A → B) where
  pub length-map : (xs : List A) → length (map f xs) ≡ length xs
  length-map [] = refl
  length-map (x ∷ xs) = ap suc (length-map xs)

  take-map : (n : ℕ) (xs : List A) → take n (map f xs) ≡ map f (take n xs)
  take-map zero xs = refl
  take-map (suc n) [] = refl
  take-map (suc n) (x ∷ xs) = ap (λ l. f x ∷ l) (take-map n xs)

  drop-map : (n : ℕ) (xs : List A) → drop n (map f xs) ≡ map f (drop n xs)
  drop-map zero xs = refl
  drop-map (suc n) [] = refl
  drop-map (suc n) (x ∷ xs) = drop-map n xs

  append-map : (xs ys : List A) → map f xs ++ map f ys ≡ map f (xs ++ ys)
  append-map [] ys = refl
  append-map (x ∷ xs) ys = ap (λ l. f x ∷ l) (append-map xs ys)

  set-map : (xs : List A) (i : ℕ) (v : A) → set (map f xs) i (f v) ≡ map f (set xs i v)
  set-map [] i v = refl
  set-map (x ∷ xs) zero v = refl
  set-map (x ∷ xs) (suc i) v = ap (λ l. f x ∷ l) (set-map xs i v)

  pub window-map :
      (order idx : ℕ) (xs : List A) → window order idx (map f xs) ≡ map f (window order idx xs)
  unfolding window
  window-map order idx xs = rw (drop-map (idx - order) xs) (take-map order (drop (idx - order) xs))

  slide-map :
      (order idx : ℕ) (xs : List A) → slide order idx (map f xs) ≡ map f (slide order idx xs)
  unfolding slide
  slide-map order idx xs =
      rw (drop-map (idx - order) xs, take-map order (drop (idx - order) xs), drop-map order xs)
        (append-map (take order (drop (idx - order) xs)) (drop order xs))

  pub store-map :
      (order idx : ℕ) (xs : List A) (v : A)
      → store order idx (map f xs) (f v) ≡ map f (store order idx xs v)
  unfolding store
  store-map order idx xs v = elim (Bool-cases (idx + 1 == length xs)) [
    | inl full ↦
        rw (length-map xs, full, set-map xs idx v) (slide-map order (idx + 1) (set xs idx v))
    | inr room ↦ rw (length-map xs, room) (set-map xs idx v)
  ]
