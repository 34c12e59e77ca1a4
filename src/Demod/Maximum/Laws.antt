-- ===== src/Demod/Maximum/Laws.antt =====
-- `MovingMaximum` of src/dsc_rx.cpp gives the greatest of the last values that it was given.
use ubersdr_dsc.Base.{
  ℕ, zero, suc, ◌<◌, ◌-◌, ◌≡◌, refl, ap, sym, ◌∙◌, subst, arith, Bool, true, false, Bool-cases, inl,
  inr, if-true, if-false, ltb, if◌then◌else◌, some, List, [], ◌∷◌, ◌++◌, length, length-append,
  length-drop, drop-append, get_elem?, All, lasts, lasts_all, lasts_room, lasts_full,
}
use mathlib.Core.List.{append_assoc, append-nil}
use ubersdr_dsc.Demod.Maximum.{MovingMaximum, set_size, push, maximum_from, get_maximum}

-- `push` on some values, one after another.
abbrev pub push_all : {R : Type 0} → MovingMaximum R → List R → MovingMaximum R
push_all m [] = m
push_all m (v ∷ vs) = push_all (push m v) vs

module _ {R : Type 0} (n : ℕ) (some_room : 0 < n) where
  abbrev window : List R → MovingMaximum R
  window seen = record { size = n; buf = lasts n seen }

  push-lasts : (seen : List R) (v : R) → push (window seen) v ≡ window (seen ++ v ∷ [])
  unfolding push
  push-lasts seen v = elim (Bool-cases (ltb n (length (lasts n seen ++ v ∷ [])))) [
    | inl full ↦
        if-true _ _ (ltb n (length (lasts n seen ++ v ∷ []))) full
        ∙ ap (λ (b : List R). record { size = n; buf = b })
            (drop-append 1 (lasts n seen) (v ∷ [])
                (ground (arith, length-append (lasts n seen) (v ∷ [])))
              ∙ sym (
                  lasts_full n seen v some_room (
                    ground (
                      arith,
                      length-append (lasts n seen) (v ∷ []),
                      length-drop (length seen - n) seen,
                    ))))
    | inr room ↦
        if-false _ _ (ltb n (length (lasts n seen ++ v ∷ []))) room
        ∙ ap (λ (b : List R). record { size = n; buf = b })
            (sym (
              lasts_room n seen v (
                ground (
                  arith,
                  length-append (lasts n seen) (v ∷ []),
                  length-drop (length seen - n) seen,
                ))))
  ]

  push_all-lasts : (vs seen : List R) → push_all (window seen) vs ≡ window (seen ++ vs)
  push_all-lasts [] seen = ap window (sym (append-nil seen))
  push_all-lasts (v ∷ vs) seen =
      ap (λ (m : MovingMaximum R). push_all m vs) (push-lasts seen v)
      ∙ push_all-lasts vs (seen ++ v ∷ [])
      ∙ ap window (append_assoc seen (v ∷ []) vs)

clash : (b : Bool) → b ≡ true → b ≡ false → ⊥
clash b h k = cc

-- One of some values, which no other of them is above.
pub record IsGreatest {R : Type 0} (greater : R → R → Bool) (m : R) (xs : List R) : Type 0 where
  pub position : ℕ
  pub held : get_elem? xs position ≡ some m
  pub none_greater : All (λ v. greater v m ≡ false) xs

earlier :
    {R : Type 0} (b : Bool) (x mx r : R) (xs : List R) (i : ℕ)
    → get_elem? ((if b then x else mx) ∷ xs) i ≡ some r
    → (j : ℕ) × (get_elem? (mx ∷ x ∷ xs) j ≡ some r)
earlier true x mx r xs i e = (suc i, e)
earlier false x mx r xs zero e = (0, e)
earlier false x mx r xs (suc i) e = (suc (suc i), e)

once :
    {R : Type 0} (x r : R) (xs : List R) (i : ℕ)
    → get_elem? (x ∷ x ∷ xs) i ≡ some r
    → (j : ℕ) × (get_elem? (x ∷ xs) j ≡ some r)
once x r xs zero e = (0, e)
once x r xs (suc i) e = (i, e)

module _ {R : Type 0} (nought : R) (greater : R → R → Bool)
    (irreflexive : (x : R) → greater x x ≡ false)
    (transitive : (x y z : R) → greater x y ≡ true → greater y z ≡ true → greater x z ≡ true) where
  abbrev highest : R → List R → R
  highest mx xs = maximum_from nought greater mx xs

  no_less :
      (y x mx : R) (b : Bool)
      → greater x mx ≡ b
      → greater y mx ≡ false
      → greater y (if b then x else mx) ≡ false
  no_less y x mx true e h = elim (Bool-cases (greater y x)) [
    | inl above ↦ absurd (clash (greater y mx) (transitive y x mx above e) h)
    | inr fine ↦ fine
  ]
  no_less y x mx false e h = h

  own : (x mx : R) (b : Bool) → greater x mx ≡ b → greater x (if b then x else mx) ≡ false
  own x mx true e = irreflexive x
  own x mx false e = e

  stays : (xs : List R) (mx y : R) → greater y mx ≡ false → greater y (highest mx xs) ≡ false
  unfolding maximum_from
  stays [] mx y h = h
  stays (x ∷ xs) mx y h =
      stays xs (if greater x mx then x else mx) y (no_less y x mx (greater x mx) refl h)

  none_above : (xs : List R) (mx : R) → All (λ v. greater v (highest mx xs) ≡ false) xs
  unfolding maximum_from
  none_above [] mx = tt
  none_above (x ∷ xs) mx = (
    stays xs (if greater x mx then x else mx) x (own x mx (greater x mx) refl),
    none_above xs (if greater x mx then x else mx),
  )

  found : (xs : List R) (mx : R) → (i : ℕ) × (get_elem? (mx ∷ xs) i ≡ some (highest mx xs))
  unfolding maximum_from
  found [] mx = (0, refl)
  found (x ∷ xs) mx =
      let rest = found xs (if greater x mx then x else mx) in
      earlier (greater x mx) x mx (highest mx (x ∷ xs)) xs rest.0 rest.1

  no_value_above :
      (n : ℕ) (xs : List R)
      → 0 < length xs
      → IsGreatest greater (get_maximum nought greater (record { size = n; buf = xs })) xs
  unfolding get_maximum
  no_value_above n [] h = absurd (omega arith)
  no_value_above n (x ∷ xs) h =
      let place = found (x ∷ xs) x in
      let alone = once x (highest x (x ∷ xs)) xs place.0 place.1 in
      record { position = alone.0; held = alone.1; none_greater = none_above (x ∷ xs) x }

  -- After some values, one or more, the maximum is one of the last n of them, n being the size and not
  -- 0, and none of those n is greater; where greater is irreflexive and transitive, as > on numbers is.
  pub get_maximum-IsGreatest :
      (n : ℕ) (vs : List R)
      → 0 < n
      → 0 < length vs
      → IsGreatest greater (get_maximum nought greater (push_all (set_size n) vs)) (lasts n vs)
  unfolding set_size
  get_maximum-IsGreatest n vs h l =
      subst
        (λ (m : MovingMaximum R). IsGreatest greater (get_maximum nought greater m) (lasts n vs))
        (sym (
          ap (λ (b : List R). push_all (record { size = n; buf = b }) vs)
            (sym (lasts_all n [] (omega arith)))
          ∙ push_all-lasts n h vs []))
        (no_value_above n (lasts n vs) (ground (arith, length-drop (length vs - n) vs)))
