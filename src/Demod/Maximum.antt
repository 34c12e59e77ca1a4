-- ===== src/Demod/Maximum.antt =====
-- `MovingMaximum` of src/dsc_rx.h and src/dsc_rx.cpp: the greatest of the last values.
pub mod Laws
use ubersdr_dsc.Base.{ℕ, Bool, ltb, if◌then◌else◌, List, [], ◌∷◌, ◌++◌, length, drop}

pub record MovingMaximum (R : Type 0) : Type 0 where
  pub size : ℕ
  pub buf : List R

unfoldable pub set_size : {R : Type 0} → ℕ → MovingMaximum R
set_size n = record { size = n; buf = [] }

unfoldable pub push : {R : Type 0} → MovingMaximum R → R → MovingMaximum R
push m v =
    let longer = m.buf ++ v ∷ [] in
    if ltb m.size (length longer)
    then record m { buf = drop 1 longer }
    else record m { buf = longer }

-- `nought` is 0.0, and `greater x y` is x > y.
module _ {R : Type 0} (nought : R) (greater : R → R → Bool) where
  -- The loop over the values.
  unfoldable pub maximum_from : R → List R → R
  maximum_from mx [] = mx
  maximum_from mx (x ∷ xs) = maximum_from (if greater x mx then x else mx) xs

  unfoldable pub get_maximum : MovingMaximum R → R
  unfolding maximum_from
  get_maximum m = elim (m.buf) [ [] ↦ nought | x ∷ xs ↦ maximum_from x (x ∷ xs) ]
