-- ===== src/Message/Position.antt =====
-- What `formatCoordinates` of src/dsc.cpp makes of a position.
use ubersdr_dsc.Base.{ℕ, ◌≡◌, ◌≢◌, arith, false, ◌==◌, [], ◌∷◌, ◌++◌}
use ubersdr_dsc.Base.Text.{Text}
use ubersdr_dsc.Base.Result.{ok}
use ubersdr_dsc.Message.Digits.{format_coordinates, format_known, degrees_minutes, quadrant_letters}

-- A position whose quadrant is not 9 is printed from its first six digits alone: the degrees and
-- minutes of longitude are digits of the latitude again, and the four digits after the first six,
-- which belong to the longitude, are not used.
pub format_coordinates_ignores_longitude :
    (q a b c d e : ℕ) (rest : Text)
    → q ≢ b'9'
    → format_coordinates (q ∷ a ∷ b ∷ c ∷ d ∷ e ∷ rest)
      ≡ ok (
          degrees_minutes (a ∷ b ∷ []) (c ∷ d ∷ []) (quadrant_letters q).0
          ++ b' ' ∷ degrees_minutes (a ∷ b ∷ c ∷ []) (d ∷ e ∷ []) (quadrant_letters q).1)
unfolding format_coordinates format_known
format_coordinates_ignores_longitude q a b c d e rest h = rw known (ground arith)
  where
    known : (q == b'9') ≡ false
    known = ground arith
