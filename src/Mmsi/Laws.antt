-- ===== src/Mmsi/Laws.antt =====
-- What `MMSI` of src/mmsi.cpp gives for any text.
use ubersdr_dsc.Base.{◌≡◌, ◌↔◌, arith, true, [], ◌∷◌}
use ubersdr_dsc.Base.Text.{Text, codes}
use ubersdr_dsc.Base.Result.{IsOk, IsOk-bind}
use ubersdr_dsc.Mmsi.{get_mid, get_country, get_category, starts_with}

get_mid-IsOk : (mmsi : Text) → IsOk (get_mid mmsi)
unfolding get_mid
get_mid-IsOk [] = tt
get_mid-IsOk (c ∷ []) = ground arith
get_mid-IsOk (c ∷ d ∷ []) = ground arith
get_mid-IsOk (c ∷ d ∷ e ∷ s) = ground arith

-- The country of any text, also of one that is no MMSI, is found or is empty: `getCountry` throws no
-- exception and reads nothing outside the text.
pub get_country-IsOk : (mmsi : Text) → IsOk (get_country mmsi)
unfolding get_country
get_country-IsOk mmsi = IsOk-bind (get_mid mmsi) _ (get_mid-IsOk mmsi) λ s. tt

-- A text has the category of a coast station exactly when it begins with 00.
pub get_category_coast_iff :
    (mmsi : Text) → (get_category mmsi ≡ codes "Coast") ↔ (starts_with mmsi 2 "00" ≡ true)
unfolding get_category
get_category_coast_iff [] = (λ e. cc, λ e. cc)
get_category_coast_iff (c ∷ []) = (λ e. ground arith, λ e. ground arith)
get_category_coast_iff (c ∷ d ∷ s) = (λ e. ground arith, λ e. ground arith)
