-- ===== src/Pcm/Codec/Failure.antt =====
-- The codec of src/pcm_v4.hpp where a body is refused.
use ubersdr_dsc.Base.{
  ℕ, ◌*◌, ◌≡◌, refl, Bool, true, false, if◌then◌else◌, ltb, Bool-cases, inl, inr, List, [], ◌∷◌,
  length,
}
use ubersdr_dsc.Base.Int.{ℤ}
use ubersdr_dsc.Pcm.Attempt.{Attempt, done, failed}
use ubersdr_dsc.Pcm.Codec.{
  PredictiveCodec, bad_count, coded, coded_body, escaped, decode_body, advance_silence,
}
use ubersdr_dsc.Pcm.Rice.{rice_decode}

-- An outcome that fails only with the codec as it was.
abbrev pub Untouched {ℓ} : {A : Type ℓ} → PredictiveCodec → PredictiveCodec × Attempt A → Type 0
Untouched c (c', done a) = Unit
Untouched c (c', failed e) = c' ≡ c

coded-Untouched :
    (count : ℕ) (c : PredictiveCodec) (read : Attempt (List ℤ)) → Untouched c (coded count c read)
unfolding coded
coded-Untouched count c (done residuals) = tt
coded-Untouched count c (failed e) = refl

coded_body-Untouched :
    (count : ℕ) (c : PredictiveCodec) (body : List ℕ) → Untouched c (coded_body count c body)
unfolding coded_body
coded_body-Untouched count c [] = refl
coded_body-Untouched count c (k ∷ bytes) = coded-Untouched count c (rice_decode (k ∷ bytes) count)

escaped-Untouched :
    (count : ℕ) (c : PredictiveCodec) (body : List ℕ) → Untouched c (escaped count c body)
unfolding escaped
escaped-Untouched count c body = elim (Bool-cases (ltb (length body) (count * 2))) [
  | inl short ↦ rw short refl
  | inr long ↦ rw long tt
]

-- A body that is refused moves no filter.
pub decode_body-Untouched :
    (count : ℕ) (escape : Bool) (c : PredictiveCodec) (body : List ℕ)
    → Untouched c (decode_body count escape c body)
unfolding decode_body
decode_body-Untouched count escape c body = elim (Bool-cases (bad_count count c)) [
  | inl bad ↦ rw bad refl
  | inr good ↦ rw good (by_escape escape)
]
  where
    by_escape :
        (b : Bool) → Untouched c (if b then escaped count c body else coded_body count c body)
    by_escape true = escaped-Untouched count c body
    by_escape false = coded_body-Untouched count c body

pub advance_silence-Untouched :
    (count : ℕ) (c : PredictiveCodec) → Untouched c (advance_silence count c)
unfolding advance_silence
advance_silence-Untouched count c = elim (Bool-cases (bad_count count c)) [
  | inl bad ↦ rw bad refl
  | inr good ↦ rw good tt
]
