-- ===== src/Calibration/Segments.antt =====
-- The segments of a calibrator: each is found under its provider and type of crop.
use fac_lpr_engine.Prelude.{
  ◌≡◌, refl, subst, inl, inr, some, List, [], ◌∷◌, arith, All, Bool-cases, Option-cases, Text,
  text_eq, text_eq_refl, eq_of_text_eq,
}
use fac_lpr_engine.Errors.{Result-cases, ok, >>=-eq-ok}
use fac_lpr_engine.Float.{Float}
use fac_lpr_engine.OrderedMap.{lookup}
use fac_lpr_engine.Calibration.{
  LogisticCalibrationConfig, LogisticCalibrationSegment, LogisticConfidenceCalibrator, key,
  check_segment, emplace, add_segments, make_calibrator, find_segment,
}

module _ {F : Type 0} ⦃fl : Float F⦄ where
  -- A new entry hides none of the others.
  emplace-keeps :
      (j k : Text) (v segment : LogisticCalibrationSegment F)
      (m : List (Text × LogisticCalibrationSegment F))
      {more : List (Text × LogisticCalibrationSegment F)}
      → emplace k segment m ≡ ok more
      → (lookup k more ≡ some segment) × ((lookup j m ≡ some v) → (lookup j more ≡ some v))
  unfolding emplace lookup
  emplace-keeps j k v segment m {more} h = elim (Option-cases (lookup k m)) [
    | inr (other, e) ↦ absurd (ground arith)
    | inl e ↦
        let same : (k, segment) ∷ m ≡ more = ground arith in
        subst (λ l. (lookup k l ≡ some segment) × ((lookup j m ≡ some v) → (lookup j l ≡ some v)))
          same
          (
            rw (text_eq_refl k),
            λ found. elim (Bool-cases (text_eq k j)) [
              | inl x ↦ let path = eq_of_text_eq k j x in absurd (cc)
              | inr x ↦ rw x found
            ],
          )
  ]

  add_segments-keeps :
      (j : Text) (v : LogisticCalibrationSegment F) (segments : List (LogisticCalibrationSegment F))
      (m : List (Text × LogisticCalibrationSegment F))
      {full : List (Text × LogisticCalibrationSegment F)}
      → add_segments segments m ≡ ok full
      → lookup j m ≡ some v
      → lookup j full ≡ some v
  unfolding add_segments
  add_segments-keeps j v [] m {full} h found =
      let same : m ≡ full = ground arith in subst (λ l. lookup j l ≡ some v) same found
  add_segments-keeps j v (segment ∷ rest) m h found =
      let (u, checked, h1) = >>=-eq-ok (check_segment segment) _ h in
      let (more, placed, h2) =
        >>=-eq-ok (emplace (key segment.provider segment.crop_type) segment m) _ h1 in
      add_segments-keeps j v rest more h2 ((emplace-keeps j _ v segment m placed).1 found)

  add_segments-finds :
      (segments : List (LogisticCalibrationSegment F))
      (m : List (Text × LogisticCalibrationSegment F))
      {full : List (Text × LogisticCalibrationSegment F)}
      → add_segments segments m ≡ ok full
      → All (λ s. lookup (key s.provider s.crop_type) full ≡ some s) segments
  unfolding add_segments
  add_segments-finds [] m h = tt
  add_segments-finds (segment ∷ rest) m h =
      let (u, checked, h1) = >>=-eq-ok (check_segment segment) _ h in
      let k = key segment.provider segment.crop_type in
      let (more, placed, h2) = >>=-eq-ok (emplace k segment m) _ h1 in
      (
        add_segments-keeps k segment rest more h2 (emplace-keeps k k segment segment m placed).0,
        add_segments-finds rest more h2,
      )

  found_exact :
      (c : LogisticConfidenceCalibrator F) (s : LogisticCalibrationSegment F)
      → lookup (key s.provider s.crop_type) c.segments ≡ some s
      → find_segment c s.provider s.crop_type ≡ some s
  unfolding find_segment
  found_exact c s h = rw (h, find_segment) refl

  each_exact :
      (c : LogisticConfidenceCalibrator F) (segments : List (LogisticCalibrationSegment F))
      → All (λ s. lookup (key s.provider s.crop_type) c.segments ≡ some s) segments
      → All (λ s. find_segment c s.provider s.crop_type ≡ some s) segments
  each_exact c [] h = tt
  each_exact c (s ∷ rest) h = (found_exact c s h.0, each_exact c rest h.1)

  -- When the constructor succeeds, every segment it was given is the one that is found for its
  -- provider and type of crop: none hides another.
  pub make_calibrator-find_segment :
      (config : LogisticCalibrationConfig F) (segments : List (LogisticCalibrationSegment F))
      {c : LogisticConfidenceCalibrator F}
      → make_calibrator config segments ≡ ok c
      → All (λ s. find_segment c s.provider s.crop_type ≡ some s) segments
  unfolding make_calibrator
  make_calibrator-find_segment config segments {c} h =
      elim (Result-cases (add_segments segments [])) [
        | inl (e, p) ↦ absurd (ground arith)
        | inr (full, p) ↦
            let same : full ≡ c.segments = ground arith in
            each_exact c segments (
              subst (λ l. All (λ s. lookup (key s.provider s.crop_type) l ≡ some s) segments) same
                (add_segments-finds segments [] p))
      ]
