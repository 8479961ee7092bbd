-- ===== src/Calibration.antt =====
-- src/application/confidence_calibration.cpp: from a raw confidence to a calibrated one, by a logistic
-- curve for each provider and type of crop. `std::log` and `std::exp` are parameters. The map of the
-- segments, whose order nothing reads, is an association list.
pub mod Segments
pub mod Range
mod Examples
use fac_lpr_engine.Prelude.{
  ℕ, zero, suc, ◌+◌, ◌-◌, ◌*◌, ◌/◌, ◌%◌, ◌^◌, ◌≤◌, ◌<◌, ◌≡◌, refl, sym, ap, ◌∙◌, subst, ◌≢◌, ◌↔◌,
  ◌⊎◌, inl, inr, Bool, true, false, not, ◌&&◌, ◌||◌, Option, none, some, List, [], ◌∷◌, ◌++◌, map,
  arith, length, length-append, All, take, get_elem?, All-append, length-take-le, ltb, leb, ◌==◌,
  if◌then◌else◌, Bool-cases, Option-cases, size_mod, wrap_add, Text, is_empty, text_eq, text_lt, ℤ,
  pos, negsuc, is_negative, is_positive, exceeds, elapsed_lt, elapsed_le, nanos_per_milli,
  text_eq_refl, eq_of_text_eq, text_lt_irrefl, text_lt_trans, text_lt_total, text_eq_of_lt,
  text_eq_sym,
}
use fac_lpr_engine.Errors.{
  Result, Result-cases, ok, err, ◌>>=◌, ◌>>◌, throw_if, EngineErrorCode, configuration, provider,
  inference, invalid_image, resource_exhausted, internal, cancelled, timeout, >>=-eq-ok,
}
use fac_lpr_engine.Float.{Float, clamp, is_probability}
use fac_lpr_engine.OrderedMap.{lookup}

pub record LogisticCalibrationSegment (F : Type 0) : Type 0 where
  pub provider : Text
  pub crop_type : Text
  pub slope : F
  pub intercept : F
  pub sample_count : ℕ

pub record LogisticCalibrationConfig (F : Type 0) : Type 0 where
  pub minimum_samples : ℕ
  pub probability_epsilon : F

pub record LogisticConfidenceCalibrator (F : Type 0) : Type 0 where
  pub config : LogisticCalibrationConfig F
  pub segments : List (Text × LogisticCalibrationSegment F)

-- The two parts with the unit separator between them.
unfoldable pub key : Text → Text → Text
key source crop_type = source ++ (31 ∷ crop_type)

module _ {F : Type 0} ⦃fl : Float F⦄ where
  unfoldable pub validate_common_input : F → F → Result (Unit {0})
  validate_common_input raw_confidence crop_quality = do
    throw_if (not (is_probability raw_confidence)) provider
    throw_if (not (is_probability crop_quality)) provider

  -- `IdentityConfidenceCalibrator::calibrate`
  unfoldable pub identity_calibrate : F → F → Result F
  unfolding validate_common_input
  identity_calibrate raw_confidence crop_quality = do
    validate_common_input raw_confidence crop_quality
    ok raw_confidence

  unfoldable pub check_segment : LogisticCalibrationSegment F → Result (Unit {0})
  check_segment segment = do
    throw_if (is_empty segment.provider) configuration
    throw_if
        (not (fl.is_finite segment.slope)
          || fl.le segment.slope fl.nought
          || not (fl.is_finite segment.intercept))
        configuration

  -- `segments_.emplace`, which fails if there is the key.
  unfoldable pub emplace :
      Text
      → LogisticCalibrationSegment F
      → List (Text × LogisticCalibrationSegment F)
      → Result (List (Text × LogisticCalibrationSegment F))
  emplace k segment m = elim (lookup k m) [
    | none ↦ ok ((k, segment) ∷ m)
    | some other ↦ err configuration
  ]

  -- The loop of the constructor.
  unfoldable pub add_segments :
      List (LogisticCalibrationSegment F)
      → List (Text × LogisticCalibrationSegment F)
      → Result (List (Text × LogisticCalibrationSegment F))
  add_segments [] m = ok m
  add_segments (segment ∷ rest) m = do
    check_segment segment
    more ← emplace (key segment.provider segment.crop_type) segment m
    add_segments rest more

  unfoldable pub make_calibrator :
      LogisticCalibrationConfig F
      → List (LogisticCalibrationSegment F)
      → Result (LogisticConfidenceCalibrator F)
  make_calibrator config segments = do
    throw_if (config.minimum_samples == 0) configuration
    throw_if
        (not (fl.is_finite config.probability_epsilon)
          || fl.le config.probability_epsilon fl.nought
          || fl.le (fl.literal 5 1) config.probability_epsilon)
        configuration
    m ← add_segments segments []
    ok (record { config = config; segments = m })

  unfoldable pub find_segment :
      LogisticConfidenceCalibrator F → Text → Text → Option (LogisticCalibrationSegment F)
  find_segment c source crop_type = elim (lookup (key source crop_type) c.segments) [
    | some exact ↦ some exact
    | none ↦ if not (is_empty crop_type) then lookup (key source []) c.segments else none
  ]

  module _ (log exp : F → F) where
    -- The curve, from the raw confidence to the value before its last check.
    unfoldable pub logistic : LogisticCalibrationConfig F → LogisticCalibrationSegment F → F → F
    logistic config segment raw_confidence =
        let probability =
          clamp raw_confidence config.probability_epsilon
            (fl.sub fl.one config.probability_epsilon) in
        let logit = log (fl.div probability (fl.sub fl.one probability)) in
        let calibrated_logit = fl.add (fl.mul segment.slope logit) segment.intercept in
        fl.div fl.one (fl.add fl.one (exp (fl.sub fl.nought calibrated_logit)))

    unfoldable pub apply_segment :
        LogisticCalibrationConfig F → Option (LogisticCalibrationSegment F) → F → Result F
    apply_segment config none raw_confidence = ok raw_confidence
    apply_segment config (some segment) raw_confidence =
        let calibrated = logistic config segment raw_confidence in
        if ltb segment.sample_count config.minimum_samples
        then ok raw_confidence
        else if not (fl.is_finite calibrated)
        then err provider
        else ok (clamp calibrated fl.nought fl.one)

    unfoldable pub calibrate : LogisticConfidenceCalibrator F → Text → F → F → Text → Result F
    unfolding validate_common_input
    calibrate c source raw_confidence crop_quality crop_type = do
      validate_common_input raw_confidence crop_quality
      throw_if (is_empty source) provider
      apply_segment c.config (find_segment c source crop_type) raw_confidence
