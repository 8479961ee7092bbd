-- ===== src/Calibration/Examples.antt =====
-- The theorems on calibration at two segments.
use fac_lpr_engine.Prelude.{ℕ, ◌≡◌, refl, true, some, List, [], ◌∷◌, All, Text, text_eq}
use fac_lpr_engine.Errors.{ok}
use fac_lpr_engine.Float.{Milli, milli_float, Milli-IsOrdered, clamp, is_probability}
use fac_lpr_engine.OrderedMap.{lookup}
use fac_lpr_engine.Calibration.{
  LogisticCalibrationConfig, LogisticCalibrationSegment, LogisticConfidenceCalibrator, key,
  validate_common_input, check_segment, emplace, add_segments, make_calibrator, find_segment,
  logistic, apply_segment, calibrate,
}
use fac_lpr_engine.Calibration.Segments.{make_calibrator-find_segment}
use fac_lpr_engine.Calibration.Range.{calibrate-probability}

abbrev config : LogisticCalibrationConfig Milli
config = record { minimum_samples = 100; probability_epsilon = some 10 }

abbrev segment_of : Text → ℕ → LogisticCalibrationSegment Milli
segment_of crop_type slope = record {
  provider = b'p' ∷ [];
  crop_type = crop_type;
  slope = some slope;
  intercept = some 100;
  sample_count = 200;
}

abbrev segments : List (LogisticCalibrationSegment Milli)
segments = segment_of [] 1000 ∷ segment_of (b'w' ∷ []) 2000 ∷ []

abbrev calibrator : LogisticConfidenceCalibrator Milli
calibrator = record {
  config = config;
  segments =
      (b'p' ∷ 31 ∷ b'w' ∷ [], segment_of (b'w' ∷ []) 2000)
      ∷ (b'p' ∷ 31 ∷ [], segment_of [] 1000)
      ∷ [];
}

made : make_calibrator config segments ≡ ok calibrator
unfolding make_calibrator add_segments check_segment emplace key lookup text_eq
made = refl

make_calibrator-find_segment_example :
    All (λ s. find_segment calibrator s.provider s.crop_type ≡ some s) segments
make_calibrator-find_segment_example = make_calibrator-find_segment config segments made

-- For the run, both functions of the library leave a number as it is.
abbrev unchanged : Milli → Milli
unchanged x = x

calibrated :
    calibrate unchanged unchanged calibrator (b'p' ∷ []) (some 800) (some 700) [] ≡ ok (some 1000)
unfolding calibrate validate_common_input find_segment apply_segment logistic key lookup text_eq
    clamp is_probability
calibrated = refl

calibrate-probability_example :
    (is_probability {F = Milli} (some 1000) ≡ true)
    × (is_probability {F = Milli} (some 800) ≡ true)
    × (is_probability {F = Milli} (some 700) ≡ true)
calibrate-probability_example =
    calibrate-probability Milli-IsOrdered unchanged unchanged calibrator (b'p' ∷ []) (some 800)
      (some 700) [] calibrated
