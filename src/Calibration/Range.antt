-- ===== src/Calibration/Range.antt =====
-- A calibrated confidence is a probability.
use fac_lpr_engine.Prelude.{◌≡◌, true, Option, none, some, arith, Text}
use fac_lpr_engine.Errors.{ok}
use fac_lpr_engine.Float.{Float, IsOrdered, clamp, is_probability}
use fac_lpr_engine.Calibration.{
  LogisticCalibrationConfig, LogisticCalibrationSegment, LogisticConfidenceCalibrator,
  validate_common_input, find_segment, logistic, apply_segment, calibrate,
}

module _ {F : Type 0} ⦃fl : Float F⦄ (laws : IsOrdered F) where
  open laws use {nought_finite, one_finite, nought_le_one, lt_irrefl, lt_trans}

  clamp-probability :
      (v : F) → fl.is_finite v ≡ true → is_probability (clamp v fl.nought fl.one) ≡ true
  unfolding clamp is_probability
  clamp-probability v h =
      ground
        (arith, nought_finite, one_finite, nought_le_one, lt_irrefl fl.nought, lt_irrefl fl.one)

  module _ (log exp : F → F) where
    apply_segment-probability :
        (config : LogisticCalibrationConfig F) (segment : Option (LogisticCalibrationSegment F))
        (raw : F) {out : F}
        → is_probability raw ≡ true
        → apply_segment log exp config segment raw ≡ ok out
        → is_probability out ≡ true
    unfolding apply_segment
    apply_segment-probability config none raw p h = ground arith
    apply_segment-probability config (some segment) raw p h =
        ground (arith, clamp-probability (logistic log exp config segment raw))

    -- Whatever `std::log` and `std::exp` return, and with floats ordered as numbers: a confidence that
    -- `calibrate` returns is finite, not below 0 and not above 1, and so were the raw confidence and
    -- the quality of the crop.
    pub calibrate-probability :
        (c : LogisticConfidenceCalibrator F) (source : Text) (raw quality : F) (crop_type : Text)
        {out : F}
        → calibrate log exp c source raw quality crop_type ≡ ok out
        → (is_probability out ≡ true)
          × (is_probability raw ≡ true)
          × (is_probability quality ≡ true)
    unfolding calibrate validate_common_input
    calibrate-probability c source raw quality crop_type {out} h = ground (
      arith,
      apply_segment-probability c.config (find_segment c source crop_type) raw {out = out},
    )
