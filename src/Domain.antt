-- ===== src/Domain.antt =====
-- include/fac_lpr/domain: detections, candidates, evidence and results. `F` stands for `float` and
-- `D` for `double`.
use fac_lpr_engine.Prelude.{Bool, true, false, ◌&&◌, Option, List, if◌then◌else◌, Text}
use fac_lpr_engine.Float.{Float}

pub record Point2f (F : Type 0) : Type 0 where
  pub x : F
  pub y : F

pub record BoundingBox (F : Type 0) : Type 0 where
  pub x : F
  pub y : F
  pub width : F
  pub height : F

module _ {F : Type 0} ⦃fl : Float F⦄ where
  -- `Point2f::is_finite`
  unfoldable pub point_is_finite : Point2f F → Bool
  point_is_finite p = fl.is_finite p.x && fl.is_finite p.y

  unfoldable pub area : BoundingBox F → F
  area box =
      if fl.lt fl.nought box.width && fl.lt fl.nought box.height
      then fl.mul box.width box.height
      else fl.nought

  -- `BoundingBox::is_valid`
  unfoldable pub box_is_valid : BoundingBox F → Bool
  box_is_valid box =
      fl.is_finite box.x
      && fl.is_finite box.y
      && fl.is_finite box.width
      && fl.is_finite box.height
      && fl.lt fl.nought box.width
      && fl.lt fl.nought box.height

-- The two arrays have four elements.
pub record PlateQuadrilateral (F : Type 0) : Type 0 where
  pub points : Point2f F × Point2f F × Point2f F × Point2f F
  pub confidences : F × F × F × F

pub record Detection (F : Type 0) : Type 0 where
  pub bbox : BoundingBox F
  pub quadrilateral : Option (PlateQuadrilateral F)
  pub confidence : F
  pub geometry_score : F
  pub provider : Text

pub data RecognitionStatus : Type 0 where
  accepted : RecognitionStatus
  review : RecognitionStatus
  rejected : RecognitionStatus

pub data RecognitionDecisionReason : Type 0 where
  accepted_consensus : RecognitionDecisionReason
  fatal_provider_failure : RecognitionDecisionReason
  degraded_provider_set : RecognitionDecisionReason
  detector_confidence_below_minimum : RecognitionDecisionReason
  geometry_below_minimum : RecognitionDecisionReason
  crop_quality_below_minimum : RecognitionDecisionReason
  no_valid_candidate : RecognitionDecisionReason
  candidate_confidence_below_review : RecognitionDecisionReason
  candidate_confidence_below_accept : RecognitionDecisionReason
  conflicting_strong_candidates : RecognitionDecisionReason

pub record PlateCandidate (F : Type 0) : Type 0 where
  pub text : Text
  pub confidence : F
  pub calibrated_confidence : F
  pub format_valid : Bool

pub record RecognitionEvidence (F D : Type 0) : Type 0 where
  pub source : Text
  pub candidates : List (PlateCandidate F)
  pub crop_quality : F
  pub latency_ms : D

pub record PlateRecognitionResult (F D : Type 0) : Type 0 where
  pub status : RecognitionStatus
  pub plate : Text
  pub confidence : F
  pub bbox : Option (BoundingBox F)
  pub quadrilateral : Option (PlateQuadrilateral F)
  pub detector_confidence : F
  pub geometry_score : F
  pub crop_quality : F
  pub evidence : List (RecognitionEvidence F D)
  pub alternatives : List (PlateCandidate F)
  pub decision_reasons : List RecognitionDecisionReason
  pub degraded : Bool
  pub total_latency_ms : D

abbrev pub is_accepted : RecognitionStatus → Bool
is_accepted RecognitionStatus.accepted = true
is_accepted RecognitionStatus.review = false
is_accepted RecognitionStatus.rejected = false
