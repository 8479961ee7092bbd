-- ===== src/Config.antt =====
-- include/fac_lpr/application/config.hpp: the configuration of the engine, its defaults, and the check
-- that every part passes before it is used. The check is one function there; here each part of the
-- configuration has its own, in the same order.
pub mod Limits
mod Examples
use fac_lpr_engine.Prelude.{
  ℕ, zero, suc, ◌+◌, ◌-◌, ◌*◌, ◌/◌, ◌%◌, ◌^◌, ◌≤◌, ◌<◌, ◌≡◌, refl, sym, ap, ◌∙◌, subst, ◌≢◌, ◌↔◌,
  ◌⊎◌, inl, inr, Bool, true, false, not, ◌&&◌, ◌||◌, Option, none, some, List, [], ◌∷◌, ◌++◌, map,
  arith, length, length-append, All, take, get_elem?, All-append, length-take-le, ltb, leb, ◌==◌,
  if◌then◌else◌, Bool-cases, Option-cases, size_mod, wrap_add, Text, is_empty, text_eq, text_lt, ℤ,
  pos, negsuc, is_negative, is_positive, exceeds, elapsed_lt, elapsed_le, nanos_per_milli,
  text_eq_refl, eq_of_text_eq, text_lt_irrefl, text_lt_trans, text_lt_total, text_eq_of_lt,
  text_eq_sym,
}
use fac_lpr_engine.Errors.{
  Result, Result-cases, ok, err, ◌>>=◌, ◌>>◌, throw_if, EngineErrorCode, configuration, provider,
  inference, invalid_image, resource_exhausted, internal, cancelled, timeout, >>=-eq-ok,
}
use fac_lpr_engine.Float.{Float}

pub record DetectorConfig (F : Type 0) : Type 0 where
  pub confidence_threshold : F
  pub nms_iou_threshold : F
  pub max_detections : ℕ
  pub adaptive_tiling : Bool
  pub tile_width : ℕ
  pub tile_height : ℕ
  pub tile_overlap_ratio : F

pub record RecognitionConfig (F : Type 0) : Type 0 where
  pub beam_width : ℕ
  pub result_limit : ℕ
  pub classes_per_step : ℕ
  pub max_recognizers : ℕ
  pub minimum_candidate_confidence : F

pub record CropConfig (F : Type 0) : Type 0 where
  pub max_hypotheses : ℕ
  pub horizontal_padding_ratio : F
  pub vertical_padding_ratio : F
  pub minimum_width : ℕ
  pub minimum_height : ℕ
  pub enable_clahe : Bool
  pub enable_sharpen : Bool
  pub enable_adaptive_threshold : Bool
  pub enable_double_row : Bool

pub record DecisionConfig (F : Type 0) : Type 0 where
  pub accepted_confidence_threshold : F
  pub review_confidence_threshold : F
  pub strong_conflict_threshold : F
  pub minimum_crop_quality : F
  pub minimum_geometry_score : F
  pub minimum_effective_detector_confidence : F
  pub allow_accept_when_degraded : Bool
  pub fail_closed : Bool

pub record PerformanceConfig : Type 0 where
  pub worker_count : ℕ
  pub queue_capacity : ℕ
  pub max_image_width : ℕ
  pub max_image_height : ℕ
  pub max_image_bytes : ℕ
  pub recognition_timeout : ℤ

pub record EngineConfig (F : Type 0) : Type 0 where
  pub detector : DetectorConfig F
  pub recognition : RecognitionConfig F
  pub crop : CropConfig F
  pub decision : DecisionConfig F
  pub performance : PerformanceConfig

abbrev pub default_performance : PerformanceConfig
default_performance = record {
  worker_count = 1;
  queue_capacity = 8;
  max_image_width = 8192;
  max_image_height = 8192;
  max_image_bytes = 128 * 1024 * 1024;
  recognition_timeout = pos 5000;
}

abbrev pub milliseconds_per_minute : ℕ
milliseconds_per_minute = 60_000

-- `require_positive`
unfoldable pub require_positive : ℕ → Result (Unit {0})
require_positive value = throw_if (value == 0) configuration

unfoldable pub check_performance : PerformanceConfig → Result (Unit {0})
unfolding require_positive
check_performance c = do
  require_positive c.worker_count
  require_positive c.queue_capacity
  require_positive c.max_image_width
  require_positive c.max_image_height
  require_positive c.max_image_bytes
  throw_if (ltb 256 c.worker_count) configuration
  throw_if (ltb 65536 c.queue_capacity) configuration
  throw_if (ltb 32768 c.max_image_width || ltb 32768 c.max_image_height) configuration
  throw_if (ltb (1024 * 1024 * 1024) c.max_image_bytes) configuration
  throw_if
      (not (is_positive c.recognition_timeout)
        || exceeds c.recognition_timeout (5 * milliseconds_per_minute))
      configuration

module _ {F : Type 0} ⦃fl : Float F⦄ where
  abbrev pub default_config : EngineConfig F
  default_config = record {
    detector = record {
      confidence_threshold = fl.literal 50 2;
      nms_iou_threshold = fl.literal 45 2;
      max_detections = 32;
      adaptive_tiling = true;
      tile_width = 1280;
      tile_height = 960;
      tile_overlap_ratio = fl.literal 20 2;
    };
    recognition = record {
      beam_width = 16;
      result_limit = 5;
      classes_per_step = 6;
      max_recognizers = 8;
      minimum_candidate_confidence = fl.literal 0 1;
    };
    crop = record {
      max_hypotheses = 8;
      horizontal_padding_ratio = fl.literal 6 2;
      vertical_padding_ratio = fl.literal 4 2;
      minimum_width = 60;
      minimum_height = 18;
      enable_clahe = true;
      enable_sharpen = true;
      enable_adaptive_threshold = true;
      enable_double_row = true;
    };
    decision = record {
      accepted_confidence_threshold = fl.literal 78 2;
      review_confidence_threshold = fl.literal 55 2;
      strong_conflict_threshold = fl.literal 70 2;
      minimum_crop_quality = fl.literal 28 2;
      minimum_geometry_score = fl.literal 20 2;
      minimum_effective_detector_confidence = fl.literal 50 2;
      allow_accept_when_degraded = false;
      fail_closed = true;
    };
    performance = default_performance;
  }

  -- `value >= 0.0F && value <= 1.0F`
  abbrev pub in_unit_interval : F → Bool
  in_unit_interval value = fl.le fl.nought value && fl.le value fl.one

  unfoldable pub require_unit_interval : F → Result (Unit {0})
  require_unit_interval value = throw_if (not (in_unit_interval value)) configuration

  unfoldable pub check_detector : DetectorConfig F → Result (Unit {0})
  unfolding require_unit_interval require_positive
  check_detector c = do
    require_unit_interval c.confidence_threshold
    require_unit_interval c.nms_iou_threshold
    require_positive c.max_detections
    require_positive c.tile_width
    require_positive c.tile_height
    throw_if
        (not (fl.le fl.nought c.tile_overlap_ratio && fl.lt c.tile_overlap_ratio (fl.literal 50 2)))
        configuration

  unfoldable pub check_recognition : RecognitionConfig F → Result (Unit {0})
  unfolding require_unit_interval require_positive
  check_recognition c = do
    require_positive c.beam_width
    require_positive c.result_limit
    require_positive c.classes_per_step
    require_positive c.max_recognizers
    require_unit_interval c.minimum_candidate_confidence
    throw_if (ltb c.beam_width c.result_limit) configuration
    throw_if (ltb 64 c.classes_per_step) configuration
    throw_if (ltb 32 c.max_recognizers) configuration

  unfoldable pub check_crop : CropConfig F → Result (Unit {0})
  unfolding require_unit_interval require_positive
  check_crop c = do
    require_positive c.max_hypotheses
    require_unit_interval c.horizontal_padding_ratio
    require_unit_interval c.vertical_padding_ratio
    require_positive c.minimum_width
    require_positive c.minimum_height
    throw_if (ltb 32 c.max_hypotheses) configuration

  unfoldable pub check_decision : DecisionConfig F → Result (Unit {0})
  unfolding require_unit_interval
  check_decision c = do
    require_unit_interval c.accepted_confidence_threshold
    require_unit_interval c.review_confidence_threshold
    require_unit_interval c.strong_conflict_threshold
    require_unit_interval c.minimum_crop_quality
    require_unit_interval c.minimum_geometry_score
    require_unit_interval c.minimum_effective_detector_confidence
    throw_if (fl.lt c.accepted_confidence_threshold c.review_confidence_threshold) configuration
    throw_if c.allow_accept_when_degraded configuration
    throw_if (not c.fail_closed) configuration

  unfoldable pub validate_engine_config : EngineConfig F → Result (Unit {0})
  validate_engine_config config = do
    check_detector config.detector
    check_recognition config.recognition
    check_crop config.crop
    check_decision config.decision
    check_performance config.performance
