-- ===== src/ResultBuffer.antt =====
-- src/c_api/result_buffer.cpp with include/fac_lpr/fac_lpr_engine.h: the structures of version 1 that a
-- result is written as. Their sizes are those of their `uint32_t` and `float` fields, which leave no
-- padding.
pub mod Writer
pub mod Serialize
pub mod Simulation
pub mod Passes
pub mod Caller
mod Examples
use fac_lpr_engine.Prelude.{
  ℕ, zero, suc, ◌+◌, ◌-◌, ◌*◌, ◌/◌, ◌%◌, ◌^◌, ◌≤◌, ◌<◌, ◌≡◌, refl, sym, ap, ◌∙◌, subst, ◌≢◌, ◌↔◌,
  ◌⊎◌, inl, inr, Bool, true, false, not, ◌&&◌, ◌||◌, Option, none, some, List, [], ◌∷◌, ◌++◌, map,
  arith, length, length-append, All, Any, take, get_elem?, All-append, length-take-le, ltb, leb,
  ◌==◌, if◌then◌else◌, Bool-cases, Option-cases, size_mod, wrap_add, Text, is_empty, text_eq,
  text_lt, ℤ, pos, negsuc, is_negative, is_positive, exceeds, elapsed_lt, elapsed_le,
  nanos_per_milli, text_eq_refl, eq_of_text_eq, text_lt_irrefl, text_lt_trans, text_lt_total,
  text_eq_of_lt, text_eq_sym,
}
use fac_lpr_engine.Errors.{
  Result, Result-cases, ok, err, ◌>>=◌, ◌>>◌, throw_if, EngineErrorCode, configuration, provider,
  inference, invalid_image, resource_exhausted, internal, cancelled, timeout, >>=-eq-ok,
}
use fac_lpr_engine.Domain.{RecognitionStatus, RecognitionDecisionReason}

-- include/fac_lpr/fac_lpr_error.h
pub data FacLprStatus : Type 0 where
  status_ok : FacLprStatus
  status_configuration_error : FacLprStatus
  status_model_load_error : FacLprStatus
  status_inference_error : FacLprStatus
  status_invalid_image : FacLprStatus
  status_provider_error : FacLprStatus
  status_cancelled : FacLprStatus
  status_timeout : FacLprStatus
  status_resource_exhausted : FacLprStatus
  status_internal_error : FacLprStatus
  status_buffer_too_small : FacLprStatus

unfoldable pub to_c_status : EngineErrorCode → FacLprStatus
to_c_status EngineErrorCode.configuration = status_configuration_error
to_c_status EngineErrorCode.model_load = status_model_load_error
to_c_status EngineErrorCode.inference = status_inference_error
to_c_status EngineErrorCode.invalid_image = status_invalid_image
to_c_status EngineErrorCode.provider = status_provider_error
to_c_status EngineErrorCode.cancelled = status_cancelled
to_c_status EngineErrorCode.timeout = status_timeout
to_c_status EngineErrorCode.resource_exhausted = status_resource_exhausted
to_c_status EngineErrorCode.internal = status_internal_error

abbrev pub abi_version : ℕ
abi_version = 1

abbrev pub wire_alignment : ℕ
wire_alignment = 4

pub record TextRef : Type 0 where
  pub offset : ℕ
  pub length : ℕ

pub record WireCandidate (F : Type 0) : Type 0 where
  pub struct_size : ℕ
  pub abi_version : ℕ
  pub text : TextRef
  pub confidence : F
  pub calibrated_confidence : F
  pub format_valid : ℕ
  pub reserved_zero : ℕ

pub record WireEvidence (F : Type 0) : Type 0 where
  pub struct_size : ℕ
  pub abi_version : ℕ
  pub source : TextRef
  pub crop_quality : F
  pub latency_ms : F
  pub candidate_count : ℕ
  pub candidates_offset : ℕ

-- The arrays of a box and of a quadrilateral are lists of their numbers in order.
pub record WirePlate (F : Type 0) : Type 0 where
  pub struct_size : ℕ
  pub abi_version : ℕ
  pub status : ℕ
  pub degraded : ℕ
  pub plate : TextRef
  pub confidence : F
  pub detector_confidence : F
  pub geometry_score : F
  pub crop_quality : F
  pub total_latency_ms : F
  pub has_bbox : ℕ
  pub bbox : List F
  pub has_quadrilateral : ℕ
  pub points : List F
  pub confidences : List F
  pub evidence_count : ℕ
  pub evidence_offset : ℕ
  pub alternatives_count : ℕ
  pub alternatives_offset : ℕ
  pub decision_reason_count : ℕ
  pub decision_reasons_offset : ℕ

pub record WireResult (F : Type 0) : Type 0 where
  pub struct_size : ℕ
  pub abi_version : ℕ
  pub recognition_count : ℕ
  pub recognitions_offset : ℕ
  pub total_latency_ms : F
  pub degraded : ℕ
  pub provider_failure_count : ℕ
  pub reserved_zero : ℕ

-- What is copied into the buffer at once.
pub data Wire (F : Type 0) : Type 0 where
  wire_text : Text → Wire F
  wire_reason : ℕ → Wire F
  wire_candidate : WireCandidate F → Wire F
  wire_evidence : WireEvidence F → Wire F
  wire_plate : WirePlate F → Wire F
  wire_result : WireResult F → Wire F

abbrev pub reason_size : ℕ
reason_size = 4

abbrev pub candidate_size : ℕ
candidate_size = 32

abbrev pub evidence_size : ℕ
evidence_size = 32

abbrev pub plate_size : ℕ
plate_size = 140

abbrev pub result_size : ℕ
result_size = 32

abbrev pub wire_size : {F : Type 0} → Wire F → ℕ
wire_size (wire_text text) = length text
wire_size (wire_reason reason) = reason_size
wire_size (wire_candidate candidate) = candidate_size
wire_size (wire_evidence evidence) = evidence_size
wire_size (wire_plate plate) = plate_size
wire_size (wire_result result) = result_size

unfoldable pub map_status : RecognitionStatus → ℕ
map_status RecognitionStatus.accepted = 0
map_status RecognitionStatus.review = 1
map_status RecognitionStatus.rejected = 2

unfoldable pub map_reason : RecognitionDecisionReason → ℕ
map_reason RecognitionDecisionReason.accepted_consensus = 0
map_reason RecognitionDecisionReason.fatal_provider_failure = 1
map_reason RecognitionDecisionReason.degraded_provider_set = 2
map_reason RecognitionDecisionReason.detector_confidence_below_minimum = 3
map_reason RecognitionDecisionReason.geometry_below_minimum = 4
map_reason RecognitionDecisionReason.crop_quality_below_minimum = 5
map_reason RecognitionDecisionReason.no_valid_candidate = 6
map_reason RecognitionDecisionReason.candidate_confidence_below_review = 7
map_reason RecognitionDecisionReason.candidate_confidence_below_accept = 8
map_reason RecognitionDecisionReason.conflicting_strong_candidates = 9
