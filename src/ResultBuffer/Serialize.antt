-- ===== src/ResultBuffer/Serialize.antt =====
-- src/c_api/result_buffer.cpp: the `append` and `serialize` functions, and `serialize_result_v1`. The
-- fields of a structure are computed in their order. In the place of an empty text nothing is written.
use fac_lpr_engine.Prelude.{
  ℕ, zero, suc, ◌+◌, ◌%◌, Bool, not, ◌||◌, Option, none, some, List, [], ◌∷◌, length, ltb, ◌==◌,
  if◌then◌else◌, Text,
}
use fac_lpr_engine.Errors.{Result, ok, err, provider, internal}
use fac_lpr_engine.Float.{Float, is_probability}
use fac_lpr_engine.Domain.{
  Point2f, BoundingBox, PlateQuadrilateral, RecognitionDecisionReason, PlateCandidate,
  RecognitionEvidence, PlateRecognitionResult,
}
use fac_lpr_engine.Pipeline.{LprPipelineResult}
use fac_lpr_engine.ResultBuffer.{
  FacLprStatus, to_c_status, abi_version, wire_alignment, TextRef, WireCandidate, WireEvidence,
  WirePlate, Wire, reason_size, candidate_size, evidence_size, plate_size, result_size, map_status,
  map_reason, status_ok, status_configuration_error, status_buffer_too_small, status_internal_error,
  wire_text, wire_reason, wire_candidate, wire_evidence, wire_plate, wire_result,
}
use fac_lpr_engine.ResultBuffer.Writer.{
  BufferWriter, Writer, pure, lift, ◌>>=◌, ◌>>◌, to_u32, checked_array_bytes, element_offset,
  reserve, write, new_writer,
}

-- The cast of a `double` to a `float`, and the largest `float` as a `double`.
pub record Narrowing (F D : Type 0) : Type 0 where
  pub float_max : D
  pub to_float : D → F

abbrev pub flag : Bool → ℕ
flag b = if b then 1 else 0

module _ {F : Type 0} ⦃fl : Float F⦄ where
  abbrev pub finite_float : F → Result F
  finite_float value = if fl.is_finite value then ok value else err provider

  abbrev pub probability_float : F → Result F
  probability_float value = if is_probability value then ok value else err provider

  unfoldable pub append_text : Text → Writer F TextRef
  append_text [] = pure (record { offset = 0; length = 0 })
  append_text (c ∷ cs) = do
    offset ← reserve (length (c ∷ cs))
    write offset (wire_text (c ∷ cs))
    size ← lift (to_u32 (length (c ∷ cs)))
    pure (record { offset = offset; length = size })

  unfoldable pub serialize_candidate : PlateCandidate F → Writer F (WireCandidate F)
  serialize_candidate candidate = do
    text ← append_text candidate.text
    confidence ← lift (probability_float candidate.confidence)
    calibrated ← lift (probability_float candidate.calibrated_confidence)
    pure (record {
      struct_size = candidate_size;
      abi_version = abi_version;
      text = text;
      confidence = confidence;
      calibrated_confidence = calibrated;
      format_valid = flag candidate.format_valid;
      reserved_zero = 0;
    })

abbrev root_check : ℕ → Result (Unit {0})
root_check offset = if offset == 0 then ok tt else err internal

abbrev pub end_of : {F A : Type 0} → Result (A × BufferWriter F) → Result (BufferWriter F)
end_of (err code) = err code
end_of (ok (a, w)) = ok w

-- An array whose elements are made by `make` and copied as `wrap` of them.
module _ {F A B : Type 0} (element_size : ℕ) (make : A → Writer F B) (wrap : B → Wire F) where
  unfoldable pub append_elements : ℕ → ℕ → List A → Writer F (Unit {0})
  append_elements offset index [] = pure tt
  append_elements offset index (a ∷ rest) = do
    wire ← make a
    place ← lift (element_offset offset index element_size)
    write place (wrap wire)
    append_elements offset (index + 1) rest

  unfoldable pub append_array : List A → Writer F ℕ
  append_array [] = pure 0
  append_array (a ∷ rest) = do
    bytes ← lift (checked_array_bytes (length (a ∷ rest)) element_size)
    offset ← reserve bytes
    append_elements offset 0 (a ∷ rest)
    pure offset

module _ {F : Type 0} ⦃fl : Float F⦄ where
  unfoldable pub append_candidates : List (PlateCandidate F) → Writer F ℕ
  append_candidates = append_array candidate_size serialize_candidate wire_candidate

  unfoldable pub append_reasons : List RecognitionDecisionReason → Writer F ℕ
  append_reasons = append_array reason_size (λ reason. pure (map_reason reason)) wire_reason

  unfoldable pub write_bbox : Option (BoundingBox F) → Writer F (ℕ × List F)
  write_bbox none = pure (0, fl.nought ∷ fl.nought ∷ fl.nought ∷ fl.nought ∷ [])
  write_bbox (some box) = do
    x ← lift (finite_float box.x)
    y ← lift (finite_float box.y)
    width ← lift (finite_float box.width)
    height ← lift (finite_float box.height)
    pure (1, x ∷ y ∷ width ∷ height ∷ [])

  -- One turn of the loop over the four corners.
  unfoldable pub write_corner : Point2f F → F → Writer F (F × F × F)
  write_corner point confidence = do
    x ← lift (finite_float point.x)
    y ← lift (finite_float point.y)
    c ← lift (probability_float confidence)
    pure (x, y, c)

  abbrev no_numbers : ℕ → List F
  no_numbers zero = []
  no_numbers (suc n) = fl.nought ∷ no_numbers n

  unfoldable pub write_quadrilateral :
      Option (PlateQuadrilateral F) → Writer F (ℕ × List F × List F)
  write_quadrilateral none = pure (0, no_numbers 8, no_numbers 4)
  write_quadrilateral (some q) = do
    a ← write_corner q.points.0 q.confidences.0
    b ← write_corner q.points.1 q.confidences.1
    c ← write_corner q.points.2 q.confidences.2
    d ← write_corner q.points.3 q.confidences.3
    pure (1, a.0 ∷ a.1 ∷ b.0 ∷ b.1 ∷ c.0 ∷ c.1 ∷ d.0 ∷ d.1 ∷ [], a.2 ∷ b.2 ∷ c.2 ∷ d.2 ∷ [])

module _ {F D : Type 0} ⦃fl : Float F⦄ ⦃dl : Float D⦄ ⦃nl : Narrowing F D⦄ where
  unfoldable pub latency_to_float : D → Result F
  latency_to_float value =
      if not (dl.is_finite value) || dl.lt value dl.nought || dl.lt nl.float_max value
      then err provider
      else ok (nl.to_float value)

  unfoldable pub serialize_evidence : RecognitionEvidence F D → Writer F (WireEvidence F)
  serialize_evidence item = do
    candidates_offset ← append_candidates item.candidates
    source ← append_text item.source
    crop_quality ← lift (probability_float item.crop_quality)
    latency ← lift (latency_to_float item.latency_ms)
    count ← lift (to_u32 (length item.candidates))
    pure (record {
      struct_size = evidence_size;
      abi_version = abi_version;
      source = source;
      crop_quality = crop_quality;
      latency_ms = latency;
      candidate_count = count;
      candidates_offset = candidates_offset;
    })

  unfoldable pub append_evidence : List (RecognitionEvidence F D) → Writer F ℕ
  append_evidence = append_array evidence_size serialize_evidence wire_evidence

  unfoldable pub serialize_plate : PlateRecognitionResult F D → Writer F (WirePlate F)
  serialize_plate result = do
    plate ← append_text result.plate
    confidence ← lift (probability_float result.confidence)
    detector_confidence ← lift (probability_float result.detector_confidence)
    geometry_score ← lift (probability_float result.geometry_score)
    crop_quality ← lift (probability_float result.crop_quality)
    latency ← lift (latency_to_float result.total_latency_ms)
    (has_bbox, bbox) ← write_bbox result.bbox
    (has_quadrilateral, points, confidences) ← write_quadrilateral result.quadrilateral
    evidence_count ← lift (to_u32 (length result.evidence))
    evidence_offset ← append_evidence result.evidence
    alternatives_count ← lift (to_u32 (length result.alternatives))
    alternatives_offset ← append_candidates result.alternatives
    reason_count ← lift (to_u32 (length result.decision_reasons))
    reasons_offset ← append_reasons result.decision_reasons
    pure (record {
      struct_size = plate_size;
      abi_version = abi_version;
      status = map_status result.status;
      degraded = flag result.degraded;
      plate = plate;
      confidence = confidence;
      detector_confidence = detector_confidence;
      geometry_score = geometry_score;
      crop_quality = crop_quality;
      total_latency_ms = latency;
      has_bbox = has_bbox;
      bbox = bbox;
      has_quadrilateral = has_quadrilateral;
      points = points;
      confidences = confidences;
      evidence_count = evidence_count;
      evidence_offset = evidence_offset;
      alternatives_count = alternatives_count;
      alternatives_offset = alternatives_offset;
      decision_reason_count = reason_count;
      decision_reasons_offset = reasons_offset;
    })

  -- The body of `serialize_impl` with the writer that it makes.
  unfoldable pub serialize_root : LprPipelineResult F D → Writer F (Unit {0})
  serialize_root result = do
    root_offset ← reserve result_size
    lift (root_check root_offset)
    recognitions_offset ← append_array plate_size serialize_plate wire_plate result.recognitions
    count ← lift (to_u32 (length result.recognitions))
    latency ← lift (latency_to_float result.total_latency_ms)
    failures ← lift (to_u32 result.provider_failure_count)
    write root_offset (
        wire_result (record {
          struct_size = result_size;
          abi_version = abi_version;
          recognition_count = count;
          recognitions_offset = recognitions_offset;
          total_latency_ms = latency;
          degraded = flag result.degraded;
          provider_failure_count = failures;
          reserved_zero = 0;
        }))

  -- The writer at the end; its position is the size.
  unfoldable pub serialize_impl : LprPipelineResult F D → Option ℕ → Result (BufferWriter F)
  serialize_impl result capacity = end_of (serialize_root result (new_writer capacity))

-- What the caller sees: the status, `*required_output_size`, if the pointer is set, and the buffer.
-- What a second pass that throws has written is left out.
pub record Serialized (F : Type 0) : Type 0 where
  pub status : FacLprStatus
  pub required : Option ℕ
  pub writes : List (ℕ × Wire F)

module _ {F : Type 0} where
  abbrev pub refused : FacLprStatus → ℕ → Serialized F
  refused status required = record { status = status; required = some required; writes = [] }

  -- What the second pass returns for the size that the first one required.
  abbrev pub finish_pass : ℕ → Result (BufferWriter F) → Serialized F
  finish_pass required (err code) = refused (to_c_status code) required
  finish_pass required (ok w) = record {
    status = if w.position == required then status_ok else status_internal_error;
    required = some required;
    writes = w.writes;
  }

  -- After the first pass, with the second one as an argument.
  unfoldable pub answer :
      Option ℕ → ℕ → Result (BufferWriter F) → Result (BufferWriter F) → Serialized F
  answer buffer capacity second (err code) = refused (to_c_status code) 0
  answer none capacity second (ok w) = refused status_buffer_too_small w.position
  answer (some address) capacity second (ok w) =
      if ltb capacity w.position
      then refused status_buffer_too_small w.position
      else if not (address % wire_alignment == 0)
      then refused status_configuration_error w.position
      else finish_pass w.position second

module _ {F D : Type 0} ⦃fl : Float F⦄ ⦃dl : Float D⦄ ⦃nl : Narrowing F D⦄ where
  -- `buffer` is the address of the buffer, if it is not null; `has_required` whether the pointer for
  -- the required size is set.
  unfoldable pub serialize_result_v1 : LprPipelineResult F D → Option ℕ → ℕ → Bool → Serialized F
  serialize_result_v1 result buffer capacity has_required =
      if has_required
      then answer buffer capacity (serialize_impl result (some capacity))
          (serialize_impl result none)
      else record { status = status_configuration_error; required = none; writes = [] }
