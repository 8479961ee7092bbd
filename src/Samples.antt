-- ===== src/Samples.antt =====
-- Sample data for the examples: plates, candidates and results in thousandths (Milli).
use fac_lpr_engine.Prelude.{ℕ, true, false, none, some, List, [], ◌∷◌, Text}
use fac_lpr_engine.Float.{Milli}
use fac_lpr_engine.Domain.{
  BoundingBox, Detection, RecognitionStatus, RecognitionDecisionReason, PlateCandidate,
  RecognitionEvidence, PlateRecognitionResult,
}
use fac_lpr_engine.Pipeline.{LprPipelineResult}

-- "34AB12" and "34AB13"
abbrev pub first_plate : Text
first_plate = b'3' ∷ b'4' ∷ b'A' ∷ b'B' ∷ b'1' ∷ b'2' ∷ []

abbrev pub second_plate : Text
second_plate = b'3' ∷ b'4' ∷ b'A' ∷ b'B' ∷ b'1' ∷ b'3' ∷ []

abbrev pub box : BoundingBox Milli
box = record { x = some 0; y = some 0; width = some 900; height = some 300 }

abbrev pub detection : Detection Milli
detection = record {
  bbox = box;
  quadrilateral = none;
  confidence = some 900;
  geometry_score = some 800;
  provider = b'd' ∷ [];
}

abbrev pub candidate : Text → ℕ → PlateCandidate Milli
candidate text confidence = record {
  text = text;
  confidence = some confidence;
  calibrated_confidence = some 0;
  format_valid = true;
}

abbrev pub evidence_of : List (PlateCandidate Milli) → RecognitionEvidence Milli Milli
evidence_of candidates = record {
  source = b'r' ∷ [];
  candidates = candidates;
  crop_quality = some 700;
  latency_ms = some 0;
}

abbrev pub recognized : Text → ℕ → PlateRecognitionResult Milli Milli
recognized plate confidence = record {
  status = RecognitionStatus.accepted;
  plate = plate;
  confidence = some confidence;
  bbox = some box;
  quadrilateral = none;
  detector_confidence = some 900;
  geometry_score = some 800;
  crop_quality = some 700;
  evidence = [];
  alternatives = [];
  decision_reasons = RecognitionDecisionReason.accepted_consensus ∷ [];
  degraded = false;
  total_latency_ms = some 0;
}

abbrev pub frame_with : List (PlateRecognitionResult Milli Milli) → LprPipelineResult Milli Milli
frame_with recognitions = record {
  recognitions = recognitions;
  stage_timings = [];
  failures = [];
  total_latency_ms = some 0;
  provider_failure_count = 0;
  degraded = false;
}
