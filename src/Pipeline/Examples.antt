-- ===== src/Pipeline/Examples.antt =====
-- A pipeline with one detection, one crop and one recognizer, whose layout analyzer fails.
use fac_lpr_engine.Prelude.{
  ℕ, zero, suc, ◌+◌, ◌-◌, ◌*◌, ◌/◌, ◌%◌, ◌^◌, ◌≤◌, ◌<◌, ◌≡◌, refl, sym, ap, ◌∙◌, subst, ◌≢◌, ◌↔◌,
  ◌⊎◌, inl, inr, Bool, true, false, not, ◌&&◌, ◌||◌, Option, none, some, List, [], ◌∷◌, ◌++◌, map,
  arith, length, length-append, All, Any, take, get_elem?, All-append, length-take-le, ltb, leb,
  ◌==◌, if◌then◌else◌, Bool-cases, Option-cases, size_mod, wrap_add, Text, is_empty, text_eq,
  text_lt, ℤ, pos, negsuc, is_negative, is_positive, exceeds, elapsed_lt, elapsed_le,
  nanos_per_milli, text_eq_refl, eq_of_text_eq, text_lt_irrefl, text_lt_trans, text_lt_total,
  text_eq_of_lt, text_eq_sym,
}
use fac_lpr_engine.Errors.{provider}
use fac_lpr_engine.Float.{Milli, milli_float}
use fac_lpr_engine.Domain.{is_accepted}
use fac_lpr_engine.Image.{ImageView, PixelFormat}
use fac_lpr_engine.Config.{default_config}
use fac_lpr_engine.CandidateFusion.{CandidateFusionConfig, LayoutEvidence}
use fac_lpr_engine.EngineDiagnostics.{LongDouble}
use fac_lpr_engine.Effects.{
  Exception, engine_error, Outcome, returns, throws, Action, Runtime, Stopwatch, OperationContext,
}
use fac_lpr_engine.Effects.Ensures.{Ensures}
use fac_lpr_engine.Ensemble.{Recognizer, RecognizerRegistration}
use fac_lpr_engine.Pipeline.{
  LprPipeline, LprPipelineResult, CropHypothesis, GeometryEvidence, ImageBuffer,
}
use fac_lpr_engine.Pipeline.Crops
use fac_lpr_engine.Effects
use fac_lpr_engine.Ensemble
use fac_lpr_engine.Pipeline.Detections.{
  run_detection, recognize, empty_result, published, publish_diagnostics, run_geometry,
  run_alignment, finish_detection, run_detections, clean_score,
}
use fac_lpr_engine.Pipeline.Ledger.{IsSummed, IsMarked, ledger, empty-IsSummed}
use fac_lpr_engine.Pipeline.Accounting.{run_detection-IsMarked, recognize-IsSummed}
use fac_lpr_engine.Pipeline.Standard.{with_standard_parts}
use fac_lpr_engine.Samples.{candidate, first_plate, evidence_of, detection}

-- The world is the clock, which goes on by one at each reading.
instance abbrev ticking : Runtime ℕ
ticking = record { now = λ w. (w, w + 1); stop_requested = λ token w. false }

instance abbrev sample_watch : Stopwatch Milli
sample_watch = record { elapsed_ms = λ started finished. some (finished - started) }

instance abbrev sample_long : LongDouble Milli Milli
sample_long = record {
  infinity = none;
  long_nought = some 0;
  long_add = milli_float.add;
  long_div = milli_float.div;
  widen = λ x. x;
  narrow = λ x. x;
  of_count = λ n. some (n * 1000);
}

abbrev crop : CropHypothesis Milli
crop = record {
  image = record {
    byte_count = 36;
    width = 3;
    height = 3;
    stride_bytes = 12;
    format = PixelFormat.bgr8;
  };
  kind = b'k' ∷ [];
  source = b's' ∷ [];
  fingerprint = 1;
  quality = some 700;
}

abbrev image : ImageView
image = record {
  byte_count = 36;
  width = 3;
  height = 3;
  stride_bytes = 12;
  format = PixelFormat.bgr8;
}

abbrev parts :
    Outcome (Option ImageBuffer) → Outcome (LayoutEvidence Milli) → LprPipeline ℕ Milli Milli Milli
parts aligned layout = record {
  detect = λ image context w. (returns (detection ∷ []), w + 9);
  evaluate = λ d context w. (returns (record { valid = true; score = some 900 }), w);
  align = λ image d context w. (aligned, w);
  generate = λ image d aligned context w. (returns (crop ∷ []), w);
  recognition_ensemble =
      (record {
        recognizer = record {
          name = b'r' ∷ [];
          run = λ plate context w. (returns (evidence_of (candidate first_plate 990 ∷ [])), w + 20);
        };
        weight = some 1000;
        timeout = pos 100;
        required = true;
        enabled = true;
      })
      ∷ [];
  calibrate = λ source raw quality kind w. (returns raw, w);
  analyze = λ plate candidates context w. (layout, w);
  fuse = λ evidence layouts w. (returns [], w);
  decide = λ d evidence fused context w. (throws (engine_error provider), w);
  diagnostics = none;
}

abbrev fusion : CandidateFusionConfig Milli
fusion = record {
  max_candidates = 5;
  default_source_weight = some 1000;
  source_weights = [];
  recognition_weight = some 650;
  crop_quality_weight = some 150;
  candidate_margin_weight = some 100;
  layout_weight = some 100;
  minimum_candidate_confidence = some 10;
}

abbrev context : OperationContext
context = record { stop_token = none; deadline = none }

abbrev failing : {A : Type 0} → Outcome A
failing = throws (engine_error provider)

abbrev layout : LayoutEvidence Milli
layout = record {
  reliable = true;
  character_count = none;
  letter_group_size = none;
  confidence = some 900;
}

abbrev pipeline : LprPipeline ℕ Milli Milli Milli
pipeline = with_standard_parts fusion default_config.decision (parts failing failing)

abbrev healthy : LprPipeline ℕ Milli Milli Milli
healthy = with_standard_parts fusion default_config.decision (parts (returns none) (returns layout))

-- The plates, whether they are accepted and degraded of what a run returns, with its number of failures.
abbrev summary :
    Outcome (LprPipelineResult Milli Milli) × ℕ → Option (List (Text × Bool × Bool) × ℕ)
summary (returns r, w) = some (
  map (λ p. (p.plate, is_accepted p.status, p.degraded)) r.recognitions,
  r.provider_failure_count,
)
summary (throws e, w) = none

runs : summary (recognize pipeline context image 0) ≡ some ((first_plate, false, true) ∷ [], 2)
unfolding fac_lpr_engine.Effects.◌>>=◌ fac_lpr_engine.Effects.read_clock
    fac_lpr_engine.Effects.check_context fac_lpr_engine.Effects.cancellation_requested
    fac_lpr_engine.Effects.pure fac_lpr_engine.Effects.deadline_exceeded fac_lpr_engine.Effects.lift
    fac_lpr_engine.Effects.attempt fac_lpr_engine.Effects.resume fac_lpr_engine.Effects.settle
    fac_lpr_engine.Effects.throw fac_lpr_engine.Image.validate_image
    fac_lpr_engine.Image.pixel_format_channels fac_lpr_engine.Image.checked_multiply
    fac_lpr_engine.Image.checked_add fac_lpr_engine.Image.check_limits
    fac_lpr_engine.Pipeline.Crops.add_timing fac_lpr_engine.Pipeline.Crops.caught
    fac_lpr_engine.Pipeline.Crops.add_ensemble fac_lpr_engine.Pipeline.Crops.calibrate_all
    fac_lpr_engine.Pipeline.Crops.calibrate_candidates fac_lpr_engine.Pipeline.Crops.crop_candidates
    fac_lpr_engine.Pipeline.Crops.provider_weight fac_lpr_engine.Pipeline.Crops.record_failure
    fac_lpr_engine.Pipeline.Crops.run_crop fac_lpr_engine.Pipeline.Crops.run_crops
    fac_lpr_engine.Pipeline.Crops.time_progress fac_lpr_engine.Ensemble.add_outcome
    fac_lpr_engine.Ensemble.effective_provider_confidence fac_lpr_engine.Ensemble.is_active
    fac_lpr_engine.Ensemble.is_invalid fac_lpr_engine.Ensemble.provider_context
    fac_lpr_engine.Ensemble.recognize fac_lpr_engine.Ensemble.run_all
    fac_lpr_engine.Ensemble.run_recognizer fac_lpr_engine.Ensemble.validate_candidates
    fac_lpr_engine.Ensemble.validate_evidence fac_lpr_engine.Float.clamp fac_lpr_engine.Float.fmax
    fac_lpr_engine.Float.is_probability fac_lpr_engine.OrderedMap.upsert
    fac_lpr_engine.OrderedMap.lookup fac_lpr_engine.Prelude.text_eq fac_lpr_engine.Prelude.text_lt
    fac_lpr_engine.CandidateFusion.fuse fac_lpr_engine.CandidateFusion.aggregate_all
    fac_lpr_engine.CandidateFusion.score_crop fac_lpr_engine.CandidateFusion.is_ignored
    fac_lpr_engine.CandidateFusion.is_skipped fac_lpr_engine.CandidateFusion.score_of
    fac_lpr_engine.CandidateFusion.candidate_margin fac_lpr_engine.CandidateFusion.candidates_of
    fac_lpr_engine.CandidateFusion.merge_crop fac_lpr_engine.CandidateFusion.merge_support
    fac_lpr_engine.CandidateFusion.take_score fac_lpr_engine.CandidateFusion.layout_quality
    fac_lpr_engine.CandidateFusion.source_weight fac_lpr_engine.CandidateFusion.total_weight
    fac_lpr_engine.CandidateFusion.highest_competing
    fac_lpr_engine.CandidateFusion.effective_confidence fac_lpr_engine.CandidateFusion.ranks_before
    fac_lpr_engine.StableSort.sort fac_lpr_engine.StableSort.insert fac_lpr_engine.Decision.decide
    fac_lpr_engine.Decision.best_crop_quality fac_lpr_engine.Decision.valid_candidates
    fac_lpr_engine.Decision.effective_confidence fac_lpr_engine.Decision.chosen_confidence
    fac_lpr_engine.Decision.stable_sort fac_lpr_engine.Decision.insert_stable
    fac_lpr_engine.Decision.ranks_before fac_lpr_engine.Decision.verdict
    fac_lpr_engine.Decision.rejection fac_lpr_engine.Decision.review_reasons
    fac_lpr_engine.Decision.has_conflict fac_lpr_engine.Calibration.identity_calibrate
    fac_lpr_engine.Calibration.validate_common_input fac_lpr_engine.Pipeline.Detections.recognize
    fac_lpr_engine.Pipeline.Detections.run_detections
    fac_lpr_engine.Pipeline.Detections.run_detection fac_lpr_engine.Pipeline.Detections.run_geometry
    fac_lpr_engine.Pipeline.Detections.clean_score fac_lpr_engine.Pipeline.Detections.run_alignment
    fac_lpr_engine.Pipeline.Detections.finish_detection
    fac_lpr_engine.Pipeline.Detections.publish_diagnostics
runs = refl

runs_healthy :
    summary (recognize healthy context image 0) ≡ some ((first_plate, true, false) ∷ [], 0)
unfolding fac_lpr_engine.Effects.◌>>=◌ fac_lpr_engine.Effects.read_clock
    fac_lpr_engine.Effects.check_context fac_lpr_engine.Effects.cancellation_requested
    fac_lpr_engine.Effects.pure fac_lpr_engine.Effects.deadline_exceeded fac_lpr_engine.Effects.lift
    fac_lpr_engine.Effects.attempt fac_lpr_engine.Effects.resume fac_lpr_engine.Effects.settle
    fac_lpr_engine.Effects.throw fac_lpr_engine.Image.validate_image
    fac_lpr_engine.Image.pixel_format_channels fac_lpr_engine.Image.checked_multiply
    fac_lpr_engine.Image.checked_add fac_lpr_engine.Image.check_limits
    fac_lpr_engine.Pipeline.Crops.add_timing fac_lpr_engine.Pipeline.Crops.caught
    fac_lpr_engine.Pipeline.Crops.add_ensemble fac_lpr_engine.Pipeline.Crops.calibrate_all
    fac_lpr_engine.Pipeline.Crops.calibrate_candidates fac_lpr_engine.Pipeline.Crops.crop_candidates
    fac_lpr_engine.Pipeline.Crops.provider_weight fac_lpr_engine.Pipeline.Crops.record_failure
    fac_lpr_engine.Pipeline.Crops.run_crop fac_lpr_engine.Pipeline.Crops.run_crops
    fac_lpr_engine.Pipeline.Crops.time_progress fac_lpr_engine.Ensemble.add_outcome
    fac_lpr_engine.Ensemble.effective_provider_confidence fac_lpr_engine.Ensemble.is_active
    fac_lpr_engine.Ensemble.is_invalid fac_lpr_engine.Ensemble.provider_context
    fac_lpr_engine.Ensemble.recognize fac_lpr_engine.Ensemble.run_all
    fac_lpr_engine.Ensemble.run_recognizer fac_lpr_engine.Ensemble.validate_candidates
    fac_lpr_engine.Ensemble.validate_evidence fac_lpr_engine.Float.clamp fac_lpr_engine.Float.fmax
    fac_lpr_engine.Float.is_probability fac_lpr_engine.OrderedMap.upsert
    fac_lpr_engine.OrderedMap.lookup fac_lpr_engine.Prelude.text_eq fac_lpr_engine.Prelude.text_lt
    fac_lpr_engine.CandidateFusion.fuse fac_lpr_engine.CandidateFusion.aggregate_all
    fac_lpr_engine.CandidateFusion.score_crop fac_lpr_engine.CandidateFusion.is_ignored
    fac_lpr_engine.CandidateFusion.is_skipped fac_lpr_engine.CandidateFusion.score_of
    fac_lpr_engine.CandidateFusion.candidate_margin fac_lpr_engine.CandidateFusion.candidates_of
    fac_lpr_engine.CandidateFusion.merge_crop fac_lpr_engine.CandidateFusion.merge_support
    fac_lpr_engine.CandidateFusion.take_score fac_lpr_engine.CandidateFusion.layout_quality
    fac_lpr_engine.CandidateFusion.source_weight fac_lpr_engine.CandidateFusion.total_weight
    fac_lpr_engine.CandidateFusion.highest_competing
    fac_lpr_engine.CandidateFusion.effective_confidence fac_lpr_engine.CandidateFusion.ranks_before
    fac_lpr_engine.StableSort.sort fac_lpr_engine.StableSort.insert fac_lpr_engine.Decision.decide
    fac_lpr_engine.Decision.best_crop_quality fac_lpr_engine.Decision.valid_candidates
    fac_lpr_engine.Decision.effective_confidence fac_lpr_engine.Decision.chosen_confidence
    fac_lpr_engine.Decision.stable_sort fac_lpr_engine.Decision.insert_stable
    fac_lpr_engine.Decision.ranks_before fac_lpr_engine.Decision.verdict
    fac_lpr_engine.Decision.rejection fac_lpr_engine.Decision.review_reasons
    fac_lpr_engine.Decision.has_conflict fac_lpr_engine.Calibration.identity_calibrate
    fac_lpr_engine.Calibration.validate_common_input fac_lpr_engine.Pipeline.Detections.recognize
    fac_lpr_engine.Pipeline.Detections.run_detections
    fac_lpr_engine.Pipeline.Detections.run_detection fac_lpr_engine.Pipeline.Detections.run_geometry
    fac_lpr_engine.Pipeline.Detections.clean_score fac_lpr_engine.Pipeline.Detections.run_alignment
    fac_lpr_engine.Pipeline.Detections.finish_detection
    fac_lpr_engine.Pipeline.Detections.publish_diagnostics
runs_healthy = refl

run_detection-IsMarked_example :
    Ensures
      (IsMarked (ledger empty_result))
      (run_detection pipeline context image 0 0 detection empty_result)
run_detection-IsMarked_example =
    run_detection-IsMarked pipeline context image 0 0 detection empty_result empty-IsSummed

recognize-IsSummed_example : Ensures (λ t. IsSummed (ledger t)) (recognize pipeline context image)
recognize-IsSummed_example = recognize-IsSummed pipeline context image
