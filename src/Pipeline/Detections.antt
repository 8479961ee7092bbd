-- ===== src/Pipeline/Detections.antt =====
-- src/application/lpr_pipeline.cpp: the loop over the detections, and `LprPipeline::recognize`.
use fac_lpr_engine.Prelude.{
  ℕ, suc, false, ◌||◌, Option, none, some, List, [], ◌∷◌, ◌++◌, if◌then◌else◌,
}
use fac_lpr_engine.Float.{Float, fmax, clamp}
use fac_lpr_engine.Domain.{Detection, PlateRecognitionResult}
use fac_lpr_engine.Image.{ImageView, validate_image}
use fac_lpr_engine.Config.{default_performance}
use fac_lpr_engine.Decision.{RecognitionDecisionContext}
use fac_lpr_engine.EngineDiagnostics.{
  EngineDiagnostics, LongDouble, record_recognition, record_provider_failures, record_stage_latency,
}
use fac_lpr_engine.Effects.{
  outcome_of, Action, Runtime, Stopwatch, OperationContext, pure, lift, ◌>>=◌, ◌>>◌, attempt,
  read_clock, check_context,
}
use fac_lpr_engine.Pipeline.{
  LprPipeline, LprPipelineResult, PipelineStageTiming, Shared, CropHypothesis,
}
use fac_lpr_engine.Pipeline.Crops.{
  Progress, CropState, detection_stage, geometry_stage, alignment_stage, crop_stage, fusion_stage,
  decision_stage, caught, record_failure, add_timing, time_progress, run_crops,
}

abbrev pub fresh_context : RecognitionDecisionContext
fresh_context = record {
  degraded = false;
  fatal_provider_failure = false;
  provider_failure_count = 0;
}

module _ {F D : Type 0} ⦃dl : Float D⦄ where
  abbrev pub empty_result : LprPipelineResult F D
  empty_result = record {
    recognitions = [];
    stage_timings = [];
    failures = [];
    total_latency_ms = dl.nought;
    provider_failure_count = 0;
    degraded = false;
  }

module _ {F D L : Type 0} where
  abbrev pub record_recognitions :
      List (PlateRecognitionResult F D) → EngineDiagnostics D L → EngineDiagnostics D L
  record_recognitions [] d = d
  record_recognitions (r ∷ rs) d = record_recognitions rs (record_recognition r.status d)

module _ {D L : Type 0} ⦃dl : Float D⦄ ⦃ll : LongDouble D L⦄ where
  abbrev pub record_timings :
      List (PipelineStageTiming D) → EngineDiagnostics D L → EngineDiagnostics D L
  record_timings [] d = d
  record_timings (t ∷ ts) d = record_timings ts (record_stage_latency t.stage t.latency_ms d)

module _ {F D L : Type 0} ⦃dl : Float D⦄ ⦃ll : LongDouble D L⦄ where
  -- What a run tells the diagnostics.
  unfoldable pub published : LprPipelineResult F D → EngineDiagnostics D L → EngineDiagnostics D L
  published result d = record_timings result.stage_timings (
      record_provider_failures result.provider_failure_count
        (record_recognitions result.recognitions d))

module _ {W F D L : Type 0} ⦃dl : Float D⦄ ⦃ll : LongDouble D L⦄ where
  unfoldable pub publish_diagnostics :
      Option (Shared W (EngineDiagnostics D L)) → LprPipelineResult F D → Action W (Unit {0})
  publish_diagnostics none result w = pure tt w
  publish_diagnostics (some diagnostics) result w =
      pure tt (diagnostics.put (published result (diagnostics.get w)) w)

module _ {F : Type 0} ⦃fl : Float F⦄ where
  unfoldable pub clean_score : F → F
  clean_score score = if fl.is_finite score then clamp score fl.nought fl.one else fl.nought

module _ {W F D L : Type 0} ⦃fl : Float F⦄ ⦃dl : Float D⦄ ⦃rt : Runtime W⦄ ⦃sw : Stopwatch D⦄
    (pipeline : LprPipeline W F D L) (context : OperationContext) where
  -- The geometry stage, with the score that it writes into the detection.
  unfoldable pub run_geometry :
      ℕ → Detection F → Progress F D → Action W (Detection F × Progress F D)
  run_geometry index detection p = do
    started ← read_clock
    (scored, checked) ← attempt (pipeline.evaluate detection context) (
        caught (λ geometry. (record detection { geometry_score = clean_score geometry.score }, p))
          λ code.
            (record detection { geometry_score = fl.nought }, record_failure geometry_stage code p))
    timed ← time_progress geometry_stage index 0 started checked
    check_context context
    pure (scored, timed)

  -- The alignment and the generation of the crops, up to the start of the loop over them.
  unfoldable pub run_alignment :
      ImageView → ℕ → Detection F → Progress F D → Action W (List (CropHypothesis F) × Progress F D)
  run_alignment image index detection p = do
    alignment_started ← read_clock
    (aligned, attempted) ←
        attempt (pipeline.align image detection context)
          (caught (λ aligned. (aligned, p)) λ code. (none, record_failure alignment_stage code p))
    timed ← time_progress alignment_stage index 0 alignment_started attempted
    check_context context
    crop_started ← read_clock
    crops ← pipeline.generate image detection aligned context
    generated ← time_progress crop_stage index 0 crop_started timed
    check_context context
    pure (crops, generated)

  -- Fusion and decision.
  unfoldable pub finish_detection :
      ℕ → ℕ → Detection F → CropState F D → Action W (LprPipelineResult F D)
  finish_detection pipeline_started index detection s = do
    fusion_started ← read_clock
    fused ← pipeline.fuse s.all_evidence s.all_layout
    merged ← add_timing fusion_stage index 0 fusion_started s.progress.result
    decision_started ← read_clock
    recognition ← pipeline.decide detection s.all_evidence fused s.progress.decision
    decided ← add_timing decision_stage index 0 decision_started merged
    finished ← read_clock
    check_context context
    pure (record decided {
      recognitions =
          decided.recognitions
          ++ (record recognition {
            crop_quality = s.best_crop_quality;
            degraded = recognition.degraded || s.progress.decision.degraded;
            total_latency_ms = sw.elapsed_ms pipeline_started finished;
          }
              ∷ []);
    })

  -- The body of the loop over the detections.
  unfoldable pub run_detection :
      ImageView → ℕ → ℕ → Detection F → LprPipelineResult F D → Action W (LprPipelineResult F D)
  run_detection image pipeline_started index detection result = do
    (scored, placed) ←
        run_geometry index detection (record { result = result; decision = fresh_context })
    (crops, generated) ← run_alignment image index scored placed
    gathered ← run_crops pipeline context index 0 crops (record {
      progress = generated;
      all_evidence = [];
      all_layout = [];
      best_crop_quality = fl.nought;
    })
    finish_detection pipeline_started index scored gathered

  unfoldable pub run_detections :
      ImageView
      → ℕ
      → ℕ
      → List (Detection F)
      → LprPipelineResult F D
      → Action W (LprPipelineResult F D)
  run_detections image pipeline_started index [] result = pure result
  run_detections image pipeline_started index (d ∷ ds) result = do
    next ← run_detection image pipeline_started index d result
    run_detections image pipeline_started (suc index) ds next

  unfoldable pub recognize : ⦃ll : LongDouble D L⦄ → ImageView → Action W (LprPipelineResult F D)
  recognize image = do
    pipeline_started ← read_clock
    check_context context
    validated ← lift (outcome_of (validate_image image default_performance))
    detection_started ← read_clock
    detections ← pipeline.detect validated.view context
    first ← add_timing detection_stage 0 0 detection_started empty_result
    check_context context
    result ← run_detections validated.view pipeline_started 0 detections first
    finished ← read_clock
    let final = record result {
      total_latency_ms = fmax dl.nought (sw.elapsed_ms pipeline_started finished);
    }
    publish_diagnostics pipeline.diagnostics final
    pure final
