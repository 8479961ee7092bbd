-- ===== src/Pipeline.antt =====
-- src/application/lpr_pipeline.cpp with lpr_pipeline.hpp and the interfaces of providers.hpp: one run of
-- the pipeline on an image. The adapters behind the interfaces are calls that may throw and that may
-- change the world, as the recognizers are.
pub mod Crops
pub mod Detections
pub mod Ledger
pub mod Accounting
pub mod Provenance
pub mod Standard
pub mod Trust
pub mod Acceptance
mod Examples
use fac_lpr_engine.Prelude.{
  ℕ, zero, suc, ◌+◌, ◌-◌, ◌*◌, ◌/◌, ◌%◌, ◌^◌, ◌≤◌, ◌<◌, ◌≡◌, refl, sym, ap, ◌∙◌, subst, ◌≢◌, ◌↔◌,
  ◌⊎◌, inl, inr, Bool, true, false, not, ◌&&◌, ◌||◌, Option, none, some, List, [], ◌∷◌, ◌++◌, map,
  arith, length, length-append, All, Any, take, get_elem?, All-append, length-take-le, ltb, leb,
  ◌==◌, if◌then◌else◌, Bool-cases, Option-cases, size_mod, wrap_add, Text, is_empty, text_eq,
  text_lt, ℤ, pos, negsuc, is_negative, is_positive, exceeds, elapsed_lt, elapsed_le,
  nanos_per_milli, text_eq_refl, eq_of_text_eq, text_lt_irrefl, text_lt_trans, text_lt_total,
  text_eq_of_lt, text_eq_sym,
}
use fac_lpr_engine.Errors.{
  Result, Result-cases, ok, err, ◌>>=◌, ◌>>◌, throw_if, EngineErrorCode, configuration, provider,
  inference, invalid_image, resource_exhausted, internal, cancelled, timeout, >>=-eq-ok,
}
use fac_lpr_engine.Domain.{Detection, PlateCandidate, RecognitionEvidence, PlateRecognitionResult}
use fac_lpr_engine.Image.{ImageView, PixelFormat}
use fac_lpr_engine.CandidateFusion.{LayoutEvidence}
use fac_lpr_engine.Decision.{RecognitionDecisionContext}
use fac_lpr_engine.EngineDiagnostics.{EngineDiagnostics}
use fac_lpr_engine.Effects.{Action, OperationContext}
use fac_lpr_engine.Ensemble.{Ensemble, ProviderFailure}

-- An image in memory of its own; its bytes are counted, as those of a view are.
pub record ImageBuffer : Type 0 where
  pub byte_count : ℕ
  pub width : ℕ
  pub height : ℕ
  pub stride_bytes : ℕ
  pub format : PixelFormat

abbrev pub view : ImageBuffer → ImageView
view image = record {
  byte_count = image.byte_count;
  width = image.width;
  height = image.height;
  stride_bytes = image.stride_bytes;
  format = image.format;
}

-- The type of a crop is its `kind`.
pub record CropHypothesis (F : Type 0) : Type 0 where
  pub image : ImageBuffer
  pub kind : Text
  pub source : Text
  pub fingerprint : ℕ
  pub quality : F

pub record GeometryEvidence (F : Type 0) : Type 0 where
  pub valid : Bool
  pub score : F

pub record PipelineStageTiming (D : Type 0) : Type 0 where
  pub stage : Text
  pub detection_index : ℕ
  pub crop_index : ℕ
  pub latency_ms : D

pub record LprPipelineResult (F D : Type 0) : Type 0 where
  pub recognitions : List (PlateRecognitionResult F D)
  pub stage_timings : List (PipelineStageTiming D)
  pub failures : List ProviderFailure
  pub total_latency_ms : D
  pub provider_failure_count : ℕ
  pub degraded : Bool

-- A shared object in the world.
pub record Shared (W A : Type 0) : Type 0 where
  pub get : W → A
  pub put : A → W → W

-- The interfaces that the pipeline calls, each as the one method that it calls of it.
pub record LprPipelineDependencies (W F D L : Type 0) : Type 0 where
  pub detector : Option (ImageView → OperationContext → Action W (List (Detection F)))
  pub geometry : Option (Detection F → OperationContext → Action W (GeometryEvidence F))
  pub aligner : Option (ImageView → Detection F → OperationContext → Action W (Option ImageBuffer))
  pub crop_generator : Option (
      ImageView
      → Detection F
      → Option ImageBuffer
      → OperationContext
      → Action W (List (CropHypothesis F)))
  pub recognition_ensemble : Option (Ensemble W F D)
  pub calibrator : Option (Text → F → F → Text → Action W F)
  pub layout_analyzer :
      Option (ImageView → List (PlateCandidate F) → OperationContext → Action W (LayoutEvidence F))
  pub candidate_fusion : Option (
      List (RecognitionEvidence F D) → List (LayoutEvidence F) → Action W (List (PlateCandidate F)))
  pub decision_policy : Option (
      Detection F
      → List (RecognitionEvidence F D)
      → List (PlateCandidate F)
      → RecognitionDecisionContext
      → Action W (PlateRecognitionResult F D))
  pub diagnostics : Option (Shared W (EngineDiagnostics D L))

-- The dependencies after the constructor has checked them.
pub record LprPipeline (W F D L : Type 0) : Type 0 where
  pub detect : ImageView → OperationContext → Action W (List (Detection F))
  pub evaluate : Detection F → OperationContext → Action W (GeometryEvidence F)
  pub align : ImageView → Detection F → OperationContext → Action W (Option ImageBuffer)
  pub generate :
      ImageView
      → Detection F
      → Option ImageBuffer
      → OperationContext
      → Action W (List (CropHypothesis F))
  pub recognition_ensemble : Ensemble W F D
  pub calibrate : Text → F → F → Text → Action W F
  pub analyze : ImageView → List (PlateCandidate F) → OperationContext → Action W (LayoutEvidence F)
  pub fuse :
      List (RecognitionEvidence F D) → List (LayoutEvidence F) → Action W (List (PlateCandidate F))
  pub decide :
      Detection F
      → List (RecognitionEvidence F D)
      → List (PlateCandidate F)
      → RecognitionDecisionContext
      → Action W (PlateRecognitionResult F D)
  pub diagnostics : Option (Shared W (EngineDiagnostics D L))

abbrev pub required : {A : Type 0} → Option A → Result A
required none = err configuration
required (some a) = ok a

unfoldable pub make_pipeline :
    {W F D L : Type 0} → LprPipelineDependencies W F D L → Result (LprPipeline W F D L)
make_pipeline dependencies = do
  detect ← required dependencies.detector
  evaluate ← required dependencies.geometry
  align ← required dependencies.aligner
  generate ← required dependencies.crop_generator
  ensemble ← required dependencies.recognition_ensemble
  calibrate ← required dependencies.calibrator
  analyze ← required dependencies.layout_analyzer
  fuse ← required dependencies.candidate_fusion
  decide ← required dependencies.decision_policy
  ok (record {
    detect = detect;
    evaluate = evaluate;
    align = align;
    generate = generate;
    recognition_ensemble = ensemble;
    calibrate = calibrate;
    analyze = analyze;
    fuse = fuse;
    decide = decide;
    diagnostics = dependencies.diagnostics;
  })
