-- ===== src/Pipeline/Crops.antt =====
-- src/application/lpr_pipeline.cpp: the helpers, and the loop over the crops of one detection.
use fac_lpr_engine.Prelude.{
  ℕ, zero, suc, ◌%◌, true, false, ◌||◌, none, List, [], ◌∷◌, ◌++◌, length, if◌then◌else◌, size_mod,
  wrap_add, Text, text_eq,
}
use fac_lpr_engine.Errors.{EngineErrorCode, provider}
use fac_lpr_engine.Float.{Float, fmax, clamp}
use fac_lpr_engine.Domain.{PlateCandidate, RecognitionEvidence}
use fac_lpr_engine.CandidateFusion.{LayoutEvidence}
use fac_lpr_engine.Decision.{RecognitionDecisionContext}
use fac_lpr_engine.Effects.{
  engine_error, Outcome, returns, throws, Action, Runtime, Stopwatch, OperationContext, pure, throw,
  ◌>>=◌, ◌>>◌, attempt, read_clock, check_context,
}
use fac_lpr_engine.Ensemble.{
  Ensemble, Recognizer, RecognizerRegistration, ProviderFailure, RecognitionEnsembleResult,
}
use fac_lpr_engine.Ensemble
use fac_lpr_engine.Pipeline.{LprPipeline, LprPipelineResult, CropHypothesis, view}

-- The names of the stages.
abbrev pub detection_stage : Text
detection_stage = b'd' ∷ b'e' ∷ b't' ∷ b'e' ∷ b'c' ∷ b't' ∷ b'i' ∷ b'o' ∷ b'n' ∷ []

abbrev pub geometry_stage : Text
geometry_stage = b'g' ∷ b'e' ∷ b'o' ∷ b'm' ∷ b'e' ∷ b't' ∷ b'r' ∷ b'y' ∷ []

abbrev pub alignment_stage : Text
alignment_stage = b'a' ∷ b'l' ∷ b'i' ∷ b'g' ∷ b'n' ∷ b'm' ∷ b'e' ∷ b'n' ∷ b't' ∷ []

abbrev pub crop_stage : Text
crop_stage =
    b'c' ∷ b'r' ∷ b'o' ∷ b'p' ∷ b'_' ∷ b'g' ∷ b'e' ∷ b'n' ∷ b'e' ∷ b'r' ∷ b'a' ∷ b't' ∷ b'i' ∷ b'o'
    ∷ b'n' ∷ []

abbrev pub recognition_stage : Text
recognition_stage = b'r' ∷ b'e' ∷ b'c' ∷ b'o' ∷ b'g' ∷ b'n' ∷ b'i' ∷ b't' ∷ b'i' ∷ b'o' ∷ b'n' ∷ []

abbrev pub calibration_stage : Text
calibration_stage = b'c' ∷ b'a' ∷ b'l' ∷ b'i' ∷ b'b' ∷ b'r' ∷ b'a' ∷ b't' ∷ b'i' ∷ b'o' ∷ b'n' ∷ []

abbrev pub layout_stage : Text
layout_stage = b'l' ∷ b'a' ∷ b'y' ∷ b'o' ∷ b'u' ∷ b't' ∷ []

abbrev pub fusion_stage : Text
fusion_stage = b'f' ∷ b'u' ∷ b's' ∷ b'i' ∷ b'o' ∷ b'n' ∷ []

abbrev pub decision_stage : Text
decision_stage = b'd' ∷ b'e' ∷ b'c' ∷ b'i' ∷ b's' ∷ b'i' ∷ b'o' ∷ b'n' ∷ []

-- What the run has gathered, and what it tells the decision about the current detection.
pub record Progress (F D : Type 0) : Type 0 where
  pub result : LprPipelineResult F D
  pub decision : RecognitionDecisionContext

-- The locals of the loop over the crops.
pub record CropState (F D : Type 0) : Type 0 where
  pub progress : Progress F D
  pub all_evidence : List (RecognitionEvidence F D)
  pub all_layout : List (LayoutEvidence F)
  pub best_crop_quality : F

abbrev pub copies : {A : Type 0} → ℕ → A → List A
copies zero a = []
copies (suc n) a = a ∷ copies n a

-- `catch (const ProviderError&)`: other exceptions go on.
unfoldable pub caught : {W A B : Type 0} → (A → B) → (EngineErrorCode → B) → Outcome A → Action W B
caught on_value on_failure (returns a) = pure (on_value a)
caught on_value on_failure (throws (engine_error EngineErrorCode.provider)) =
    pure (on_failure provider)
caught on_value on_failure (throws e) = throw e

module _ {F D : Type 0} where
  unfoldable pub record_failure : Text → EngineErrorCode → Progress F D → Progress F D
  record_failure source code p = record {
    result = record p.result {
      degraded = true;
      provider_failure_count = wrap_add p.result.provider_failure_count 1;
      failures = p.result.failures ++ (record { provider = source; code = code } ∷ []);
    };
    decision = record p.decision {
      degraded = true;
      provider_failure_count = wrap_add p.decision.provider_failure_count 1;
    };
  }

  -- What the run takes over from the ensemble.
  unfoldable pub add_ensemble : RecognitionEnsembleResult F D → Progress F D → Progress F D
  add_ensemble ensemble p = record {
    result = record p.result {
      failures = p.result.failures ++ ensemble.failures;
      provider_failure_count =
          wrap_add p.result.provider_failure_count (length ensemble.failures % size_mod);
      degraded = p.result.degraded || ensemble.degraded;
    };
    decision = record p.decision {
      degraded = p.decision.degraded || ensemble.degraded;
      provider_failure_count =
          wrap_add p.decision.provider_failure_count (length ensemble.failures % size_mod);
    };
  }

  unfoldable pub crop_candidates : List (RecognitionEvidence F D) → List (PlateCandidate F)
  crop_candidates [] = []
  crop_candidates (e ∷ es) = e.candidates ++ crop_candidates es

module _ {W F D : Type 0} ⦃dl : Float D⦄ ⦃rt : Runtime W⦄ ⦃sw : Stopwatch D⦄ where
  unfoldable pub add_timing :
      Text → ℕ → ℕ → ℕ → LprPipelineResult F D → Action W (LprPipelineResult F D)
  add_timing stage detection_index crop_index started result = do
    finished ← read_clock
    pure (record result {
      stage_timings =
          result.stage_timings
          ++ (record {
            stage = stage;
            detection_index = detection_index;
            crop_index = crop_index;
            latency_ms = fmax dl.nought (sw.elapsed_ms started finished);
          }
              ∷ []);
    })

  unfoldable pub time_progress : Text → ℕ → ℕ → ℕ → Progress F D → Action W (Progress F D)
  time_progress stage detection_index crop_index started p = do
    timed ← add_timing stage detection_index crop_index started p.result
    pure (record p { result = timed })

module _ {W F D : Type 0} ⦃fl : Float F⦄ where
  unfoldable pub provider_weight : Ensemble W F D → Text → F
  provider_weight [] name = fl.one
  provider_weight (r ∷ rs) name =
      if text_eq r.recognizer.name name
      then if r.enabled then clamp r.weight fl.nought fl.one else fl.nought
      else provider_weight rs name

module _ {W F D L : Type 0} ⦃fl : Float F⦄ where
  unfoldable pub calibrate_candidates :
      LprPipeline W F D L
      → CropHypothesis F
      → Text
      → F
      → List (PlateCandidate F)
      → Action W (List (PlateCandidate F))
  calibrate_candidates pipeline crop source weight [] = pure []
  calibrate_candidates pipeline crop source weight (c ∷ cs) = do
    calibrated ← pipeline.calibrate source c.confidence crop.quality crop.kind
    rest ← calibrate_candidates pipeline crop source weight cs
    pure (
        record c { calibrated_confidence = clamp (fl.mul calibrated weight) fl.nought fl.one }
        ∷ rest)

  unfoldable pub calibrate_all :
      LprPipeline W F D L
      → CropHypothesis F
      → List (RecognitionEvidence F D)
      → Action W (List (RecognitionEvidence F D))
  calibrate_all pipeline crop [] = pure []
  calibrate_all pipeline crop (e ∷ es) = do
    candidates ←
        calibrate_candidates pipeline crop e.source
          (provider_weight pipeline.recognition_ensemble e.source) e.candidates
    rest ← calibrate_all pipeline crop es
    pure (record e { candidates = candidates } ∷ rest)

module _ {W F D L : Type 0} ⦃fl : Float F⦄ ⦃dl : Float D⦄ ⦃rt : Runtime W⦄ ⦃sw : Stopwatch D⦄
    (pipeline : LprPipeline W F D L) (context : OperationContext) (detection_index : ℕ) where
  abbrev no_layout : LayoutEvidence F
  no_layout = record {
    reliable = false;
    character_count = none;
    letter_group_size = none;
    confidence = fl.nought;
  }

  -- The body of the loop over the crops.
  unfoldable pub run_crop : ℕ → CropHypothesis F → CropState F D → Action W (CropState F D)
  run_crop crop_index crop s = do
    recognition_started ← read_clock
    ensemble ←
        Ensemble.recognize pipeline.recognition_ensemble (view crop.image) crop.quality context
    recognized ←
        time_progress recognition_stage detection_index crop_index recognition_started s.progress
    calibration_started ← read_clock
    evidence ← calibrate_all pipeline crop ensemble.evidence
    calibrated ←
        time_progress calibration_stage detection_index crop_index calibration_started
          (add_ensemble ensemble recognized)
    layout_started ← read_clock
    (layout, analyzed) ←
        attempt (pipeline.analyze (view crop.image) (crop_candidates evidence) context) (
          caught (λ layout. (layout, calibrated))
            λ code. (no_layout, record_failure layout_stage code calibrated))
    timed ← time_progress layout_stage detection_index crop_index layout_started analyzed
    check_context context
    pure (record {
      progress = timed;
      all_evidence = s.all_evidence ++ evidence;
      all_layout = s.all_layout ++ copies (length evidence) layout;
      best_crop_quality = fmax s.best_crop_quality (clamp crop.quality fl.nought fl.one);
    })

  unfoldable pub run_crops : ℕ → List (CropHypothesis F) → CropState F D → Action W (CropState F D)
  run_crops crop_index [] s = pure s
  run_crops crop_index (crop ∷ crops) s = do
    next ← run_crop crop_index crop s
    run_crops (suc crop_index) crops next
