-- ===== src/Pipeline/Standard.antt =====
-- The pipeline with the fusion and the policy that tools/lpr-cli/cli_engine_factory.cpp builds it from,
-- and what its recognitions rest on.
use fac_lpr_engine.Prelude.{◌≡◌, ◌⊎◌, true, false, some, List}
use fac_lpr_engine.Errors.{ok}
use fac_lpr_engine.Float.{Float}
use fac_lpr_engine.Domain.{Detection, PlateCandidate, PlateRecognitionResult, is_accepted}
use fac_lpr_engine.Image.{ImageView, ValidatedImage, validate_image}
use fac_lpr_engine.Calibration.{identity_calibrate}
use fac_lpr_engine.CandidateFusion.{CandidateFusionConfig, LayoutEvidence, fuse}
use fac_lpr_engine.CandidateFusion.Backing.{Counts}
use fac_lpr_engine.Config.{DecisionConfig, default_performance}
use fac_lpr_engine.Decision.{decide, below, best_crop_quality}
use fac_lpr_engine.Decision.Safety.{IsBest}
use fac_lpr_engine.Effects.{returns, outcome_of, Runtime, Stopwatch, OperationContext, lift}
use fac_lpr_engine.Effects.Ensures.{Returned}
use fac_lpr_engine.Pipeline.{LprPipeline, LprPipelineResult, CropHypothesis}
use fac_lpr_engine.Pipeline.Crops.{CropState}
use fac_lpr_engine.Pipeline.Provenance.{Paired, IsGathered, IsScored, IsCropped}

module _ {W F D L : Type 0} ⦃fl : Float F⦄ ⦃dl : Float D⦄ where
  -- The calibrator, the fusion and the policy.
  abbrev pub with_standard_parts :
      CandidateFusionConfig F → DecisionConfig F → LprPipeline W F D L → LprPipeline W F D L
  with_standard_parts fusion config pipeline = record pipeline {
    calibrate = λ source raw quality kind. lift (outcome_of (identity_calibrate raw quality));
    fuse = λ evidence layouts. lift (returns (fuse fusion evidence layouts));
    decide = λ detection evidence fused context.
        lift (outcome_of (decide config detection evidence fused context));
  }

module _ {W F D L : Type 0} ⦃fl : Float F⦄ ⦃dl : Float D⦄ ⦃rt : Runtime W⦄ ⦃sw : Stopwatch D⦄
    (fusion : CandidateFusionConfig F) (config : DecisionConfig F) (parts : LprPipeline W F D L)
    (context : OperationContext) where
  abbrev pub standard : LprPipeline W F D L
  standard = with_standard_parts fusion config parts

  -- What an accepted recognition of the detection `found` rests on.
  pub record IsTrusted (image : ImageView) (found : Detection F) (r : PlateRecognitionResult F D)
      : Type 0 where
    pub scored : IsScored standard context found r.geometry_score
    pub crops : List (CropHypothesis F)
    pub cropped :
        IsCropped standard context image (record found { geometry_score = r.geometry_score }) crops
    pub layouts : List (LayoutEvidence F)
    pub gathered : IsGathered standard context crops r.evidence layouts
    pub alternatives : r.alternatives ≡ fuse fusion r.evidence layouts
    pub detector : below r.detector_confidence config.minimum_effective_detector_confidence ≡ false
    pub geometry : below r.geometry_score config.minimum_geometry_score ≡ false
    pub crop_quality : F
    pub crop_quality_is : best_crop_quality fl.nought r.evidence ≡ ok crop_quality
    pub crop : fl.lt crop_quality config.minimum_crop_quality ≡ false
    pub best : IsBest r.alternatives r.plate r.confidence
    pub enough : fl.lt r.confidence config.accepted_confidence_threshold ≡ false
    pub not_degraded : r.degraded ≡ false
    pub backed :
        (c : PlateCandidate F) × Counts fusion r.evidence r.plate c × (c.format_valid ≡ true)

  -- The recognition tells where the detection is and how sure the detector was, and it is not
  -- accepted or can be trusted.
  pub record IsSoundFor (image : ImageView) (found : Detection F) (r : PlateRecognitionResult F D)
      : Type 0 where
    pub bbox : r.bbox ≡ some found.bbox
    pub quadrilateral : r.quadrilateral ≡ found.quadrilateral
    pub confidence : r.detector_confidence ≡ found.confidence
    pub trusted : (is_accepted r.status ≡ false) ⊎ IsTrusted image found r

  -- One sound recognition for each detection that the detector returned, in their order.
  pub record IsSound (image : ImageView) (result : LprPipelineResult F D) : Type 0 where
    pub validated : ValidatedImage
    pub is_valid : validate_image image default_performance ≡ ok validated
    pub detections : List (Detection F)
    pub detected : Returned (parts.detect validated.view context) detections
    pub recognitions : Paired (IsSoundFor validated.view) detections result.recognitions

  -- What the stages before the fusion have gathered for the detection, without a failure.
  pub record Ready (image : ImageView) (found d : Detection F) (s : CropState F D) : Type 0 where
    pub scored : IsScored standard context found d.geometry_score
    pub crops : List (CropHypothesis F)
    pub cropped : IsCropped standard context image d crops
    pub gathered : IsGathered standard context crops s.all_evidence s.all_layout
