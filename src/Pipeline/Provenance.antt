-- ===== src/Pipeline/Provenance.antt =====
-- Where the evidence of a detection comes from: the calls of the providers, stage by stage.
pub mod Gathering
pub mod Stages
use fac_lpr_engine.Prelude.{
  if◌then◌else◌, ℕ, zero, suc, ◌≡◌, refl, sym, ap, ◌∙◌, subst, ◌⊎◌, inl, inr, Bool, true, false,
  ◌||◌, Option, none, some, List, [], ◌∷◌, ◌++◌, arith, All, length, Bool-cases, Text,
}
use mathlib.Core.List.{append_assoc, append-nil}
use fac_lpr_engine.Errors.{EngineErrorCode}
use fac_lpr_engine.Float.{Float, clamp}
use fac_lpr_engine.Domain.{Detection, PlateCandidate, RecognitionEvidence}
use fac_lpr_engine.Image.{ImageView}
use fac_lpr_engine.CandidateFusion.{LayoutEvidence}
use fac_lpr_engine.Effects.{Action, Runtime, Stopwatch, OperationContext}
use fac_lpr_engine.Effects.Ensures.{
  Returned, Ensures, Ensures-pure, Ensures-bind, Ensures-then, Ensures-call, Ensures-weaken,
}
use fac_lpr_engine.Ensemble
use fac_lpr_engine.Ensemble.{RecognitionEnsembleResult}
use fac_lpr_engine.Pipeline.{LprPipeline, CropHypothesis, GeometryEvidence, ImageBuffer, view}
use fac_lpr_engine.Pipeline.Crops.{
  Progress, CropState, record_failure, add_ensemble, crop_candidates, copies, provider_weight,
  calibrate_candidates, calibrate_all, add_timing, time_progress, run_crop, run_crops,
}
use fac_lpr_engine.Pipeline.Detections.{clean_score, run_geometry, run_alignment}
use fac_lpr_engine.Pipeline.Ledger.{Ensures-caught_call}

-- The lists have the same length, and their elements are related one by one.
abbrev pub Paired : {A B : Type 0} → (A → B → Type 0) → List A → List B → Type 0
Paired R [] [] = Unit
Paired R [] (y ∷ ys) = ⊥
Paired R (x ∷ xs) [] = ⊥
Paired R (x ∷ xs) (y ∷ ys) = R x y × Paired R xs ys

module _ {W F D L : Type 0} ⦃fl : Float F⦄ ⦃dl : Float D⦄ ⦃rt : Runtime W⦄ ⦃sw : Stopwatch D⦄
    (pipeline : LprPipeline W F D L) (context : OperationContext) where
  -- A candidate of the ensemble, and the candidate with the confidence that the calibrator returned
  -- for it, weighted.
  pub record IsCalibrated (crop : CropHypothesis F) (source : Text) (weight : F)
      (before after : PlateCandidate F) : Type 0 where
    pub calibrated : F
    pub returned :
        Returned (pipeline.calibrate source before.confidence crop.quality crop.kind) calibrated
    pub is : after ≡ record before {
      calibrated_confidence = clamp (fl.mul calibrated weight) fl.nought fl.one;
    }

  pub record IsRecalibrated (crop : CropHypothesis F) (before after : RecognitionEvidence F D)
      : Type 0 where
    pub candidates : List (PlateCandidate F)
    pub calibrated :
        Paired
          (IsCalibrated crop before.source
            (provider_weight pipeline.recognition_ensemble before.source))
          before.candidates
          candidates
    pub is : after ≡ record before { candidates = candidates }

  -- The evidence and the layouts of one crop: one piece of evidence for each that the ensemble
  -- returned for the crop, calibrated, and for each of them the layout that the analyzer returned.
  pub record IsRead (crop : CropHypothesis F) (evidence : List (RecognitionEvidence F D))
      (layouts : List (LayoutEvidence F)) : Type 0 where
    pub ensemble : RecognitionEnsembleResult F D
    pub recognized :
        Returned
          (Ensemble.recognize pipeline.recognition_ensemble (view crop.image) crop.quality context)
          ensemble
    pub calibrated : Paired (IsRecalibrated crop) ensemble.evidence evidence
    pub layout : LayoutEvidence F
    pub analyzed :
        Returned (pipeline.analyze (view crop.image) (crop_candidates evidence) context) layout
    pub one_layout : All (λ l. l ≡ layout) layouts × (length layouts ≡ length evidence)

  -- The evidence and the layouts of the crops, one crop after the other.
  abbrev pub IsGathered :
      List (CropHypothesis F) → List (RecognitionEvidence F D) → List (LayoutEvidence F) → Type 0
  IsGathered [] evidence layouts = (evidence ≡ []) × (layouts ≡ [])
  IsGathered (crop ∷ crops) evidence layouts =
      (e : List (RecognitionEvidence F D)) × (es : List (RecognitionEvidence F D)) × (l : List
        (LayoutEvidence F))
      × (ls : List (LayoutEvidence F)) × (evidence ≡ e ++ es)
      × (layouts ≡ l ++ ls)
      × IsRead crop e l
      × IsGathered crops es ls

  -- The geometry of a detection, as the evaluator returned it.
  pub record IsScored (found : Detection F) (score : F) : Type 0 where
    pub geometry : GeometryEvidence F
    pub evaluated : Returned (pipeline.evaluate found context) geometry
    pub is :
        score
        ≡ (if fl.is_finite geometry.score then clamp geometry.score fl.nought fl.one else fl.nought)

  -- The crops that the generator returned, for the alignment that the aligner returned.
  pub record IsCropped (image : ImageView) (d : Detection F) (crops : List (CropHypothesis F))
      : Type 0 where
    pub aligned : Option ImageBuffer
    pub was_aligned : Returned (pipeline.align image d context) aligned
    pub generated : Returned (pipeline.generate image d aligned context) crops

module _ {F D : Type 0} where
  -- The decision on the current detection is told of a failure.
  abbrev pub Marked : Progress F D → Type 0
  Marked p = p.decision.degraded ≡ true

  pub record_failure-Marked :
      (source : Text) (code : EngineErrorCode) (p : Progress F D)
      → Marked (record_failure source code p)
  unfolding record_failure
  record_failure-Marked source code p = refl

module _ {W F D : Type 0} ⦃dl : Float D⦄ ⦃rt : Runtime W⦄ ⦃sw : Stopwatch D⦄ where
  pub time_progress-decision :
      (stage : Text) (i j started : ℕ) (p : Progress F D)
      → Ensures {W = W} (λ t. t.decision ≡ p.decision) (time_progress stage i j started p)
  unfolding time_progress
  time_progress-decision stage i j started p = Ensures-then _ _ λ timed. Ensures-pure _ refl
