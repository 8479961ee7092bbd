-- ===== src/Pipeline/Acceptance.antt =====
-- A run of the standard pipeline: one sound recognition for each detection.
use fac_lpr_engine.Prelude.{◌≡◌, List, [], ◌∷◌, ◌++◌}
use fac_lpr_engine.Float.{Float, IsOrdered}
use fac_lpr_engine.Domain.{Detection, PlateRecognitionResult}
use fac_lpr_engine.Image.{ImageView}
use fac_lpr_engine.CandidateFusion.{CandidateFusionConfig}
use fac_lpr_engine.Config.{DecisionConfig}
use fac_lpr_engine.Effects.{Runtime, Stopwatch, OperationContext}
use fac_lpr_engine.Effects.Ensures.{Ensures}
use fac_lpr_engine.Pipeline.{LprPipeline, LprPipelineResult}
use fac_lpr_engine.Pipeline.Ledger.{Ledger}
use fac_lpr_engine.Pipeline.Standard.{with_standard_parts, IsSoundFor}

module _ {W F D L : Type 0} ⦃fl : Float F⦄ ⦃dl : Float D⦄ ⦃rt : Runtime W⦄ ⦃sw : Stopwatch D⦄
    (fusion : CandidateFusionConfig F) (config : DecisionConfig F) (parts : LprPipeline W F D L)
    (context : OperationContext) (laws : IsOrdered F) where
  abbrev standard : LprPipeline W F D L
  standard = with_standard_parts fusion config parts

  -- One recognition more, and it is sound.
  abbrev Appends :
      ImageView → List (PlateRecognitionResult F D) → Detection F → LprPipelineResult F D → Type 0
  Appends image before found t =
      (r : PlateRecognitionResult F D) × (t.recognitions ≡ before ++ (r ∷ []))
      × IsSoundFor fusion config parts context image found r
