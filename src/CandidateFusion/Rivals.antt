-- ===== src/CandidateFusion/Rivals.antt =====
-- The decision on fused candidates.
use fac_lpr_engine.Prelude.{◌≡◌, ◌⊎◌, true, false, List, All}
use fac_lpr_engine.Errors.{ok}
use fac_lpr_engine.Float.{Float, IsOrdered}
use fac_lpr_engine.Domain.{
  Detection, RecognitionEvidence, PlateRecognitionResult, RecognitionStatus,
}
use fac_lpr_engine.Config.{DecisionConfig}
use fac_lpr_engine.CandidateFusion.{CandidateFusionConfig, LayoutEvidence, fuse}
use fac_lpr_engine.CandidateFusion.Distinct.{fuse-Distinct}
use fac_lpr_engine.Decision.{RecognitionDecisionContext, decide}
use fac_lpr_engine.Decision.Ranking.{is_usable}
use fac_lpr_engine.Decision.Conflict.{IsWeak, decide_no_strong_rival}

module _ {F D : Type 0} ⦃fl : Float F⦄ ⦃dl : Float D⦄ (laws : IsOrdered F) where
  -- With floats ordered as numbers: when the policy decides on the candidates that the fusion made and
  -- accepts, each usable fused candidate with another text than the plate has less confidence than
  -- the threshold of a strong conflict, which is finite.
  pub decide-fuse_no_strong_rival :
      (fusion : CandidateFusionConfig F) (layouts : List (LayoutEvidence F))
      (config : DecisionConfig F) (detection : Detection F)
      (evidence : List (RecognitionEvidence F D)) (context : RecognitionDecisionContext)
      {result : PlateRecognitionResult F D}
      → fl.is_finite config.strong_conflict_threshold ≡ true
      → decide config detection evidence (fuse fusion evidence layouts) context ≡ ok result
      → result.status ≡ RecognitionStatus.accepted
      → All
          (λ c. (is_usable c ≡ false) ⊎ IsWeak config result.plate c)
          (fuse fusion evidence layouts)
  decide-fuse_no_strong_rival fusion layouts config detection evidence context finite h accepted =
      decide_no_strong_rival laws config detection evidence (fuse fusion evidence layouts) context
        finite (fuse-Distinct fusion evidence layouts).1 h accepted
