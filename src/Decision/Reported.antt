-- ===== src/Decision/Reported.antt =====
-- What a decision takes over from its inputs into the recognition.
use fac_lpr_engine.Prelude.{◌≡◌, inl, inr, some, List, arith}
use fac_lpr_engine.Errors.{Result-cases, ok}
use fac_lpr_engine.Float.{Float}
use fac_lpr_engine.Domain.{Detection, PlateCandidate, RecognitionEvidence, PlateRecognitionResult}
use fac_lpr_engine.Config.{DecisionConfig}
use fac_lpr_engine.Decision.{
  RecognitionDecisionContext, decide, best_crop_quality, valid_candidates,
}

module _ {F D : Type 0} ⦃fl : Float F⦄ ⦃dl : Float D⦄ where
  pub record Reported (detection : Detection F) (evidence : List (RecognitionEvidence F D))
      (fused : List (PlateCandidate F)) (result : PlateRecognitionResult F D) : Type 0 where
    pub bbox : result.bbox ≡ some detection.bbox
    pub quadrilateral : result.quadrilateral ≡ detection.quadrilateral
    pub detector : result.detector_confidence ≡ detection.confidence
    pub geometry : result.geometry_score ≡ detection.geometry_score
    pub reads : result.evidence ≡ evidence
    pub alternatives : result.alternatives ≡ fused

  pub decide-Reported :
      (config : DecisionConfig F) (detection : Detection F)
      (evidence : List (RecognitionEvidence F D)) (fused : List (PlateCandidate F))
      (context : RecognitionDecisionContext) {result : PlateRecognitionResult F D}
      → decide config detection evidence fused context ≡ ok result
      → Reported detection evidence fused result
  unfolding decide
  decide-Reported config detection evidence fused context h =
      elim (Result-cases (best_crop_quality fl.nought evidence)) [
        | inl (e, p) ↦ absurd (ground arith)
        | inr (q, p) ↦ elim (Result-cases (valid_candidates fused)) [
          | inl (e, p') ↦ absurd (ground arith)
          | inr (valid, p') ↦ record {
            bbox = ground arith;
            quadrilateral = ground arith;
            detector = ground arith;
            geometry = ground arith;
            reads = ground arith;
            alternatives = ground arith;
          }
        ]
      ]
