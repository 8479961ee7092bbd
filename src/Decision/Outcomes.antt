-- ===== src/Decision/Outcomes.antt =====
-- The three outcomes and their reasons.
use fac_lpr_engine.Prelude.{
  ◌≤◌, ◌≡◌, refl, sym, subst, inl, inr, Bool, false, ◌||◌, Option, none, some, List, [], ◌∷◌, arith,
  length, All, ltb,
}
use fac_lpr_engine.Errors.{Result-cases, ok}
use fac_lpr_engine.Float.{Float}
use fac_lpr_engine.Domain.{
  Detection, PlateCandidate, RecognitionEvidence, PlateRecognitionResult, RecognitionStatus,
  RecognitionDecisionReason,
}
use fac_lpr_engine.Config.{DecisionConfig}
use fac_lpr_engine.Decision.{
  RecognitionDecisionContext, Verdict, after_review, rejection, review_reasons, verdict, decide,
  best_crop_quality, valid_candidates, stable_sort, front_text, front_confidence, has_conflict,
  below,
}

-- The status that goes with a reason.
abbrev pub status_of : RecognitionDecisionReason → RecognitionStatus
status_of RecognitionDecisionReason.accepted_consensus = RecognitionStatus.accepted
status_of RecognitionDecisionReason.fatal_provider_failure = RecognitionStatus.rejected
status_of RecognitionDecisionReason.degraded_provider_set = RecognitionStatus.review
status_of RecognitionDecisionReason.detector_confidence_below_minimum = RecognitionStatus.rejected
status_of RecognitionDecisionReason.geometry_below_minimum = RecognitionStatus.review
status_of RecognitionDecisionReason.crop_quality_below_minimum = RecognitionStatus.review
status_of RecognitionDecisionReason.no_valid_candidate = RecognitionStatus.rejected
status_of RecognitionDecisionReason.candidate_confidence_below_review = RecognitionStatus.rejected
status_of RecognitionDecisionReason.candidate_confidence_below_accept = RecognitionStatus.review
status_of RecognitionDecisionReason.conflicting_strong_candidates = RecognitionStatus.review

-- A verdict has a reason, and each of its reasons goes with its status.
abbrev pub IsExplained : RecognitionStatus → List RecognitionDecisionReason → Type 0
IsExplained status reasons = (1 ≤ length reasons) × All (λ r. status_of r ≡ status) reasons

after_review-IsExplained :
    (rs : List RecognitionDecisionReason)
    → All (λ r. status_of r ≡ RecognitionStatus.review) rs
    → IsExplained (after_review rs).0 (after_review rs).1
after_review-IsExplained [] h = (omega arith, (refl, tt))
after_review-IsExplained (r ∷ rs) h = (omega arith, h)

module _ {F : Type 0} ⦃fl : Float F⦄ where
  rejection-status :
      (config : DecisionConfig F) (detection : Detection F) (ranked : List (PlateCandidate F))
      (fatal : Bool) (r : RecognitionDecisionReason)
      → rejection config detection ranked fatal ≡ some r
      → status_of r ≡ RecognitionStatus.rejected
  unfolding rejection
  rejection-status config detection [] fatal r h = ground arith
  rejection-status config detection (c ∷ cs) fatal r h = ground arith

  review_reasons-status :
      (config : DecisionConfig F) (detection : Detection F) (crop_quality : F)
      (ranked : List (PlateCandidate F)) (degraded : Bool)
      → All
          (λ r. status_of r ≡ RecognitionStatus.review)
          (review_reasons config detection crop_quality ranked degraded)
  unfolding review_reasons
  review_reasons-status config detection crop_quality ranked degraded = ground arith

  pub verdict-IsExplained :
      (config : DecisionConfig F) (detection : Detection F) (crop_quality : F)
      (ranked : List (PlateCandidate F)) (fatal degraded : Bool)
      → let (status, reasons) = verdict config detection crop_quality ranked fatal degraded in
        IsExplained status reasons
  unfolding verdict
  verdict-IsExplained config detection crop_quality ranked fatal degraded =
      go (rejection config detection ranked fatal) refl
    where
      reasons : List RecognitionDecisionReason
      reasons = review_reasons config detection crop_quality ranked degraded

      verdict_of : Option RecognitionDecisionReason → Verdict
      verdict_of o = elim o [
        | some reason ↦ (RecognitionStatus.rejected, reason ∷ [])
        | none ↦ after_review reasons
      ]

      go :
          (o : Option RecognitionDecisionReason)
          → rejection config detection ranked fatal ≡ o
          → IsExplained (verdict_of o).0 (verdict_of o).1
      go none e =
          after_review-IsExplained reasons
            (review_reasons-status config detection crop_quality ranked degraded)
      go (some r) e = (omega arith, (rejection-status config detection ranked fatal r e, tt))

  -- Everything that an acceptance has passed.
  pub record IsPassed (config : DecisionConfig F) (detection : Detection F) (crop_quality : F)
      (ranked : List (PlateCandidate F)) (fatal degraded : Bool) : Type 0 where
    pub no_fatal : fatal ≡ false
    pub not_degraded : degraded ≡ false
    pub detector : below detection.confidence config.minimum_effective_detector_confidence ≡ false
    pub geometry : below detection.geometry_score config.minimum_geometry_score ≡ false
    pub crop : fl.lt crop_quality config.minimum_crop_quality ≡ false
    pub some_candidate : 1 ≤ length ranked
    pub not_below_review :
        fl.lt (front_confidence ranked) config.review_confidence_threshold ≡ false
    pub not_below_accept :
        fl.lt (front_confidence ranked) config.accepted_confidence_threshold ≡ false
    pub no_conflict : has_conflict config ranked ≡ false

  pub verdict-accepted :
      (config : DecisionConfig F) (detection : Detection F) (crop_quality : F)
      (ranked : List (PlateCandidate F)) (fatal degraded : Bool)
      → (verdict config detection crop_quality ranked fatal degraded).0 ≡ RecognitionStatus.accepted
      → IsPassed config detection crop_quality ranked fatal degraded
  unfolding verdict rejection review_reasons
  verdict-accepted config detection crop_quality [] fatal degraded h = absurd (ground arith)
  verdict-accepted config detection crop_quality (c ∷ cs) fatal degraded h = ground arith

  pub IsPassed-accepted :
      (config : DecisionConfig F) (detection : Detection F) (crop_quality : F)
      (ranked : List (PlateCandidate F)) (fatal degraded : Bool)
      → IsPassed config detection crop_quality ranked fatal degraded
      → (verdict config detection crop_quality ranked fatal degraded).0 ≡ RecognitionStatus.accepted
  unfolding verdict rejection review_reasons
  IsPassed-accepted config detection crop_quality [] fatal degraded p =
      absurd (omega (arith, p.some_candidate))
  IsPassed-accepted config detection crop_quality (c ∷ cs) fatal degraded p = ground arith

module _ {F D : Type 0} ⦃fl : Float F⦄ ⦃dl : Float D⦄ where
  -- A decision that does not throw, taken apart.
  pub record Decided (config : DecisionConfig F) (detection : Detection F)
      (evidence : List (RecognitionEvidence F D)) (fused : List (PlateCandidate F))
      (context : RecognitionDecisionContext) (result : PlateRecognitionResult F D) : Type 0 where
    pub valid : List (PlateCandidate F)
    pub is_valid : valid_candidates fused ≡ ok valid
    pub crop : best_crop_quality fl.nought evidence ≡ ok result.crop_quality
    pub plate : result.plate ≡ front_text (stable_sort [] valid)
    pub confidence : result.confidence ≡ front_confidence (stable_sort [] valid)
    pub degraded : result.degraded ≡ (context.degraded || ltb 0 context.provider_failure_count)
    pub status :
        (result.status, result.decision_reasons)
        ≡ verdict config detection result.crop_quality
            (stable_sort [] valid)
            context.fatal_provider_failure
            result.degraded

  pub decide-Decided :
      (config : DecisionConfig F) (detection : Detection F)
      (evidence : List (RecognitionEvidence F D)) (fused : List (PlateCandidate F))
      (context : RecognitionDecisionContext) {result : PlateRecognitionResult F D}
      → decide config detection evidence fused context ≡ ok result
      → Decided config detection evidence fused context result
  unfolding decide
  decide-Decided config detection evidence fused context h =
      elim (Result-cases (best_crop_quality fl.nought evidence)) [
        | inl (e, p) ↦ absurd (ground arith)
        | inr (q, p) ↦ elim (Result-cases (valid_candidates fused)) [
          | inl (e, p') ↦ absurd (ground arith)
          | inr (valid, p') ↦ record {
            valid = valid;
            is_valid = p';
            crop = ground arith;
            plate = ground arith;
            confidence = ground arith;
            degraded = ground arith;
            status = ground arith;
          }
        ]
      ]

  -- Every decision that does not throw gives at least one reason, and every reason it gives goes
  -- with its status: `accepted_consensus` with accepted, the four reasons of the early returns
  -- with rejected, and the other five with review.
  pub decide-IsExplained :
      (config : DecisionConfig F) (detection : Detection F)
      (evidence : List (RecognitionEvidence F D)) (fused : List (PlateCandidate F))
      (context : RecognitionDecisionContext) {result : PlateRecognitionResult F D}
      → decide config detection evidence fused context ≡ ok result
      → IsExplained result.status result.decision_reasons
  decide-IsExplained config detection evidence fused context {result} h =
      let d = decide-Decided config detection evidence fused context h in
      subst (λ (v : Verdict). IsExplained v.0 v.1) (sym d.status)
        (verdict-IsExplained config detection result.crop_quality (stable_sort [] d.valid)
          context.fatal_provider_failure result.degraded)
