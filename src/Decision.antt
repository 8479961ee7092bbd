-- ===== src/Decision.antt =====
-- src/application/safe_decision_policy.cpp: whether a recognition is accepted, goes to a review, or is
-- rejected. `std::stable_sort` is insertion into a sorted list behind the elements that are not
-- greater.
pub mod Ranking
pub mod Outcomes
pub mod Reported
pub mod Safety
pub mod Conflict
mod Examples
use fac_lpr_engine.Prelude.{
  ℕ, zero, suc, ◌+◌, ◌-◌, ◌*◌, ◌/◌, ◌%◌, ◌^◌, ◌≤◌, ◌<◌, ◌≡◌, refl, sym, ap, ◌∙◌, subst, ◌≢◌, ◌↔◌,
  ◌⊎◌, inl, inr, Bool, true, false, not, ◌&&◌, ◌||◌, Option, none, some, List, [], ◌∷◌, ◌++◌, map,
  arith, length, length-append, All, take, get_elem?, All-append, length-take-le, ltb, leb, ◌==◌,
  if◌then◌else◌, Bool-cases, Option-cases, size_mod, wrap_add, Text, is_empty, text_eq, text_lt, ℤ,
  pos, negsuc, is_negative, is_positive, exceeds, elapsed_lt, elapsed_le, nanos_per_milli,
  text_eq_refl, eq_of_text_eq, text_lt_irrefl, text_lt_trans, text_lt_total, text_eq_of_lt,
  text_eq_sym,
}
use fac_lpr_engine.Errors.{
  Result, ok, err, ◌>>=◌, ◌>>◌, throw_if, EngineErrorCode, configuration, provider, inference,
  invalid_image, resource_exhausted, internal, cancelled, timeout, >>=-eq-ok,
}
use fac_lpr_engine.Config.{DecisionConfig, EngineConfig, default_config, validate_engine_config}
use fac_lpr_engine.Float.{Float, fmax, is_probability}
use fac_lpr_engine.Domain.{
  Detection, PlateCandidate, RecognitionEvidence, PlateRecognitionResult, RecognitionStatus,
  RecognitionDecisionReason,
}

pub record RecognitionDecisionContext : Type 0 where
  pub degraded : Bool
  pub fatal_provider_failure : Bool
  pub provider_failure_count : ℕ

-- `push_back(reason)` under a test.
abbrev pub reason_if : Bool → RecognitionDecisionReason → List RecognitionDecisionReason
reason_if true reason = reason ∷ []
reason_if false reason = []

abbrev pub Verdict : Type 0
Verdict = RecognitionStatus × List RecognitionDecisionReason

abbrev pub after_review : List RecognitionDecisionReason → Verdict
after_review [] = (RecognitionStatus.accepted, RecognitionDecisionReason.accepted_consensus ∷ [])
after_review (r ∷ rs) = (RecognitionStatus.review, r ∷ rs)

module _ {F : Type 0} ⦃fl : Float F⦄ where
  -- The constructor: all other parts of the configuration that it validates are the defaults.
  unfoldable pub make_policy : DecisionConfig F → Result (DecisionConfig F)
  make_policy config = do
    validate_engine_config (record default_config { decision = config })
    ok config

  -- `effective_confidence` before its check.
  unfoldable pub chosen_confidence : PlateCandidate F → F
  chosen_confidence candidate =
      if fl.lt fl.nought candidate.calibrated_confidence
      then candidate.calibrated_confidence
      else candidate.confidence

  unfoldable pub effective_confidence : PlateCandidate F → Result F
  effective_confidence candidate =
      if is_probability (chosen_confidence candidate)
      then ok (chosen_confidence candidate)
      else err provider

  -- The order of the sort: more confidence first, then by text.
  unfoldable pub ranks_before : PlateCandidate F → PlateCandidate F → Bool
  ranks_before left right =
      let l = chosen_confidence left in
      let r = chosen_confidence right in
      if not (fl.eq l r) then fl.lt r l else text_lt left.text right.text

  -- An element goes in front of the first one that it ranks before.
  unfoldable pub insert_stable :
      PlateCandidate F → List (PlateCandidate F) → List (PlateCandidate F)
  insert_stable c [] = c ∷ []
  insert_stable c (d ∷ ds) =
      let rest = insert_stable c ds in if ranks_before c d then c ∷ d ∷ ds else d ∷ rest

  -- The elements in their order, each inserted behind its equals.
  unfoldable pub stable_sort :
      List (PlateCandidate F) → List (PlateCandidate F) → List (PlateCandidate F)
  stable_sort sorted [] = sorted
  stable_sort sorted (c ∷ cs) = stable_sort (insert_stable c sorted) cs

  -- The loop over `fused_candidates`: the valid ones, or the error of a bad confidence.
  unfoldable pub valid_candidates : List (PlateCandidate F) → Result (List (PlateCandidate F))
  valid_candidates [] = ok []
  valid_candidates (c ∷ cs) =
      let rest = valid_candidates cs in
      do
        checked ← effective_confidence c
        valid ← rest
        ok (if c.format_valid && not (is_empty c.text) then c ∷ valid else valid)

  abbrev pub front_confidence : List (PlateCandidate F) → F
  front_confidence [] = fl.nought
  front_confidence (c ∷ cs) = chosen_confidence c

  abbrev pub front_text : List (PlateCandidate F) → Text
  front_text [] = []
  front_text (c ∷ cs) = c.text

  -- The runner-up has another text and much confidence.
  unfoldable pub has_conflict : DecisionConfig F → List (PlateCandidate F) → Bool
  has_conflict config (c ∷ d ∷ rest) =
      not (text_eq d.text c.text) && fl.le config.strong_conflict_threshold (chosen_confidence d)
  has_conflict config _ = false

  abbrev pub below : F → F → Bool
  below value minimum = not (fl.is_finite value) || fl.lt value minimum

  -- The early returns, each with its reason.
  unfoldable pub rejection :
      DecisionConfig F
      → Detection F
      → List (PlateCandidate F)
      → Bool
      → Option RecognitionDecisionReason
  rejection config detection ranked fatal =
      if fatal
      then some RecognitionDecisionReason.fatal_provider_failure
      else if below detection.confidence config.minimum_effective_detector_confidence
      then some RecognitionDecisionReason.detector_confidence_below_minimum
      else elim ranked [
        | [] ↦ some RecognitionDecisionReason.no_valid_candidate
        | c ∷ cs ↦
            if fl.lt (chosen_confidence c) config.review_confidence_threshold
            then some RecognitionDecisionReason.candidate_confidence_below_review
            else none
      ]

  -- The reasons for a review, in the order of the checks.
  unfoldable pub review_reasons :
      DecisionConfig F
      → Detection F
      → F
      → List (PlateCandidate F)
      → Bool
      → List RecognitionDecisionReason
  review_reasons config detection crop_quality ranked degraded =
      reason_if (below detection.geometry_score config.minimum_geometry_score)
        RecognitionDecisionReason.geometry_below_minimum
      ++ (reason_if (fl.lt crop_quality config.minimum_crop_quality)
            RecognitionDecisionReason.crop_quality_below_minimum
          ++ (reason_if (fl.lt (front_confidence ranked) config.accepted_confidence_threshold)
                RecognitionDecisionReason.candidate_confidence_below_accept
              ++ (reason_if (has_conflict config ranked)
                    RecognitionDecisionReason.conflicting_strong_candidates
                  ++ reason_if degraded RecognitionDecisionReason.degraded_provider_set)))

  unfoldable pub verdict :
      DecisionConfig F → Detection F → F → List (PlateCandidate F) → Bool → Bool → Verdict
  verdict config detection crop_quality ranked fatal degraded =
      elim (rejection config detection ranked fatal) [
        | some reason ↦ (RecognitionStatus.rejected, reason ∷ [])
        | none ↦ after_review (review_reasons config detection crop_quality ranked degraded)
      ]

module _ {F D : Type 0} ⦃fl : Float F⦄ where
  -- The loop over the evidence: the best crop quality so far, or the error of a bad one.
  unfoldable pub best_crop_quality : F → List (RecognitionEvidence F D) → Result F
  best_crop_quality best [] = ok best
  best_crop_quality best (item ∷ items) =
      let rest = best_crop_quality (fmax best item.crop_quality) items in
      if is_probability item.crop_quality then rest else err provider

module _ {F D : Type 0} ⦃fl : Float F⦄ ⦃dl : Float D⦄ where
  unfoldable pub decide :
      DecisionConfig F
      → Detection F
      → List (RecognitionEvidence F D)
      → List (PlateCandidate F)
      → RecognitionDecisionContext
      → Result (PlateRecognitionResult F D)
  decide config detection evidence fused context = do
    crop_quality ← best_crop_quality fl.nought evidence
    valid ← valid_candidates fused
    let ranked = stable_sort [] valid
    let degraded = context.degraded || ltb 0 context.provider_failure_count
    let (status, reasons) =
        verdict config detection crop_quality ranked context.fatal_provider_failure degraded
    ok (record {
      status = status;
      plate = front_text ranked;
      confidence = front_confidence ranked;
      bbox = some detection.bbox;
      quadrilateral = detection.quadrilateral;
      detector_confidence = detection.confidence;
      geometry_score = detection.geometry_score;
      crop_quality = crop_quality;
      evidence = evidence;
      alternatives = fused;
      decision_reasons = reasons;
      degraded = degraded;
      total_latency_ms = dl.nought;
    })
