-- ===== src/Decision/Examples.antt =====
-- The theorems on the policy at two candidates.
use fac_lpr_engine.Prelude.{◌≡◌, refl, ◌⊎◌, false, none, some, List, [], ◌∷◌, All, text_eq, text_lt}
use fac_lpr_engine.Errors.{ok}
use fac_lpr_engine.Float.{Milli, milli_float, Milli-IsOrdered, fmax, is_probability}
use fac_lpr_engine.Samples.{first_plate, second_plate, candidate, detection, box, evidence_of}
use fac_lpr_engine.Domain.{
  PlateCandidate, RecognitionEvidence, PlateRecognitionResult, RecognitionStatus,
  RecognitionDecisionReason,
}
use fac_lpr_engine.Config.{DecisionConfig, default_config}
use fac_lpr_engine.Decision.{
  RecognitionDecisionContext, decide, best_crop_quality, valid_candidates, effective_confidence,
  chosen_confidence, stable_sort, insert_stable, ranks_before, verdict, rejection, review_reasons,
  has_conflict,
}
use fac_lpr_engine.Decision.Ranking.{is_usable}
use fac_lpr_engine.Decision.Safety.{IsSafe, decide-IsSafe}
use fac_lpr_engine.Decision.Conflict.{IsWeak, Distinct, decide_no_strong_rival}
use fac_lpr_engine.Decision.Outcomes.{IsExplained, decide-IsExplained}

abbrev config : DecisionConfig Milli
config = default_config.decision

abbrev context : RecognitionDecisionContext
context = record { degraded = false; fatal_provider_failure = false; provider_failure_count = 0 }

abbrev fused : List (PlateCandidate Milli)
fused = candidate second_plate 300 ∷ candidate first_plate 900 ∷ []

abbrev evidence : List (RecognitionEvidence Milli Milli)
evidence = evidence_of fused ∷ []

abbrev result : PlateRecognitionResult Milli Milli
result = record {
  status = RecognitionStatus.accepted;
  plate = first_plate;
  confidence = some 900;
  bbox = some box;
  quadrilateral = none;
  detector_confidence = some 900;
  geometry_score = some 800;
  crop_quality = some 700;
  evidence = evidence;
  alternatives = fused;
  decision_reasons = RecognitionDecisionReason.accepted_consensus ∷ [];
  degraded = false;
  total_latency_ms = some 0;
}

accepts : decide config detection evidence fused context ≡ ok result
unfolding decide best_crop_quality valid_candidates effective_confidence chosen_confidence
    stable_sort insert_stable ranks_before verdict rejection review_reasons has_conflict text_eq
    text_lt fmax is_probability
accepts = refl

apart : Distinct fused
unfolding text_eq
apart = ((refl, tt), (tt, tt))

decide-IsSafe_example : IsSafe Milli-IsOrdered config detection fused context result
decide-IsSafe_example =
    decide-IsSafe Milli-IsOrdered config detection evidence fused context accepts refl

decide_no_strong_rival_example :
    All (λ c. (is_usable c ≡ false) ⊎ IsWeak config first_plate c) fused
decide_no_strong_rival_example =
    decide_no_strong_rival Milli-IsOrdered config detection evidence fused context refl apart
      accepts refl

decide-IsExplained_example : IsExplained result.status result.decision_reasons
decide-IsExplained_example = decide-IsExplained config detection evidence fused context accepts
