-- ===== src/CandidateFusion/Examples.antt =====
-- Runs of the fusion, and its theorems at concrete evidence.
use fac_lpr_engine.Prelude.{
  ◌≤◌, ◌≡◌, refl, ◌⊎◌, false, none, some, List, [], ◌∷◌, map, length, All, text_eq, text_lt,
}
use fac_lpr_engine.Errors.{ok}
use fac_lpr_engine.Float.{Milli, milli_float, Milli-IsOrdered, fmax, clamp, is_probability}
use fac_lpr_engine.OrderedMap.{upsert, lookup}
use fac_lpr_engine.StableSort.{sort, insert, Pairwise}
use fac_lpr_engine.Samples.{first_plate, second_plate, candidate, detection, box, evidence_of}
use fac_lpr_engine.Domain.{
  PlateCandidate, RecognitionEvidence, PlateRecognitionResult, RecognitionStatus,
  RecognitionDecisionReason,
}
use fac_lpr_engine.Config.{DecisionConfig, default_config}
use fac_lpr_engine.CandidateFusion.{
  CandidateFusionConfig, effective_confidence, highest_competing, total_weight, source_weight,
  layout_quality, take_score, merge_support, merge_crop, candidates_of, candidate_margin, score_of,
  is_skipped, score_crop, is_ignored, aggregate_all, fuse,
}
use fac_lpr_engine.CandidateFusion
use fac_lpr_engine.CandidateFusion.Backing.{IsBacked, fuse-IsBacked}
use fac_lpr_engine.CandidateFusion.Distinct.{Differs, fuse-Distinct}
use fac_lpr_engine.CandidateFusion.Rivals.{decide-fuse_no_strong_rival}
use fac_lpr_engine.Decision
use fac_lpr_engine.Decision.{
  RecognitionDecisionContext, decide, best_crop_quality, valid_candidates, chosen_confidence,
  stable_sort, insert_stable, verdict, rejection, review_reasons, has_conflict,
}
use fac_lpr_engine.Decision.Ranking.{is_usable}
use fac_lpr_engine.Decision.Conflict.{IsWeak}

abbrev fusion : CandidateFusionConfig Milli
fusion = record {
  max_candidates = 5;
  default_source_weight = some 1000;
  source_weights = [];
  recognition_weight = some 650;
  crop_quality_weight = some 150;
  candidate_margin_weight = some 100;
  layout_weight = some 100;
  minimum_candidate_confidence = some 10;
}

abbrev evidence : List (RecognitionEvidence Milli Milli)
evidence =
    evidence_of (candidate second_plate 100 ∷ candidate first_plate 950 ∷ [])
    ∷ evidence_of (candidate first_plate 900 ∷ [])
    ∷ []

fused_texts :
    map (λ (c : PlateCandidate Milli). c.text) (fuse fusion evidence [])
    ≡ first_plate ∷ second_plate ∷ []
unfolding fuse aggregate_all score_crop is_ignored is_skipped score_of candidate_margin
    candidates_of merge_crop merge_support take_score layout_quality source_weight total_weight
    highest_competing effective_confidence CandidateFusion.ranks_before sort insert upsert lookup
    text_eq text_lt fmax clamp
fused_texts = refl

fuse-Distinct_example :
    (length (fuse fusion evidence []) ≤ 5) × Pairwise Differs (fuse fusion evidence [])
fuse-Distinct_example = fuse-Distinct fusion evidence []

fuse-IsBacked_example :
    All (λ c. IsBacked fusion evidence c.text c.format_valid) (fuse fusion evidence [])
fuse-IsBacked_example = fuse-IsBacked fusion evidence []

abbrev config : DecisionConfig Milli
config = default_config.decision

abbrev context : RecognitionDecisionContext
context = record { degraded = false; fatal_provider_failure = false; provider_failure_count = 0 }

abbrev result : PlateRecognitionResult Milli Milli
result = record {
  status = RecognitionStatus.accepted;
  plate = first_plate;
  confidence = some 958;
  bbox = some box;
  quadrilateral = none;
  detector_confidence = some 900;
  geometry_score = some 800;
  crop_quality = some 700;
  evidence = evidence;
  alternatives = fuse fusion evidence [];
  decision_reasons = RecognitionDecisionReason.accepted_consensus ∷ [];
  degraded = false;
  total_latency_ms = some 0;
}

accepts : decide config detection evidence (fuse fusion evidence []) context ≡ ok result
unfolding fuse aggregate_all score_crop is_ignored is_skipped score_of candidate_margin
    candidates_of merge_crop merge_support take_score layout_quality source_weight total_weight
    highest_competing effective_confidence CandidateFusion.ranks_before sort insert upsert lookup
    text_eq text_lt fmax clamp decide best_crop_quality valid_candidates
    Decision.effective_confidence chosen_confidence stable_sort insert_stable Decision.ranks_before
    verdict rejection review_reasons has_conflict is_probability
accepts = refl

decide-fuse_no_strong_rival_example :
    All (λ c. (is_usable c ≡ false) ⊎ IsWeak config first_plate c) (fuse fusion evidence [])
decide-fuse_no_strong_rival_example =
    decide-fuse_no_strong_rival Milli-IsOrdered fusion [] config detection evidence context refl
      accepts refl
