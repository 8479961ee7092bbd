-- ===== src/CandidateFusion.antt =====
-- src/application/candidate_fusion.cpp: one list of candidates from the evidence of several crops and
-- recognizers. A `std::map` is the association list of OrderedMap, in the order of its iteration.
pub mod Backing
pub mod Distinct
pub mod Rivals
mod Examples
use fac_lpr_engine.Prelude.{
  ℕ, zero, suc, ◌+◌, ◌-◌, ◌*◌, ◌/◌, ◌%◌, ◌^◌, ◌≤◌, ◌<◌, ◌≡◌, refl, sym, ap, ◌∙◌, subst, ◌≢◌, ◌↔◌,
  ◌⊎◌, inl, inr, Bool, true, false, not, ◌&&◌, ◌||◌, Option, none, some, List, [], ◌∷◌, ◌++◌, map,
  arith, length, length-append, All, take, get_elem?, All-append, length-take-le, ltb, leb, ◌==◌,
  if◌then◌else◌, Bool-cases, Option-cases, size_mod, wrap_add, Text, is_empty, text_eq, text_lt, ℤ,
  pos, negsuc, is_negative, is_positive, exceeds, elapsed_lt, elapsed_le, nanos_per_milli,
  text_eq_refl, eq_of_text_eq, text_lt_irrefl, text_lt_trans, text_lt_total, text_eq_of_lt,
  text_eq_sym,
}
use fac_lpr_engine.Errors.{
  Result, Result-cases, ok, err, ◌>>=◌, ◌>>◌, throw_if, EngineErrorCode, configuration, provider,
  inference, invalid_image, resource_exhausted, internal, cancelled, timeout, >>=-eq-ok,
}
use fac_lpr_engine.Float.{Float, fmax, clamp, is_probability}
use fac_lpr_engine.Domain.{PlateCandidate, RecognitionEvidence}
use fac_lpr_engine.OrderedMap.{lookup, upsert}
use fac_lpr_engine.StableSort.{sort}

pub record CandidateFusionConfig (F : Type 0) : Type 0 where
  pub max_candidates : ℕ
  pub default_source_weight : F
  pub source_weights : List (Text × F)
  pub recognition_weight : F
  pub crop_quality_weight : F
  pub candidate_margin_weight : F
  pub layout_weight : F
  pub minimum_candidate_confidence : F

pub record LayoutEvidence (F : Type 0) : Type 0 where
  pub reliable : Bool
  pub character_count : Option ℤ
  pub letter_group_size : Option ℤ
  pub confidence : F

pub record Aggregate (F : Type 0) : Type 0 where
  pub support : F
  pub format_valid : Bool

-- The best score of a plate in one crop, and whether a candidate there had a valid format.
abbrev pub CropSupport : Type 0 → Type 0
CropSupport F = List (Text × (F × Bool))

module _ {F : Type 0} ⦃fl : Float F⦄ where
  abbrev pub clamp01 : F → F
  clamp01 value = clamp value fl.nought fl.one

  unfoldable pub effective_confidence : PlateCandidate F → F
  effective_confidence candidate =
      if fl.is_finite candidate.calibrated_confidence
        && fl.lt fl.nought candidate.calibrated_confidence
      then clamp01 candidate.calibrated_confidence
      else if fl.is_finite candidate.confidence
      then clamp01 candidate.confidence
      else fl.nought

  -- The loop of `candidate_margin` from `index` on.
  unfoldable pub highest_competing : ℕ → Text → ℕ → F → List (PlateCandidate F) → F
  highest_competing candidate_index text index highest [] = highest
  highest_competing candidate_index text index highest (c ∷ cs) =
      highest_competing candidate_index text (index + 1)
        (if index == candidate_index || text_eq c.text text
          then highest
          else fmax highest (effective_confidence c))
        cs

  unfoldable pub total_weight : CandidateFusionConfig F → F
  total_weight config =
      fl.add
        (fl.add (fl.add config.recognition_weight config.crop_quality_weight)
          config.candidate_margin_weight)
        config.layout_weight

  require_probability : F → Result (Unit {0})
  require_probability value = throw_if (not (is_probability value)) configuration

  unfoldable pub check_sources : List (Text × F) → Result (Unit {0})
  unfolding require_probability
  check_sources [] = ok tt
  check_sources ((source, weight) ∷ rest) =
      let others = check_sources rest in
      do throw_if (is_empty source) configuration; require_probability weight; others

  -- The constructor.
  unfoldable pub make_fusion : CandidateFusionConfig F → Result (CandidateFusionConfig F)
  unfolding require_probability
  make_fusion config = do
    throw_if (config.max_candidates == 0 || ltb 64 config.max_candidates) configuration
    require_probability config.default_source_weight
    require_probability config.recognition_weight
    require_probability config.crop_quality_weight
    require_probability config.candidate_margin_weight
    require_probability config.layout_weight
    require_probability config.minimum_candidate_confidence
    throw_if (not (fl.is_finite (total_weight config)) || fl.le (total_weight config) fl.nought)
        configuration
    check_sources config.source_weights
    ok config

  unfoldable pub source_weight : CandidateFusionConfig F → Text → F
  source_weight config source = elim (lookup source config.source_weights) [
    | none ↦ config.default_source_weight
    | some weight ↦ weight
  ]

  unfoldable pub layout_quality : List (LayoutEvidence F) → ℕ → F
  layout_quality layouts index = elim (get_elem? layouts index) [
    | none ↦ fl.nought
    | some layout ↦
        if layout.reliable && fl.is_finite layout.confidence
        then clamp01 layout.confidence
        else fl.nought
  ]

  -- `per_crop_support[candidate.text]` takes the score if it is higher.
  unfoldable pub take_score : F → Bool → F × Bool → F × Bool
  take_score score format_valid (best, valid) =
      (if fl.lt best score then score else best, valid || format_valid)

  unfoldable pub merge_support : F × Bool → Aggregate F → Aggregate F
  merge_support (score, valid) target = record {
    support = clamp01 (fl.sub fl.one (fl.mul (fl.sub fl.one target.support) (fl.sub fl.one score)));
    format_valid = target.format_valid || valid;
  }

  -- The loop over `per_crop_support`.
  unfoldable pub merge_crop : CropSupport F → List (Text × Aggregate F) → List (Text × Aggregate F)
  merge_crop [] m = m
  merge_crop ((text, local) ∷ rest) m =
      merge_crop rest
        (upsert text (record { support = fl.nought; format_valid = false }) (merge_support local) m)

  unfoldable pub candidates_of : List (Text × Aggregate F) → List (PlateCandidate F)
  candidates_of [] = []
  candidates_of ((text, value) ∷ m) =
      record {
        text = text;
        confidence = value.support;
        calibrated_confidence = value.support;
        format_valid = value.format_valid;
      }
      ∷ candidates_of m

  -- `continue` in the loop over the candidates.
  unfoldable pub is_skipped : CandidateFusionConfig F → PlateCandidate F → Bool
  is_skipped config candidate =
      is_empty candidate.text
      || fl.lt (effective_confidence candidate) config.minimum_candidate_confidence

  unfoldable pub ranks_before : PlateCandidate F → PlateCandidate F → Bool
  ranks_before left right =
      if not (fl.eq left.confidence right.confidence)
      then fl.lt right.confidence left.confidence
      else text_lt left.text right.text

module _ {F D : Type 0} ⦃fl : Float F⦄ where
  unfoldable pub candidate_margin : RecognitionEvidence F D → ℕ → F
  candidate_margin evidence candidate_index = elim (get_elem? evidence.candidates candidate_index) [
    | none ↦ fl.nought
    | some candidate ↦ clamp01 (
        fl.sub (effective_confidence candidate)
          (highest_competing candidate_index candidate.text 0 fl.nought evidence.candidates))
  ]

  unfoldable pub score_of :
      CandidateFusionConfig F → RecognitionEvidence F D → F → ℕ → PlateCandidate F → F
  score_of config evidence layout index candidate = fl.mul (source_weight config evidence.source) (
      clamp01 (
        fl.div
          (fl.add
            (fl.add
              (fl.add (fl.mul (effective_confidence candidate) config.recognition_weight)
                (fl.mul (clamp01 evidence.crop_quality) config.crop_quality_weight))
              (fl.mul (candidate_margin evidence index) config.candidate_margin_weight))
            (fl.mul layout config.layout_weight))
          (total_weight config)))

  -- The loop over the candidates of one piece of evidence, from `index` on.
  unfoldable pub score_crop :
      CandidateFusionConfig F
      → RecognitionEvidence F D
      → F
      → ℕ
      → List (PlateCandidate F)
      → CropSupport F
      → CropSupport F
  score_crop config evidence layout index [] m = m
  score_crop config evidence layout index (c ∷ cs) m =
      score_crop config evidence layout (index + 1) cs (
        if is_skipped config c
        then m
        else upsert c.text (fl.nought, false)
            (take_score (score_of config evidence layout index c) c.format_valid) m)

  -- `continue` in the loop over the evidence.
  unfoldable pub is_ignored : CandidateFusionConfig F → RecognitionEvidence F D → Bool
  is_ignored config evidence =
      fl.le (source_weight config evidence.source) fl.nought
      || not (fl.is_finite evidence.crop_quality)

  unfoldable pub aggregate_all :
      CandidateFusionConfig F
      → List (LayoutEvidence F)
      → ℕ
      → List (RecognitionEvidence F D)
      → List (Text × Aggregate F)
      → List (Text × Aggregate F)
  aggregate_all config layouts index [] m = m
  aggregate_all config layouts index (e ∷ es) m = aggregate_all config layouts (index + 1) es (
      if is_ignored config e
      then m
      else merge_crop (score_crop config e (layout_quality layouts index) 0 e.candidates []) m)

  unfoldable pub fuse :
      CandidateFusionConfig F
      → List (RecognitionEvidence F D)
      → List (LayoutEvidence F)
      → List (PlateCandidate F)
  fuse config evidence layouts =
      take config.max_candidates
        (sort ranks_before [] (candidates_of (aggregate_all config layouts 0 evidence [])))
