-- ===== src/Decision/Safety.antt =====
-- What an accepted recognition guarantees.
use fac_lpr_engine.Prelude.{
  ◌≤◌, ◌≡◌, refl, sym, ap, ◌∙◌, ◌⊎◌, inl, inr, true, false, ◌||◌, List, [], ◌∷◌, arith, length, All,
  ltb, Text,
}
use fac_lpr_engine.Errors.{ok}
use fac_lpr_engine.Float.{Float, IsOrdered, is_probability}
use fac_lpr_engine.Domain.{
  Detection, PlateCandidate, RecognitionEvidence, PlateRecognitionResult, RecognitionStatus,
}
use fac_lpr_engine.Config.{DecisionConfig}
use fac_lpr_engine.Decision.{
  RecognitionDecisionContext, Verdict, chosen_confidence, decide, valid_candidates, stable_sort,
  front_text, front_confidence, below,
}
use fac_lpr_engine.Decision.Ranking.{
  stable_sort-All, All-stable_sort, HasNumber, Descends, stable_sort-Descends, is_usable, IsUsable,
  All-valid_candidates, valid_candidates-All,
}
use fac_lpr_engine.Decision.Outcomes.{verdict-accepted, decide-Decided}

module _ {F : Type 0} ⦃fl : Float F⦄ where
  abbrev pub Among : PlateCandidate F → List (PlateCandidate F) → Type 0
  Among c [] = ⊥
  Among c (d ∷ ds) = (d ≡ c) ⊎ Among c ds

  Among-self : (cs : List (PlateCandidate F)) → All (λ c. Among c cs) cs
  Among-self cs = go cs cs (λ c h. h)
    where
      go :
          (ds cs : List (PlateCandidate F))
          → ((c : PlateCandidate F) → Among c ds → Among c cs)
          → All (λ c. Among c cs) ds
      go [] cs up = tt
      go (d ∷ ds) cs up = (up d (inl refl), go ds cs (λ c h. up c (inr h)))

  -- The front of the ranking is a usable candidate of the input, and no usable candidate of the
  -- input has more confidence.
  abbrev pub IsBest : List (PlateCandidate F) → Text → F → Type 0
  IsBest fused plate confidence =
      ((c : PlateCandidate F) × Among c fused
        × (is_usable c ≡ true)
        × (c.text ≡ plate)
        × (chosen_confidence c ≡ confidence))
      × All (λ d. (is_usable d ≡ false) ⊎ (fl.lt confidence (chosen_confidence d) ≡ false)) fused

  pub number_of_probability : (x : F) → is_probability x ≡ true → fl.is_finite x ≡ true
  unfolding is_probability
  number_of_probability x h = ground arith

  pub All-map :
      (P Q : PlateCandidate F → Type 0) (cs : List (PlateCandidate F))
      → ((c : PlateCandidate F) → P c → Q c)
      → All P cs
      → All Q cs
  All-map P Q [] f h = tt
  All-map P Q (c ∷ cs) f h = (f c h.0, All-map P Q cs f h.1)

  module _ (laws : IsOrdered F) where
    ranked-IsBest :
        (fused valid : List (PlateCandidate F))
        → valid_candidates fused ≡ ok valid
        → 1 ≤ length (stable_sort [] valid)
        → IsBest fused (front_text (stable_sort [] valid)) (front_confidence (stable_sort [] valid))
    ranked-IsBest fused valid h some_candidate =
        go (stable_sort [] valid) some_candidate (stable_sort-All _ [] valid tt usable)
          (stable_sort-Descends laws [] valid tt numbers tt)
          (λ P all. All-valid_candidates P fused h (All-stable_sort P [] valid all).1)
      where
        usable : All (λ c. IsUsable c × Among c fused) valid
        usable = valid_candidates-All (λ c. Among c fused) fused h (Among-self fused)

        numbers : All HasNumber valid
        numbers =
            All-map (λ c. IsUsable c × Among c fused) HasNumber valid
              (λ c u. number_of_probability (chosen_confidence c) u.0.1) usable

        go :
            (ranked : List (PlateCandidate F))
            → 1 ≤ length ranked
            → All (λ c. IsUsable c × Among c fused) ranked
            → Descends ranked
            → ((P : PlateCandidate F → Type 0)
                → All P ranked
                → All (λ c. (is_usable c ≡ false) ⊎ P c) fused)
            → IsBest fused (front_text ranked) (front_confidence ranked)
        go [] n u d back = absurd (omega (arith, n))
        go (c ∷ cs) n u d back = (
          (c, u.0.1, u.0.0.0, refl, refl),
          back (λ x. fl.lt (chosen_confidence c) (chosen_confidence x) ≡ false)
              (laws.lt_irrefl (chosen_confidence c), d.0),
        )

module _ {F D : Type 0} ⦃fl : Float F⦄ ⦃dl : Float D⦄ (laws : IsOrdered F) where
  -- What the policy promises of an accepted recognition.
  pub record IsSafe (config : DecisionConfig F) (detection : Detection F)
      (fused : List (PlateCandidate F)) (context : RecognitionDecisionContext)
      (result : PlateRecognitionResult F D) : Type 0 where
    pub no_fatal_failure : context.fatal_provider_failure ≡ false
    pub not_degraded : context.degraded ≡ false
    pub no_failure : context.provider_failure_count ≡ 0
    pub detector : below detection.confidence config.minimum_effective_detector_confidence ≡ false
    pub geometry : below detection.geometry_score config.minimum_geometry_score ≡ false
    pub crop : fl.lt result.crop_quality config.minimum_crop_quality ≡ false
    pub best : IsBest fused result.plate result.confidence
    pub enough : fl.lt result.confidence config.accepted_confidence_threshold ≡ false

  -- With floats ordered as numbers, a recognition that `decide` returns as accepted is safe: no
  -- provider failed and none was degraded, detector, geometry and crop quality reach their minima,
  -- the plate is the text of a usable candidate (well formed and not empty) than which no usable
  -- candidate has more confidence, and its confidence is not below the threshold.
  pub decide-IsSafe :
      (config : DecisionConfig F) (detection : Detection F)
      (evidence : List (RecognitionEvidence F D)) (fused : List (PlateCandidate F))
      (context : RecognitionDecisionContext) {result : PlateRecognitionResult F D}
      → decide config detection evidence fused context ≡ ok result
      → result.status ≡ RecognitionStatus.accepted
      → IsSafe config detection fused context result
  decide-IsSafe config detection evidence fused context {result} h accepted =
      let d = decide-Decided config detection evidence fused context h in
      let ranked = stable_sort [] d.valid in
      let accepted_too = sym (ap (λ (v : Verdict). v.0) d.status) ∙ accepted in
      let passed =
        verdict-accepted config detection result.crop_quality ranked context.fatal_provider_failure
          result.degraded accepted_too in
      let off : (context.degraded || ltb 0 context.provider_failure_count) ≡ false =
        sym d.degraded ∙ passed.not_degraded in
      record {
        no_fatal_failure = passed.no_fatal;
        not_degraded = ground arith;
        no_failure = ground arith;
        detector = passed.detector;
        geometry = passed.geometry;
        crop = passed.crop;
        best =
            rw (d.plate, d.confidence)
              (ranked-IsBest laws fused d.valid d.is_valid passed.some_candidate);
        enough = rw d.confidence passed.not_below_accept;
      }
