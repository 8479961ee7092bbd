-- ===== src/Pipeline/Trust.antt =====
-- From a decision of the standard policy to what its recognition rests on.
use fac_lpr_engine.Prelude.{
  ◌≡◌, refl, sym, ap, ◌∙◌, subst, ◌⊎◌, inl, inr, Bool, true, false, ◌||◌, some, List, [], ◌∷◌,
  arith, All, Text,
}
use fac_lpr_engine.Errors.{Result, ok, err}
use fac_lpr_engine.Float.{Float, IsOrdered}
use fac_lpr_engine.Domain.{
  Detection, PlateCandidate, RecognitionEvidence, RecognitionStatus, PlateRecognitionResult,
  is_accepted,
}
use fac_lpr_engine.Image.{ImageView}
use fac_lpr_engine.CandidateFusion.{CandidateFusionConfig, fuse}
use fac_lpr_engine.CandidateFusion.Backing.{Counts, IsBacked, fuse-IsBacked}
use fac_lpr_engine.Config.{DecisionConfig}
use fac_lpr_engine.Decision.{decide, below, best_crop_quality}
use fac_lpr_engine.Decision.Outcomes.{decide-Decided}
use fac_lpr_engine.Decision.Ranking.{is_usable}
use fac_lpr_engine.Decision.Reported.{decide-Reported}
use fac_lpr_engine.Decision.Safety.{Among, IsBest, decide-IsSafe}
use fac_lpr_engine.Effects.{returns, outcome_of, Runtime, Stopwatch, OperationContext}
use fac_lpr_engine.Pipeline.{LprPipeline, CropHypothesis}
use fac_lpr_engine.Pipeline.Crops.{Progress, CropState}
use fac_lpr_engine.Pipeline.Standard.{with_standard_parts, Ready, IsTrusted, IsSoundFor}
use fac_lpr_engine.Pipeline.Provenance.{Marked, IsGathered, IsScored, IsCropped}
use fac_lpr_engine.Pipeline.Provenance.Gathering.{Adds}

pub ok_of : {A : Type 0} {r : Result A} {a : A} → outcome_of r ≡ returns a → r ≡ ok a
ok_of {r = ok x} e = cc
ok_of {r = err c} e = cc

usable_format :
    {F : Type 0} ⦃fl : Float F⦄ (c : PlateCandidate F) → is_usable c ≡ true → c.format_valid ≡ true
usable_format c h = ground arith

status_cases : (s : RecognitionStatus) → (s ≡ RecognitionStatus.accepted) ⊎ (is_accepted s ≡ false)
status_cases RecognitionStatus.accepted = inl refl
status_cases RecognitionStatus.review = inr refl
status_cases RecognitionStatus.rejected = inr refl

pub returned_eq : {A : Type 0} {a b : A} → returns a ≡ returns b → b ≡ a
returned_eq e = cc

module _ {F D : Type 0} ⦃fl : Float F⦄ ⦃dl : Float D⦄ (fusion : CandidateFusionConfig F) where
  valid_backing :
      (evidence : List (RecognitionEvidence F D)) (text : Text) (valid : Bool)
      → valid ≡ true
      → IsBacked fusion evidence text valid
      → (c : PlateCandidate F) × Counts fusion evidence text c × (c.format_valid ≡ true)
  valid_backing evidence text valid e (h, inl f) = absurd (ground arith)
  valid_backing evidence text valid e (h, inr g) = g

  best_backing :
      (evidence : List (RecognitionEvidence F D)) (fused : List (PlateCandidate F))
      (c : PlateCandidate F)
      → All (λ c. IsBacked fusion evidence c.text c.format_valid) fused
      → Among c fused
      → is_usable c ≡ true
      → (b : PlateCandidate F) × Counts fusion evidence c.text b × (b.format_valid ≡ true)
  best_backing evidence [] c h m u = elim m [ ]
  best_backing evidence (d ∷ ds) c h (inl e) u =
      valid_backing evidence c.text c.format_valid (usable_format c u)
        (subst (λ c. IsBacked fusion evidence c.text c.format_valid) e h.0)
  best_backing evidence (d ∷ ds) c h (inr m) u = best_backing evidence ds c h.1 m u

module _ {W F D L : Type 0} ⦃fl : Float F⦄ ⦃dl : Float D⦄ ⦃rt : Runtime W⦄ ⦃sw : Stopwatch D⦄
    (fusion : CandidateFusionConfig F) (config : DecisionConfig F) (parts : LprPipeline W F D L)
    (context : OperationContext) (laws : IsOrdered F) where
  abbrev standard : LprPipeline W F D L
  standard = with_standard_parts fusion config parts

  pub ready :
      (image : ImageView) (found : Detection F) (scored : Detection F × Progress F D)
      (aligned : List (CropHypothesis F) × Progress F D) (s : CropState F D)
      → IsScored standard context found scored.0.geometry_score ⊎ Marked scored.1
      → (IsCropped standard context image scored.0 aligned.0
          × (aligned.1.decision ≡ scored.1.decision))
        ⊎ Marked aligned.1
      → Adds standard context
          (IsGathered standard context aligned.0)
          (record {
            progress = aligned.1;
            all_evidence = [];
            all_layout = [];
            best_crop_quality = fl.nought;
          })
          s
        ⊎ Marked s.progress
      → Ready fusion config parts context image found scored.0 s ⊎ Marked s.progress
  ready image found scored aligned s a b (inr m) = inr m
  ready image found scored aligned s a (inr m) (inl z) = inr (z.decision ∙ m)
  ready image found scored aligned s (inr m) (inl y) (inl z) =
      inr (z.decision ∙ ap (λ x. x.degraded) y.1 ∙ m)
  ready image found scored aligned s (inl x) (inl y) (inl z) = inl (record {
    scored = x;
    crops = aligned.0;
    cropped = y.0;
    gathered =
        subst (λ l. IsGathered standard context aligned.0 s.all_evidence l) (sym z.appended_layouts)
          (subst (λ e. IsGathered standard context aligned.0 e z.layouts) (sym z.appended) z.holds);
  })

  decided-IsTrusted :
      (image : ImageView) (found d : Detection F) (s : CropState F D)
      (decided : PlateRecognitionResult F D) (quality : F) (latency : D)
      → d ≡ record found { geometry_score = d.geometry_score }
      → Ready fusion config parts context image found d s ⊎ Marked s.progress
      → decide config d s.all_evidence (fuse fusion s.all_evidence s.all_layout) s.progress.decision
        ≡ ok decided
      → decided.status ≡ RecognitionStatus.accepted
      → IsTrusted fusion config parts context image found (record decided {
        crop_quality = quality;
        degraded = decided.degraded || s.progress.decision.degraded;
        total_latency_ms = latency;
      })
  decided-IsTrusted image found d s decided quality latency same ready h accepted =
      let fused = fuse fusion s.all_evidence s.all_layout in
      let safe = decide-IsSafe laws config d s.all_evidence fused s.progress.decision h accepted in
      let parts_of = decide-Decided config d s.all_evidence fused s.progress.decision h in
      let taken = decide-Reported config d s.all_evidence fused s.progress.decision h in
      let best =
        best_backing fusion s.all_evidence fused safe.best.0.0
          (fuse-IsBacked fusion s.all_evidence s.all_layout) safe.best.0.1 safe.best.0.2 in
      elim ready [
        | inr m ↦ absurd (ground (arith, m, safe.not_degraded))
        | inl found_all ↦ record {
          scored = subst (IsScored standard context found) (sym taken.geometry) found_all.scored;
          crops = found_all.crops;
          cropped =
              subst (λ x. IsCropped standard context image x found_all.crops)
                (same ∙ ap (λ g. record found { geometry_score = g }) (sym taken.geometry))
                found_all.cropped;
          layouts = s.all_layout;
          gathered =
              subst (λ e. IsGathered standard context found_all.crops e s.all_layout)
                (sym taken.reads) found_all.gathered;
          alternatives =
              taken.alternatives ∙ ap (λ e. fuse fusion e s.all_layout) (sym taken.reads);
          detector =
              ap (λ x. below x config.minimum_effective_detector_confidence) taken.detector
              ∙ safe.detector;
          geometry = ap (λ x. below x config.minimum_geometry_score) taken.geometry ∙ safe.geometry;
          crop_quality = decided.crop_quality;
          crop_quality_is = ap (best_crop_quality fl.nought) taken.reads ∙ parts_of.crop;
          crop = safe.crop;
          best =
              subst (λ x. IsBest x decided.plate decided.confidence) (sym taken.alternatives)
                safe.best;
          enough = safe.enough;
          not_degraded = ground (arith, parts_of.degraded, safe.not_degraded, safe.no_failure);
          backed =
              subst
                (λ e.
                  (c : PlateCandidate F) × Counts fusion e decided.plate c
                  × (c.format_valid ≡ true))
                (sym taken.reads)
                (subst
                  (λ t.
                    (c : PlateCandidate F) × Counts fusion s.all_evidence t c
                    × (c.format_valid ≡ true))
                  safe.best.0.3 best);
        }
      ]

  pub decided-IsSoundFor :
      (image : ImageView) (found d : Detection F) (s : CropState F D)
      (decided : PlateRecognitionResult F D) (quality : F) (latency : D)
      → d ≡ record found { geometry_score = d.geometry_score }
      → Ready fusion config parts context image found d s ⊎ Marked s.progress
      → decide config d s.all_evidence (fuse fusion s.all_evidence s.all_layout) s.progress.decision
        ≡ ok decided
      → IsSoundFor fusion config parts context image found (record decided {
        crop_quality = quality;
        degraded = decided.degraded || s.progress.decision.degraded;
        total_latency_ms = latency;
      })
  decided-IsSoundFor image found d s decided quality latency same ready h =
      let fused = fuse fusion s.all_evidence s.all_layout in
      let taken = decide-Reported config d s.all_evidence fused s.progress.decision h in
      record {
        bbox = taken.bbox ∙ ap (λ (x : Detection F). some x.bbox) same;
        quadrilateral = taken.quadrilateral ∙ ap (λ (x : Detection F). x.quadrilateral) same;
        confidence = taken.detector ∙ ap (λ (x : Detection F). x.confidence) same;
        trusted = elim (status_cases decided.status) [
          | inr n ↦ inl n
          | inl a ↦ inr (decided-IsTrusted image found d s decided quality latency same ready h a)
        ];
      }
