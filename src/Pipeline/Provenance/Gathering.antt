-- ===== src/Pipeline/Provenance/Gathering.antt =====
-- The loop over the crops: what each crop adds to the evidence and to the layouts.
use fac_lpr_engine.Prelude.{
  ℕ, zero, suc, ◌≡◌, refl, sym, ap, ◌∙◌, ◌⊎◌, inl, inr, List, [], ◌∷◌, ◌++◌, arith, All, length,
  Bool-cases, Text,
}
use mathlib.Core.List.{append_assoc, append-nil}
use fac_lpr_engine.Float.{Float}
use fac_lpr_engine.Domain.{PlateCandidate, RecognitionEvidence}
use fac_lpr_engine.CandidateFusion.{LayoutEvidence}
use fac_lpr_engine.Effects.{Runtime, Stopwatch, OperationContext}
use fac_lpr_engine.Effects.Ensures.{
  Returned, Ensures, Ensures-pure, Ensures-bind, Ensures-then, Ensures-call, Ensures-weaken,
}
use fac_lpr_engine.Ensemble
use fac_lpr_engine.Ensemble.{RecognitionEnsembleResult}
use fac_lpr_engine.Pipeline.{LprPipeline, CropHypothesis, view}
use fac_lpr_engine.Pipeline.Crops.{
  Progress, CropState, add_ensemble, crop_candidates, copies, calibrate_candidates, calibrate_all,
  run_crop, run_crops,
}
use fac_lpr_engine.Pipeline.Ledger.{Ensures-caught_call}
use fac_lpr_engine.Pipeline.Provenance.{
  Paired, IsCalibrated, IsRecalibrated, IsRead, IsGathered, Marked, record_failure-Marked,
  time_progress-decision,
}

copies-All : {A : Type 0} (n : ℕ) (a : A) → All (λ b. b ≡ a) (copies n a)
copies-All zero a = tt
copies-All (suc n) a = (refl, copies-All n a)

length-copies : {A : Type 0} (n : ℕ) (a : A) → length (copies n a) ≡ n
length-copies zero a = refl
length-copies (suc n) a = omega (arith, length-copies n a)

module _ {W F D L : Type 0} ⦃fl : Float F⦄ ⦃dl : Float D⦄ ⦃rt : Runtime W⦄ ⦃sw : Stopwatch D⦄
    (pipeline : LprPipeline W F D L) (context : OperationContext) where
  calibrate_candidates-Paired :
      (crop : CropHypothesis F) (source : Text) (weight : F) (cs : List (PlateCandidate F))
      → Ensures
          (Paired (IsCalibrated pipeline context crop source weight) cs)
          (calibrate_candidates pipeline crop source weight cs)
  unfolding calibrate_candidates
  calibrate_candidates-Paired crop source weight [] = Ensures-pure _ tt
  calibrate_candidates-Paired crop source weight (c ∷ cs) = Ensures-call _ _ λ calibrated r.
      Ensures-bind _ _ _ (calibrate_candidates-Paired crop source weight cs)
        λ rest h. Ensures-pure _ (record { calibrated = calibrated; returned = r; is = refl }, h)

  calibrate_all-Paired :
      (crop : CropHypothesis F) (es : List (RecognitionEvidence F D))
      → Ensures (Paired (IsRecalibrated pipeline context crop) es) (calibrate_all pipeline crop es)
  unfolding calibrate_all
  calibrate_all-Paired crop [] = Ensures-pure _ tt
  calibrate_all-Paired crop (e ∷ es) =
      Ensures-bind _ _ _ (calibrate_candidates-Paired crop e.source _ e.candidates) λ candidates g.
        Ensures-bind _ _ _ (calibrate_all-Paired crop es) λ rest h.
          Ensures-pure _ (record { candidates = candidates; calibrated = g; is = refl }, h)

  -- What the state `t` has more than `s`, without a failure in between.
  pub record Adds (Q : List (RecognitionEvidence F D) → List (LayoutEvidence F) → Type 0)
      (s t : CropState F D) : Type 0 where
    pub evidence : List (RecognitionEvidence F D)
    pub layouts : List (LayoutEvidence F)
    pub appended : t.all_evidence ≡ s.all_evidence ++ evidence
    pub appended_layouts : t.all_layout ≡ s.all_layout ++ layouts
    pub decision : t.progress.decision.degraded ≡ s.progress.decision.degraded
    pub holds : Q evidence layouts

  add_ensemble-degraded :
      (e : RecognitionEnsembleResult F D) (p : Progress F D)
      → ((add_ensemble e p).decision.degraded ≡ p.decision.degraded) ⊎ Marked (add_ensemble e p)
  unfolding add_ensemble
  add_ensemble-degraded e p = elim (Bool-cases e.degraded) [
    | inl h ↦ inr (ground arith)
    | inr h ↦ inl (ground arith)
  ]

  -- A crop whose layout was analyzed without a failure.
  crop-Adds :
      (crop : CropHypothesis F) (s : CropState F D) (e : RecognitionEnsembleResult F D)
      (evidence : List (RecognitionEvidence F D)) (recognized : Progress F D)
      (layout : LayoutEvidence F) (t : CropState F D)
      → Returned
          (Ensemble.recognize pipeline.recognition_ensemble (view crop.image) crop.quality context)
          e
      → recognized.decision ≡ s.progress.decision
      → Paired (IsRecalibrated pipeline context crop) e.evidence evidence
      → Returned (pipeline.analyze (view crop.image) (crop_candidates evidence) context) layout
      → t.progress.decision ≡ (add_ensemble e recognized).decision
      → t.all_evidence ≡ s.all_evidence ++ evidence
      → t.all_layout ≡ s.all_layout ++ copies (length evidence) layout
      → Adds (IsRead pipeline context crop) s t ⊎ Marked t.progress
  crop-Adds crop s e evidence recognized layout t r a g l d p q =
      elim (add_ensemble-degraded e recognized) [
        | inr m ↦ inr (ap (λ x. x.degraded) d ∙ m)
        | inl same ↦ inl (record {
          evidence = evidence;
          layouts = copies (length evidence) layout;
          appended = p;
          appended_layouts = q;
          decision = ap (λ x. x.degraded) d ∙ same ∙ ap (λ x. x.degraded) a;
          holds = record {
            ensemble = e;
            recognized = r;
            calibrated = g;
            layout = layout;
            analyzed = l;
            one_layout =
                (copies-All (length evidence) layout, length-copies (length evidence) layout);
          };
        })
      ]

  run_crop-Adds :
      (i j : ℕ) (crop : CropHypothesis F) (s : CropState F D)
      → Ensures
          (λ t. Adds (IsRead pipeline context crop) s t ⊎ Marked t.progress)
          (run_crop pipeline context i j crop s)
  unfolding run_crop
  run_crop-Adds i j crop s = Ensures-then _ _ λ recognition_started. Ensures-call _ _ λ e r.
      Ensures-bind (λ t. t.decision ≡ s.progress.decision) _ _
        (time_progress-decision _ i j _ s.progress)
        λ recognized a. Ensures-then _ _ λ calibration_started.
          Ensures-bind _ _ _ (calibrate_all-Paired crop e.evidence) λ evidence g.
            Ensures-bind (λ t. t.decision ≡ (add_ensemble e recognized).decision) _ _
              (time_progress-decision _ i j _ _)
              λ calibrated b. Ensures-then _ _ λ layout_started.
                Ensures-bind
                  (λ q.
                    (Returned
                        (pipeline.analyze (view crop.image) (crop_candidates evidence) context) q.0
                      × (q.1.decision ≡ calibrated.decision))
                    ⊎ Marked q.1)
                  _ _
                  (Ensures-caught_call _ _ _ (λ layout l. inl (l, refl))
                    λ code. inr (record_failure-Marked _ code calibrated))
                  λ analyzed h.
                    Ensures-bind (λ t. t.decision ≡ analyzed.1.decision) _ _
                      (time_progress-decision _ i j _ analyzed.1)
                      λ timed c. Ensures-then _ _ λ _. Ensures-pure _ (elim h [
                        | inr m ↦ inr (ap (λ x. x.degraded) c ∙ m)
                        | inl (l, d) ↦
                            crop-Adds crop s e evidence recognized analyzed.0 _ r a g l (c ∙ d ∙ b)
                              refl refl
                      ])

  join :
      (crop : CropHypothesis F) (crops : List (CropHypothesis F)) (s u t : CropState F D)
      → Adds (IsRead pipeline context crop) s u ⊎ Marked u.progress
      → Adds (IsGathered pipeline context crops) u t ⊎ Marked t.progress
      → Adds (IsGathered pipeline context (crop ∷ crops)) s t ⊎ Marked t.progress
  join crop crops s u t first (inr m) = inr m
  join crop crops s u t (inr m) (inl y) = inr (y.decision ∙ m)
  join crop crops s u t (inl x) (inl y) = inl (record {
    evidence = x.evidence ++ y.evidence;
    layouts = x.layouts ++ y.layouts;
    appended =
        y.appended
        ∙ ap (λ l. l ++ y.evidence) x.appended
        ∙ append_assoc s.all_evidence x.evidence y.evidence;
    appended_layouts =
        y.appended_layouts
        ∙ ap (λ l. l ++ y.layouts) x.appended_layouts
        ∙ append_assoc s.all_layout x.layouts y.layouts;
    decision = y.decision ∙ x.decision;
    holds = (x.evidence, y.evidence, x.layouts, y.layouts, refl, refl, x.holds, y.holds);
  })

  pub run_crops-Adds :
      (i j : ℕ) (crops : List (CropHypothesis F)) (s : CropState F D)
      → Ensures
          (λ t. Adds (IsGathered pipeline context crops) s t ⊎ Marked t.progress)
          (run_crops pipeline context i j crops s)
  unfolding run_crops
  run_crops-Adds i j [] s = Ensures-pure s (
      inl (record {
        evidence = [];
        layouts = [];
        appended = sym (append-nil s.all_evidence);
        appended_layouts = sym (append-nil s.all_layout);
        decision = refl;
        holds = (refl, refl);
      }))
  run_crops-Adds i j (crop ∷ crops) s = Ensures-bind _ _ _ (run_crop-Adds i j crop s) λ next g.
      Ensures-weaken _ (run_crops-Adds i (suc j) crops next) λ t h. join crop crops s next t g h
