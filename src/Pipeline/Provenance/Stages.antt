-- ===== src/Pipeline/Provenance/Stages.antt =====
-- The stages before the crops: geometry, alignment and the generation of the crops.
use fac_lpr_engine.Prelude.{ℕ, ◌≡◌, refl, ap, ◌∙◌, ◌⊎◌, inl, inr}
use fac_lpr_engine.Float.{Float}
use fac_lpr_engine.Domain.{Detection}
use fac_lpr_engine.Image.{ImageView}
use fac_lpr_engine.Effects.{Runtime, Stopwatch, OperationContext}
use fac_lpr_engine.Effects.Ensures.{
  Returned, Ensures, Ensures-pure, Ensures-bind, Ensures-then, Ensures-call,
}
use fac_lpr_engine.Pipeline.{LprPipeline}
use fac_lpr_engine.Pipeline.Crops.{Progress}
use fac_lpr_engine.Pipeline.Detections.{clean_score, run_geometry, run_alignment}
use fac_lpr_engine.Pipeline.Ledger.{Ensures-caught_call}
use fac_lpr_engine.Pipeline.Provenance.{
  IsScored, IsCropped, Marked, record_failure-Marked, time_progress-decision,
}

module _ {W F D L : Type 0} ⦃fl : Float F⦄ ⦃dl : Float D⦄ ⦃rt : Runtime W⦄ ⦃sw : Stopwatch D⦄
    (pipeline : LprPipeline W F D L) (context : OperationContext) where
  pub run_geometry-IsScored :
      (i : ℕ) (d : Detection F) (p : Progress F D)
      → Ensures
          (λ t.
            (t.0 ≡ record d { geometry_score = t.0.geometry_score })
            × (IsScored pipeline context d t.0.geometry_score ⊎ Marked t.1))
          (run_geometry pipeline context i d p)
  unfolding run_geometry clean_score
  run_geometry-IsScored i d p = Ensures-then _ _ λ started.
      Ensures-bind
        (λ t.
          (t.0 ≡ record d { geometry_score = t.0.geometry_score })
          × (IsScored pipeline context d t.0.geometry_score ⊎ Marked t.1))
        _ _
        (Ensures-caught_call _ _ _
          (λ g r. (refl, inl (record { geometry = g; evaluated = r; is = refl })))
          λ code. (refl, inr (record_failure-Marked _ code p)))
        λ checked h.
          Ensures-bind (λ t. t.decision ≡ checked.1.decision) _ _
            (time_progress-decision _ i 0 _ checked.1)
            λ timed c. Ensures-then _ _ λ _.
              Ensures-pure _
                (h.0, elim h.1 [ inl s ↦ inl s | inr m ↦ inr (ap (λ x. x.degraded) c ∙ m) ])

  pub run_alignment-IsCropped :
      (image : ImageView) (i : ℕ) (d : Detection F) (p : Progress F D)
      → Ensures
          (λ t. (IsCropped pipeline context image d t.0 × (t.1.decision ≡ p.decision)) ⊎ Marked t.1)
          (run_alignment pipeline context image i d p)
  unfolding run_alignment
  run_alignment-IsCropped image i d p = Ensures-then _ _ λ started.
      Ensures-bind
        (λ t.
          (Returned (pipeline.align image d context) t.0 × (t.1.decision ≡ p.decision))
          ⊎ Marked t.1)
        _ _
        (Ensures-caught_call _ _ _ (λ aligned r. inl (r, refl))
          λ code. inr (record_failure-Marked _ code p))
        λ attempted h.
          Ensures-bind (λ t. t.decision ≡ attempted.1.decision) _ _
            (time_progress-decision _ i 0 _ attempted.1)
            λ timed a. Ensures-then _ _ λ _. Ensures-then _ _ λ crop_started.
              Ensures-call _ _ λ crops r.
                Ensures-bind (λ t. t.decision ≡ timed.decision) _ _
                  (time_progress-decision _ i 0 _ timed)
                  λ generated b. Ensures-then _ _ λ _. Ensures-pure _ (elim h [
                    | inl (s, c) ↦ inl (
                      record { aligned = attempted.0; was_aligned = s; generated = r },
                      b ∙ a ∙ c,
                    )
                    | inr m ↦ inr (ap (λ x. x.degraded) (b ∙ a) ∙ m)
                  ])
