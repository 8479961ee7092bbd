-- ===== src/Pipeline/Accounting.antt =====
-- Failures and recognitions are counted and marked.
use fac_lpr_engine.Prelude.{ℕ, suc, ◌≡◌, sym, ap, ◌∙◌, subst, ◌||◌, List, [], ◌∷◌, length}
use fac_lpr_engine.Float.{Float}
use fac_lpr_engine.Domain.{Detection}
use fac_lpr_engine.Image.{ImageView}
use fac_lpr_engine.EngineDiagnostics.{LongDouble}
use fac_lpr_engine.Effects.{Runtime, Stopwatch, OperationContext}
use fac_lpr_engine.Effects.Ensures.{Ensures, Ensures-pure, Ensures-bind, Ensures-then}
use fac_lpr_engine.Ensemble.Accounting.{recognize-IsAccounted}
use fac_lpr_engine.Pipeline.{LprPipeline, LprPipelineResult, CropHypothesis, view}
use fac_lpr_engine.Pipeline.Crops.{Progress, CropState, run_crop, run_crops}
use fac_lpr_engine.Pipeline.Detections.{
  empty_result, run_geometry, run_alignment, finish_detection, run_detection, run_detections,
  recognize,
}
use fac_lpr_engine.Pipeline.Ledger.{
  Ensures-caught, flag, marks, append-same, Ledger, ledger, IsSummed, IsMarked, State,
  record_failure-State, add_ensemble-State, add_timing-ledger, time_progress-State, start_of,
  empty-IsSummed,
}

module _ {W F D L : Type 0} ⦃fl : Float F⦄ ⦃dl : Float D⦄ ⦃rt : Runtime W⦄ ⦃sw : Stopwatch D⦄
    (pipeline : LprPipeline W F D L) (context : OperationContext) (before : Ledger F D) where
  run_crop-State :
      (i j : ℕ) (crop : CropHypothesis F) (s : CropState F D)
      → State before s.progress
      → Ensures (λ t. State before t.progress) (run_crop pipeline context i j crop s)
  unfolding run_crop
  run_crop-State i j crop s h = Ensures-then _ _ λ recognition_started.
      Ensures-bind _ _ _
        (recognize-IsAccounted pipeline.recognition_ensemble (view crop.image) crop.quality context)
        λ e accounted.
          Ensures-bind (State before) _ _ (time_progress-State before _ i j _ s.progress h)
            λ recognized a. Ensures-then _ _ λ calibration_started. Ensures-then _ _ λ evidence.
              Ensures-bind (State before) _ _
                (time_progress-State before _ i j _ _
                  (add_ensemble-State before e recognized (flag accounted.0.degraded) a))
                λ calibrated b. Ensures-then _ _ λ layout_started.
                  Ensures-bind (λ q. State before q.1) _ _
                    (Ensures-caught _ _ _ (λ layout. b)
                      λ code. record_failure-State before _ code calibrated b)
                    λ analyzed d.
                      Ensures-bind (State before) _ _
                        (time_progress-State before _ i j _ analyzed.1 d)
                        λ timed f. Ensures-then _ _ λ _. Ensures-pure _ f

  pub run_crops-State :
      (i j : ℕ) (crops : List (CropHypothesis F)) (s : CropState F D)
      → State before s.progress
      → Ensures (λ t. State before t.progress) (run_crops pipeline context i j crops s)
  unfolding run_crops
  run_crops-State i j [] s h = Ensures-pure s h
  run_crops-State i j (crop ∷ crops) s h =
      Ensures-bind (λ t. State before t.progress) _ _ (run_crop-State i j crop s h)
        λ next g. run_crops-State i (suc j) crops next g

  pub run_geometry-State :
      (i : ℕ) (d : Detection F) (p : Progress F D)
      → State before p
      → Ensures (λ t. State before t.1) (run_geometry pipeline context i d p)
  unfolding run_geometry
  run_geometry-State i d p h = Ensures-then _ _ λ started.
      Ensures-bind (λ t. State before t.1) _ _
        (Ensures-caught _ _ _ (λ g. h) λ code. record_failure-State before _ code p h)
        λ checked a.
          Ensures-bind (State before) _ _ (time_progress-State before _ i 0 _ checked.1 a)
            λ timed b. Ensures-then _ _ λ _. Ensures-pure _ b

  pub run_alignment-State :
      (image : ImageView) (i : ℕ) (d : Detection F) (p : Progress F D)
      → State before p
      → Ensures (λ t. State before t.1) (run_alignment pipeline context image i d p)
  unfolding run_alignment
  run_alignment-State image i d p h = Ensures-then _ _ λ started.
      Ensures-bind (λ t. State before t.1) _ _
        (Ensures-caught _ _ _ (λ g. h) λ code. record_failure-State before _ code p h)
        λ attempted a.
          Ensures-bind (State before) _ _ (time_progress-State before _ i 0 _ attempted.1 a)
            λ timed b. Ensures-then _ _ λ _. Ensures-then _ _ λ crop_started.
              Ensures-then _ _ λ crops.
                Ensures-bind (State before) _ _ (time_progress-State before _ i 0 _ timed b)
                  λ generated c. Ensures-then _ _ λ _. Ensures-pure _ c

  finish_detection-IsMarked :
      (started i : ℕ) (d : Detection F) (s : CropState F D)
      → State before s.progress
      → Ensures (IsMarked before) (finish_detection pipeline context started i d s)
  unfolding finish_detection
  finish_detection-IsMarked started i d s (h, c) = Ensures-then _ _ λ fusion_started.
      Ensures-then _ _ λ fused.
        Ensures-bind (λ t. ledger t ≡ ledger s.progress.result) _ _ (add_timing-ledger _ i 0 _ _)
          λ merged a. Ensures-then _ _ λ decision_started. Ensures-then _ _ λ recognition.
            Ensures-bind (λ t. ledger t ≡ ledger merged) _ _ (add_timing-ledger _ i 0 _ _)
              λ decided b. Ensures-then _ _ λ finished. Ensures-then _ _ λ _.
                let same = b ∙ a in
                let sum = subst IsSummed (sym same) h in
                Ensures-pure _ (record {
                  summed = record { count = sum.count; degraded = sum.degraded };
                  recognition = record recognition {
                    crop_quality = s.best_crop_quality;
                    degraded = recognition.degraded || s.progress.decision.degraded;
                    total_latency_ms = sw.elapsed_ms started finished;
                  };
                  appended =
                      append-same _ (ap (λ (l : Ledger F D). l.recognitions) same ∙ c.recognitions);
                  marked =
                      marks c.n recognition.degraded s.progress.decision.degraded
                        (ap (λ (l : Ledger F D). length l.failures) same ∙ c.failures) c.degraded;
                })

module _ {W F D L : Type 0} ⦃fl : Float F⦄ ⦃dl : Float D⦄ ⦃rt : Runtime W⦄ ⦃sw : Stopwatch D⦄
    (pipeline : LprPipeline W F D L) (context : OperationContext) where
  -- One turn of the loop over the detections, from a result whose failures are counted and mark it:
  -- if it returns, they still do, there is one recognition more, and either the turn added no
  -- provider failure or that recognition is marked as degraded.
  pub run_detection-IsMarked :
      (image : ImageView) (started i : ℕ) (d : Detection F) (r : LprPipelineResult F D)
      → IsSummed (ledger r)
      → Ensures (IsMarked (ledger r)) (run_detection pipeline context image started i d r)
  unfolding run_detection
  run_detection-IsMarked image started i d r h =
      Ensures-bind _ _ _
        (run_geometry-State pipeline context (ledger r) i d _ (h, start_of (ledger r)))
        λ scored a.
          Ensures-bind _ _ _
            (run_alignment-State pipeline context (ledger r) image i scored.0 scored.1 a)
            λ aligned b.
              Ensures-bind _ _ _ (run_crops-State pipeline context (ledger r) i 0 aligned.0 _ b)
                λ gathered c.
                  finish_detection-IsMarked pipeline context (ledger r) started i scored.0 gathered
                    c

  run_detections-IsSummed :
      (image : ImageView) (started i : ℕ) (ds : List (Detection F)) (r : LprPipelineResult F D)
      → IsSummed (ledger r)
      → Ensures (λ t. IsSummed (ledger t)) (run_detections pipeline context image started i ds r)
  unfolding run_detections
  run_detections-IsSummed image started i [] r h = Ensures-pure r h
  run_detections-IsSummed image started i (d ∷ ds) r h =
      Ensures-bind _ _ _ (run_detection-IsMarked image started i d r h)
        λ next m. run_detections-IsSummed image started (suc i) ds next m.summed

  -- If the pipeline returns a result, its counter of provider failures is the number of the failures
  -- that it lists, modulo 2^64, and it is marked as degraded exactly if it lists one.
  pub recognize-IsSummed :
      ⦃ll : LongDouble D L⦄ (image : ImageView)
      → Ensures (λ t. IsSummed (ledger t)) (recognize pipeline context image)
  unfolding recognize
  recognize-IsSummed image = Ensures-then _ _ λ started. Ensures-then _ _ λ _.
      Ensures-then _ _ λ validated. Ensures-then _ _ λ detection_started.
        Ensures-then _ _ λ detections.
          Ensures-bind (λ t. ledger t ≡ ledger empty_result) _ _ (add_timing-ledger _ 0 0 _ _)
            λ first e. Ensures-then _ _ λ _.
              Ensures-bind (λ t. IsSummed (ledger t)) _ _
                (run_detections-IsSummed validated.view started 0 detections first
                  (subst IsSummed (sym e) empty-IsSummed))
                λ result h. Ensures-then _ _ λ finished.
                  Ensures-then _ _
                    λ _. Ensures-pure _ (record { count = h.count; degraded = h.degraded })
