-- ===== src/Config/Limits.antt =====
-- What a configuration that passes the check satisfies, and the other way round.
use fac_lpr_engine.Prelude.{
  ℕ, ◌*◌, ◌≤◌, ◌≡◌, refl, ◌↔◌, true, false, not, ◌||◌, arith, ℤ, pos, negsuc, is_positive, exceeds,
}
use fac_lpr_engine.Errors.{Result, ok, err, ◌>>◌}
use fac_lpr_engine.Float.{Float}
use fac_lpr_engine.Config.{
  DetectorConfig, RecognitionConfig, CropConfig, DecisionConfig, PerformanceConfig, EngineConfig,
  in_unit_interval, check_detector, check_recognition, check_crop, check_decision,
  check_performance, validate_engine_config, milliseconds_per_minute,
}

-- At least 1 and at most the bound.
abbrev pub From1 : ℕ → ℕ → Type 0
From1 bound n = (1 ≤ n) × (n ≤ bound)

abbrev pub IsPerformance : PerformanceConfig → Type 0
IsPerformance c =
    From1 256 c.worker_count
    × From1 65536 c.queue_capacity
    × From1 32768 c.max_image_width
    × From1 32768 c.max_image_height
    × From1 (1024 * 1024 * 1024) c.max_image_bytes
    × ((ms : ℕ) × (c.recognition_timeout ≡ pos ms) × From1 300_000 ms)

timeout_lem :
    (t : ℤ)
    → (not (is_positive t) || exceeds t (5 * milliseconds_per_minute)) ≡ false
    → (ms : ℕ) × (t ≡ pos ms) × From1 300_000 ms
timeout_lem (pos n) h = (n, refl, ground arith)
timeout_lem (negsuc n) h = cc

check_performance-IsPerformance :
    (c : PerformanceConfig) → check_performance c ≡ ok tt → IsPerformance c
unfolding check_performance
check_performance-IsPerformance c h = (
  ground arith,
  ground arith,
  ground arith,
  ground arith,
  ground arith,
  timeout_lem c.recognition_timeout (ground arith),
)

IsPerformance-check_performance :
    (c : PerformanceConfig) → IsPerformance c → check_performance c ≡ ok tt
unfolding check_performance
IsPerformance-check_performance c (a, b, d, e, f, (ms, t, g)) = ground arith

then_ok : (a b : Result (Unit {0})) → (a >> b) ≡ ok tt → (a ≡ ok tt) × (b ≡ ok tt)
then_ok (ok u) b h = (refl, h)
then_ok (err e) b h = absurd (ground arith)

module _ {F : Type 0} ⦃fl : Float F⦄ where
  abbrev pub InUnit : F → Type 0
  InUnit x = in_unit_interval x ≡ true

  abbrev pub IsDecision : DecisionConfig F → Type 0
  IsDecision c =
      InUnit c.accepted_confidence_threshold
      × InUnit c.review_confidence_threshold
      × InUnit c.strong_conflict_threshold
      × InUnit c.minimum_crop_quality
      × InUnit c.minimum_geometry_score
      × InUnit c.minimum_effective_detector_confidence
      × (fl.lt c.accepted_confidence_threshold c.review_confidence_threshold ≡ false)
      × (c.allow_accept_when_degraded ≡ false)
      × (c.fail_closed ≡ true)

  check_decision-IsDecision : (c : DecisionConfig F) → check_decision c ≡ ok tt → IsDecision c
  unfolding check_decision
  check_decision-IsDecision c h = ground arith

  IsDecision-check_decision : (c : DecisionConfig F) → IsDecision c → check_decision c ≡ ok tt
  unfolding check_decision
  IsDecision-check_decision c h = ground arith

  abbrev pub IsDetector : DetectorConfig F → Type 0
  IsDetector c =
      InUnit c.confidence_threshold
      × InUnit c.nms_iou_threshold
      × (1 ≤ c.max_detections)
      × (1 ≤ c.tile_width)
      × (1 ≤ c.tile_height)
      × (fl.le fl.nought c.tile_overlap_ratio ≡ true)
      × (fl.lt c.tile_overlap_ratio (fl.literal 50 2) ≡ true)

  abbrev pub IsRecognition : RecognitionConfig F → Type 0
  IsRecognition c =
      (1 ≤ c.result_limit)
      × (c.result_limit ≤ c.beam_width)
      × From1 64 c.classes_per_step
      × From1 32 c.max_recognizers
      × InUnit c.minimum_candidate_confidence

  abbrev pub IsCrop : CropConfig F → Type 0
  IsCrop c =
      From1 32 c.max_hypotheses
      × InUnit c.horizontal_padding_ratio
      × InUnit c.vertical_padding_ratio
      × (1 ≤ c.minimum_width)
      × (1 ≤ c.minimum_height)

  check_detector_iff : (c : DetectorConfig F) → (check_detector c ≡ ok tt) ↔ IsDetector c
  unfolding check_detector
  check_detector_iff c = (λ h. ground arith, λ h. ground arith)

  check_recognition_iff :
      (c : RecognitionConfig F) → (check_recognition c ≡ ok tt) ↔ IsRecognition c
  unfolding check_recognition
  check_recognition_iff c = (λ h. ground arith, λ h. ground arith)

  check_crop_iff : (c : CropConfig F) → (check_crop c ≡ ok tt) ↔ IsCrop c
  unfolding check_crop
  check_crop_iff c = (λ h. ground arith, λ h. ground arith)

  pub record IsChecked (config : EngineConfig F) : Type 0 where
    pub detector : IsDetector config.detector
    pub recognition : IsRecognition config.recognition
    pub crop : IsCrop config.crop
    pub decision : IsDecision config.decision
    pub performance : IsPerformance config.performance

  -- A configuration passes the check exactly if it respects all limits: among them thresholds in
  -- [0, 1], no more results than the beam is wide, a review threshold not above the one for
  -- acceptance, no acceptance while degraded, fail-closed decisions, and counts and sizes from 1 up to
  -- their bounds.
  pub validate_engine_config_iff :
      (config : EngineConfig F) → (validate_engine_config config ≡ ok tt) ↔ IsChecked config
  unfolding validate_engine_config
  validate_engine_config_iff config = (forth, back)
    where
      forth : validate_engine_config config ≡ ok tt → IsChecked config
      forth h =
          let (a, h1) = then_ok (check_detector config.detector) _ h in
          let (b, h2) = then_ok (check_recognition config.recognition) _ h1 in
          let (c, h3) = then_ok (check_crop config.crop) _ h2 in
          let (d, e) = then_ok (check_decision config.decision) _ h3 in
          record {
            detector = (check_detector_iff config.detector).0 a;
            recognition = (check_recognition_iff config.recognition).0 b;
            crop = (check_crop_iff config.crop).0 c;
            decision = check_decision-IsDecision config.decision d;
            performance = check_performance-IsPerformance config.performance e;
          }

      back : IsChecked config → validate_engine_config config ≡ ok tt
      back h = rw (
        (check_detector_iff config.detector).1 h.detector,
        (check_recognition_iff config.recognition).1 h.recognition,
        (check_crop_iff config.crop).1 h.crop,
        IsDecision-check_decision config.decision h.decision,
        IsPerformance-check_performance config.performance h.performance,
      )
