-- ===== src/EngineDiagnostics/Published.antt =====
-- The counters after a run has told the diagnostics its result.
use fac_lpr_engine.Prelude.{
  ℕ, ◌+◌, ◌%◌, ◌<◌, ◌≡◌, refl, sym, ap, ◌∙◌, subst, List, [], ◌∷◌, arith, if◌then◌else◌, size_mod,
  wrap_add, Text,
}
use fac_lpr_engine.Float.{Float}
use fac_lpr_engine.Domain.{RecognitionStatus, PlateRecognitionResult, is_accepted}
use fac_lpr_engine.OrderedMap.{lookup, IsSorted}
use fac_lpr_engine.EngineDiagnostics.{
  EngineDiagnostics, LongDouble, record_recognition, record_provider_failures,
}
use fac_lpr_engine.Pipeline.{LprPipelineResult}
use fac_lpr_engine.Pipeline.Detections.{record_recognitions, published}
use fac_lpr_engine.EngineDiagnostics.Stages.{
  timings_of, status_count, stage_count, counted, tick, is_review, is_rejected, counters-timings,
  stage_count-timings,
}

module _ {D L : Type 0} where
  abbrev pub IsBounded : EngineDiagnostics D L → Type 0
  IsBounded d = (d.accepted < size_mod) × (d.review < size_mod) × (d.rejected < size_mod)

  stepped :
      (s : RecognitionStatus) (d : EngineDiagnostics D L)
      → ((record_recognition s d).accepted
          ≡ (if is_accepted s then wrap_add d.accepted 1 else d.accepted))
        × ((record_recognition s d).review
            ≡ (if is_review s then wrap_add d.review 1 else d.review))
        × ((record_recognition s d).rejected
            ≡ (if is_rejected s then wrap_add d.rejected 1 else d.rejected))
  unfolding record_recognition
  stepped RecognitionStatus.accepted d = (refl, refl, refl)
  stepped RecognitionStatus.review d = (refl, refl, refl)
  stepped RecognitionStatus.rejected d = (refl, refl, refl)

module _ {F D L : Type 0} where
  -- The counters of recognitions after some recognitions.
  pub record IsAdded (rs : List (PlateRecognitionResult F D)) (before after : EngineDiagnostics D L)
      : Type 0 where
    pub accepted : after.accepted ≡ (before.accepted + status_count is_accepted rs) % size_mod
    pub review : after.review ≡ (before.review + status_count is_review rs) % size_mod
    pub rejected : after.rejected ≡ (before.rejected + status_count is_rejected rs) % size_mod

  record_recognitions-IsAdded :
      (rs : List (PlateRecognitionResult F D)) (d : EngineDiagnostics D L)
      → IsBounded d
      → IsAdded rs d (record_recognitions rs d)
  record_recognitions-IsAdded [] d (a, v, j) = record {
    accepted = omega arith;
    review = omega arith;
    rejected = omega arith;
  }
  record_recognitions-IsAdded (r ∷ rs) d (a, v, j) =
      let (sa, sv, sj) = stepped r.status d in
      let rest = record_recognitions-IsAdded rs (record_recognition r.status d) (
        (tick 0 (is_accepted r.status) a sa).0,
        (tick 0 (is_review r.status) v sv).0,
        (tick 0 (is_rejected r.status) j sj).0,
      ) in
      record {
        accepted =
            rest.accepted ∙ (tick (status_count is_accepted rs) (is_accepted r.status) a sa).1;
        review = rest.review ∙ (tick (status_count is_review rs) (is_review r.status) v sv).1;
        rejected =
            rest.rejected ∙ (tick (status_count is_rejected rs) (is_rejected r.status) j sj).1;
      }

  latencies-recognitions :
      (rs : List (PlateRecognitionResult F D)) (d : EngineDiagnostics D L)
      → ((record_recognitions rs d).stage_latencies ≡ d.stage_latencies)
        × ((record_recognitions rs d).provider_failures ≡ d.provider_failures)
  unfolding record_recognition
  latencies-recognitions [] d = (refl, refl)
  latencies-recognitions (r ∷ rs) d =
      let (a, b) = latencies-recognitions rs (record_recognition r.status d) in
      let (x, y) = kept r.status in (a ∙ x, b ∙ y)
    where
      kept :
          (s : RecognitionStatus)
          → ((record_recognition s d).stage_latencies ≡ d.stage_latencies)
            × ((record_recognition s d).provider_failures ≡ d.provider_failures)
      kept RecognitionStatus.accepted = (refl, refl)
      kept RecognitionStatus.review = (refl, refl)
      kept RecognitionStatus.rejected = (refl, refl)

module _ {F D L : Type 0} ⦃dl : Float D⦄ ⦃ll : LongDouble D L⦄ where
  -- What a run with this result adds to the diagnostics: to the counter of each status as many
  -- recognitions as have it, to the counter of provider failures those of the result, and to the count
  -- of each stage its timings that have a finite latency which is not negative; all modulo 2^64, for
  -- counters that start below 2^64 and stages in order.
  pub published-counts :
      (r : LprPipelineResult F D) (d : EngineDiagnostics D L) (stage : Text)
      → IsBounded d
      → IsSorted d.stage_latencies
      → stage_count stage d < size_mod
      → IsAdded r.recognitions d (published r d)
        × ((published r d).provider_failures
            ≡ (d.provider_failures + r.provider_failure_count) % size_mod)
        × (stage_count stage (published r d)
            ≡ (stage_count stage d + timings_of stage r.stage_timings) % size_mod)
  unfolding published record_provider_failures
  published-counts r d stage b s n =
      let added = record_recognitions-IsAdded r.recognitions d b in
      let (same, failures) = latencies-recognitions r.recognitions d in
      let mid =
        record_provider_failures r.provider_failure_count (record_recognitions r.recognitions d) in
      let c = counters-timings r.stage_timings mid in
      let m : stage_count stage mid ≡ stage_count stage d =
        ap (λ m. counted (lookup stage m)) same in
      (
        record {
          accepted = ap (λ (q : ℕ × ℕ × ℕ × ℕ). q.0) c ∙ added.accepted;
          review = ap (λ (q : ℕ × ℕ × ℕ × ℕ). q.1) c ∙ added.review;
          rejected = ap (λ (q : ℕ × ℕ × ℕ × ℕ). q.2) c ∙ added.rejected;
        },
        ap (λ (q : ℕ × ℕ × ℕ × ℕ). q.3) c ∙ ap (λ x. wrap_add x r.provider_failure_count) failures,
        stage_count-timings stage r.stage_timings mid (subst IsSorted (sym same) s)
              (omega (arith, m, n))
            ∙ ap (λ x. (x + timings_of stage r.stage_timings) % size_mod) m,
      )
