-- ===== src/EngineDiagnostics/Stages.antt =====
-- What timings add to the diagnostics.
use fac_lpr_engine.Prelude.{
  ℕ, ◌+◌, ◌%◌, ◌<◌, ◌≡◌, refl, ap, ◌∙◌, ◌⊎◌, inl, inr, Bool, true, false, not, ◌&&◌, Option, none,
  some, List, [], ◌∷◌, arith, if◌then◌else◌, Bool-cases, size_mod, wrap_add, Text, text_eq,
  eq_of_text_eq,
}
use fac_lpr_engine.Float.{Float}
use fac_lpr_engine.Domain.{RecognitionStatus, PlateRecognitionResult}
use fac_lpr_engine.OrderedMap.{lookup, IsSorted}
use mathlib.Core.Option.{get_or}
use fac_lpr_engine.OrderedMap.Laws.{lookup-upsert, upsert-IsSorted}
use fac_lpr_engine.EngineDiagnostics.{
  EngineDiagnostics, LatencyAccumulator, LongDouble, record_stage_latency, is_unusable,
  new_accumulator, accumulate,
}
use fac_lpr_engine.Pipeline.{PipelineStageTiming}
use fac_lpr_engine.Pipeline.Detections.{record_timings}

module _ {D : Type 0} ⦃dl : Float D⦄ where
  -- The timings of a stage that count, among some timings.
  abbrev pub timings_of : Text → List (PipelineStageTiming D) → ℕ
  timings_of stage [] = 0
  timings_of stage (t ∷ ts) =
      (if not (is_unusable t.stage t.latency_ms) && text_eq t.stage stage then 1 else 0)
      + timings_of stage ts

-- One step of a counter of 64 bits.
pub tick :
    (n : ℕ) (b : Bool) {x y : ℕ}
    → x < size_mod
    → y ≡ (if b then wrap_add x 1 else x)
    → (y < size_mod) × ((y + n) % size_mod ≡ (x + ((if b then 1 else 0) + n)) % size_mod)
tick n true h e = (omega (arith, e), omega (arith, e))
tick n false h e = (omega (arith, e), omega (arith, e))

abbrev pub is_review : RecognitionStatus → Bool
is_review RecognitionStatus.accepted = false
is_review RecognitionStatus.review = true
is_review RecognitionStatus.rejected = false

abbrev pub is_rejected : RecognitionStatus → Bool
is_rejected RecognitionStatus.accepted = false
is_rejected RecognitionStatus.review = false
is_rejected RecognitionStatus.rejected = true

-- The recognitions with a status.
abbrev pub status_count :
    {F D : Type 0} → (RecognitionStatus → Bool) → List (PlateRecognitionResult F D) → ℕ
status_count test [] = 0
status_count test (r ∷ rs) = (if test r.status then 1 else 0) + status_count test rs

module _ {D L : Type 0} where
  abbrev pub counted : Option (LatencyAccumulator D L) → ℕ
  counted none = 0
  counted (some a) = a.count

  -- The count of a stage in the diagnostics.
  abbrev pub stage_count : Text → EngineDiagnostics D L → ℕ
  stage_count stage d = counted (lookup stage d.stage_latencies)

module _ {D L : Type 0} ⦃dl : Float D⦄ ⦃ll : LongDouble D L⦄ where
  record_stage_latency-IsSorted :
      (stage : Text) (latency : D) (d : EngineDiagnostics D L)
      → IsSorted d.stage_latencies
      → IsSorted (record_stage_latency stage latency d).stage_latencies
  unfolding record_stage_latency
  record_stage_latency-IsSorted stage latency d s = elim (Bool-cases (is_unusable stage latency)) [
    | inl e ↦ rw e s
    | inr e ↦ rw e (upsert-IsSorted stage new_accumulator (accumulate latency) d.stage_latencies s)
  ]

  counted_after :
      (latency : D) (b : Bool) (old own : Option (LatencyAccumulator D L))
      → (b ≡ false) ⊎ (own ≡ old)
      → counted (if b then some (accumulate latency (get_or own new_accumulator)) else old)
        ≡ (if b then wrap_add (counted old) 1 else counted old)
  counted_after latency false old own h = refl
  counted_after latency true old own (inl h) = absurd (ground arith)
  counted_after latency true none own (inr h) = rw h refl
  counted_after latency true (some a) own (inr h) = rw h refl

  same_stage :
      (s t : Text) (m : List (Text × LatencyAccumulator D L))
      → (text_eq t s ≡ false) ⊎ (lookup t m ≡ lookup s m)
  same_stage s t m = elim (Bool-cases (text_eq t s)) [
    | inl e ↦ inr (ap (λ x. lookup x m) (eq_of_text_eq t s e))
    | inr e ↦ inl e
  ]

  stage_count-record :
      (stage : Text) (t : PipelineStageTiming D) (d : EngineDiagnostics D L)
      → IsSorted d.stage_latencies
      → stage_count stage (record_stage_latency t.stage t.latency_ms d) ≡ (
          if not (is_unusable t.stage t.latency_ms) && text_eq t.stage stage
          then wrap_add (stage_count stage d) 1
          else stage_count stage d)
  unfolding record_stage_latency
  stage_count-record stage t d s = elim (Bool-cases (is_unusable t.stage t.latency_ms)) [
    | inl e ↦ rw e refl
    | inr e ↦
        let l =
          lookup-upsert stage t.stage new_accumulator (accumulate t.latency_ms) d.stage_latencies
            s in
        rw (e, l)
          (counted_after t.latency_ms (text_eq t.stage stage) (lookup stage d.stage_latencies)
            (lookup t.stage d.stage_latencies) (same_stage stage t.stage d.stage_latencies))
  ]

  pub stage_count-timings :
      (stage : Text) (ts : List (PipelineStageTiming D)) (d : EngineDiagnostics D L)
      → IsSorted d.stage_latencies
      → stage_count stage d < size_mod
      → stage_count stage (record_timings ts d)
        ≡ (stage_count stage d + timings_of stage ts) % size_mod
  stage_count-timings stage [] d s b = omega arith
  stage_count-timings stage (t ∷ ts) d s b =
      let one = stage_count-record stage t d s in
      let rest =
        stage_count-timings stage ts (record_stage_latency t.stage t.latency_ms d)
          (record_stage_latency-IsSorted t.stage t.latency_ms d s)
          (tick 0 (not (is_unusable t.stage t.latency_ms) && text_eq t.stage stage) b one).0 in
      rest
      ∙ (tick (timings_of stage ts)
          (not (is_unusable t.stage t.latency_ms) && text_eq t.stage stage) b one).1

  abbrev pub counters : EngineDiagnostics D L → ℕ × ℕ × ℕ × ℕ
  counters d = (d.accepted, d.review, d.rejected, d.provider_failures)

  pub counters-timings :
      (ts : List (PipelineStageTiming D)) (d : EngineDiagnostics D L)
      → counters (record_timings ts d) ≡ counters d
  unfolding record_stage_latency
  counters-timings [] d = refl
  counters-timings (t ∷ ts) d = counters-timings ts _ ∙ unchanged
    where
      unchanged : counters (record_stage_latency t.stage t.latency_ms d) ≡ counters d
      unchanged = elim (Bool-cases (is_unusable t.stage t.latency_ms)) [
        | inl e ↦ rw e refl
        | inr e ↦ rw e refl
      ]
