-- ===== src/EngineDiagnostics/Examples.antt =====
-- The theorem at two recognitions and three timings, one of them without a latency.
use fac_lpr_engine.Prelude.{◌*◌, ◌≡◌, refl, none, some, [], ◌∷◌, arith, Text, text_eq, text_lt}
use fac_lpr_engine.Float.{Milli, milli_float}
use fac_lpr_engine.EngineDiagnostics.{
  EngineDiagnostics, LongDouble, ReadinessState, record_stage_latency, record_recognition,
  record_provider_failures,
}
use fac_lpr_engine.EngineDiagnostics.Stages.{stage_count}
use fac_lpr_engine.EngineDiagnostics.Published.{IsAdded, published-counts}
use fac_lpr_engine.OrderedMap.{upsert, lookup}
use fac_lpr_engine.Pipeline.{LprPipelineResult, PipelineStageTiming}
use fac_lpr_engine.Pipeline.Detections.{published}
use fac_lpr_engine.Samples.{first_plate, second_plate, recognized, frame_with}

instance abbrev sample_long : LongDouble Milli Milli
sample_long = record {
  infinity = none;
  long_nought = some 0;
  long_add = milli_float.add;
  long_div = milli_float.div;
  widen = λ x. x;
  narrow = λ x. x;
  of_count = λ n. some (n * 1000);
}

abbrev stage : Text
stage = b'l' ∷ []

abbrev timing : Milli → PipelineStageTiming Milli
timing latency = record { stage = stage; detection_index = 0; crop_index = 0; latency_ms = latency }

abbrev result : LprPipelineResult Milli Milli
result = record (frame_with (recognized first_plate 900 ∷ recognized second_plate 800 ∷ [])) {
  stage_timings = timing (some 3) ∷ timing none ∷ timing (some 4) ∷ [];
  provider_failure_count = 5;
}

-- The counter of provider failures is close to its limit.
abbrev diagnostics : EngineDiagnostics Milli Milli
diagnostics = record {
  accepted = 7;
  review = 0;
  rejected = 1;
  provider_failures = 18446744073709551614;
  readiness = ReadinessState.ready;
  startup_checks = [];
  stage_latencies = [];
  providers = [];
  models = [];
  worker_queue = record { workers = 1; active = 0; pending = 0; capacity = 4; dropped = 0 };
  last_error_summary = [];
}

wraps : (published result diagnostics).provider_failures ≡ 3
unfolding published record_recognition record_provider_failures record_stage_latency upsert text_eq
    text_lt
wraps = refl

published-counts_example :
    IsAdded result.recognitions diagnostics (published result diagnostics)
    × ((published result diagnostics).provider_failures ≡ 3)
    × (stage_count stage (published result diagnostics) ≡ 2)
unfolding text_eq lookup
published-counts_example =
    published-counts result diagnostics stage (omega arith, omega arith, omega arith) tt
      (omega arith)
