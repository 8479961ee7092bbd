-- ===== src/EngineDiagnostics.antt =====
-- src/application/engine_diagnostics.cpp with engine_diagnostics.hpp: the counters and latencies of a
-- running engine. The counters are of 64 bits. The hash map of the latencies is an ordered one here,
-- of which `snapshot` gives the entries in the order that it sorts them to.
pub mod Stages
pub mod Published
mod Examples
use fac_lpr_engine.Prelude.{
  ℕ, zero, suc, ◌+◌, ◌-◌, ◌*◌, ◌/◌, ◌%◌, ◌^◌, ◌≤◌, ◌<◌, ◌≡◌, refl, sym, ap, ◌∙◌, subst, ◌≢◌, ◌↔◌,
  ◌⊎◌, inl, inr, Bool, true, false, not, ◌&&◌, ◌||◌, Option, none, some, List, [], ◌∷◌, ◌++◌, map,
  arith, length, length-append, All, Any, take, get_elem?, All-append, length-take-le, ltb, leb,
  ◌==◌, if◌then◌else◌, Bool-cases, Option-cases, size_mod, wrap_add, Text, is_empty, text_eq,
  text_lt, ℤ, pos, negsuc, is_negative, is_positive, exceeds, elapsed_lt, elapsed_le,
  nanos_per_milli, text_eq_refl, eq_of_text_eq, text_lt_irrefl, text_lt_trans, text_lt_total,
  text_eq_of_lt, text_eq_sym,
}
use fac_lpr_engine.Float.{Float, fmax}
use fac_lpr_engine.Domain.{RecognitionStatus}
use fac_lpr_engine.OrderedMap.{upsert}

pub data ReadinessState : Type 0 where
  ready : ReadinessState
  degraded : ReadinessState
  failed : ReadinessState

pub record StartupCheckSnapshot : Type 0 where
  pub name : Text
  pub required : Bool
  pub passed : Bool
  pub summary : Text

pub record DiagnosticProviderInfo : Type 0 where
  pub name : Text
  pub version : Text
  pub role : Text

pub record DiagnosticModelInfo : Type 0 where
  pub name : Text
  pub version : Text
  pub sha256 : Text
  pub integrity_verified : Bool

pub record StageLatencySummary (D : Type 0) : Type 0 where
  pub stage : Text
  pub count : ℕ
  pub mean_ms : D
  pub min_ms : D
  pub max_ms : D

pub record WorkerQueueSnapshot : Type 0 where
  pub workers : ℕ
  pub active : ℕ
  pub pending : ℕ
  pub capacity : ℕ
  pub dropped : ℕ

pub record EngineDiagnosticsSnapshot (D : Type 0) : Type 0 where
  pub readiness : ReadinessState
  pub startup_checks : List StartupCheckSnapshot
  pub accepted : ℕ
  pub review : ℕ
  pub rejected : ℕ
  pub provider_failures : ℕ
  pub providers : List DiagnosticProviderInfo
  pub models : List DiagnosticModelInfo
  pub stage_latencies : List (StageLatencySummary D)
  pub worker_queue : WorkerQueueSnapshot
  pub last_error_summary : Text

-- `L` is `long double`.
pub record LatencyAccumulator (D L : Type 0) : Type 0 where
  pub count : ℕ
  pub total_ms : L
  pub min_ms : D
  pub max_ms : D

-- What the code does with a `long double`, and the infinity of `double`.
pub record LongDouble (D L : Type 0) : Type 0 where
  pub infinity : D
  pub long_nought : L
  pub long_add : L → L → L
  pub long_div : L → L → L
  pub widen : D → L
  pub narrow : L → D
  pub of_count : ℕ → L

pub record EngineDiagnostics (D L : Type 0) : Type 0 where
  pub accepted : ℕ
  pub review : ℕ
  pub rejected : ℕ
  pub provider_failures : ℕ
  pub readiness : ReadinessState
  pub startup_checks : List StartupCheckSnapshot
  pub stage_latencies : List (Text × LatencyAccumulator D L)
  pub providers : List DiagnosticProviderInfo
  pub models : List DiagnosticModelInfo
  pub worker_queue : WorkerQueueSnapshot
  pub last_error_summary : Text

module _ {D L : Type 0} where
  unfoldable pub record_recognition :
      RecognitionStatus → EngineDiagnostics D L → EngineDiagnostics D L
  record_recognition RecognitionStatus.accepted d = record d { accepted = wrap_add d.accepted 1 }
  record_recognition RecognitionStatus.review d = record d { review = wrap_add d.review 1 }
  record_recognition RecognitionStatus.rejected d = record d { rejected = wrap_add d.rejected 1 }

  unfoldable pub record_provider_failures : ℕ → EngineDiagnostics D L → EngineDiagnostics D L
  record_provider_failures count d = record d {
    provider_failures = wrap_add d.provider_failures count;
  }

  unfoldable pub set_readiness :
      ReadinessState → List StartupCheckSnapshot → EngineDiagnostics D L → EngineDiagnostics D L
  set_readiness state checks d = record d { readiness = state; startup_checks = checks }

  unfoldable pub set_providers :
      List DiagnosticProviderInfo → EngineDiagnostics D L → EngineDiagnostics D L
  set_providers providers d = record d { providers = providers }

  unfoldable pub set_models :
      List DiagnosticModelInfo → EngineDiagnostics D L → EngineDiagnostics D L
  set_models models d = record d { models = models }

  unfoldable pub set_worker_queue :
      WorkerQueueSnapshot → EngineDiagnostics D L → EngineDiagnostics D L
  set_worker_queue snapshot d = record d { worker_queue = snapshot }

  unfoldable pub set_last_error_summary : Text → EngineDiagnostics D L → EngineDiagnostics D L
  set_last_error_summary summary d = record d { last_error_summary = take 256 summary }

module _ {D : Type 0} ⦃dl : Float D⦄ where
  -- The stage has no name, or the latency is not one.
  abbrev pub is_unusable : Text → D → Bool
  is_unusable stage latency_ms =
      is_empty stage || not (dl.is_finite latency_ms) || dl.lt latency_ms dl.nought

module _ {D L : Type 0} ⦃dl : Float D⦄ ⦃ll : LongDouble D L⦄ where
  abbrev pub new_accumulator : LatencyAccumulator D L
  new_accumulator = record {
    count = 0;
    total_ms = ll.long_nought;
    min_ms = ll.infinity;
    max_ms = dl.nought;
  }

  abbrev pub accumulate : D → LatencyAccumulator D L → LatencyAccumulator D L
  accumulate latency_ms a = record {
    count = wrap_add a.count 1;
    total_ms = ll.long_add a.total_ms (ll.widen latency_ms);
    min_ms = if dl.lt latency_ms a.min_ms then latency_ms else a.min_ms;
    max_ms = fmax a.max_ms latency_ms;
  }

  unfoldable pub record_stage_latency : Text → D → EngineDiagnostics D L → EngineDiagnostics D L
  record_stage_latency stage latency_ms d = if is_unusable stage latency_ms then d else record d {
    stage_latencies = upsert stage new_accumulator (accumulate latency_ms) d.stage_latencies;
  }

  abbrev pub summary_of : Text × LatencyAccumulator D L → StageLatencySummary D
  summary_of (stage, a) = record {
    stage = stage;
    count = a.count;
    mean_ms =
        if a.count == 0
        then dl.nought
        else ll.narrow (ll.long_div a.total_ms (ll.of_count a.count));
    min_ms = if a.count == 0 then dl.nought else a.min_ms;
    max_ms = a.max_ms;
  }

  unfoldable pub snapshot : EngineDiagnostics D L → EngineDiagnosticsSnapshot D
  snapshot d = record {
    readiness = d.readiness;
    startup_checks = d.startup_checks;
    accepted = d.accepted;
    review = d.review;
    rejected = d.rejected;
    provider_failures = d.provider_failures;
    providers = d.providers;
    models = d.models;
    stage_latencies = map summary_of d.stage_latencies;
    worker_queue = d.worker_queue;
    last_error_summary = d.last_error_summary;
  }
