-- ===== src/Ensemble/Examples.antt =====
-- The theorem at two recognizers, of which one throws.
use fac_lpr_engine.Prelude.{ℕ, ◌+◌, ◌-◌, ◌≡◌, refl, Bool, true, false, none, some, [], ◌∷◌, pos}
use fac_lpr_engine.Float.{Milli, milli_float}
use fac_lpr_engine.Domain.{RecognitionEvidence}
use fac_lpr_engine.Image.{ImageView, PixelFormat}
use fac_lpr_engine.Effects.{
  returns, throws, Action, Runtime, Stopwatch, OperationContext, pure, throw, foreign,
  check_context, cancellation_requested, deadline_exceeded, ◌>>=◌, resume, lift, attempt, settle,
  read_clock,
}
use fac_lpr_engine.Errors.{internal}
use fac_lpr_engine.Ensemble.{
  Recognizer, RecognizerRegistration, RecognitionEnsembleResult, Ensemble, is_active, recognize,
  run_all, provider_context, run_recognizer, add_outcome, validate_evidence, validate_candidates,
  is_invalid, effective_provider_confidence,
}
use fac_lpr_engine.Ensemble.Accounting.{IsAccounted, outcomes, active_count, recognize-IsAccounted}
use fac_lpr_engine.Samples.{candidate, first_plate, evidence_of}

-- The world is the clock, which goes on by one at each reading; no token requests a stop.
instance abbrev ticking : Runtime ℕ
ticking = record { now = λ w. (w, w + 1); stop_requested = λ token w. false }

instance abbrev sample_watch : Stopwatch Milli
sample_watch = record { elapsed_ms = λ started finished. some (finished - started) }

abbrev registered :
    ℕ
    → Bool
    → Action ℕ (RecognitionEvidence Milli Milli)
    → RecognizerRegistration Milli (Recognizer ℕ Milli Milli)
registered letter required run = record {
  recognizer = record { name = letter ∷ []; run = λ plate context. run };
  weight = some 500;
  timeout = pos 100;
  required = required;
  enabled = true;
}

abbrev reads : Action ℕ (RecognitionEvidence Milli Milli)
reads w = (returns (evidence_of (candidate first_plate 800 ∷ [])), w + 20)

abbrev fails : Action ℕ (RecognitionEvidence Milli Milli)
fails w = (throws foreign, w + 5)

abbrev two_recognizers : Ensemble ℕ Milli Milli
two_recognizers = registered b'a' true reads ∷ registered b'b' false fails ∷ []

abbrev plate : ImageView
plate = record {
  byte_count = 36;
  width = 3;
  height = 3;
  stride_bytes = 12;
  format = PixelFormat.bgr8;
}

abbrev context : OperationContext
context = record { stop_token = some 7; deadline = none }

abbrev result : RecognitionEnsembleResult Milli Milli
result = record {
  evidence =
      (record {
        source = b'a' ∷ [];
        candidates = record (candidate first_plate 800) { calibrated_confidence = some 400 } ∷ [];
        crop_quality = some 700;
        latency_ms = some 21;
      })
      ∷ [];
  failures = record { provider = b'b' ∷ []; code = internal } ∷ [];
  degraded = true;
}

runs : recognize two_recognizers plate (some 700) context 0 ≡ (returns result, 30)
unfolding fac_lpr_engine.Float.is_probability fac_lpr_engine.Float.clamp fac_lpr_engine.Float.fmax
    recognize check_context cancellation_requested deadline_exceeded ◌>>=◌ resume pure throw lift
    attempt settle read_clock provider_context run_recognizer add_outcome is_active run_all
    validate_evidence validate_candidates is_invalid effective_provider_confidence
runs = refl

recognize-IsAccounted_example :
    IsAccounted two_recognizers (some 700) result × (outcomes result ≡ active_count two_recognizers)
recognize-IsAccounted_example =
    (recognize-IsAccounted two_recognizers plate (some 700) context).returned 0 30 result runs
