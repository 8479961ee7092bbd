-- ===== src/Ensemble.antt =====
-- src/application/recognition_ensemble.cpp: every recognizer on one crop. A recognizer is a call
-- that may throw anything and that may change the world; `P` stands for the pointer to it, `Option` in
-- a registration that the constructor has not checked yet.
pub mod Candidates
pub mod Accounting
mod Examples
use fac_lpr_engine.Prelude.{
  ℕ, zero, suc, ◌+◌, ◌-◌, ◌*◌, ◌/◌, ◌%◌, ◌^◌, ◌≤◌, ◌<◌, ◌≡◌, refl, sym, ap, ◌∙◌, subst, ◌≢◌, ◌↔◌,
  ◌⊎◌, inl, inr, Bool, true, false, not, ◌&&◌, ◌||◌, Option, none, some, List, [], ◌∷◌, ◌++◌, map,
  arith, length, length-append, All, take, get_elem?, All-append, length-take-le, ltb, leb, ◌==◌,
  if◌then◌else◌, Bool-cases, Option-cases, size_mod, wrap_add, Text, is_empty, text_eq, text_lt, ℤ,
  pos, negsuc, is_negative, is_positive, exceeds, elapsed_lt, elapsed_le, nanos_per_milli,
  text_eq_refl, eq_of_text_eq, text_lt_irrefl, text_lt_trans, text_lt_total, text_eq_of_lt,
  text_eq_sym,
}
use fac_lpr_engine.Errors.{
  Result, ok, err, throw_if, EngineErrorCode, configuration, provider, invalid_image, internal,
  cancelled, timeout,
}
use fac_lpr_engine.Errors
use fac_lpr_engine.Float.{Float, fmax, clamp, is_probability}
use fac_lpr_engine.Domain.{PlateCandidate, RecognitionEvidence}
use fac_lpr_engine.Image.{ImageView}
use fac_lpr_engine.Effects.{
  Exception, engine_error, foreign, Outcome, returns, throws, outcome_of, Action, Runtime,
  Stopwatch, OperationContext, pure, throw, lift, ◌>>=◌, ◌>>◌, attempt, read_clock, check_context,
}

pub record Recognizer (W F D : Type 0) : Type 0 where
  pub name : Text
  pub run : ImageView → OperationContext → Action W (RecognitionEvidence F D)

pub record RecognizerRegistration (F P : Type 0) : Type 0 where
  pub recognizer : P
  pub weight : F
  pub timeout : ℤ
  pub required : Bool
  pub enabled : Bool

pub record ProviderFailure : Type 0 where
  pub provider : Text
  pub code : EngineErrorCode

pub record RecognitionEnsembleResult (F D : Type 0) : Type 0 where
  pub evidence : List (RecognitionEvidence F D)
  pub failures : List ProviderFailure
  pub degraded : Bool

abbrev pub Ensemble : Type 0 → Type 0 → Type 0 → Type 0
Ensemble W F D = List (RecognizerRegistration F (Recognizer W F D))

-- A point of the clock and a duration in milliseconds; the result is not before the clock's zero.
abbrev pub plus_duration : ℕ → ℤ → ℕ
plus_duration t (pos ms) = t + ms * nanos_per_milli
plus_duration t (negsuc n) = t - suc n * nanos_per_milli

abbrev pub earlier : ℕ → ℕ → ℕ
earlier a b = if ltb b a then b else a

abbrev pub limit_deadline : Option ℕ → ℕ → Option ℕ
limit_deadline none t = some t
limit_deadline (some d) t = some (earlier d t)

abbrev pub contains : Text → List Text → Bool
contains name [] = false
contains name (n ∷ ns) = text_eq n name || contains name ns

abbrev pub code_of : Exception → EngineErrorCode
code_of (engine_error code) = code
code_of foreign = internal

module _ {W F D : Type 0} ⦃fl : Float F⦄ where
  unfoldable pub check_registration :
      RecognizerRegistration F (Option (Recognizer W F D))
      → List Text
      → Result (RecognizerRegistration F (Recognizer W F D))
  check_registration r names = elim r.recognizer [
    | none ↦ err configuration
    | some recognizer ↦
        if is_empty recognizer.name || contains recognizer.name names
        then err configuration
        else if not (is_probability r.weight)
        then err configuration
        else if not (is_positive r.timeout) || exceeds r.timeout 300_000
        then err configuration
        else ok (record {
          recognizer = recognizer;
          weight = r.weight;
          timeout = r.timeout;
          required = r.required;
          enabled = r.enabled;
        })
  ]

  unfoldable pub check_registrations :
      List (RecognizerRegistration F (Option (Recognizer W F D)))
      → List Text
      → Result (Ensemble W F D)
  check_registrations [] names = ok []
  check_registrations (r ∷ rs) names = Errors.◌>>=◌ (check_registration r names) λ checked.
      Errors.◌>>=◌ (check_registrations rs (checked.recognizer.name ∷ names))
        λ rest. ok (checked ∷ rest)

  unfoldable pub make_ensemble :
      List (RecognizerRegistration F (Option (Recognizer W F D))) → Result (Ensemble W F D)
  make_ensemble [] = err configuration
  make_ensemble (r ∷ rs) = check_registrations (r ∷ rs) []

module _ {F : Type 0} ⦃fl : Float F⦄ where
  unfoldable pub effective_provider_confidence : PlateCandidate F → F → F
  effective_provider_confidence candidate weight =
      let base =
        if fl.lt fl.nought candidate.calibrated_confidence
        then candidate.calibrated_confidence
        else candidate.confidence in
      clamp (fl.mul base weight) fl.nought fl.one

  -- The candidate is refused as invalid.
  unfoldable pub is_invalid : PlateCandidate F → Bool
  is_invalid candidate =
      is_empty candidate.text
      || not (is_probability candidate.confidence)
      || not (is_probability candidate.calibrated_confidence)

  -- The loop of `validate_evidence`.
  unfoldable pub validate_candidates :
      List (PlateCandidate F) → F → Result (List (PlateCandidate F))
  validate_candidates [] weight = ok []
  validate_candidates (c ∷ cs) weight =
      let rest = validate_candidates cs weight in
      if is_invalid c
      then err provider
      else Errors.◌>>=◌ rest λ valid.
        ok (record c { calibrated_confidence = effective_provider_confidence c weight } ∷ valid)

module _ {F D : Type 0} ⦃fl : Float F⦄ ⦃dl : Float D⦄ where
  unfoldable pub validate_evidence :
      RecognitionEvidence F D → Text → F → F → D → Result (RecognitionEvidence F D)
  validate_evidence evidence provider_name weight crop_quality latency =
      Errors.◌>>=◌ (validate_candidates evidence.candidates weight) λ valid. ok (record {
        source = provider_name;
        candidates = valid;
        crop_quality = clamp crop_quality fl.nought fl.one;
        latency_ms = fmax dl.nought latency;
      })

module _ {W : Type 0} ⦃rt : Runtime W⦄ where
  unfoldable pub provider_context : OperationContext → ℤ → Action W OperationContext
  provider_context parent limit = do
    now ← read_clock
    pure (record {
      stop_token = parent.stop_token;
      deadline = limit_deadline parent.deadline (plus_duration now limit);
    })

abbrev pub no_evidence : {F D : Type 0} → RecognitionEnsembleResult F D
no_evidence = record { evidence = []; failures = []; degraded = false }

-- The last test, which can only repeat what the loop has set.
abbrev pub close_result :
    {F D : Type 0} → RecognitionEnsembleResult F D → RecognitionEnsembleResult F D
close_result result = elim result.evidence [
  | [] ↦ elim result.failures [ [] ↦ result | f ∷ fs ↦ record result { degraded = true } ]
  | e ∷ es ↦ result
]

module _ {W F D : Type 0} ⦃fl : Float F⦄ ⦃dl : Float D⦄ ⦃rt : Runtime W⦄ ⦃sw : Stopwatch D⦄ where
  -- The body of the `try` block, after the start was read from the clock.
  unfoldable pub run_recognizer :
      RecognizerRegistration F (Recognizer W F D)
      → ImageView
      → F
      → OperationContext
      → ℕ
      → Action W (RecognitionEvidence F D)
  run_recognizer r plate crop_quality child started = do
    evidence ← r.recognizer.run plate child
    finished ← read_clock
    lift (
        outcome_of (
          validate_evidence evidence r.recognizer.name r.weight crop_quality
            (sw.elapsed_ms started finished)))

  -- What follows the `try` block, or its `catch` clauses.
  unfoldable pub add_outcome :
      RecognizerRegistration F (Recognizer W F D)
      → RecognitionEnsembleResult F D
      → Outcome (RecognitionEvidence F D)
      → Action W (RecognitionEnsembleResult F D)
  add_outcome r result (returns evidence) =
      pure (record result { evidence = result.evidence ++ (evidence ∷ []) })
  add_outcome r result (throws e) =
      if r.required
      then throw (engine_error provider)
      else pure (record result {
        degraded = true;
        failures =
            result.failures ++ (record { provider = r.recognizer.name; code = code_of e } ∷ []);
      })

  unfoldable pub is_active : RecognizerRegistration F (Recognizer W F D) → Bool
  is_active r = r.enabled && not (fl.le r.weight fl.nought)

  -- The loop over the recognizers.
  unfoldable pub run_all :
      Ensemble W F D
      → ImageView
      → F
      → OperationContext
      → RecognitionEnsembleResult F D
      → Action W (RecognitionEnsembleResult F D)
  run_all [] plate crop_quality context result = pure result
  run_all (r ∷ rs) plate crop_quality context result = elim (is_active r) [
    | false ↦ run_all rs plate crop_quality context result
    | true ↦ do
      child ← provider_context context r.timeout
      started ← read_clock
      next ← attempt (run_recognizer r plate crop_quality child started) (add_outcome r result)
      run_all rs plate crop_quality context next
  ]

  unfoldable pub recognize :
      Ensemble W F D → ImageView → F → OperationContext → Action W (RecognitionEnsembleResult F D)
  recognize ensemble plate crop_quality context = do
    (if fl.is_finite crop_quality then pure tt else throw (engine_error invalid_image))
    check_context context
    result ← run_all ensemble plate crop_quality context no_evidence
    pure (close_result result)
