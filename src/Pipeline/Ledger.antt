-- ===== src/Pipeline/Ledger.antt =====
-- What the stages of the pipeline keep: the failures are counted, and they mark the result and the
-- context of the decision.
use fac_lpr_engine.Prelude.{
  ℕ, suc, ◌+◌, ◌%◌, ◌≤◌, ◌<◌, ◌≡◌, refl, sym, ap, subst, ◌⊎◌, inl, inr, Bool, true, false, ◌||◌,
  List, [], ◌∷◌, ◌++◌, arith, length, length-append, size_mod, Text,
}
use fac_lpr_engine.Errors.{EngineErrorCode, provider}
use fac_lpr_engine.Float.{Float}
use fac_lpr_engine.Domain.{PlateRecognitionResult}
use fac_lpr_engine.Decision.{RecognitionDecisionContext}
use fac_lpr_engine.Effects.{
  Exception, engine_error, foreign, returns, throws, Action, Runtime, Stopwatch, attempt,
}
use fac_lpr_engine.Effects.Ensures.{
  Ensures, Ensures-pure, Ensures-throw, Ensures-bind, Ensures-then, Ensures-attempt,
  Ensures-Returned, Returned,
}
use fac_lpr_engine.Ensemble.{ProviderFailure, RecognitionEnsembleResult}
use fac_lpr_engine.Pipeline.{LprPipelineResult}
use fac_lpr_engine.Pipeline.Crops.{
  Progress, caught, record_failure, add_ensemble, add_timing, time_progress,
}
use fac_lpr_engine.Pipeline.Detections.{fresh_context, empty_result}

module _ {W A B : Type 0} {Q : B → Type 0} (f : A → B) (g : EngineErrorCode → B) where
  caught_failure :
      ((code : EngineErrorCode) → Q (g code))
      → (e : Exception) → Ensures {W = W} Q (caught f g (throws e))
  unfolding caught
  caught_failure k (engine_error EngineErrorCode.provider) = Ensures-pure _ (k provider)
  caught_failure k (engine_error EngineErrorCode.configuration) = Ensures-throw _
  caught_failure k (engine_error EngineErrorCode.model_load) = Ensures-throw _
  caught_failure k (engine_error EngineErrorCode.inference) = Ensures-throw _
  caught_failure k (engine_error EngineErrorCode.invalid_image) = Ensures-throw _
  caught_failure k (engine_error EngineErrorCode.cancelled) = Ensures-throw _
  caught_failure k (engine_error EngineErrorCode.timeout) = Ensures-throw _
  caught_failure k (engine_error EngineErrorCode.resource_exhausted) = Ensures-throw _
  caught_failure k (engine_error EngineErrorCode.internal) = Ensures-throw _
  caught_failure k foreign = Ensures-throw _

  caught_value : (a : A) → Q (f a) → Ensures {W = W} Q (caught f g (returns a))
  unfolding caught
  caught_value a h = Ensures-pure _ h

  pub Ensures-caught :
      (m : Action W A)
      → ((a : A) → Q (f a))
      → ((code : EngineErrorCode) → Q (g code))
      → Ensures Q (attempt m (caught f g))
  Ensures-caught m h k =
      Ensures-attempt (λ _. Unit {0}) m (caught f g) (record { returned = λ _ _ _ _. tt })
        (λ a _. caught_value a (h a)) (caught_failure k)

  pub Ensures-caught_call :
      (m : Action W A)
      → ((a : A) → Returned m a → Q (f a))
      → ((code : EngineErrorCode) → Q (g code))
      → Ensures Q (attempt m (caught f g))
  Ensures-caught_call m h k =
      Ensures-attempt (Returned m) m (caught f g) (Ensures-Returned m (λ a r. r))
        (λ a r. caught_value a (h a r)) (caught_failure k)

-- Degraded exactly if there are failures.
abbrev pub Flagged : ℕ → Bool → Type 0
Flagged n degraded = ((n ≡ 0) × (degraded ≡ false)) ⊎ ((1 ≤ n) × (degraded ≡ true))

pub flag :
    {fs : List ProviderFailure} {degraded : Bool}
    → ((fs ≡ []) × (degraded ≡ false)) ⊎ ((1 ≤ length fs) × (degraded ≡ true))
    → Flagged (length fs) degraded
flag (inl (e, d)) = inl (ap length e, d)
flag (inr h) = inr h

Flagged-sum : (n m : ℕ) (a b : Bool) → Flagged n a → Flagged m b → Flagged (n + m) (a || b)
Flagged-sum n m a b h g = ground arith

-- What the timings do not touch.
pub record Ledger (F D : Type 0) : Type 0 where
  pub failures : List ProviderFailure
  pub count : ℕ
  pub degraded : Bool
  pub recognitions : List (PlateRecognitionResult F D)

pub append-same : {A : Type 0} {xs ys : List A} (zs : List A) → xs ≡ ys → (xs ++ zs) ≡ (ys ++ zs)
append-same zs e = ap (λ xs. xs ++ zs) e

pub marks :
    (n : ℕ) {a b : ℕ} (x y : Bool)
    → a ≡ b + n
    → Flagged n y
    → (a ≡ b) ⊎ ((b < a) × ((x || y) ≡ true))
marks n x y h g = ground arith

module _ {F D : Type 0} where
  abbrev pub ledger : LprPipelineResult F D → Ledger F D
  ledger r = record {
    failures = r.failures;
    count = r.provider_failure_count;
    degraded = r.degraded;
    recognitions = r.recognitions;
  }

  -- The failures are counted, modulo the range of the counter, and mark the result.
  pub record IsSummed (l : Ledger F D) : Type 0 where
    pub count : l.count ≡ length l.failures % size_mod
    pub degraded : Flagged (length l.failures) l.degraded

  -- The context of the decision counts the failures of the current detection, after `before`.
  pub record IsCurrent (before : Ledger F D) (l : Ledger F D) (c : RecognitionDecisionContext)
      : Type 0 where
    pub n : ℕ
    pub failures : length l.failures ≡ length before.failures + n
    pub count : c.provider_failure_count ≡ n % size_mod
    pub degraded : Flagged n c.degraded
    pub recognitions : l.recognitions ≡ before.recognitions

  -- One more recognition, and it is marked if a failure was added.
  pub record IsMarked (before : Ledger F D) (after : LprPipelineResult F D) : Type 0 where
    pub summed : IsSummed (ledger after)
    pub recognition : PlateRecognitionResult F D
    pub appended : after.recognitions ≡ before.recognitions ++ (recognition ∷ [])
    pub marked :
        (length after.failures ≡ length before.failures)
        ⊎ ((length before.failures < length after.failures) × (recognition.degraded ≡ true))

  abbrev pub State : Ledger F D → Progress F D → Type 0
  State before p = IsSummed (ledger p.result) × IsCurrent before (ledger p.result) p.decision

  pub start_of : (l : Ledger F D) → IsCurrent l l fresh_context
  start_of l = record {
    n = 0;
    failures = omega arith;
    count = refl;
    degraded = inl (refl, refl);
    recognitions = refl;
  }

  pub record_failure-State :
      (before : Ledger F D) (source : Text) (code : EngineErrorCode) (p : Progress F D)
      → State before p
      → State before (record_failure source code p)
  unfolding record_failure
  record_failure-State before source code p (s, c) =
      let f : ProviderFailure = record { provider = source; code = code } in
      let one_more = length-append p.result.failures (f ∷ []) in
      (
        record {
          count = omega (arith, s.count, one_more);
          degraded = inr (omega (arith, one_more), refl);
        },
        record {
          n = suc c.n;
          failures = omega (arith, c.failures, one_more);
          count = omega (arith, c.count);
          degraded = inr (omega arith, refl);
          recognitions = c.recognitions;
        },
      )

  pub add_ensemble-State :
      (before : Ledger F D) (e : RecognitionEnsembleResult F D) (p : Progress F D)
      → Flagged (length e.failures) e.degraded
      → State before p
      → State before (add_ensemble e p)
  unfolding add_ensemble
  add_ensemble-State before e p h (s, c) =
      let total = length-append p.result.failures e.failures in
      (
        record {
          count = omega (arith, s.count, total);
          degraded = rw total (
              Flagged-sum (length p.result.failures) (length e.failures) p.result.degraded
                e.degraded s.degraded h);
        },
        record {
          n = c.n + length e.failures;
          failures = omega (arith, c.failures, total);
          count = omega (arith, c.count);
          degraded =
              Flagged-sum c.n (length e.failures) p.decision.degraded e.degraded c.degraded h;
          recognitions = c.recognitions;
        },
      )

module _ {W F D : Type 0} ⦃dl : Float D⦄ ⦃rt : Runtime W⦄ ⦃sw : Stopwatch D⦄ where
  pub add_timing-ledger :
      (stage : Text) (i j started : ℕ) (r : LprPipelineResult F D)
      → Ensures {W = W} (λ t. ledger t ≡ ledger r) (add_timing stage i j started r)
  unfolding add_timing
  add_timing-ledger stage i j started r = Ensures-then _ _ λ finished. Ensures-pure _ refl

  pub time_progress-State :
      (before : Ledger F D) (stage : Text) (i j started : ℕ) (p : Progress F D)
      → State before p
      → Ensures {W = W} (State before) (time_progress stage i j started p)
  unfolding time_progress
  time_progress-State before stage i j started p (s, c) =
      Ensures-bind (λ t. ledger t ≡ ledger p.result) _ _
        (add_timing-ledger stage i j started p.result)
        λ t e.
          Ensures-pure _
            (subst IsSummed (sym e) s, subst (λ l. IsCurrent before l p.decision) (sym e) c)

module _ {F D : Type 0} ⦃dl : Float D⦄ where
  pub empty-IsSummed : IsSummed {F = F} {D = D} (ledger empty_result)
  empty-IsSummed = record { count = refl; degraded = inl (refl, refl) }
