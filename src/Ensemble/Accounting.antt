-- ===== src/Ensemble/Accounting.antt =====
-- Every active recognizer is accounted for, by its evidence or by its failure.
use fac_lpr_engine.Prelude.{
  ℕ, suc, ◌+◌, ◌≤◌, ◌≡◌, refl, ◌∙◌, subst, ◌⊎◌, inl, inr, Bool, true, false, List, [], ◌∷◌, ◌++◌,
  arith, length, length-append, All, Any, All-append, if◌then◌else◌, Bool-cases,
}
use fac_lpr_engine.Errors.{Result-cases, provider}
use fac_lpr_engine.Float.{Float, fmax, clamp}
use fac_lpr_engine.Domain.{RecognitionEvidence}
use fac_lpr_engine.Image.{ImageView}
use fac_lpr_engine.Effects.{
  Exception, returns, throws, outcome_of, Runtime, Stopwatch, OperationContext, pure, throw,
  engine_error,
}
use fac_lpr_engine.Effects.Ensures.{
  Ensures, Ensures-pure, Ensures-throw, Ensures-lift, Ensures-bind, Ensures-then, Ensures-attempt,
}
use fac_lpr_engine.Ensemble.{
  Recognizer, RecognizerRegistration, ProviderFailure, RecognitionEnsembleResult, Ensemble, code_of,
  no_evidence, close_result, is_active, validate_candidates, validate_evidence, run_recognizer,
  add_outcome, run_all, recognize,
}
use fac_lpr_engine.Ensemble.Candidates.{IsWeighted, validate_candidates-IsWeighted}

abbrev pub outcomes : {F D : Type 0} → RecognitionEnsembleResult F D → ℕ
outcomes result = length result.evidence + length result.failures

module _ {W F D : Type 0} ⦃fl : Float F⦄ ⦃dl : Float D⦄ ⦃rt : Runtime W⦄ ⦃sw : Stopwatch D⦄ where
  abbrev pub Member : RecognizerRegistration F (Recognizer W F D) → Ensemble W F D → Type 0
  Member r = Any λ x. x ≡ r

  -- Evidence of an active recognizer, under its name, for the quality of this crop.
  pub record IsAttributed (ensemble : Ensemble W F D) (crop_quality : F)
      (e : RecognitionEvidence F D) : Type 0 where
    pub by : RecognizerRegistration F (Recognizer W F D)
    pub member : Member by ensemble
    pub active : is_active by ≡ true
    pub source : e.source ≡ by.recognizer.name
    pub quality : e.crop_quality ≡ clamp crop_quality fl.nought fl.one
    pub weighted : All (IsWeighted by.weight) e.candidates

  -- A failure of an active recognizer that is not required.
  pub record IsOptional (ensemble : Ensemble W F D) (f : ProviderFailure) : Type 0 where
    pub by : RecognizerRegistration F (Recognizer W F D)
    pub member : Member by ensemble
    pub active : is_active by ≡ true
    pub not_required : by.required ≡ false
    pub name : f.provider ≡ by.recognizer.name

  pub record IsAccounted (ensemble : Ensemble W F D) (crop_quality : F)
      (result : RecognitionEnsembleResult F D) : Type 0 where
    pub evidence : All (IsAttributed ensemble crop_quality) result.evidence
    pub failures : All (IsOptional ensemble) result.failures
    pub degraded :
        ((result.failures ≡ []) × (result.degraded ≡ false))
        ⊎ ((1 ≤ length result.failures) × (result.degraded ≡ true))

  abbrev pub active_count : Ensemble W F D → ℕ
  active_count [] = 0
  active_count (r ∷ rs) = (if is_active r then 1 else 0) + active_count rs

  module _ (ensemble : Ensemble W F D) (plate : ImageView) (crop_quality : F) where
    abbrev Attributed :
        RecognizerRegistration F (Recognizer W F D) → RecognitionEvidence F D → Type 0
    Attributed r e =
        (e.source ≡ r.recognizer.name)
        × (e.crop_quality ≡ clamp crop_quality fl.nought fl.one)
        × All (IsWeighted r.weight) e.candidates

    validated :
        (r : RecognizerRegistration F (Recognizer W F D)) (e : RecognitionEvidence F D)
        (latency : D) (out : RecognitionEvidence F D)
        → outcome_of (validate_evidence e r.recognizer.name r.weight crop_quality latency)
          ≡ returns out
        → Attributed r out
    unfolding validate_evidence
    validated r e latency out h = elim (Result-cases (validate_candidates e.candidates r.weight)) [
      | inl (x, p) ↦ absurd (ground arith)
      | inr (valid, p) ↦
          let weighted = validate_candidates-IsWeighted e.candidates r.weight p in
          let made : RecognitionEvidence F D = record {
            source = r.recognizer.name;
            candidates = valid;
            crop_quality = clamp crop_quality fl.nought fl.one;
            latency_ms = fmax dl.nought latency;
          } in
          let same : made ≡ out = ground arith in subst (Attributed r) same (refl, refl, weighted)
    ]

    run_recognizer-Attributed :
        (r : RecognizerRegistration F (Recognizer W F D)) (child : OperationContext) (started : ℕ)
        → Ensures (Attributed r) (run_recognizer r plate crop_quality child started)
    unfolding run_recognizer
    run_recognizer-Attributed r child started =
        Ensures-then _ _
          λ e. Ensures-then _ _ λ finished. Ensures-lift _ λ out h. validated r e _ out h

    abbrev Next : RecognitionEnsembleResult F D → RecognitionEnsembleResult F D → Type 0
    Next s t = IsAccounted ensemble crop_quality t × (outcomes t ≡ suc (outcomes s))

    add_outcome-Next :
        (r : RecognizerRegistration F (Recognizer W F D)) (s : RecognitionEnsembleResult F D)
        → Member r ensemble
        → is_active r ≡ true
        → IsAccounted ensemble crop_quality s
        → ((e : RecognitionEvidence F D)
            → Attributed r e
            → Ensures (Next s) (add_outcome r s (returns e)))
          × ((x : Exception) → Ensures (Next s) (add_outcome r s (throws x)))
    unfolding add_outcome
    add_outcome-Next r s m a acc = (
      λ e at. Ensures-pure _ (
        record {
          evidence =
              All-append (IsAttributed ensemble crop_quality) s.evidence (e ∷ []) acc.evidence (
                record {
                  by = r;
                  member = m;
                  active = a;
                  source = at.0;
                  quality = at.1;
                  weighted = at.2;
                },
                tt,
              );
          failures = acc.failures;
          degraded = acc.degraded;
        },
        omega (arith, length-append s.evidence (e ∷ [])),
      ),
      λ x. by_need x r.required refl,
    )
      where
        by_need :
            (x : Exception) (b : Bool)
            → r.required ≡ b
            → Ensures {W = W} (Next s) (
                if b
                then throw (engine_error provider)
                else pure (record s {
                  degraded = true;
                  failures =
                      s.failures
                      ++ (record { provider = r.recognizer.name; code = code_of x } ∷ []);
                }))
        by_need x true h = Ensures-throw _
        by_need x false h =
            let f : ProviderFailure = record { provider = r.recognizer.name; code = code_of x } in
            Ensures-pure _ (
              record {
                evidence = acc.evidence;
                failures =
                    All-append (IsOptional ensemble) s.failures (f ∷ []) acc.failures (
                      record { by = r; member = m; active = a; not_required = h; name = refl },
                      tt,
                    );
                degraded = inr (omega (arith, length-append s.failures (f ∷ [])), refl);
              },
              omega (arith, length-append s.failures (f ∷ [])),
            )

    abbrev Reached : ℕ → RecognitionEnsembleResult F D → Type 0
    Reached n t = IsAccounted ensemble crop_quality t × (outcomes t ≡ n)

    run_all-Reached :
        (rs : Ensemble W F D) (context : OperationContext) (s : RecognitionEnsembleResult F D)
        (n : ℕ)
        → All (λ r. Member r ensemble) rs
        → IsAccounted ensemble crop_quality s
        → n ≡ outcomes s + active_count rs
        → Ensures (Reached n) (run_all rs plate crop_quality context s)
    unfolding run_all
    run_all-Reached [] context s n ms acc e = Ensures-pure s (acc, omega arith)
    run_all-Reached (r ∷ rs) context s n ms acc e = elim (Bool-cases (is_active r)) [
      | inr a ↦
          let k : n ≡ outcomes s + active_count rs = ground arith in
          rw (a, run_all) (run_all-Reached rs context s n ms.1 acc k)
      | inl a ↦
          let k : n ≡ suc (outcomes s) + active_count rs = ground arith in
          let (good, bad) = add_outcome-Next r s ms.0 a acc in
          rw (a, run_all)
            (Ensures-then _ _ λ child. Ensures-then _ _ λ started.
              Ensures-bind (Next s) _ _
                (Ensures-attempt (Attributed r) _ _ (run_recognizer-Attributed r child started) good
                  bad)
                λ next h. run_all-Reached rs context next n ms.1 h.0 (omega (arith, h.1)))
    ]

  Members : (ensemble : Ensemble W F D) → All (λ r. Member r ensemble) ensemble
  Members ensemble = go ensemble (λ r h. h)
    where
      go :
          (rs : Ensemble W F D)
          → ((r : RecognizerRegistration F (Recognizer W F D)) → Member r rs → Member r ensemble)
          → All (λ r. Member r ensemble) rs
      go [] up = tt
      go (r ∷ rs) up = (up r (inl refl), go rs (λ x h. up x (inr h)))

  close_result-IsAccounted :
      (ensemble : Ensemble W F D) (crop_quality : F) (t : RecognitionEnsembleResult F D)
      → IsAccounted ensemble crop_quality t
      → IsAccounted ensemble crop_quality (close_result t)
        × (outcomes (close_result t) ≡ outcomes t)
  close_result-IsAccounted ensemble crop_quality t acc =
      by_lists t.evidence t.failures t.degraded acc
    where
      by_lists :
          (es : List (RecognitionEvidence F D)) (fs : List ProviderFailure) (d : Bool)
          → IsAccounted ensemble crop_quality
              (record { evidence = es; failures = fs; degraded = d })
          → IsAccounted ensemble crop_quality
              (close_result (record { evidence = es; failures = fs; degraded = d }))
            × (outcomes (close_result (record { evidence = es; failures = fs; degraded = d }))
                ≡ length es + length fs)
      by_lists (e ∷ es) fs d acc = (acc, refl)
      by_lists [] [] d acc = (acc, refl)
      by_lists [] (f ∷ fs) d acc = (
        record {
          evidence = acc.evidence;
          failures = acc.failures;
          degraded = inr (omega arith, refl);
        },
        refl,
      )

  -- What the ensemble returns for a crop: as many pieces of evidence and failures as there are active
  -- recognizers; every piece of evidence stands under the name of an active recognizer, with the
  -- quality of the crop clamped to [0, 1] and with candidates that have a text and a confidence that
  -- was weighted and clamped; every failure is of an active recognizer that is not required; and the
  -- result is degraded exactly if there is a failure.
  pub recognize-IsAccounted :
      (ensemble : Ensemble W F D) (plate : ImageView) (crop_quality : F)
      (context : OperationContext)
      → Ensures
          (λ t. IsAccounted ensemble crop_quality t × (outcomes t ≡ active_count ensemble))
          (recognize ensemble plate crop_quality context)
  unfolding recognize
  recognize-IsAccounted ensemble plate crop_quality context = Ensures-then _ _ λ _.
      Ensures-then _ _ λ _.
        Ensures-bind (Reached ensemble plate crop_quality (active_count ensemble)) _ _
          (run_all-Reached ensemble plate crop_quality ensemble context no_evidence
            (active_count ensemble) (Members ensemble)
            (record { evidence = tt; failures = tt; degraded = inl (refl, refl) }) (omega arith))
          λ t h.
            let (acc, same) = close_result-IsAccounted ensemble crop_quality t h.0 in
            Ensures-pure _ (acc, same ∙ h.1)
