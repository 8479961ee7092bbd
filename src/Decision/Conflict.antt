-- ===== src/Decision/Conflict.antt =====
-- When no two candidates share a text, an accepted plate has no strong rival.
use fac_lpr_engine.Prelude.{
  ◌≡◌, sym, ap, ◌∙◌, subst, ◌⊎◌, inl, inr, true, false, List, [], ◌∷◌, arith, All, Bool-cases, Text,
  text_eq, text_eq_refl, text_eq_sym,
}
use fac_lpr_engine.Errors.{ok}
use fac_lpr_engine.Float.{Float, IsOrdered}
use fac_lpr_engine.StableSort.{Pairwise}
use fac_lpr_engine.Domain.{
  Detection, PlateCandidate, RecognitionEvidence, PlateRecognitionResult, RecognitionStatus,
}
use fac_lpr_engine.Config.{DecisionConfig}
use fac_lpr_engine.Decision.{
  RecognitionDecisionContext, Verdict, chosen_confidence, ranks_before, insert_stable, stable_sort,
  valid_candidates, decide, front_text, has_conflict,
}
use fac_lpr_engine.Decision.Ranking.{
  insert_stable-All, stable_sort-All, All-stable_sort, HasNumber, Descends, stable_sort-Descends,
  is_usable, IsUsable, All-valid_candidates, valid_candidates-All, valid_candidates-cons,
}
use fac_lpr_engine.Decision.Outcomes.{verdict-accepted, decide-Decided}
use fac_lpr_engine.Decision.Safety.{number_of_probability, All-map}

module _ {F : Type 0} ⦃fl : Float F⦄ where
  -- The candidate has another text.
  abbrev pub Differs : PlateCandidate F → PlateCandidate F → Type 0
  Differs c d = text_eq d.text c.text ≡ false

  abbrev pub Distinct : List (PlateCandidate F) → Type 0
  Distinct cs = Pairwise Differs cs

  Differs-sym : (c d : PlateCandidate F) → Differs c d → Differs d c
  Differs-sym c d h = text_eq_sym c.text d.text ∙ h

  valid_candidates-Distinct :
      (cs : List (PlateCandidate F)) {valid : List (PlateCandidate F)}
      → valid_candidates cs ≡ ok valid
      → Distinct cs
      → Distinct valid
  unfolding valid_candidates
  valid_candidates-Distinct [] {valid} h g =
      let same : [] ≡ valid = ground arith in subst Distinct same tt
  valid_candidates-Distinct (c ∷ cs) h g =
      let (rest, p, number, same) = valid_candidates-cons c cs h in
      let tail = valid_candidates-Distinct cs p g.1 in
      let apart =
        All-map (λ x. IsUsable x × Differs c x) (Differs c) rest (λ x u. u.1)
          (valid_candidates-All (Differs c) cs p g.0) in
      elim (Bool-cases (is_usable c)) [
        | inl e ↦ rw (same, e) (apart, tail)
        | inr e ↦ rw (same, e) tail
      ]

  insert_stable-Distinct :
      (c : PlateCandidate F) (ds : List (PlateCandidate F))
      → All (Differs c) ds
      → Distinct ds
      → Distinct (insert_stable c ds)
  unfolding insert_stable
  insert_stable-Distinct c [] h g = (tt, tt)
  insert_stable-Distinct c (d ∷ ds) h g = elim (Bool-cases (ranks_before c d)) [
    | inl e ↦ rw (e, Pairwise) (h, g)
    | inr e ↦
        rw (e, Pairwise)
          (
            insert_stable-All (Differs d) c ds (Differs-sym c d h.0) g.0,
            insert_stable-Distinct c ds h.1 g.1,
          )
  ]

  abbrev Apart : List (PlateCandidate F) → List (PlateCandidate F) → Type 0
  Apart cs sorted = All (λ c. All (Differs c) sorted) cs

  Apart-insert :
      (c : PlateCandidate F) (sorted cs : List (PlateCandidate F))
      → All (Differs c) cs
      → Apart cs sorted
      → Apart cs (insert_stable c sorted)
  Apart-insert c sorted [] h g = tt
  Apart-insert c sorted (d ∷ ds) h g = (
    insert_stable-All (Differs d) c sorted (Differs-sym c d h.0) g.0,
    Apart-insert c sorted ds h.1 g.1,
  )

  stable_sort-Distinct :
      (sorted cs : List (PlateCandidate F))
      → Distinct sorted
      → Distinct cs
      → Apart cs sorted
      → Distinct (stable_sort sorted cs)
  unfolding stable_sort
  stable_sort-Distinct sorted [] h g a = h
  stable_sort-Distinct sorted (c ∷ cs) h g a =
      stable_sort-Distinct (insert_stable c sorted) cs (insert_stable-Distinct c sorted a.0 h) g.1
        (Apart-insert c sorted cs g.0 a.1)

  Apart-nil : (cs : List (PlateCandidate F)) → Apart cs []
  Apart-nil [] = tt
  Apart-nil (c ∷ cs) = (tt, Apart-nil cs)

  -- A rival has the text of the plate, or little confidence.
  abbrev pub IsWeak : DecisionConfig F → Text → PlateCandidate F → Type 0
  IsWeak config plate c =
      (text_eq c.text plate ≡ true)
      ⊎ (fl.lt (chosen_confidence c) config.strong_conflict_threshold ≡ true)

  module _ (laws : IsOrdered F) where
    open laws use {lt_total, le-not-lt}

    weaker :
        (config : DecisionConfig F) (plate : Text) (d : PlateCandidate F)
        (cs : List (PlateCandidate F))
        → fl.is_finite config.strong_conflict_threshold ≡ true
        → HasNumber d
        → fl.lt (chosen_confidence d) config.strong_conflict_threshold ≡ true
        → All HasNumber cs
        → All (λ x. fl.lt (chosen_confidence d) (chosen_confidence x) ≡ false) cs
        → All (IsWeak config plate) cs
    weaker config plate d [] fs fd h n t = tt
    weaker config plate d (c ∷ cs) fs fd h n t =
        let weak : fl.lt (chosen_confidence c) config.strong_conflict_threshold ≡ true = ground (
          arith,
          lt_total (chosen_confidence d) (chosen_confidence c) config.strong_conflict_threshold fd
              n.0 fs,
        ) in
        (inr weak, weaker config plate d cs fs fd h n.1 t.1)

    ranked-IsWeak :
        (config : DecisionConfig F) (ranked : List (PlateCandidate F))
        → fl.is_finite config.strong_conflict_threshold ≡ true
        → All HasNumber ranked
        → Descends ranked
        → Distinct ranked
        → has_conflict config ranked ≡ false
        → All (IsWeak config (front_text ranked)) ranked
    unfolding has_conflict
    ranked-IsWeak config [] fs n d a h = tt
    ranked-IsWeak config (c ∷ []) fs n d a h = (inl (text_eq_refl c.text), tt)
    ranked-IsWeak config (c ∷ e ∷ rest) fs n d a h =
        let weak : fl.lt (chosen_confidence e) config.strong_conflict_threshold ≡ true = ground (
          arith,
          a.0.0,
          le-not-lt config.strong_conflict_threshold (chosen_confidence e) fs n.1.0,
        ) in
        (
          inl (text_eq_refl c.text),
          (inr weak, weaker config c.text e rest fs n.1.0 weak n.1.1 d.1.0),
        )

module _ {F D : Type 0} ⦃fl : Float F⦄ ⦃dl : Float D⦄ (laws : IsOrdered F) where
  -- With floats ordered as numbers and a finite threshold of a strong conflict: if no two of the
  -- fused candidates have the same text and a recognition is accepted, then each usable candidate
  -- with another text than the plate has less confidence than that threshold.
  pub decide_no_strong_rival :
      (config : DecisionConfig F) (detection : Detection F)
      (evidence : List (RecognitionEvidence F D)) (fused : List (PlateCandidate F))
      (context : RecognitionDecisionContext) {result : PlateRecognitionResult F D}
      → fl.is_finite config.strong_conflict_threshold ≡ true
      → Distinct fused
      → decide config detection evidence fused context ≡ ok result
      → result.status ≡ RecognitionStatus.accepted
      → All (λ c. (is_usable c ≡ false) ⊎ IsWeak config result.plate c) fused
  decide_no_strong_rival config detection evidence fused context {result} fs apart h accepted =
      let d = decide-Decided config detection evidence fused context h in
      let ranked = stable_sort [] d.valid in
      let accepted_too = sym (ap (λ (v : Verdict). v.0) d.status) ∙ accepted in
      let passed =
        verdict-accepted config detection result.crop_quality ranked context.fatal_provider_failure
          result.degraded accepted_too in
      let numbers : All HasNumber d.valid =
        All-map (λ c. IsUsable c × Unit {0}) HasNumber d.valid
          (λ c u. number_of_probability (chosen_confidence c) u.0.1)
          (valid_candidates-All (λ c. Unit {0}) fused d.is_valid (all_unit fused)) in
      let weak =
        ranked-IsWeak laws config ranked fs (stable_sort-All HasNumber [] d.valid tt numbers)
          (stable_sort-Descends laws [] d.valid tt numbers tt)
          (stable_sort-Distinct [] d.valid tt (valid_candidates-Distinct fused d.is_valid apart)
            (Apart-nil d.valid))
          passed.no_conflict in
      rw d.plate (
        All-valid_candidates (IsWeak config (front_text ranked)) fused d.is_valid
          (All-stable_sort (IsWeak config (front_text ranked)) [] d.valid weak).1)
    where
      all_unit : (cs : List (PlateCandidate F)) → All (λ c. Unit {0}) cs
      all_unit [] = tt
      all_unit (c ∷ cs) = (tt, all_unit cs)
