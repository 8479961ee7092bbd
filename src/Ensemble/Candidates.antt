-- ===== src/Ensemble/Candidates.antt =====
-- What the validation of the evidence leaves of its candidates.
use fac_lpr_engine.Prelude.{
  ◌≡◌, refl, subst, inl, inr, false, List, [], ◌∷◌, arith, All, if◌then◌else◌, Bool-cases, is_empty,
}
use fac_lpr_engine.Errors.{Result-cases, ok}
use fac_lpr_engine.Float.{Float, clamp}
use fac_lpr_engine.Domain.{PlateCandidate}
use fac_lpr_engine.Ensemble.{validate_candidates, is_invalid, effective_provider_confidence}

module _ {F : Type 0} ⦃fl : Float F⦄ where
  -- What the check of a candidate leaves: a text, and a confidence weighted and clamped.
  abbrev pub IsWeighted : F → PlateCandidate F → Type 0
  IsWeighted weight c =
      (is_empty c.text ≡ false)
      × ((x : F) × (c.calibrated_confidence ≡ clamp (fl.mul x weight) fl.nought fl.one))

  valid_text : (c : PlateCandidate F) → is_invalid c ≡ false → is_empty c.text ≡ false
  unfolding is_invalid
  valid_text c e = ground arith

  effective_form :
      (c : PlateCandidate F) (weight : F)
      → (x : F) × (effective_provider_confidence c weight
          ≡ clamp (fl.mul x weight) fl.nought fl.one)
  unfolding effective_provider_confidence
  effective_form c weight = (
    if fl.lt fl.nought c.calibrated_confidence then c.calibrated_confidence else c.confidence,
    refl,
  )

  pub validate_candidates-IsWeighted :
      (cs : List (PlateCandidate F)) (weight : F) {valid : List (PlateCandidate F)}
      → validate_candidates cs weight ≡ ok valid
      → All (IsWeighted weight) valid
  unfolding validate_candidates
  validate_candidates-IsWeighted [] weight {valid} h =
      let same : [] ≡ valid = ground arith in subst (All (IsWeighted weight)) same tt
  validate_candidates-IsWeighted (c ∷ cs) weight {valid} h = elim (Bool-cases (is_invalid c)) [
    | inl e ↦ absurd (ground arith)
    | inr e ↦ elim (Result-cases (validate_candidates cs weight)) [
      | inl (x, p) ↦ absurd (ground arith)
      | inr (rest, p) ↦
          let d : PlateCandidate F = record c {
            calibrated_confidence = effective_provider_confidence c weight;
          } in
          let same : d ∷ rest ≡ valid = ground arith in
          subst (All (IsWeighted weight)) same
            ((valid_text c e, effective_form c weight), validate_candidates-IsWeighted cs weight p)
    ]
  ]
