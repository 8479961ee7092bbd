-- ===== src/CandidateFusion/Distinct.antt =====
-- The fused candidates are few, and no plate is listed twice.
use fac_lpr_engine.Prelude.{
  ℕ, zero, suc, ◌+◌, ◌≤◌, ◌≡◌, ◌∙◌, inl, inr, false, List, [], ◌∷◌, length, All, take,
  length-take-le, Bool-cases, Text, text_eq, text_eq_of_lt, text_eq_sym,
}
use fac_lpr_engine.Float.{Float}
use fac_lpr_engine.Domain.{PlateCandidate, RecognitionEvidence}
use fac_lpr_engine.OrderedMap.{IsSorted, Above}
use fac_lpr_engine.OrderedMap.Laws.{upsert-IsSorted}
use fac_lpr_engine.StableSort.{Pairwise, sort-Pairwise}
use fac_lpr_engine.CandidateFusion.{
  CandidateFusionConfig, LayoutEvidence, Aggregate, CropSupport, merge_support, merge_crop,
  candidates_of, ranks_before, score_crop, is_ignored, layout_quality, aggregate_all, fuse,
}
use fac_lpr_engine.CandidateFusion.Backing.{take-All}

take-Pairwise {ℓ κ} :
    {A : Type ℓ} (R : A → A → Type κ) (n : ℕ) (xs : List A) → Pairwise R xs → Pairwise R (take n xs)
take-Pairwise R zero xs h = tt
take-Pairwise R (suc n) [] h = tt
take-Pairwise R (suc n) (x ∷ xs) h = (take-All (R x) n xs h.0, take-Pairwise R n xs h.1)

nothing_apart {ℓ κ} : {A : Type ℓ} (R : A → A → Type κ) (cs : List A) → All (λ x. All (R x) []) cs
nothing_apart R [] = tt
nothing_apart R (x ∷ xs) = (tt, nothing_apart R xs)

module _ {F : Type 0} ⦃fl : Float F⦄ where
  abbrev pub Differs : PlateCandidate F → PlateCandidate F → Type 0
  Differs c d = text_eq d.text c.text ≡ false

  Differs-sym : (c d : PlateCandidate F) → Differs c d → Differs d c
  Differs-sym c d h = text_eq_sym c.text d.text ∙ h

  candidates_of-Differs :
      (text : Text) (m : List (Text × Aggregate F))
      → Above text m
      → All (λ d. text_eq d.text text ≡ false) (candidates_of m)
  unfolding candidates_of
  candidates_of-Differs text [] h = tt
  candidates_of-Differs text ((k, v) ∷ m) h =
      ((text_eq_of_lt text k h.0).1, candidates_of-Differs text m h.1)

  candidates_of-Pairwise :
      (m : List (Text × Aggregate F)) → IsSorted m → Pairwise Differs (candidates_of m)
  unfolding candidates_of
  candidates_of-Pairwise [] s = tt
  candidates_of-Pairwise ((k, v) ∷ m) s =
      (candidates_of-Differs k m s.0, candidates_of-Pairwise m s.1)

  merge_crop-IsSorted :
      (locals : CropSupport F) (m : List (Text × Aggregate F))
      → IsSorted m
      → IsSorted (merge_crop locals m)
  unfolding merge_crop
  merge_crop-IsSorted [] m s = s
  merge_crop-IsSorted ((k, v) ∷ rest) m s =
      merge_crop-IsSorted rest _ (upsert-IsSorted k _ (merge_support v) m s)

module _ {F D : Type 0} ⦃fl : Float F⦄ where
  aggregate_all-IsSorted :
      (config : CandidateFusionConfig F) (layouts : List (LayoutEvidence F)) (index : ℕ)
      (es : List (RecognitionEvidence F D)) (m : List (Text × Aggregate F))
      → IsSorted m
      → IsSorted (aggregate_all config layouts index es m)
  unfolding aggregate_all
  aggregate_all-IsSorted config layouts index [] m s = s
  aggregate_all-IsSorted config layouts index (e ∷ es) m s =
      elim (Bool-cases (is_ignored config e)) [
        | inl t ↦ rw t (aggregate_all-IsSorted config layouts (index + 1) es m s)
        | inr t ↦ rw t (
            aggregate_all-IsSorted config layouts (index + 1) es _ (
              merge_crop-IsSorted
                (score_crop config e (layout_quality layouts index) 0 e.candidates []) m s))
      ]

  -- The fused candidates are at most `max_candidates`, and any two of them have different texts.
  pub fuse-Distinct :
      (config : CandidateFusionConfig F) (evidence : List (RecognitionEvidence F D))
      (layouts : List (LayoutEvidence F))
      → (length (fuse config evidence layouts) ≤ config.max_candidates)
        × Pairwise Differs (fuse config evidence layouts)
  unfolding fuse
  fuse-Distinct config evidence layouts =
      let m = aggregate_all config layouts 0 evidence [] in
      let pairs =
        candidates_of-Pairwise m (aggregate_all-IsSorted config layouts 0 evidence [] tt) in
      (
        length-take-le config.max_candidates _,
        take-Pairwise Differs config.max_candidates _ (
            sort-Pairwise ranks_before Differs Differs-sym [] (candidates_of m) tt pairs
              (nothing_apart Differs (candidates_of m))),
      )
