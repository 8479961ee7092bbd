-- ===== src/CandidateFusion/Backing.antt =====
-- What stands behind a fused candidate.
use fac_lpr_engine.Prelude.{
  ℕ, zero, suc, ◌+◌, ◌≡◌, refl, ap, ◌∙◌, ◌⊎◌, inl, inr, Bool, true, false, ◌||◌, some, List, [],
  ◌∷◌, arith, All, take, get_elem?, Bool-cases, Text,
}
use fac_lpr_engine.Float.{Float}
use fac_lpr_engine.Domain.{PlateCandidate, RecognitionEvidence}
use fac_lpr_engine.OrderedMap.Laws.{upsert-All}
use fac_lpr_engine.StableSort.{sort-All}
use fac_lpr_engine.CandidateFusion.{
  CandidateFusionConfig, LayoutEvidence, Aggregate, CropSupport, take_score, score_of,
  merge_support, merge_crop, candidates_of, ranks_before, is_skipped, score_crop, is_ignored,
  layout_quality, aggregate_all, fuse,
}

index_zero : (index : ℕ) → index ≡ 0 + index
index_zero index = omega arith

index_suc : (k index : ℕ) → k + (index + 1) ≡ suc k + index
index_suc k index = omega arith

index_end : (k : ℕ) → k + 0 ≡ k
index_end k = omega arith

pub take-All {ℓ κ} :
    {A : Type ℓ} (P : A → Type κ) (n : ℕ) (xs : List A) → All P xs → All P (take n xs)
take-All P zero xs h = tt
take-All P (suc n) [] h = tt
take-All P (suc n) (x ∷ xs) h = (h.0, take-All P n xs h.1)

module _ {F D : Type 0} ⦃fl : Float F⦄ where
  -- A candidate of the evidence that counts: neither its evidence nor the candidate is skipped.
  pub record Counts (config : CandidateFusionConfig F) (evidence : List (RecognitionEvidence F D))
      (text : Text) (c : PlateCandidate F) : Type 0 where
    pub evidence_index : ℕ
    pub candidate_index : ℕ
    pub source : RecognitionEvidence F D
    pub from_evidence : get_elem? evidence evidence_index ≡ some source
    pub from_source : get_elem? source.candidates candidate_index ≡ some c
    pub not_ignored : is_ignored config source ≡ false
    pub not_skipped : is_skipped config c ≡ false
    pub same_text : c.text ≡ text

  -- Some candidate with this text counts, and if the flag is set, one with a valid format does.
  abbrev pub IsBacked :
      CandidateFusionConfig F → List (RecognitionEvidence F D) → Text → Bool → Type 0
  IsBacked config evidence text valid =
      ((c : PlateCandidate F) × Counts config evidence text c)
      × ((valid ≡ false)
          ⊎ ((c : PlateCandidate F) × Counts config evidence text c × (c.format_valid ≡ true)))

  either_valid :
      (config : CandidateFusionConfig F) (evidence : List (RecognitionEvidence F D)) (text : Text)
      (a b : Bool)
      → IsBacked config evidence text a
      → IsBacked config evidence text b
      → IsBacked config evidence text (a || b)
  either_valid config evidence text true b h g = h
  either_valid config evidence text false b h g = g

  counted-IsBacked :
      (config : CandidateFusionConfig F) (evidence : List (RecognitionEvidence F D))
      (c : PlateCandidate F)
      → Counts config evidence c.text c
      → IsBacked config evidence c.text c.format_valid
  counted-IsBacked config evidence c h = elim (Bool-cases c.format_valid) [
    | inl e ↦ ((c, h), inr (c, h, e))
    | inr e ↦ ((c, h), inl e)
  ]

  module _ (config : CandidateFusionConfig F) (evidence : List (RecognitionEvidence F D)) where
    abbrev LocalIsBacked : Text × (F × Bool) → Type 0
    LocalIsBacked e = IsBacked config evidence e.0 e.1.1

    abbrev EntryIsBacked : Text × Aggregate F → Type 0
    EntryIsBacked e = IsBacked config evidence e.0 e.1.format_valid

    score_crop-IsBacked :
        (i : ℕ) (source : RecognitionEvidence F D) (layout : F) (index : ℕ)
        (cs : List (PlateCandidate F)) (m : CropSupport F)
        → get_elem? evidence i ≡ some source
        → is_ignored config source ≡ false
        → ((k : ℕ) → get_elem? source.candidates (k + index) ≡ get_elem? cs k)
        → All LocalIsBacked m
        → All LocalIsBacked (score_crop config source layout index cs m)
    unfolding score_crop take_score
    score_crop-IsBacked i source layout index [] m h g s b = b
    score_crop-IsBacked i source layout index (c ∷ cs) m h g s b =
        elim (Bool-cases (is_skipped config c)) [
          | inl t ↦ rw t (score_crop-IsBacked i source layout (index + 1) cs m h g next b)
          | inr t ↦
              let here : IsBacked config evidence c.text c.format_valid =
                counted-IsBacked config evidence c (record {
                  evidence_index = i;
                  candidate_index = index;
                  source = source;
                  from_evidence = h;
                  from_source = ap (get_elem? source.candidates) (index_zero index) ∙ s 0;
                  not_ignored = g;
                  not_skipped = t;
                  same_text = refl;
                }) in
              rw t (
                score_crop-IsBacked i source layout (index + 1) cs _ h g next (
                  upsert-All LocalIsBacked c.text (fl.nought, false)
                    (take_score (score_of config source layout index c) c.format_valid) m here
                    (λ v old. either_valid config evidence c.text v.1 c.format_valid old here) b))
        ]
      where
        next : (k : ℕ) → get_elem? source.candidates (k + (index + 1)) ≡ get_elem? cs k
        next k = ap (get_elem? source.candidates) (index_suc k index) ∙ s (suc k)

    merge_crop-IsBacked :
        (locals : CropSupport F) (m : List (Text × Aggregate F))
        → All LocalIsBacked locals
        → All EntryIsBacked m
        → All EntryIsBacked (merge_crop locals m)
    unfolding merge_crop merge_support
    merge_crop-IsBacked [] m l b = b
    merge_crop-IsBacked ((k, v) ∷ rest) m l b = merge_crop-IsBacked rest _ l.1 (
        upsert-All EntryIsBacked k (record { support = fl.nought; format_valid = false })
          (merge_support v) m l.0
          (λ a old. either_valid config evidence k a.format_valid v.1 old l.0) b)

    aggregate_all-IsBacked :
        (layouts : List (LayoutEvidence F)) (index : ℕ) (es : List (RecognitionEvidence F D))
        (m : List (Text × Aggregate F))
        → ((k : ℕ) → get_elem? evidence (k + index) ≡ get_elem? es k)
        → All EntryIsBacked m
        → All EntryIsBacked (aggregate_all config layouts index es m)
    unfolding aggregate_all
    aggregate_all-IsBacked layouts index [] m s b = b
    aggregate_all-IsBacked layouts index (e ∷ es) m s b = elim (Bool-cases (is_ignored config e)) [
      | inl t ↦ rw t (aggregate_all-IsBacked layouts (index + 1) es m next b)
      | inr t ↦
          let here = ap (get_elem? evidence) (index_zero index) ∙ s 0 in
          let layout = layout_quality layouts index in
          rw t (
            aggregate_all-IsBacked layouts (index + 1) es _ next (
              merge_crop-IsBacked (score_crop config e layout 0 e.candidates []) m
                (score_crop-IsBacked index e layout 0 e.candidates [] here t
                  (λ k. ap (get_elem? e.candidates) (index_end k)) tt)
                b))
    ]
      where
        next : (k : ℕ) → get_elem? evidence (k + (index + 1)) ≡ get_elem? es k
        next k = ap (get_elem? evidence) (index_suc k index) ∙ s (suc k)

    candidates_of-IsBacked :
        (m : List (Text × Aggregate F))
        → All EntryIsBacked m
        → All (λ c. IsBacked config evidence c.text c.format_valid) (candidates_of m)
    unfolding candidates_of
    candidates_of-IsBacked [] b = tt
    candidates_of-IsBacked ((k, v) ∷ m) b = (b.0, candidates_of-IsBacked m b.1)

  -- Every fused candidate has the text of a candidate that counts: one of the evidence, not skipped,
  -- in evidence that is not ignored. If it claims a valid format, a candidate that counts has this
  -- text and a valid format.
  pub fuse-IsBacked :
      (config : CandidateFusionConfig F) (evidence : List (RecognitionEvidence F D))
      (layouts : List (LayoutEvidence F))
      → All (λ c. IsBacked config evidence c.text c.format_valid) (fuse config evidence layouts)
  unfolding fuse
  fuse-IsBacked config evidence layouts =
      let P : PlateCandidate F → Type 0 = λ c. IsBacked config evidence c.text c.format_valid in
      let m = aggregate_all config layouts 0 evidence [] in
      take-All P config.max_candidates _ (
        sort-All ranks_before P [] (candidates_of m) tt (
          candidates_of-IsBacked config evidence m (
            aggregate_all-IsBacked config evidence layouts 0 evidence []
              (λ k. ap (get_elem? evidence) (index_end k)) tt)))
