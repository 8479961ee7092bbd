-- ===== src/AdaptiveTile/Merge.antt =====
-- What the merge keeps, and what `detect` returns.
use fac_lpr_engine.Prelude.{
  ◌≤◌, ◌<◌, ◌≡◌, sym, subst, inl, inr, true, false, ◌&&◌, ◌||◌, List, [], ◌∷◌, ◌++◌, arith, length,
  length-append, All, All-append, ltb, leb, Bool-cases,
}
use mathlib.Core.List.{append_assoc, append-nil}
use fac_lpr_engine.Float.{Float}
use fac_lpr_engine.Domain.{Detection, box_is_valid}
use fac_lpr_engine.Image.{ImageView}
use fac_lpr_engine.StableSort.{sort}
use fac_lpr_engine.Effects.{Runtime, OperationContext}
use fac_lpr_engine.Effects.Ensures.{Ensures, Ensures-pure, Ensures-then}
use fac_lpr_engine.AdaptiveTile.{
  AdaptiveTileConfig, AdaptiveTileDetector, SizeCasts, overlaps_any, is_unusable, keep_detections,
  merge_detections, ranks_before,
}
use fac_lpr_engine.AdaptiveTile.Detect.{detect}

module _ {F : Type 0} ⦃fl : Float F⦄ (config : AdaptiveTileConfig F) where
  abbrev IsKeepable : Detection F → Type 0
  IsKeepable d = (box_is_valid d.bbox ≡ true) × (fl.is_finite d.confidence ≡ true)

  -- No detection overlaps one before it by more than the threshold.
  abbrev pub Apart : List (Detection F) → List (Detection F) → Type 0
  Apart before [] = Unit
  Apart before (d ∷ ds) = (overlaps_any config d before ≡ false) × Apart (before ++ (d ∷ [])) ds

  pub record IsMerged (kept : List (Detection F)) : Type 0 where
    pub bounded : length kept ≤ config.maximum_detections
    pub usable : All IsKeepable kept
    pub apart : Apart [] kept

  Apart-snoc :
      (before ds : List (Detection F)) (d : Detection F)
      → Apart before ds
      → overlaps_any config d (before ++ ds) ≡ false
      → Apart before (ds ++ (d ∷ []))
  Apart-snoc before [] d a h =
      (subst (λ xs. overlaps_any config d xs ≡ false) (append-nil before) h, tt)
  Apart-snoc before (e ∷ ds) d a h = (
    a.0,
    Apart-snoc (before ++ (e ∷ [])) ds d a.1
        (subst (λ xs. overlaps_any config d xs ≡ false) (sym (append_assoc before (e ∷ []) ds)) h),
  )

  keep_detections-IsMerged :
      (kept ds : List (Detection F))
      → length kept < config.maximum_detections
      → IsMerged kept
      → IsMerged (keep_detections config kept ds)
  unfolding keep_detections
  keep_detections-IsMerged kept [] b m = m
  keep_detections-IsMerged kept (d ∷ ds) b m = elim (Bool-cases (is_unusable d)) [
    | inl e ↦ rw e (keep_detections-IsMerged kept ds b m)
    | inr e ↦ elim (Bool-cases (overlaps_any config d kept)) [
      | inl o ↦ rw (e, o) (keep_detections-IsMerged kept ds b m)
      | inr o ↦
          let one = length-append kept (d ∷ []) in
          let next : IsMerged (kept ++ (d ∷ [])) = record {
            bounded = omega (arith, one, b);
            usable =
                All-append IsKeepable kept (d ∷ []) m.usable ((ground arith, ground arith), tt);
            apart = Apart-snoc [] kept d m.apart o;
          } in
          elim (Bool-cases (leb config.maximum_detections (length (kept ++ (d ∷ []))))) [
            | inl f ↦ rw (e, o, f) next
            | inr f ↦
                rw (e, o, f) (keep_detections-IsMerged (kept ++ (d ∷ [])) ds (ground arith) next)
          ]
    ]
  ]

  merge_detections-IsMerged :
      (ds : List (Detection F))
      → 0 < config.maximum_detections
      → IsMerged (merge_detections config ds)
  unfolding merge_detections
  merge_detections-IsMerged ds b =
      keep_detections-IsMerged [] (sort ranks_before [] ds) b
        (record { bounded = omega arith; usable = tt; apart = tt })

module _ {W F : Type 0} ⦃fl : Float F⦄ ⦃sc : SizeCasts F⦄ ⦃rt : Runtime W⦄ where
  -- A detector whose configuration allows a detection, which the constructor has checked: what it
  -- returns is within the maximum number of detections; all have a valid box and a finite confidence,
  -- and none overlaps one before it by more than the threshold.
  pub detect-IsMerged :
      (d : AdaptiveTileDetector W F) (context : OperationContext) (image : ImageView)
      → 0 < d.config.maximum_detections
      → Ensures (IsMerged d.config) (detect d context image)
  unfolding detect
  detect-IsMerged d context image b = Ensures-then _ _ λ _. Ensures-then _ _ λ validated.
      Ensures-then _ _ λ combined.
        elim (Bool-cases (
          d.config.enabled
          && (ltb d.config.tile_width validated.view.width
              || ltb d.config.tile_height validated.view.height))) [
                | inl e ↦ rw e (
                    Ensures-then _ _
                      λ all. Ensures-pure _ (merge_detections-IsMerged d.config all b))
                | inr e ↦ rw e (Ensures-pure _ (merge_detections-IsMerged d.config combined b))
              ]
