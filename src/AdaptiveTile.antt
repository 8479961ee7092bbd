-- ===== src/AdaptiveTile.antt =====
-- src/infrastructure/adaptive/adaptive_tile_detector.cpp: a detector that also looks at the tiles of a
-- large image and merges what it finds.
pub mod Detect
pub mod Origins
pub mod Merge
mod Examples
use fac_lpr_engine.Prelude.{
  ℕ, zero, suc, ◌+◌, ◌-◌, ◌*◌, ◌/◌, ◌%◌, ◌^◌, ◌≤◌, ◌<◌, ◌≡◌, refl, sym, ap, ◌∙◌, subst, ◌≢◌, ◌↔◌,
  ◌⊎◌, inl, inr, Bool, true, false, not, ◌&&◌, ◌||◌, Option, none, some, List, [], ◌∷◌, ◌++◌, map,
  arith, length, length-append, All, Any, take, get_elem?, All-append, length-take-le, ltb, leb,
  ◌==◌, if◌then◌else◌, Bool-cases, Option-cases, size_mod, wrap_add, Text, is_empty, text_eq,
  text_lt, ℤ, pos, negsuc, is_negative, is_positive, exceeds, elapsed_lt, elapsed_le,
  nanos_per_milli, text_eq_refl, eq_of_text_eq, text_lt_irrefl, text_lt_trans, text_lt_total,
  text_eq_of_lt, text_eq_sym,
}
use fac_lpr_engine.Errors.{Result, ok, err, configuration, resource_exhausted}
use fac_lpr_engine.Errors
use fac_lpr_engine.Float.{Float, fmax, clamp}
use fac_lpr_engine.Domain.{BoundingBox, Detection, Point2f, PlateQuadrilateral, box_is_valid, area}
use fac_lpr_engine.Config.{PerformanceConfig}
use fac_lpr_engine.Image.{ImageView, validate_image}
use fac_lpr_engine.NativeImage.{ImageRegion, make_crop_view}
use fac_lpr_engine.StableSort.{sort}
use fac_lpr_engine.Effects.{
  Action, Runtime, OperationContext, outcome_of, pure, throw, engine_error, lift, ◌>>=◌, ◌>>◌,
  check_context,
}

pub record AdaptiveTileConfig (F : Type 0) : Type 0 where
  pub enabled : Bool
  pub tile_width : ℕ
  pub tile_height : ℕ
  pub overlap_ratio : F
  pub maximum_tiles : ℕ
  pub merge_iou_threshold : F
  pub maximum_detections : ℕ

-- The conversions: `overlap tile ratio` is `floor(double(tile) * ratio)` as a `std::size_t`, and
-- `of_size` the cast of a `std::size_t` to a `float`.
pub record SizeCasts (F : Type 0) : Type 0 where
  pub overlap : ℕ → F → ℕ
  pub of_size : ℕ → F

pub record AdaptiveTileDetector (W F : Type 0) : Type 0 where
  pub detector : ImageView → OperationContext → Action W (List (Detection F))
  pub config : AdaptiveTileConfig F
  pub image_limits : PerformanceConfig

module _ {F : Type 0} ⦃fl : Float F⦄ where
  unfoldable pub validate_config : AdaptiveTileConfig F → Result (Unit {0})
  validate_config config =
      if config.tile_width == 0
        || config.tile_height == 0
        || config.maximum_tiles == 0
        || ltb 4096 config.maximum_tiles
        || config.maximum_detections == 0
        || ltb 4096 config.maximum_detections
        || not (fl.is_finite config.overlap_ratio)
        || fl.lt config.overlap_ratio fl.nought
        || fl.le (fl.literal 50 2) config.overlap_ratio
        || not (fl.is_finite config.merge_iou_threshold)
        || fl.lt config.merge_iou_threshold fl.nought
        || fl.lt fl.one config.merge_iou_threshold
      then err configuration
      else ok tt

  unfoldable pub make_detector :
      {W : Type 0}
      → Option (ImageView → OperationContext → Action W (List (Detection F)))
      → AdaptiveTileConfig F
      → PerformanceConfig
      → Result (AdaptiveTileDetector W F)
  make_detector none config image_limits = err configuration
  make_detector (some detector) config image_limits =
      Errors.◌>>=◌ (validate_config config)
        λ _. ok (record { detector = detector; config = config; image_limits = image_limits })

-- The origin after one that is not the last.
abbrev pub next_origin : ℕ → ℕ → ℕ → ℕ → ℕ
next_origin extent tile step origin =
    if ltb (size_mod - 1 - step) origin
    then extent - tile
    else if ltb (extent - tile) (wrap_add origin step)
    then extent - tile
    else wrap_add origin step

-- The loop from an origin on, `none` when the fuel is used up.
unfoldable pub axis_loop : ℕ → ℕ → ℕ → ℕ → ℕ → Option (List ℕ)
axis_loop zero extent tile step origin = none
axis_loop (suc fuel) extent tile step origin =
    let next = next_origin extent tile step origin in
    let rest = axis_loop fuel extent tile step next in
    if leb extent (wrap_add origin tile)
    then some (origin ∷ [])
    else if leb next origin
    then some (origin ∷ [])
    else elim rest [ none ↦ none | some origins ↦ some (origin ∷ origins) ]

abbrev pub origins_of : Option (List ℕ) → List ℕ
origins_of none = []
origins_of (some origins) = origins

module _ {F : Type 0} ⦃sc : SizeCasts F⦄ where
  -- The fuel is the extent.
  unfoldable pub axis_origins : ℕ → ℕ → F → Result (List ℕ)
  axis_origins extent tile overlap_ratio =
      let step = (tile + (size_mod - sc.overlap tile overlap_ratio)) % size_mod in
      if leb extent tile
      then ok (0 ∷ [])
      else if step == 0
      then err configuration
      else ok (origins_of (axis_loop extent extent tile step 0))

module _ {F : Type 0} ⦃fl : Float F⦄ where
  abbrev pub fmin : F → F → F
  fmin a b = if fl.lt b a then b else a

  unfoldable pub iou : BoundingBox F → BoundingBox F → F
  iou left right =
      let left_right = fl.add left.x left.width in
      let left_bottom = fl.add left.y left.height in
      let right_right = fl.add right.x right.width in
      let right_bottom = fl.add right.y right.height in
      let width = fmax fl.nought (fl.sub (fmin left_right right_right) (fmax left.x right.x)) in
      let height = fmax fl.nought (fl.sub (fmin left_bottom right_bottom) (fmax left.y right.y)) in
      let intersection = fl.mul width height in
      let union_area = fl.sub (fl.add (area left) (area right)) intersection in
      if not (box_is_valid left) || not (box_is_valid right)
      then fl.nought
      else if not (fl.is_finite left_right)
          || not (fl.is_finite left_bottom)
          || not (fl.is_finite right_right)
          || not (fl.is_finite right_bottom)
      then fl.nought
      else if fl.lt fl.nought union_area && fl.is_finite union_area
      then clamp (fl.div intersection union_area) fl.nought fl.one
      else fl.nought

  unfoldable pub ranks_before : Detection F → Detection F → Bool
  ranks_before left right =
      if not (fl.eq left.confidence right.confidence)
      then fl.lt right.confidence left.confidence
      else fl.lt right.geometry_score left.geometry_score

  abbrev pub overlaps : AdaptiveTileConfig F → Detection F → Detection F → Bool
  overlaps config detection accepted =
      fl.lt config.merge_iou_threshold (iou detection.bbox accepted.bbox)

  abbrev pub overlaps_any : AdaptiveTileConfig F → Detection F → List (Detection F) → Bool
  overlaps_any config detection [] = false
  overlaps_any config detection (k ∷ kept) =
      overlaps config detection k || overlaps_any config detection kept

  abbrev pub is_unusable : Detection F → Bool
  is_unusable detection =
      not (box_is_valid detection.bbox) || not (fl.is_finite detection.confidence)

  -- The loop over the sorted detections, with those that are kept.
  unfoldable pub keep_detections :
      AdaptiveTileConfig F → List (Detection F) → List (Detection F) → List (Detection F)
  keep_detections config kept [] = kept
  keep_detections config kept (d ∷ ds) =
      if is_unusable d
      then keep_detections config kept ds
      else if overlaps_any config d kept
      then keep_detections config kept ds
      else if leb config.maximum_detections (length (kept ++ (d ∷ [])))
      then kept ++ (d ∷ [])
      else keep_detections config (kept ++ (d ∷ [])) ds

  unfoldable pub merge_detections : AdaptiveTileConfig F → List (Detection F) → List (Detection F)
  merge_detections config detections = keep_detections config [] (sort ranks_before [] detections)

module _ {F : Type 0} ⦃fl : Float F⦄ ⦃sc : SizeCasts F⦄ where
  abbrev pub translate_point : F → F → F → F → Point2f F → Point2f F
  translate_point x_offset y_offset source_width source_height point = record {
    x = clamp (fl.add point.x x_offset) fl.nought source_width;
    y = clamp (fl.add point.y y_offset) fl.nought source_height;
  }

  unfoldable pub translate_detection : ℕ → ℕ → ℕ → ℕ → Detection F → Detection F
  translate_detection offset_x offset_y source_width source_height detection =
      let x_offset = sc.of_size offset_x in
      let y_offset = sc.of_size offset_y in
      let right = sc.of_size source_width in
      let bottom = sc.of_size source_height in
      let x = fl.add detection.bbox.x x_offset in
      let y = fl.add detection.bbox.y y_offset in
      let x1 = clamp x fl.nought right in
      let y1 = clamp y fl.nought bottom in
      let x2 = clamp (fl.add x detection.bbox.width) fl.nought right in
      let y2 = clamp (fl.add y detection.bbox.height) fl.nought bottom in
      record detection {
        bbox = record {
          x = x1;
          y = y1;
          width = fmax fl.nought (fl.sub x2 x1);
          height = fmax fl.nought (fl.sub y2 y1);
        };
        quadrilateral = elim detection.quadrilateral [
          | none ↦ none
          | some q ↦
              let move = translate_point x_offset y_offset right bottom in
              let (a, b, c, d) = q.points in
              some (record q { points = (move a, move b, move c, move d) })
        ];
      }
