-- ===== src/AdaptiveTile/Detect.antt =====
-- src/infrastructure/adaptive/adaptive_tile_detector.cpp: the tiles, and `AdaptiveTileDetector::detect`.
use fac_lpr_engine.Prelude.{
  ℕ, ◌-◌, ◌*◌, ◌/◌, ◌%◌, ◌&&◌, ◌||◌, List, [], ◌∷◌, ◌++◌, map, length, ltb, if◌then◌else◌, size_mod,
}
use fac_lpr_engine.Errors.{resource_exhausted}
use fac_lpr_engine.Float.{Float}
use fac_lpr_engine.Domain.{Detection}
use fac_lpr_engine.Image.{ImageView, validate_image}
use fac_lpr_engine.NativeImage.{ImageRegion, make_crop_view}
use fac_lpr_engine.Effects.{
  Action, Runtime, OperationContext, outcome_of, pure, throw, engine_error, lift, ◌>>=◌, ◌>>◌,
  check_context,
}
use fac_lpr_engine.AdaptiveTile.{
  AdaptiveTileConfig, AdaptiveTileDetector, SizeCasts, axis_origins, merge_detections,
  translate_detection,
}

abbrev pub smaller : ℕ → ℕ → ℕ
smaller a b = if ltb b a then b else a

-- The region of the tile at an origin.
abbrev pub tile_region : {F : Type 0} → AdaptiveTileConfig F → ImageView → ℕ → ℕ → ImageRegion
tile_region config image x y = record {
  x = x;
  y = y;
  width = smaller config.tile_width (image.width - x);
  height = smaller config.tile_height (image.height - y);
}

module _ {W F : Type 0} ⦃fl : Float F⦄ ⦃sc : SizeCasts F⦄ ⦃rt : Runtime W⦄
    (d : AdaptiveTileDetector W F) (context : OperationContext) where
  unfoldable pub detect_tile :
      ImageView → ℕ → ℕ → List (Detection F) → Action W (List (Detection F))
  detect_tile image y x combined = do
    check_context context
    tile ← lift (outcome_of (make_crop_view image (tile_region d.config image x y)))
    detections ← d.detector tile.view context
    pure (combined ++ map (translate_detection x y image.width image.height) detections)

  -- The loop over the tiles of one row.
  unfoldable pub detect_row :
      ImageView → ℕ → List ℕ → List (Detection F) → Action W (List (Detection F))
  detect_row image y [] combined = pure combined
  detect_row image y (x ∷ xs) combined = do
    next ← detect_tile image y x combined
    detect_row image y xs next

  unfoldable pub detect_rows :
      ImageView → List ℕ → List ℕ → List (Detection F) → Action W (List (Detection F))
  detect_rows image [] xs combined = pure combined
  detect_rows image (y ∷ ys) xs combined = do
    next ← detect_row image y xs combined
    detect_rows image ys xs next

  -- The tiles, if there are not too many.
  unfoldable pub detect_tiles : ImageView → List (Detection F) → Action W (List (Detection F))
  detect_tiles image combined = do
    xs ← lift (outcome_of (axis_origins image.width d.config.tile_width d.config.overlap_ratio))
    ys ← lift (outcome_of (axis_origins image.height d.config.tile_height d.config.overlap_ratio))
    (if ltb ((size_mod - 1) / length ys) (length xs)
          || ltb d.config.maximum_tiles ((length xs * length ys) % size_mod)
        then throw (engine_error resource_exhausted)
        else pure tt)
    detect_rows image ys xs combined

  unfoldable pub detect : ImageView → Action W (List (Detection F))
  detect image = do
    check_context context
    validated ← lift (outcome_of (validate_image image d.image_limits))
    combined ← d.detector validated.view context
    (if d.config.enabled
          && (ltb d.config.tile_width validated.view.width
              || ltb d.config.tile_height validated.view.height)
        then (detect_tiles validated.view combined >>= λ all. pure (merge_detections d.config all))
        else pure (merge_detections d.config combined))
