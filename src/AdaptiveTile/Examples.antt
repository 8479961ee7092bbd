-- ===== src/AdaptiveTile/Examples.antt =====
-- The theorems at an extent of ten with tiles of four, and at a detector of one box.
use fac_lpr_engine.Prelude.{
  ℕ, ◌+◌, ◌*◌, ◌/◌, ◌≤◌, ◌<◌, ◌≡◌, refl, ◌⊎◌, true, false, none, some, List, [], ◌∷◌, arith, All,
  Any,
}
use fac_lpr_engine.Errors.{ok}
use fac_lpr_engine.Float.{Milli, milli_float}
use fac_lpr_engine.Config.{default_performance}
use fac_lpr_engine.Image.{ImageView, PixelFormat}
use fac_lpr_engine.Effects.{Runtime, OperationContext, returns}
use fac_lpr_engine.Effects.Ensures.{Ensures}
use fac_lpr_engine.AdaptiveTile.{
  AdaptiveTileConfig, AdaptiveTileDetector, SizeCasts, axis_origins, axis_loop,
}
use fac_lpr_engine.AdaptiveTile.Detect.{detect}
use fac_lpr_engine.AdaptiveTile.Origins.{axis_origins-covers}
use fac_lpr_engine.AdaptiveTile.Merge.{IsMerged, detect-IsMerged}
use fac_lpr_engine.Samples.{detection}

instance abbrev ticking : Runtime ℕ
ticking = record { now = λ w. (w, w + 1); stop_requested = λ token w. false }

instance abbrev sample_casts : SizeCasts Milli
sample_casts = record {
  overlap = λ tile ratio. elim ratio [ none ↦ 0 | some r ↦ tile * r / 1000 ];
  of_size = λ n. some (n * 1000);
}

-- The last tile is moved back, so that it ends with the extent.
ten_by_four : axis_origins {F = Milli} 10 4 (some 250) ≡ ok (0 ∷ 3 ∷ 6 ∷ [])
unfolding axis_origins axis_loop
ten_by_four = refl

eleven_by_four : axis_origins {F = Milli} 11 4 (some 250) ≡ ok (0 ∷ 3 ∷ 6 ∷ 7 ∷ [])
unfolding axis_origins axis_loop
eleven_by_four = refl

axis_origins-covers_example :
    (xs : List ℕ) × (axis_origins {F = Milli} 11 4 (some 250) ≡ ok xs)
    × All (λ origin. (11 ≤ 4) ⊎ (origin + 4 ≤ 11)) xs
    × Any (λ origin. (origin ≤ 10) × (10 < origin + 4)) xs
axis_origins-covers_example =
    axis_origins-covers {F = Milli} 11 4 (some 250) 10 (omega arith) (omega arith) (omega arith)
      (omega arith)

abbrev config : AdaptiveTileConfig Milli
config = record {
  enabled = true;
  tile_width = 2;
  tile_height = 2;
  overlap_ratio = some 200;
  maximum_tiles = 32;
  merge_iou_threshold = some 450;
  maximum_detections = 64;
}

abbrev detector : AdaptiveTileDetector ℕ Milli
detector = record {
  detector = λ image context w. (returns (detection ∷ detection ∷ []), w + 5);
  config = config;
  image_limits = default_performance;
}

abbrev image : ImageView
image = record {
  byte_count = 36;
  width = 3;
  height = 3;
  stride_bytes = 12;
  format = PixelFormat.bgr8;
}

abbrev context : OperationContext
context = record { stop_token = none; deadline = none }

detect-IsMerged_example : Ensures (IsMerged config) (detect detector context image)
detect-IsMerged_example = detect-IsMerged detector context image (omega arith)
