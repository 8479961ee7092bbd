-- ===== src/NativeImage/Examples.antt =====
-- The theorem at a region of an image of three rows.
use fac_lpr_engine.Prelude.{◌+◌, ◌*◌, ◌<◌, ◌≤◌, ◌≡◌, refl, arith}
use fac_lpr_engine.Errors.{ok}
use fac_lpr_engine.Config.{default_performance}
use fac_lpr_engine.Image.{
  ImageView, ValidatedImage, PixelFormat, validate_image, check_limits, checked_multiply,
  checked_add, pixel_format_channels,
}
use fac_lpr_engine.NativeImage.{
  ImageRegion, CropView, make_crop_view, validate_region, crop_bytes, pixel_bytes,
}
use fac_lpr_engine.NativeImage.Regions.{make_crop_view_in_bounds}

abbrev image : ImageView
image = record {
  byte_count = 33;
  width = 3;
  height = 3;
  stride_bytes = 12;
  format = PixelFormat.bgr8;
}

abbrev validated : ValidatedImage
validated = record { view = image; channels = 3; minimum_row_bytes = 9; required_bytes = 33 }

passes : validate_image image default_performance ≡ ok validated
unfolding validate_image check_limits checked_multiply checked_add pixel_format_channels
passes = refl

-- The lower right corner, which ends with the image.
abbrev region : ImageRegion
region = record { x = 1; y = 1; width = 2; height = 2 }

at_15 :
    make_crop_view image region
    ≡ ok (record {
      offset = 15;
      view = record {
        byte_count = 18;
        width = 2;
        height = 2;
        stride_bytes = 12;
        format = PixelFormat.bgr8;
      };
    })
unfolding make_crop_view validate_region crop_bytes pixel_bytes checked_multiply checked_add
    pixel_format_channels
at_15 = refl

-- The last byte of the view, which is the last byte of the image.
make_crop_view_in_bounds_example :
    (crop : CropView) × (make_crop_view image region ≡ ok crop)
    × (crop.view.width ≡ 2)
    × (crop.view.height ≡ 2)
    × (crop.view.stride_bytes ≡ 12)
    × (crop.view.format ≡ PixelFormat.bgr8)
    × (crop.offset + (1 * crop.view.stride_bytes + 5) ≡ 32)
    × (1 * crop.view.stride_bytes + 5 < crop.view.byte_count)
    × (crop.offset + crop.view.byte_count ≤ 33)
unfolding pixel_format_channels
make_crop_view_in_bounds_example =
    make_crop_view_in_bounds image default_performance region 1 5 (omega arith) (omega arith)
      (omega arith) (omega arith) passes (omega arith, omega arith, omega arith, omega arith)
      (omega arith) (omega arith)
