-- ===== src/Image/Examples.antt =====
-- The theorems on validation at an image of three rows.
use fac_lpr_engine.Prelude.{◌+◌, ◌*◌, ◌<◌, ◌≡◌, refl, ◌⊎◌, arith}
use fac_lpr_engine.Errors.{ok, err, invalid_image}
use fac_lpr_engine.Config.{default_performance}
use fac_lpr_engine.Image.{
  ImageView, ValidatedImage, PixelFormat, validate_image, check_limits, checked_multiply,
  checked_add, pixel_format_channels,
}
use fac_lpr_engine.Image.Extent.{
  IsAcceptable, described, validate_image-cases, validate_image_in_bounds,
}

abbrev image : ImageView
image = record {
  byte_count = 36;
  width = 3;
  height = 3;
  stride_bytes = 12;
  format = PixelFormat.bgr8;
}

abbrev validated : ValidatedImage
validated = record { view = image; channels = 3; minimum_row_bytes = 9; required_bytes = 33 }

passes : validate_image image default_performance ≡ ok validated
unfolding validate_image check_limits checked_multiply checked_add pixel_format_channels
passes = refl

validate_image-cases_example :
    ((validate_image image default_performance ≡ ok (described image))
      × IsAcceptable image default_performance)
    ⊎ ((validate_image image default_performance ≡ err invalid_image)
        × ¬ IsAcceptable image default_performance)
validate_image-cases_example =
    validate_image-cases image default_performance (omega arith) (omega arith)

validate_image_in_bounds_example : 12 * 2 + 8 < 36
validate_image_in_bounds_example =
    validate_image_in_bounds image default_performance 2 8 (omega arith) (omega arith) passes
      (omega arith) (omega arith)
