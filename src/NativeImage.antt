-- ===== src/NativeImage.antt =====
-- src/infrastructure/native_image/native_image.cpp: the view of a region of an image. Its checked
-- arithmetic is that of the validation of images.
pub mod Regions
mod Examples
use fac_lpr_engine.Prelude.{
  ℕ, zero, suc, ◌+◌, ◌-◌, ◌*◌, ◌/◌, ◌%◌, ◌^◌, ◌≤◌, ◌<◌, ◌≡◌, refl, sym, ap, ◌∙◌, subst, ◌≢◌, ◌↔◌,
  ◌⊎◌, inl, inr, Bool, true, false, not, ◌&&◌, ◌||◌, Option, none, some, List, [], ◌∷◌, ◌++◌, map,
  arith, length, length-append, All, Any, take, get_elem?, All-append, length-take-le, ltb, leb,
  ◌==◌, if◌then◌else◌, Bool-cases, Option-cases, size_mod, wrap_add, Text, is_empty, text_eq,
  text_lt, ℤ, pos, negsuc, is_negative, is_positive, exceeds, elapsed_lt, elapsed_le,
  nanos_per_milli, text_eq_refl, eq_of_text_eq, text_lt_irrefl, text_lt_trans, text_lt_total,
  text_eq_of_lt, text_eq_sym,
}
use fac_lpr_engine.Errors.{
  Result, Result-cases, ok, err, ◌>>=◌, ◌>>◌, throw_if, EngineErrorCode, configuration, provider,
  inference, invalid_image, resource_exhausted, internal, cancelled, timeout, >>=-eq-ok,
}
use fac_lpr_engine.Image.{
  ImageView, PixelFormat, pixel_format_channels, checked_add, checked_multiply,
}

pub record ImageRegion : Type 0 where
  pub x : ℕ
  pub y : ℕ
  pub width : ℕ
  pub height : ℕ

abbrev pub region_empty : ImageRegion → Bool
region_empty region = region.width == 0 || region.height == 0

unfoldable pub pixel_bytes : PixelFormat → Result ℕ
pixel_bytes format =
    if pixel_format_channels format == 0
    then err invalid_image
    else ok (pixel_format_channels format)

unfoldable pub validate_region : ℕ → ℕ → ImageRegion → Result (Unit {0})
validate_region source_width source_height region = do
  throw_if (region_empty region) invalid_image
  right ← checked_add region.x region.width
  bottom ← checked_add region.y region.height
  throw_if (ltb source_width right || ltb source_height bottom) invalid_image

-- The offset of the bytes of a region in those of the image, and their number.
unfoldable pub crop_bytes : ℕ → ℕ → PixelFormat → ImageRegion → Result (ℕ × ℕ)
crop_bytes byte_count source_stride format region = do
  bytes_per_pixel ← pixel_bytes format
  x_offset ← checked_multiply region.x bytes_per_pixel
  y_offset ← checked_multiply region.y source_stride
  offset ← checked_add y_offset x_offset
  row_bytes ← checked_multiply region.width bytes_per_pixel
  let tail_rows = region.height - 1
  tail_offset ← checked_multiply tail_rows source_stride
  required ← checked_add tail_offset row_bytes
  throw_if (ltb byte_count offset || ltb (byte_count - offset) required) invalid_image
  ok (offset, required)

-- The view of a region with the place of its bytes: they are those of the image from `offset` on,
-- which is what `subspan` returns.
pub record CropView : Type 0 where
  pub offset : ℕ
  pub view : ImageView

unfoldable pub make_crop_view : ImageView → ImageRegion → Result CropView
make_crop_view source region = do
  validate_region source.width source.height region
  bytes ← crop_bytes source.byte_count source.stride_bytes source.format region
  ok (record {
    offset = bytes.0;
    view = record {
      byte_count = bytes.1;
      width = region.width;
      height = region.height;
      stride_bytes = source.stride_bytes;
      format = source.format;
    };
  })
