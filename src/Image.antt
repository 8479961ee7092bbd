-- ===== src/Image.antt =====
-- src/application/image_validation.cpp with image.hpp: the check of an image before its bytes are read.
-- An image's bytes are counted, not modelled. The arithmetic is that of `std::size_t`.
pub mod Extent
mod Examples
use fac_lpr_engine.Prelude.{
  ℕ, zero, suc, ◌+◌, ◌-◌, ◌*◌, ◌/◌, ◌%◌, ◌^◌, ◌≤◌, ◌<◌, ◌≡◌, refl, sym, ap, ◌∙◌, subst, ◌≢◌, ◌↔◌,
  ◌⊎◌, inl, inr, Bool, true, false, not, ◌&&◌, ◌||◌, Option, none, some, List, [], ◌∷◌, ◌++◌, map,
  arith, length, length-append, All, take, get_elem?, All-append, length-take-le, ltb, leb, ◌==◌,
  if◌then◌else◌, Bool-cases, Option-cases, size_mod, wrap_add, Text, is_empty, text_eq, text_lt, ℤ,
  pos, negsuc, is_negative, is_positive, exceeds, elapsed_lt, elapsed_le, nanos_per_milli,
  text_eq_refl, eq_of_text_eq, text_lt_irrefl, text_lt_trans, text_lt_total, text_eq_of_lt,
  text_eq_sym,
}
use fac_lpr_engine.Errors.{
  Result, Result-cases, ok, err, ◌>>=◌, ◌>>◌, throw_if, EngineErrorCode, configuration, provider,
  inference, invalid_image, resource_exhausted, internal, cancelled, timeout, >>=-eq-ok,
}
use fac_lpr_engine.Config.{PerformanceConfig}

pub data PixelFormat : Type 0 where
  gray8 : PixelFormat
  bgr8 : PixelFormat
  rgb8 : PixelFormat

pub record ImageView : Type 0 where
  pub byte_count : ℕ
  pub width : ℕ
  pub height : ℕ
  pub stride_bytes : ℕ
  pub format : PixelFormat

pub record ValidatedImage : Type 0 where
  pub view : ImageView
  pub channels : ℕ
  pub minimum_row_bytes : ℕ
  pub required_bytes : ℕ

abbrev pub size_max : ℕ
size_max = size_mod - 1

unfoldable pub checked_add : ℕ → ℕ → Result ℕ
checked_add left right =
    if ltb (size_max - left) right then err invalid_image else ok ((left + right) % size_mod)

unfoldable pub checked_multiply : ℕ → ℕ → Result ℕ
checked_multiply left right =
    if not (left == 0) && ltb (size_max / left) right
    then err invalid_image
    else ok ((left * right) % size_mod)

unfoldable pub pixel_format_channels : PixelFormat → ℕ
pixel_format_channels PixelFormat.gray8 = 1
pixel_format_channels PixelFormat.bgr8 = 3
pixel_format_channels PixelFormat.rgb8 = 3

-- `has_data` is whether the pointer is set.
unfoldable pub make_image_view : Bool → ℕ → ℕ → ℕ → ℕ → PixelFormat → Result ImageView
make_image_view has_data byte_count width height stride_bytes format = do
  throw_if (not has_data && not (byte_count == 0)) invalid_image
  ok (record {
    byte_count = byte_count;
    width = width;
    height = height;
    stride_bytes = stride_bytes;
    format = format;
  })

-- The tests before any arithmetic.
unfoldable pub check_limits : ImageView → PerformanceConfig → Result (Unit {0})
check_limits image limits = do
  throw_if (image.width == 0 || image.height == 0) invalid_image
  throw_if (image.byte_count == 0) invalid_image
  throw_if (ltb limits.max_image_width image.width || ltb limits.max_image_height image.height)
      invalid_image
  throw_if (ltb limits.max_image_bytes image.byte_count) invalid_image
  throw_if (pixel_format_channels image.format == 0) invalid_image

unfoldable pub validate_image : ImageView → PerformanceConfig → Result ValidatedImage
unfolding check_limits
validate_image image limits = do
  check_limits image limits
  let channels = pixel_format_channels image.format
  minimum_row_bytes ← checked_multiply image.width channels
  throw_if (ltb image.stride_bytes minimum_row_bytes) invalid_image
  last_row_offset ← checked_multiply image.stride_bytes (image.height - 1)
  required_bytes ← checked_add last_row_offset minimum_row_bytes
  throw_if (ltb image.byte_count required_bytes) invalid_image
  throw_if (ltb limits.max_image_bytes required_bytes) invalid_image
  ok (record {
    view = image;
    channels = channels;
    minimum_row_bytes = minimum_row_bytes;
    required_bytes = required_bytes;
  })
