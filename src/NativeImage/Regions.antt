-- ===== src/NativeImage/Regions.antt =====
-- The view of a region of a validated image.
use fac_lpr_engine.Prelude.{
  ℕ, ◌+◌, ◌-◌, ◌*◌, ◌≤◌, ◌<◌, ◌≡◌, refl, inl, inr, false, ◌||◌, arith, ltb, size_mod,
}
use native.Mathlib.Nat.{mul-le-mul, le_refl}
use fac_lpr_engine.Errors.{ok}
use fac_lpr_engine.Config.{PerformanceConfig}
use fac_lpr_engine.Image.{
  ImageView, ValidatedImage, PixelFormat, checked_add, checked_multiply, pixel_format_channels,
  validate_image,
}
use fac_lpr_engine.Image.Extent.{
  checked_add_lem, checked_multiply_lem, extent, validate_image-cases,
}
use fac_lpr_engine.NativeImage.{
  ImageRegion, CropView, region_empty, pixel_bytes, validate_region, crop_bytes, make_crop_view,
}

multiply_ok : (a b : ℕ) → a * b < size_mod → checked_multiply a b ≡ ok (a * b)
multiply_ok a b h = elim (checked_multiply_lem a b) [
  | inl (e, _) ↦ e
  | inr (_, l) ↦ absurd (omega (arith, h, l))
]

add_ok : (a b : ℕ) → a + b < size_mod → checked_add a b ≡ ok (a + b)
add_ok a b h = elim (checked_add_lem a b (omega (arith, h)) (omega (arith, h))) [
  | inl (e, _) ↦ e
  | inr (_, l) ↦ absurd (omega (arith, h, l))
]

pixel_bytes_ok : (f : PixelFormat) → pixel_bytes f ≡ ok (pixel_format_channels f)
unfolding pixel_bytes pixel_format_channels
pixel_bytes_ok PixelFormat.gray8 = refl
pixel_bytes_ok PixelFormat.bgr8 = refl
pixel_bytes_ok PixelFormat.rgb8 = refl

abbrev offset_of : ImageView → ImageRegion → ℕ
offset_of image region =
    region.y * image.stride_bytes + region.x * pixel_format_channels image.format

abbrev view_of : ImageView → ImageRegion → ImageView
view_of image region = record {
  byte_count =
      (region.height - 1) * image.stride_bytes + region.width * pixel_format_channels image.format;
  width = region.width;
  height = region.height;
  stride_bytes = image.stride_bytes;
  format = image.format;
}

abbrev pub IsInside : ImageView → ImageRegion → Type 0
IsInside image region =
    (1 ≤ region.width)
    × (1 ≤ region.height)
    × (region.x + region.width ≤ image.width)
    × (region.y + region.height ≤ image.height)

-- The bytes of a region end before those of the image.
bytes_bound :
    (x y w h width height s c : ℕ)
    → 1 ≤ h
    → x + w ≤ width
    → y + h ≤ height
    → y * s + x * c + ((h - 1) * s + w * c) ≤ s * (height - 1) + width * c
bytes_bound x y w h width height s c p q r =
    let rows : (y + (h - 1)) * s ≤ (height - 1) * s =
      mul-le-mul (omega (arith, p, r)) (le_refl s) in
    let cols : (x + w) * c ≤ width * c = mul-le-mul q (le_refl c) in omega (arith, rows, cols)

module _ (image : ImageView) (region : ImageRegion) (bytes : image.byte_count < size_mod)
    (extent_fits : extent image ≤ image.byte_count) (inside : IsInside image region) where
  abbrev channels : ℕ
  channels = pixel_format_channels image.format

  total : offset_of image region + (view_of image region).byte_count ≤ image.byte_count
  total =
      let b =
        bytes_bound region.x region.y region.width region.height image.width image.height
          image.stride_bytes channels inside.1 inside.2 inside.3 in
      omega (arith, b, extent_fits)

  crop_bytes_ok :
      crop_bytes image.byte_count image.stride_bytes image.format region
      ≡ ok (offset_of image region, (view_of image region).byte_count)
  unfolding crop_bytes
  crop_bytes_ok =
      let t = total in
      let p1 = multiply_ok region.x channels (omega (arith, t, bytes)) in
      let p2 = multiply_ok region.y image.stride_bytes (omega (arith, t, bytes)) in
      let p3 =
        add_ok (region.y * image.stride_bytes) (region.x * channels) (omega (arith, t, bytes)) in
      let p4 = multiply_ok region.width channels (omega (arith, t, bytes)) in
      let p5 = multiply_ok (region.height - 1) image.stride_bytes (omega (arith, t, bytes)) in
      let p6 =
        add_ok ((region.height - 1) * image.stride_bytes) (region.width * channels)
          (omega (arith, t, bytes)) in
      let q : (ltb image.byte_count (offset_of image region)
            || ltb (image.byte_count - offset_of image region) ((view_of image region).byte_count))
          ≡ false =
        ground arith in
      rw (pixel_bytes_ok image.format, p1, p2, p3, p4, p5, p6, q) refl

  validate_region_ok :
      image.width < size_mod
      → image.height < size_mod
      → validate_region image.width image.height region ≡ ok tt
  unfolding validate_region
  validate_region_ok w h =
      let a = add_ok region.x region.width (omega (arith, w, inside.2)) in
      let b = add_ok region.y region.height (omega (arith, h, inside.3)) in
      let e : region_empty region ≡ false = ground arith in
      let q : (ltb image.width (region.x + region.width)
            || ltb image.height (region.y + region.height))
          ≡ false =
        ground arith in
      rw (e, a, b, q) refl

-- A byte of the region, counted from the start of the view and from that of the image.
byte_address :
    (y x s c row col : ℕ) → y * s + x * c + (row * s + col) ≡ (y + row) * s + (x * c + col)
byte_address y x s c row col = omega arith

byte_bound : (row col h w s c : ℕ) → row < h → col < w * c → row * s + col < (h - 1) * s + w * c
byte_bound row col h w s c p q =
    let rows : row * s ≤ (h - 1) * s = mul-le-mul (omega (arith, p)) (le_refl s) in
    omega (arith, rows, q)

-- Where a byte of a row stands among the bytes of an image.
abbrev pub byte_index : ImageView → ℕ → ℕ → ℕ
byte_index image row col = row * image.stride_bytes + col

-- A validated image whose numbers are values of `std::size_t`, a region of it that is not empty and
-- inside, and a byte `col` of a row of that region: the view of the region is made, without an
-- error, with the width and the height of the region and the stride and the format of the image. At
-- the offset that the code takes, that byte of the view is the byte of the image in the row and the
-- column of the region; it is below the view's number of bytes, and the view ends before the bytes
-- of the image do.
pub make_crop_view_in_bounds :
    (image : ImageView) (limits : PerformanceConfig) (region : ImageRegion) (row col : ℕ)
    {valid : ValidatedImage}
    → image.width < size_mod
    → image.height < size_mod
    → image.stride_bytes < size_mod
    → image.byte_count < size_mod
    → validate_image image limits ≡ ok valid
    → IsInside image region
    → row < region.height
    → col < region.width * pixel_format_channels image.format
    → (crop : CropView) × (make_crop_view image region ≡ ok crop)
      × (crop.view.width ≡ region.width)
      × (crop.view.height ≡ region.height)
      × (crop.view.stride_bytes ≡ image.stride_bytes)
      × (crop.view.format ≡ image.format)
      × (crop.offset + byte_index crop.view row col
          ≡ byte_index image (region.y + row) (region.x * pixel_format_channels image.format + col))
      × (byte_index crop.view row col < crop.view.byte_count)
      × (crop.offset + crop.view.byte_count ≤ image.byte_count)
unfolding make_crop_view
make_crop_view_in_bounds image limits region row col w h s b v inside p q =
    elim (validate_image-cases image limits s b) [
      | inr (e, _) ↦ absurd (ground arith)
      | inl (_, acceptable) ↦ (
        record { offset = offset_of image region; view = view_of image region },
        rw
            (
              validate_region_ok image region b acceptable.2 inside w h,
              crop_bytes_ok image region b acceptable.2 inside,
            )
            refl,
        refl,
        refl,
        refl,
        refl,
        byte_address region.y region.x image.stride_bytes (pixel_format_channels image.format) row
            col,
        byte_bound row col region.height region.width image.stride_bytes
            (pixel_format_channels image.format) p q,
        total image region b acceptable.2 inside,
      )
    ]
