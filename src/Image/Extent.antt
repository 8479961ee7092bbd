-- ===== src/Image/Extent.antt =====
-- A validated image holds every byte of its rows, and exactly the images that do are validated.
use fac_lpr_engine.Prelude.{
  ℕ, zero, suc, ◌+◌, ◌-◌, ◌*◌, ◌/◌, ◌%◌, ◌≤◌, ◌<◌, ◌≡◌, sym, ap, subst, ◌⊎◌, inl, inr, arith, ltb,
  Bool-cases, size_mod,
}
use fac_lpr_engine.Errors.{Result-cases, ok, err, invalid_image}
use native.Mathlib.Nat.{mul-le-mul, mul-le-mul_left, le_refl, div-add-mod, mod-lt}
use fac_lpr_engine.Config.{PerformanceConfig}
use fac_lpr_engine.Image.{
  ImageView, ValidatedImage, PixelFormat, size_max, checked_add, checked_multiply,
  pixel_format_channels, check_limits, validate_image,
}

div_bounds : (m a : ℕ) → 1 ≤ a → (a * (m / a) ≤ m) × (m < a * (m / a) + a)
div_bounds m a h = omega (arith, div-add-mod m a, mod-lt m h)

-- `checked_add` gives the sum if it is below 2^64, and throws if it is not.
pub checked_add_lem :
    (a b : ℕ)
    → a < size_mod
    → b < size_mod
    → ((checked_add a b ≡ ok (a + b)) × (a + b < size_mod))
      ⊎ ((checked_add a b ≡ err invalid_image) × (size_mod ≤ a + b))
unfolding checked_add
checked_add_lem a b ha hb = elim (Bool-cases (ltb (size_max - a) b)) [
  | inl e ↦ inr (rw e, ground arith)
  | inr e ↦
      let fits : a + b < size_mod = ground arith in
      let same : (a + b) % size_mod ≡ a + b = omega arith in inl (rw e (ap ok same), fits)
]

-- `checked_multiply` gives the product if it is below 2^64, and throws if it is not.
pub checked_multiply_lem :
    (a b : ℕ)
    → ((checked_multiply a b ≡ ok (a * b)) × (a * b < size_mod))
      ⊎ ((checked_multiply a b ≡ err invalid_image) × (size_mod ≤ a * b))
unfolding checked_multiply
checked_multiply_lem zero b = inl (ground arith, omega arith)
checked_multiply_lem (suc n) b =
    let a = suc n in
    let (low, high) = div_bounds size_max a (omega arith) in
    elim (Bool-cases (ltb (size_max / a) b)) [
      | inl e ↦
          let more : suc (size_max / a) ≤ b = ground arith in
          let large : size_mod ≤ a * b = omega (arith, mul-le-mul (le_refl a) more) in
          inr (ground arith, large)
      | inr e ↦
          let less : b ≤ size_max / a = ground arith in
          let fits : a * b < size_mod = omega (arith, mul-le-mul (le_refl a) less) in
          let same : (a * b) % size_mod ≡ a * b = omega arith in inl (ground arith, fits)
    ]

abbrev pub row_bytes : ImageView → ℕ
row_bytes image = image.width * pixel_format_channels image.format

abbrev pub extent : ImageView → ℕ
extent image = image.stride_bytes * (image.height - 1) + row_bytes image

abbrev pub IsWithin : ImageView → PerformanceConfig → Type 0
IsWithin image limits =
    (1 ≤ image.width)
    × (image.width ≤ limits.max_image_width)
    × (1 ≤ image.height)
    × (image.height ≤ limits.max_image_height)
    × (1 ≤ image.byte_count)
    × (image.byte_count ≤ limits.max_image_bytes)

-- Inside the limits, rows that do not overlap, and bytes enough for the last row.
abbrev pub IsAcceptable : ImageView → PerformanceConfig → Type 0
IsAcceptable image limits =
    IsWithin image limits
    × (row_bytes image ≤ image.stride_bytes)
    × (extent image ≤ image.byte_count)

abbrev pub described : ImageView → ValidatedImage
described image = record {
  view = image;
  channels = pixel_format_channels image.format;
  minimum_row_bytes = row_bytes image;
  required_bytes = extent image;
}

channels_pos : (f : PixelFormat) → 1 ≤ pixel_format_channels f
unfolding pixel_format_channels
channels_pos PixelFormat.gray8 = omega arith
channels_pos PixelFormat.bgr8 = omega arith
channels_pos PixelFormat.rgb8 = omega arith

check_limits_lem :
    (image : ImageView) (limits : PerformanceConfig)
    → ((check_limits image limits ≡ ok tt) × IsWithin image limits)
      ⊎ ((check_limits image limits ≡ err invalid_image) × ¬ IsWithin image limits)
unfolding check_limits
check_limits_lem image limits = elim (Result-cases (check_limits image limits)) [
  | inl (e, p) ↦ inr (ground arith, λ w. ground (arith, channels_pos image.format))
  | inr (u, p) ↦ inl (p, ground (arith, channels_pos image.format))
]

-- For an image whose stride and number of bytes are values of `std::size_t`: it is validated exactly
-- if it lies inside the limits, its rows do not overlap and its bytes reach to the end of the last
-- row, all without overflow; the result then has the exact extent. Any other image is refused as
-- invalid.
pub validate_image-cases :
    (image : ImageView) (limits : PerformanceConfig)
    → image.stride_bytes < size_mod
    → image.byte_count < size_mod
    → ((validate_image image limits ≡ ok (described image)) × IsAcceptable image limits)
      ⊎ ((validate_image image limits ≡ err invalid_image) × ¬ IsAcceptable image limits)
unfolding validate_image
validate_image-cases image limits hs hb = elim (check_limits_lem image limits) [
  | inr (e, not_within) ↦ inr (ground arith, λ a. not_within a.0)
  | inl (e, within) ↦ elim (checked_multiply_lem image.width (pixel_format_channels image.format)) [
    | inr (e1, wide) ↦ inr (ground arith, λ a. absurd (omega arith))
    | inl (e1, row) ↦ elim (Bool-cases (ltb image.stride_bytes (row_bytes image))) [
      | inl t ↦ inr (ground arith, λ a. absurd (ground arith))
      | inr t ↦ elim (checked_multiply_lem image.stride_bytes (image.height - 1)) [
        | inr (e2, tall) ↦ inr (ground arith, λ a. absurd (omega arith))
        | inl (e2, offset) ↦
            elim (checked_add_lem (image.stride_bytes * (image.height - 1)) (row_bytes image) offset
              row) [
                | inr (e3, large) ↦ inr (ground arith, λ a. absurd (omega arith))
                | inl (e3, whole) ↦ elim (Bool-cases (ltb image.byte_count (extent image))) [
                  | inl u ↦ inr (ground arith, λ a. absurd (ground arith))
                  | inr u ↦ inl (ground arith, (within, ground arith, ground arith))
                ]
              ]
      ]
    ]
  ]
]

row_in_extent :
    (stride height row col width : ℕ)
    → row < height
    → col < width
    → stride * row + col < stride * (height - 1) + width
row_in_extent stride height row col width h k =
    omega (arith, mul-le-mul_left stride (le_pred row height h))
  where
    le_pred : (r n : ℕ) → r < n → r ≤ n - 1
    le_pred r n p = omega arith

-- For a validated image whose stride and number of bytes are values of `std::size_t`: every byte
-- of each of its rows, up to the width of the row in bytes, is one of its bytes.
pub validate_image_in_bounds :
    (image : ImageView) (limits : PerformanceConfig) (row col : ℕ) {valid : ValidatedImage}
    → image.stride_bytes < size_mod
    → image.byte_count < size_mod
    → validate_image image limits ≡ ok valid
    → row < valid.view.height
    → col < valid.minimum_row_bytes
    → valid.view.stride_bytes * row + col < valid.view.byte_count
validate_image_in_bounds image limits row col {valid} hs hb h hr hc =
    elim (validate_image-cases image limits hs hb) [
      | inr (e, n) ↦ absurd (ground arith)
      | inl (e, a) ↦
          let same : described image ≡ valid = ground arith in
          subst (λ (v : ValidatedImage). v.view.stride_bytes * row + col < v.view.byte_count) same
            (omega (
              arith,
              row_in_extent image.stride_bytes image.height row col (row_bytes image)
                  (subst (λ (v : ValidatedImage). row < v.view.height) (sym same) hr)
                  (subst (λ (v : ValidatedImage). col < v.minimum_row_bytes) (sym same) hc),
            ))
    ]
