-- ===== src/Budget/Products.antt =====
-- The checked product: exact within the budget, refused above it.
use fac_lpr_engine.Prelude.{
  ℕ, zero, suc, ◌+◌, ◌-◌, ◌*◌, ◌/◌, ◌%◌, ◌≤◌, ◌<◌, ◌≡◌, ◌⊎◌, inl, inr, arith, ltb, Bool-cases,
  size_mod,
}
use fac_lpr_engine.Errors.{ok, err, resource_exhausted}
use native.Mathlib.Nat.{mul-le-mul, le_refl, div-add-mod, mod-lt}
use fac_lpr_engine.Budget.{checked_resource_multiply}

div_bounds : (m a : ℕ) → 1 ≤ a → (a * (m / a) ≤ m) × (m < a * (m / a) + a)
div_bounds m a h = omega (arith, div-add-mod m a, mod-lt m h)

-- For a maximum that is a value of `std::size_t`: the product is returned, exactly, if it is not above
-- the maximum; if it is, the call throws, also where the product overflows.
pub checked_resource_multiply-cases :
    (left right maximum : ℕ)
    → maximum < size_mod
    → ((checked_resource_multiply left right maximum ≡ ok (left * right))
        × (left * right ≤ maximum))
      ⊎ ((checked_resource_multiply left right maximum ≡ err resource_exhausted)
          × (maximum < left * right))
unfolding checked_resource_multiply
checked_resource_multiply-cases zero right maximum h = inl (ground arith, omega arith)
checked_resource_multiply-cases (suc n) right maximum h =
    let left = suc n in
    let bounds = div_bounds (size_mod - 1) left (omega arith) in
    elim (Bool-cases (ltb ((size_mod - 1) / left) right)) [
      | inl e ↦
          let more : suc ((size_mod - 1) / left) ≤ right = ground arith in
          let large : maximum < left * right =
            omega (arith, bounds, mul-le-mul (le_refl left) more) in
          inr (ground arith, large)
      | inr e ↦
          let less : right ≤ (size_mod - 1) / left = ground arith in
          let fits : left * right < size_mod =
            omega (arith, bounds, mul-le-mul (le_refl left) less) in
          let same : (left * right) % size_mod ≡ left * right = omega arith in
          elim (Bool-cases (ltb maximum (left * right))) [
            | inl u ↦ inr (ground arith, ground arith)
            | inr u ↦ inl (ground arith, ground arith)
          ]
    ]
