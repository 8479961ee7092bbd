-- ===== src/Budget/Examples.antt =====
-- The checked product at concrete sizes.
use fac_lpr_engine.Prelude.{◌*◌, ◌^◌, ◌≤◌, ◌<◌, ◌≡◌, refl, ◌⊎◌, arith}
use fac_lpr_engine.Errors.{ok, err, resource_exhausted}
use fac_lpr_engine.Budget.{checked_resource_multiply}
use fac_lpr_engine.Budget.Products.{checked_resource_multiply-cases}

too_large : checked_resource_multiply (2 ^ 32) (2 ^ 32) 1000 ≡ err resource_exhausted
unfolding checked_resource_multiply
too_large = refl

checked_resource_multiply-cases_example :
    ((checked_resource_multiply 8 100 1000 ≡ ok (8 * 100)) × (8 * 100 ≤ 1000))
    ⊎ ((checked_resource_multiply 8 100 1000 ≡ err resource_exhausted) × (1000 < 8 * 100))
checked_resource_multiply-cases_example = checked_resource_multiply-cases 8 100 1000 (omega arith)
