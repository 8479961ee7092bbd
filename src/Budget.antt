-- ===== src/Budget.antt =====
-- include/fac_lpr/application/resource_budget.hpp: the limits on sizes, in arithmetic of `std::size_t`.
-- The name of the resource, which is only in the messages, is left out.
mod Examples
pub mod Products
use fac_lpr_engine.Prelude.{
  ℕ, zero, suc, ◌+◌, ◌-◌, ◌*◌, ◌/◌, ◌%◌, ◌^◌, ◌≤◌, ◌<◌, ◌≡◌, refl, sym, ap, ◌∙◌, subst, ◌≢◌, ◌↔◌,
  ◌⊎◌, inl, inr, Bool, true, false, not, ◌&&◌, ◌||◌, Option, none, some, List, [], ◌∷◌, ◌++◌, map,
  arith, length, length-append, All, take, get_elem?, All-append, length-take-le, ltb, leb, ◌==◌,
  if◌then◌else◌, Bool-cases, Option-cases, size_mod, wrap_add, Text, is_empty, text_eq, text_lt, ℤ,
  pos, negsuc, is_negative, is_positive, exceeds, elapsed_lt, elapsed_le, nanos_per_milli,
  text_eq_refl, eq_of_text_eq, text_lt_irrefl, text_lt_trans, text_lt_total, text_eq_of_lt,
  text_eq_sym,
}
use fac_lpr_engine.Errors.{
  Result, Result-cases, ok, err, ◌>>=◌, ◌>>◌, throw_if, EngineErrorCode, configuration, provider,
  inference, invalid_image, resource_exhausted, internal, cancelled, timeout, >>=-eq-ok,
}

pub record ResourceBudget : Type 0 where
  pub max_image_bytes : ℕ
  pub max_tile_count : ℕ
  pub max_crop_count : ℕ
  pub max_tensor_elements : ℕ
  pub max_result_bytes : ℕ
  pub max_queue_memory_bytes : ℕ

abbrev pub mebibyte : ℕ
mebibyte = 1024 * 1024

abbrev pub default_resource_budget : ResourceBudget
default_resource_budget = record {
  max_image_bytes = 128 * mebibyte;
  max_tile_count = 256;
  max_crop_count = 256;
  max_tensor_elements = 64 * mebibyte;
  max_result_bytes = 64 * mebibyte;
  max_queue_memory_bytes = 512 * mebibyte;
}

unfoldable pub checked_resource_multiply : ℕ → ℕ → ℕ → Result ℕ
checked_resource_multiply left right maximum =
    if not (left == 0) && ltb ((size_mod - 1) / left) right
    then err resource_exhausted
    else if ltb maximum ((left * right) % size_mod)
    then err resource_exhausted
    else ok ((left * right) % size_mod)

unfoldable pub require_resource_count : ℕ → ℕ → Result (Unit {0})
require_resource_count value maximum = throw_if (ltb maximum value) resource_exhausted

-- `value == 0U || value > bound`
abbrev pub out_of_range : ℕ → ℕ → Bool
out_of_range value bound = value == 0 || ltb bound value

unfoldable pub validate_resource_budget : ResourceBudget → Result (Unit {0})
validate_resource_budget budget = do
  throw_if (out_of_range budget.max_image_bytes (1024 * mebibyte)) configuration
  throw_if (out_of_range budget.max_tile_count 4096) configuration
  throw_if (out_of_range budget.max_crop_count 4096) configuration
  throw_if (out_of_range budget.max_tensor_elements (512 * mebibyte)) configuration
  throw_if (out_of_range budget.max_result_bytes (1024 * mebibyte)) configuration
  throw_if (out_of_range budget.max_queue_memory_bytes (8 * 1024 * mebibyte)) configuration
