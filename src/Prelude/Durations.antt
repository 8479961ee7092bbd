-- ===== src/Prelude/Durations.antt =====
-- `std::chrono`: time points are nanoseconds of the steady clock, which are not negative, and
-- durations of a configuration are milliseconds with a sign.
use Prim.Native.Nat.{ℕ, ◌*◌}
use mathlib.Core.Bool.{Bool, true, false}
use fac_lpr_engine.Prelude.Tests.{ltb, leb}

-- `negsuc n` is -(n + 1).
pub data ℤ : Type 0 where
  pos : ℕ → ℤ
  negsuc : ℕ → ℤ

abbrev pub nanos_per_milli : ℕ
nanos_per_milli = 1_000_000

abbrev pub is_negative : ℤ → Bool
is_negative (pos n) = false
is_negative (negsuc n) = true

abbrev pub is_positive : ℤ → Bool
is_positive (pos n) = ltb 0 n
is_positive (negsuc n) = false

-- `milliseconds > bound`
abbrev pub exceeds : ℤ → ℕ → Bool
exceeds (pos n) bound = ltb bound n
exceeds (negsuc n) bound = false

-- `elapsed < milliseconds` and `elapsed <= milliseconds`, for an elapsed time that is not negative.
abbrev pub elapsed_lt : ℕ → ℤ → Bool
elapsed_lt ns (pos ms) = ltb ns (ms * nanos_per_milli)
elapsed_lt ns (negsuc n) = false

abbrev pub elapsed_le : ℕ → ℤ → Bool
elapsed_le ns (pos ms) = leb ns (ms * nanos_per_milli)
elapsed_le ns (negsuc n) = false
