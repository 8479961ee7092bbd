-- ===== src/Effects.antt =====
-- Code that calls providers: it may throw, and it runs in a world `W` that the providers, the clock
-- and the stop tokens share. Each call may change the world.
pub mod Ensures
use fac_lpr_engine.Prelude.{
  ℕ, zero, suc, ◌+◌, ◌-◌, ◌*◌, ◌/◌, ◌%◌, ◌^◌, ◌≤◌, ◌<◌, ◌≡◌, refl, sym, ap, ◌∙◌, subst, ◌≢◌, ◌↔◌,
  ◌⊎◌, inl, inr, Bool, true, false, not, ◌&&◌, ◌||◌, Option, none, some, List, [], ◌∷◌, ◌++◌, map,
  arith, length, length-append, All, take, get_elem?, All-append, length-take-le, ltb, leb, ◌==◌,
  if◌then◌else◌, Bool-cases, Option-cases, size_mod, wrap_add, Text, is_empty, text_eq, text_lt, ℤ,
  pos, negsuc, is_negative, is_positive, exceeds, elapsed_lt, elapsed_le, nanos_per_milli,
  text_eq_refl, eq_of_text_eq, text_lt_irrefl, text_lt_trans, text_lt_total, text_eq_of_lt,
  text_eq_sym,
}
use fac_lpr_engine.Errors.{Result, ok, err, EngineErrorCode, cancelled, timeout}

-- `foreign` is an exception of another class than `EngineError`.
pub data Exception : Type 0 where
  engine_error : EngineErrorCode → Exception
  foreign : Exception

pub data Outcome {ℓ} (A : Type ℓ) : Type ℓ where
  returns : A → Outcome A
  throws : Exception → Outcome A

abbrev pub outcome_of {ℓ} : {A : Type ℓ} → Result A → Outcome A
outcome_of (ok a) = returns a
outcome_of (err code) = throws (engine_error code)

-- An action in the world `W`.
abbrev pub Action : Type 0 → Type 0 → Type 0
Action W A = W → Outcome A × W

-- What the runtime gives: the steady clock, and the stop tokens, which are named by numbers.
pub record Runtime (W : Type 0) : Type 0 where
  pub now : W → ℕ × W
  pub stop_requested : ℕ → W → Bool

-- The time from one point to another, in milliseconds.
pub record Stopwatch (D : Type 0) : Type 0 where
  pub elapsed_ms : ℕ → ℕ → D

-- include/fac_lpr/application/operation_context.hpp. No code reads the sink for timings, which is
-- left out. A token that is `none` never requests a stop.
pub record OperationContext : Type 0 where
  pub stop_token : Option ℕ
  pub deadline : Option ℕ

module _ {W A : Type 0} where
  unfoldable pub pure : A → Action W A
  pure a w = (returns a, w)

  unfoldable pub throw : Exception → Action W A
  throw e w = (throws e, w)

  -- A call that reads and changes nothing.
  unfoldable pub lift : Outcome A → Action W A
  lift r w = (r, w)

module _ {W A B : Type 0} where
  unfoldable pub resume : (A → Action W B) → Outcome A × W → Outcome B × W
  resume f (returns a, w) = f a w
  resume f (throws e, w) = (throws e, w)

  infixl 5 ◌>>=◌ ◌>>◌
  unfoldable pub ◌>>=◌ : Action W A → (A → Action W B) → Action W B
  unfolding resume
  ◌>>=◌ m f w = resume f (m w)

  abbrev pub ◌>>◌ : Action W A → Action W B → Action W B
  m >> n = m >>= λ _. n

  -- `try { m } catch`, where `handler` is what follows in each case.
  unfoldable pub settle : (Outcome A → Action W B) → Outcome A × W → Outcome B × W
  settle handler (r, w) = handler r w

  unfoldable pub attempt : Action W A → (Outcome A → Action W B) → Action W B
  unfolding settle
  attempt m handler w = settle handler (m w)

module _ {W : Type 0} ⦃rt : Runtime W⦄ where
  -- `Clock::now()`
  unfoldable pub read_clock : Action W ℕ
  read_clock w = let (t, w') = rt.now w in (returns t, w')

  unfoldable pub cancellation_requested : OperationContext → Action W Bool
  cancellation_requested context w = elim context.stop_token [
    | none ↦ (returns false, w)
    | some token ↦ (returns (rt.stop_requested token w), w)
  ]

  -- The clock is read only if there is a deadline.
  unfoldable pub deadline_exceeded : OperationContext → Action W Bool
  deadline_exceeded context w = elim context.deadline [
    | none ↦ (returns false, w)
    | some deadline ↦ let (t, w') = rt.now w in (returns (leb deadline t), w')
  ]

abbrev pub throw_when : {W : Type 0} → Bool → EngineErrorCode → Action W (Unit {0})
throw_when true code = throw (engine_error code)
throw_when false code = pure tt

module _ {W : Type 0} ⦃rt : Runtime W⦄ where
  unfoldable pub check_context : OperationContext → Action W (Unit {0})
  unfolding ◌>>=◌
  check_context context = do
    stop ← cancellation_requested context
    throw_when stop cancelled
    late ← deadline_exceeded context
    throw_when late timeout
