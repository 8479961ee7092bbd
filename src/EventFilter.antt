-- ===== src/EventFilter.antt =====
-- src/application/stable_plate_event_filter.cpp: one event for a plate that stays in view.
pub mod Spacing
pub mod Stats
mod Examples
use fac_lpr_engine.Prelude.{
  ℕ, zero, suc, ◌+◌, ◌-◌, ◌*◌, ◌/◌, ◌%◌, ◌^◌, ◌≤◌, ◌<◌, ◌≡◌, refl, sym, ap, ◌∙◌, subst, ◌≢◌, ◌↔◌,
  ◌⊎◌, inl, inr, Bool, true, false, not, ◌&&◌, ◌||◌, Option, none, some, List, [], ◌∷◌, ◌++◌, map,
  arith, length, length-append, All, take, get_elem?, All-append, length-take-le, ltb, leb, ◌==◌,
  if◌then◌else◌, Bool-cases, Option-cases, size_mod, wrap_add, Text, is_empty, text_eq, text_lt, ℤ,
  pos, negsuc, is_negative, is_positive, exceeds, elapsed_lt, elapsed_le, text_eq_refl,
  eq_of_text_eq, text_lt_irrefl, text_lt_trans, text_lt_total, text_eq_of_lt, text_eq_sym,
}
use fac_lpr_engine.Errors.{
  Result, ok, err, ◌>>=◌, ◌>>◌, throw_if, EngineErrorCode, configuration, provider, inference,
  invalid_image, resource_exhausted, internal, cancelled, timeout, >>=-eq-ok,
}
use fac_lpr_engine.Domain.{PlateRecognitionResult}
use fac_lpr_engine.Consensus.{TemporalConsensusResult}

pub record StablePlateEventFilterConfig : Type 0 where
  pub duplicate_cooldown : ℤ

pub record StablePlateEventFilterStats : Type 0 where
  pub emitted : ℕ
  pub suppressed : ℕ

pub record StablePlateEventFilterResult (F D : Type 0) : Type 0 where
  pub emitted_result : Option (PlateRecognitionResult F D)
  pub duplicate_suppressed : Bool

pub record StablePlateEventFilter (F D : Type 0) : Type 0 where
  pub config : StablePlateEventFilterConfig
  pub last_emitted : Option (PlateRecognitionResult F D)
  pub last_emitted_at : Option ℕ
  pub stats : StablePlateEventFilterStats

abbrev pub no_stats : StablePlateEventFilterStats
no_stats = record { emitted = 0; suppressed = 0 }

abbrev pub milliseconds_per_day : ℕ
milliseconds_per_day = 24 * 3600 * 1000

module _ {F D : Type 0} where
  unfoldable pub make_filter : StablePlateEventFilterConfig → Result (StablePlateEventFilter F D)
  make_filter config = do
    throw_if (is_negative config.duplicate_cooldown) configuration
    throw_if (exceeds config.duplicate_cooldown milliseconds_per_day) configuration
    ok (record { config = config; last_emitted = none; last_emitted_at = none; stats = no_stats })

  unfoldable pub same_plate : StablePlateEventFilter F D → PlateRecognitionResult F D → Bool
  same_plate f current = elim f.last_emitted [
    | none ↦ false
    | some last ↦ text_eq last.plate current.plate
  ]

  unfoldable pub inside_cooldown :
      StablePlateEventFilter F D → PlateRecognitionResult F D → ℕ → Bool
  unfolding same_plate
  inside_cooldown f current now = same_plate f current && (elim f.last_emitted_at [
    | none ↦ false
    | some last ↦ leb last now && elapsed_lt (now - last) f.config.duplicate_cooldown
  ])

  -- `observe` once there is a stable result.
  unfoldable pub observe_stable :
      StablePlateEventFilter F D
      → PlateRecognitionResult F D
      → ℕ
      → StablePlateEventFilter F D × StablePlateEventFilterResult F D
  unfolding inside_cooldown
  observe_stable f current now =
      if inside_cooldown f current now
      then (
        record f { stats = record (f.stats) { suppressed = wrap_add f.stats.suppressed 1 } },
        record { emitted_result = none; duplicate_suppressed = true },
      )
      else (
        record f {
          last_emitted = some current;
          last_emitted_at = some now;
          stats = record (f.stats) { emitted = wrap_add f.stats.emitted 1 };
        },
        record { emitted_result = some current; duplicate_suppressed = false },
      )

  unfoldable pub observe :
      StablePlateEventFilter F D
      → TemporalConsensusResult F D
      → ℕ
      → StablePlateEventFilter F D × StablePlateEventFilterResult F D
  unfolding observe_stable
  observe f consensus now = elim consensus.stable_result [
    | none ↦ (f, record { emitted_result = none; duplicate_suppressed = false })
    | some current ↦ observe_stable f current now
  ]

  unfoldable pub reset : StablePlateEventFilter F D → StablePlateEventFilter F D
  reset f = record f { last_emitted = none; last_emitted_at = none; stats = no_stats }
