-- ===== src/EventFilter/Examples.antt =====
-- The theorems on the filter at three observations.
use fac_lpr_engine.Prelude.{
  ℕ, ◌+◌, ◌%◌, ◌≡◌, refl, none, some, List, [], ◌∷◌, length, size_mod, Text, text_eq, pos,
}
use fac_lpr_engine.Float.{Milli}
use fac_lpr_engine.Samples.{first_plate, second_plate, recognized}
use fac_lpr_engine.Consensus.{TemporalConsensusResult}
use fac_lpr_engine.EventFilter.{
  StablePlateEventFilter, no_stats, observe, same_plate, inside_cooldown,
}
use fac_lpr_engine.EventFilter.Spacing.{events, Spaced, last_event, events-Spaced}
use fac_lpr_engine.EventFilter.Stats.{run, stable_count, run_counts}

abbrev filter : StablePlateEventFilter Milli Milli
filter = record {
  config = record { duplicate_cooldown = pos 1 };
  last_emitted = none;
  last_emitted_at = none;
  stats = no_stats;
}

abbrev stable_at : Text → ℕ → TemporalConsensusResult Milli Milli × ℕ
stable_at plate now = (
  record {
    stable_result = some (recognized plate 900);
    history_size = 2;
    supporting_frames = 2;
    support = some 900;
  },
  now,
)

abbrev observations : List (TemporalConsensusResult Milli Milli × ℕ)
observations = stable_at first_plate 10 ∷ stable_at first_plate 20 ∷ stable_at second_plate 30 ∷ []

-- The second observation is a duplicate.
two_events : events filter observations ≡ (first_plate, 10) ∷ (second_plate, 30) ∷ []
unfolding events observe inside_cooldown same_plate text_eq
two_events = refl

events-Spaced_example : Spaced 1 (last_event filter) (events filter observations)
events-Spaced_example = events-Spaced filter observations 1 refl

run_counts_example :
    ((run filter observations).stats.emitted % size_mod
      ≡ (0 + length (events filter observations)) % size_mod)
    × (((run filter observations).stats.emitted + (run filter observations).stats.suppressed)
          % size_mod
        ≡ (0 + 0 + stable_count observations) % size_mod)
run_counts_example = run_counts filter observations
