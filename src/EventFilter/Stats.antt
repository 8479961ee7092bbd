-- ===== src/EventFilter/Stats.antt =====
-- The counters of the filter.
use fac_lpr_engine.Prelude.{
  ℕ, ◌+◌, ◌%◌, ◌≡◌, none, some, List, [], ◌∷◌, arith, length, length-append, size_mod,
}
use fac_lpr_engine.Consensus.{TemporalConsensusResult}
use fac_lpr_engine.EventFilter.{StablePlateEventFilter, observe}
use fac_lpr_engine.EventFilter.Spacing.{events, event_of}

module _ {F D : Type 0} where
  unfoldable pub run :
      StablePlateEventFilter F D
      → List (TemporalConsensusResult F D × ℕ)
      → StablePlateEventFilter F D
  run f [] = f
  run f ((c, now) ∷ rest) = run (observe f c now).0 rest

  abbrev pub stable_count : List (TemporalConsensusResult F D × ℕ) → ℕ
  stable_count [] = 0
  stable_count ((c, now) ∷ rest) =
      (elim c.stable_result [ none ↦ 0 | some r ↦ 1 ]) + stable_count rest

  observe_counts :
      (f : StablePlateEventFilter F D) (c : TemporalConsensusResult F D) (now : ℕ)
      → let (g, out) = observe f c now in
        (g.stats.emitted % size_mod
          ≡ (f.stats.emitted + length (event_of now out.emitted_result)) % size_mod)
        × ((g.stats.emitted + g.stats.suppressed) % size_mod
            ≡ (f.stats.emitted + f.stats.suppressed + stable_count ((c, now) ∷ [])) % size_mod)
  unfolding observe
  observe_counts f c now = ground arith

  -- Modulo 2^64, the counter of emitted results counts the events of a run, and the two counters
  -- together count the observations with a stable result: each was emitted or suppressed.
  pub run_counts :
      (f : StablePlateEventFilter F D) (observations : List (TemporalConsensusResult F D × ℕ))
      → ((run f observations).stats.emitted % size_mod
          ≡ (f.stats.emitted + length (events f observations)) % size_mod)
        × (((run f observations).stats.emitted + (run f observations).stats.suppressed) % size_mod
            ≡ (f.stats.emitted + f.stats.suppressed + stable_count observations) % size_mod)
  unfolding run events
  run_counts f [] = (omega arith, omega arith)
  run_counts f ((c, now) ∷ rest) =
      let (g, out) = observe f c now in
      let new = event_of now out.emitted_result in
      omega (arith, observe_counts f c now, run_counts g rest, length-append new (events g rest))
