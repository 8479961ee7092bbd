-- ===== src/Session.antt =====
-- src/application/recognition_stream_session.cpp: a stream of frames, run through the pipeline, the
-- consensus and the event filter. Each call holds the mutex from its start to its end, so a session
-- is a sequence of calls. What `pipeline_->recognize` returns or throws in a call is an argument.
pub mod Frames
pub mod Emissions
pub mod Single
mod Examples
use fac_lpr_engine.Prelude.{
  ℕ, zero, suc, ◌+◌, ◌-◌, ◌*◌, ◌/◌, ◌%◌, ◌^◌, ◌≤◌, ◌<◌, ◌≡◌, refl, sym, ap, ◌∙◌, subst, ◌≢◌, ◌↔◌,
  ◌⊎◌, inl, inr, Bool, true, false, not, ◌&&◌, ◌||◌, Option, none, some, List, [], ◌∷◌, ◌++◌, map,
  arith, length, length-append, All, take, get_elem?, All-append, length-take-le, ltb, leb, ◌==◌,
  if◌then◌else◌, Bool-cases, Option-cases, size_mod, wrap_add, Text, is_empty, text_eq, text_lt, ℤ,
  pos, negsuc, is_negative, is_positive, exceeds, elapsed_lt, elapsed_le, nanos_per_milli,
  text_eq_refl, eq_of_text_eq, text_lt_irrefl, text_lt_trans, text_lt_total, text_eq_of_lt,
  text_eq_sym,
}
use fac_lpr_engine.Errors.{
  Result, ok, err, ◌>>=◌, ◌>>◌, throw_if, EngineErrorCode, configuration, provider, inference,
  invalid_image, resource_exhausted, internal, cancelled, timeout, >>=-eq-ok,
}
use fac_lpr_engine.Effects.{Exception, engine_error, Outcome, returns, throws}
use fac_lpr_engine.Float.{Float}
use fac_lpr_engine.Domain.{PlateRecognitionResult}
use fac_lpr_engine.Pipeline.{LprPipelineResult}
use fac_lpr_engine.Consensus
use fac_lpr_engine.Consensus.{
  TemporalPlateConsensus, TemporalPlateConsensusConfig, TemporalConsensusResult, make_consensus,
}
use fac_lpr_engine.EventFilter
use fac_lpr_engine.EventFilter.{
  StablePlateEventFilter, StablePlateEventFilterConfig, StablePlateEventFilterResult,
  StablePlateEventFilterStats, make_filter,
}

pub record RecognitionStreamSession (F D : Type 0) : Type 0 where
  pub consensus : TemporalPlateConsensus F D
  pub emission_filter : StablePlateEventFilter F D
  pub last_timestamp : Option ℕ
  pub is_closed : Bool

pub record RecognitionStreamSessionResult (F D : Type 0) : Type 0 where
  pub frame_result : LprPipelineResult F D
  pub temporal : TemporalConsensusResult F D
  pub emission : StablePlateEventFilterResult F D
  pub temporal_observation_applied : Bool
  pub ambiguous_frame : Bool

-- `last_timestamp_.has_value() && timestamp < *last_timestamp_`
abbrev pub goes_back : Option ℕ → ℕ → Bool
goes_back none now = false
goes_back (some last) now = ltb now last

module _ {F D : Type 0} ⦃fl : Float F⦄ where
  -- `has_pipeline` is whether the pointer to the pipeline is set.
  unfoldable pub make_session :
      Bool
      → TemporalPlateConsensusConfig F
      → StablePlateEventFilterConfig
      → Result (RecognitionStreamSession F D)
  make_session has_pipeline temporal_config emission_config = do
    consensus ← make_consensus temporal_config
    filter ← make_filter emission_config
    throw_if (not has_pipeline) configuration
    ok (record {
      consensus = consensus;
      emission_filter = filter;
      last_timestamp = none;
      is_closed = false;
    })

  -- The members of `RecognitionStreamSessionResult` before they are assigned.
  abbrev pub no_temporal : ℕ → TemporalConsensusResult F D
  no_temporal size = record {
    stable_result = none;
    history_size = size;
    supporting_frames = 0;
    support = fl.nought;
  }

  abbrev pub no_emission : StablePlateEventFilterResult F D
  no_emission = record { emitted_result = none; duplicate_suppressed = false }

  -- What follows a run of the pipeline, by the number of plates in the frame.
  unfoldable pub take_frame :
      RecognitionStreamSession F D
      → LprPipelineResult F D
      → ℕ
      → List (PlateRecognitionResult F D)
      → RecognitionStreamSession F D × RecognitionStreamSessionResult F D
  take_frame s frame now [] = (
    s,
    record {
      frame_result = frame;
      temporal = no_temporal (Consensus.history_size s.consensus);
      emission = no_emission;
      temporal_observation_applied = false;
      ambiguous_frame = false;
    },
  )
  take_frame s frame now (only ∷ []) =
      let (c, temporal) = Consensus.observe s.consensus only now in
      let (f, emission) = EventFilter.observe s.emission_filter temporal now in
      (
        record s { consensus = c; emission_filter = f },
        record {
          frame_result = frame;
          temporal = temporal;
          emission = emission;
          temporal_observation_applied = true;
          ambiguous_frame = false;
        },
      )
  take_frame s frame now (first ∷ second ∷ rest) = (
    s,
    record {
      frame_result = frame;
      temporal = no_temporal (Consensus.history_size s.consensus);
      emission = no_emission;
      temporal_observation_applied = false;
      ambiguous_frame = true;
    },
  )

  -- `recognize_at`, which is `recognize` at the present time. A call that throws leaves the session
  -- as it was; what the pipeline throws, of whatever class, goes through.
  unfoldable pub recognize_at :
      RecognitionStreamSession F D
      → Outcome (LprPipelineResult F D)
      → ℕ
      → RecognitionStreamSession F D × Outcome (RecognitionStreamSessionResult F D)
  recognize_at s outcome now =
      if s.is_closed
      then (s, throws (engine_error configuration))
      else if goes_back s.last_timestamp now
      then (s, throws (engine_error configuration))
      else elim outcome [
        | throws e ↦ (s, throws e)
        | returns frame ↦
            let (t, output) =
              take_frame (record s { last_timestamp = some now }) frame now frame.recognitions in
            (t, returns output)
      ]

  unfoldable pub reset : RecognitionStreamSession F D → Result (RecognitionStreamSession F D)
  reset s =
      if s.is_closed
      then err configuration
      else ok (record s {
        consensus = Consensus.reset s.consensus;
        emission_filter = EventFilter.reset s.emission_filter;
        last_timestamp = none;
      })

  unfoldable pub close : RecognitionStreamSession F D → RecognitionStreamSession F D
  close s = if s.is_closed then s else record s {
    consensus = Consensus.reset s.consensus;
    emission_filter = EventFilter.reset s.emission_filter;
    last_timestamp = none;
    is_closed = true;
  }

module _ {F D : Type 0} where
  unfoldable pub history_size : RecognitionStreamSession F D → ℕ
  history_size s = Consensus.history_size s.consensus

  unfoldable pub emission_stats : RecognitionStreamSession F D → StablePlateEventFilterStats
  emission_stats s = s.emission_filter.stats
