-- ===== src/Session/Examples.antt =====
-- The theorems on sessions at a short stream.
use fac_lpr_engine.Prelude.{
  ℕ, ◌≡◌, refl, ◌⊎◌, true, false, arith, none, some, List, [], ◌∷◌, text_eq, text_lt, pos,
}
use fac_lpr_engine.Errors.{configuration}
use fac_lpr_engine.Effects.{engine_error, foreign, Outcome, returns, throws}
use fac_lpr_engine.Float.{Milli, milli_float, fmax, clamp}
use fac_lpr_engine.OrderedMap.{upsert}
use fac_lpr_engine.Samples.{first_plate, second_plate, recognized, frame_with}
use fac_lpr_engine.Domain.{PlateRecognitionResult}
use fac_lpr_engine.Pipeline.{LprPipelineResult}
use fac_lpr_engine.Consensus
use fac_lpr_engine.Consensus.{
  report, report_of, judge, aggregate, count_frame, is_eligible, vote, find_winner, challenge,
  next_history, expire, trim,
}
use fac_lpr_engine.Consensus.Stable.{IsStable}
use fac_lpr_engine.EventFilter
use fac_lpr_engine.EventFilter.{no_stats, inside_cooldown, same_plate}
use fac_lpr_engine.EventFilter.Spacing.{last_event}
use fac_lpr_engine.Session.{
  RecognitionStreamSession, RecognitionStreamSessionResult, goes_back, take_frame, recognize_at,
}
use fac_lpr_engine.Session.Frames.{recognize_at-err, emission-IsStable}
use fac_lpr_engine.Session.Single.{session_events-single_frames}
use fac_lpr_engine.Session.Emissions.{Separated, session_events, session_events-Separated}

abbrev session : RecognitionStreamSession Milli Milli
session = record {
  consensus = record {
    config = record {
      max_history = 3;
      history_ttl = pos 1000;
      minimum_supporting_frames = 1;
      minimum_frame_confidence = some 500;
      stable_confidence_threshold = some 800;
      conflict_margin = some 100;
    };
    history = [];
  };
  emission_filter = record {
    config = record { duplicate_cooldown = pos 1 };
    last_emitted = none;
    last_emitted_at = none;
    stats = no_stats;
  };
  last_timestamp = some 5;
  is_closed = false;
}

abbrev one_plate : LprPipelineResult Milli Milli
one_plate = frame_with (recognized first_plate 900 ∷ [])

abbrev two_plates : LprPipelineResult Milli Milli
two_plates = frame_with (recognized first_plate 900 ∷ recognized second_plate 900 ∷ [])

abbrev stream : List (Outcome (LprPipelineResult Milli Milli) × ℕ)
stream =
    (returns one_plate, 10)
    ∷ (throws foreign, 20)
    ∷ (returns two_plates, 30)
    ∷ (returns one_plate, 40)
    ∷ []

one_event : session_events session stream ≡ (first_plate, 10) ∷ []
unfolding session_events recognize_at take_frame Consensus.observe EventFilter.observe report
    report_of judge aggregate count_frame is_eligible vote find_winner challenge next_history expire
    trim upsert text_eq text_lt fmax clamp inside_cooldown same_plate
one_event = refl

session_events-Separated_example :
    Separated 1 (last_event session.emission_filter) (session_events session stream)
session_events-Separated_example = session_events-Separated session stream 1 refl tt

-- A failing call and a frame with two plates are left out.
session_events-single_frames_example :
    session_events session stream
    ≡ session_events session ((returns one_plate, 10) ∷ (returns one_plate, 40) ∷ [])
session_events-single_frames_example =
    session_events-single_frames session 10 stream refl
      (omega arith, (omega arith, (omega arith, (omega arith, tt))))

goes_back_to_3 :
    (recognize_at session (returns one_plate) 3).1 ≡ throws (engine_error configuration)
unfolding recognize_at
goes_back_to_3 = refl

recognize_at-err_example :
    ((recognize_at session (returns one_plate) 3).0 ≡ session)
    × (((false ≡ true) × (engine_error configuration ≡ engine_error configuration))
        ⊎ (((goes_back (some 5) 3 ≡ true)
              × (engine_error configuration ≡ engine_error configuration))
            ⊎ (returns one_plate ≡ throws (engine_error configuration))))
recognize_at-err_example = recognize_at-err session (returns one_plate) 3 goes_back_to_3

abbrev stable : PlateRecognitionResult Milli Milli
stable = recognized first_plate 1000

abbrev at_one_plate : RecognitionStreamSessionResult Milli Milli
at_one_plate = record {
  frame_result = one_plate;
  temporal = record {
    stable_result = some stable;
    history_size = 1;
    supporting_frames = 1;
    support = some 1000;
  };
  emission = record { emitted_result = some stable; duplicate_suppressed = false };
  temporal_observation_applied = true;
  ambiguous_frame = false;
}

emits : (recognize_at session (returns one_plate) 10).1 ≡ returns at_one_plate
unfolding recognize_at take_frame Consensus.observe EventFilter.observe report report_of judge
    aggregate count_frame is_eligible vote find_winner challenge next_history expire trim upsert
    text_eq text_lt fmax clamp inside_cooldown same_plate
emits = refl

emission-IsStable_example :
    IsStable session.consensus.config
      (recognize_at session (returns one_plate) 10).0.consensus.history
      at_one_plate.temporal
      stable
emission-IsStable_example = emission-IsStable session (returns one_plate) 10 emits refl
