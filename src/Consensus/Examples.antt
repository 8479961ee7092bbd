-- ===== src/Consensus/Examples.antt =====
-- The theorems on the consensus at two frames of one plate.
use fac_lpr_engine.Prelude.{
  ℕ, ◌≤◌, ◌≡◌, refl, some, List, [], ◌∷◌, arith, length, All, Text, text_eq, text_lt, pos,
}
use fac_lpr_engine.Float.{Milli, milli_float, Milli-IsOrdered, fmax, clamp}
use fac_lpr_engine.OrderedMap.{upsert}
use fac_lpr_engine.Samples.{first_plate, second_plate, recognized}
use fac_lpr_engine.Domain.{PlateRecognitionResult}
use fac_lpr_engine.Consensus.{
  TemporalPlateConsensusConfig, TemporalPlateConsensus, Observation, Aggregate, Leader, no_votes,
  observe, report, report_of, judge, aggregate, count_frame, is_eligible, vote, find_winner,
  challenge, next_history, expire, trim,
}
use fac_lpr_engine.Consensus.Stable.{IsStable, observe-IsStable}
use fac_lpr_engine.Consensus.Window.{IsOrdered, EndsWith, IsFresh, next_history-window}
use fac_lpr_engine.Consensus.Winner.{Leads, find_winner-Leads}

abbrev config : TemporalPlateConsensusConfig Milli
config = record {
  max_history = 3;
  history_ttl = pos 1000;
  minimum_supporting_frames = 2;
  minimum_frame_confidence = some 500;
  stable_confidence_threshold = some 800;
  conflict_margin = some 100;
}

abbrev seen : List (Observation Milli Milli)
seen = record { result = recognized first_plate 900; timestamp = 10 } ∷ []

abbrev consensus : TemporalPlateConsensus Milli Milli
consensus = record { config = config; history = seen }

abbrev frame : PlateRecognitionResult Milli Milli
frame = recognized first_plate 800

abbrev stable : PlateRecognitionResult Milli Milli
stable = recognized first_plate 1000

two_frames : (observe consensus frame 20).1.stable_result ≡ some stable
unfolding observe report report_of judge aggregate count_frame is_eligible vote find_winner
    challenge next_history expire trim upsert text_eq text_lt fmax clamp
two_frames = refl

observe-IsStable_example :
    IsStable config (observe consensus frame 20).0.history (observe consensus frame 20).1 stable
observe-IsStable_example = observe-IsStable consensus frame 20 two_frames

next_history-window_example :
    (length (next_history config seen frame 20) ≤ 3)
    × EndsWith (record { result = frame; timestamp = 20 }) (next_history config seen frame 20)
    × IsOrdered 20 (next_history config seen frame 20)
    × All (IsFresh 1000 20) (next_history config seen frame 20)
next_history-window_example =
    next_history-window config seen frame 20 1000 (omega arith) refl (omega arith, tt, tt)

abbrev support_of : ℕ → Aggregate Milli Milli
support_of support = record no_votes {
  weighted_support = some support;
  frames = 1;
  best = some frame;
}

abbrev entries : List (Text × Aggregate Milli Milli)
entries = (first_plate, support_of 500) ∷ (second_plate, support_of 700) ∷ []

abbrev start : Leader Milli Milli
start = ((first_plate, support_of 500), some 0)

find_winner-Leads_example : All (Leads (find_winner start entries)) entries
find_winner-Leads_example =
    find_winner-Leads Milli-IsOrdered start entries (refl, refl) (refl, (refl, tt))
