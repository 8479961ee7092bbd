-- ===== src/Consensus.antt =====
-- src/application/temporal_plate_consensus.cpp: which plate the recent frames of a stream agree on.
-- The deque `history_` is a list, oldest first. `best` holds the frame that the pointer points to.
-- `frames` counts frames of the history, of which there are at most 1024, so it does not wrap.
pub mod Window
pub mod Votes
pub mod Winner
pub mod Stable
mod Examples
use fac_lpr_engine.Prelude.{
  ℕ, zero, suc, ◌+◌, ◌-◌, ◌*◌, ◌/◌, ◌%◌, ◌^◌, ◌≤◌, ◌<◌, ◌≡◌, refl, sym, ap, ◌∙◌, subst, ◌≢◌, ◌↔◌,
  ◌⊎◌, inl, inr, Bool, true, false, not, ◌&&◌, ◌||◌, Option, none, some, List, [], ◌∷◌, ◌++◌, map,
  arith, length, length-append, All, take, get_elem?, All-append, length-take-le, ltb, leb, ◌==◌,
  if◌then◌else◌, Bool-cases, Option-cases, size_mod, wrap_add, Text, is_empty, text_eq, text_lt, ℤ,
  pos, negsuc, is_negative, is_positive, exceeds, elapsed_lt, elapsed_le, text_eq_refl,
  eq_of_text_eq, text_lt_irrefl, text_lt_trans, text_lt_total, text_eq_of_lt, text_eq_sym,
}
use fac_lpr_engine.Errors.{
  Result, ok, err, ◌>>=◌, ◌>>◌, throw_if, EngineErrorCode, configuration, provider, inference,
  invalid_image, resource_exhausted, internal, cancelled, timeout, >>=-eq-ok,
}
use fac_lpr_engine.Float.{Float, fmax, clamp, is_probability}
use fac_lpr_engine.Domain.{
  PlateRecognitionResult, is_accepted, RecognitionStatus, RecognitionDecisionReason,
}
use fac_lpr_engine.OrderedMap.{upsert}

pub record TemporalPlateConsensusConfig (F : Type 0) : Type 0 where
  pub max_history : ℕ
  pub history_ttl : ℤ
  pub minimum_supporting_frames : ℕ
  pub minimum_frame_confidence : F
  pub stable_confidence_threshold : F
  pub conflict_margin : F

pub record TemporalConsensusResult (F D : Type 0) : Type 0 where
  pub stable_result : Option (PlateRecognitionResult F D)
  pub history_size : ℕ
  pub supporting_frames : ℕ
  pub support : F

pub record Observation (F D : Type 0) : Type 0 where
  pub result : PlateRecognitionResult F D
  pub timestamp : ℕ

pub record TemporalPlateConsensus (F D : Type 0) : Type 0 where
  pub config : TemporalPlateConsensusConfig F
  pub history : List (Observation F D)

pub record Aggregate (F D : Type 0) : Type 0 where
  pub weighted_support : F
  pub frames : ℕ
  pub best : Option (PlateRecognitionResult F D)

abbrev pub Aggregates : Type 0 → Type 0 → Type 0
Aggregates F D = List (Text × Aggregate F D)

-- The winner so far and the support of the runner-up.
abbrev pub Leader : Type 0 → Type 0 → Type 0
Leader F D = (Text × Aggregate F D) × F

module _ {F D : Type 0} where
  -- `while (!history_.empty())` of `expire`
  unfoldable pub expire : ℤ → ℕ → List (Observation F D) → List (Observation F D)
  expire ttl now [] = []
  expire ttl now (oldest ∷ rest) =
      let popped = expire ttl now rest in
      if ltb now oldest.timestamp || elapsed_le (now - oldest.timestamp) ttl
      then oldest ∷ rest
      else popped

  -- `while (history_.size() > config_.max_history)`
  unfoldable pub trim : ℕ → List (Observation F D) → List (Observation F D)
  trim max_history [] = []
  trim max_history (oldest ∷ rest) =
      let popped = trim max_history rest in
      if ltb max_history (length (oldest ∷ rest)) then popped else oldest ∷ rest

  -- The history after `observe` has taken a frame in.
  unfoldable pub next_history :
      TemporalPlateConsensusConfig F
      → List (Observation F D)
      → PlateRecognitionResult F D
      → ℕ
      → List (Observation F D)
  next_history config history frame now =
      trim config.max_history
        (expire config.history_ttl now history ++ (record { result = frame; timestamp = now } ∷ []))

  unfoldable pub reset : TemporalPlateConsensus F D → TemporalPlateConsensus F D
  reset c = record c { history = [] }

  unfoldable pub history_size : TemporalPlateConsensus F D → ℕ
  history_size c = length c.history

module _ {F : Type 0} ⦃fl : Float F⦄ where
  unfoldable pub check_config : TemporalPlateConsensusConfig F → Result (Unit {0})
  check_config config = do
    throw_if (config.max_history == 0 || ltb 1024 config.max_history) configuration
    throw_if (not (is_positive config.history_ttl)) configuration
    throw_if
        (config.minimum_supporting_frames == 0
          || ltb config.max_history config.minimum_supporting_frames)
        configuration
    throw_if (not (is_probability config.minimum_frame_confidence)) configuration
    throw_if (not (is_probability config.stable_confidence_threshold)) configuration
    throw_if (not (is_probability config.conflict_margin)) configuration

module _ {F D : Type 0} ⦃fl : Float F⦄ where
  unfoldable pub make_consensus :
      TemporalPlateConsensusConfig F → Result (TemporalPlateConsensus F D)
  unfolding check_config
  make_consensus config = do check_config config; ok (record { config = config; history = [] })

  -- The frames that vote.
  unfoldable pub is_eligible : TemporalPlateConsensusConfig F → PlateRecognitionResult F D → Bool
  is_eligible config result = not (
      is_empty result.plate
      || not (is_accepted result.status)
      || not (fl.is_finite result.confidence)
      || fl.lt result.confidence config.minimum_frame_confidence
      || fl.lt fl.one result.confidence)

  -- One vote for a plate: its weight, its count, and the best frame so far.
  unfoldable pub vote : PlateRecognitionResult F D → Aggregate F D → Aggregate F D
  vote result a = record {
    weighted_support = fl.add a.weighted_support result.confidence;
    frames = a.frames + 1;
    best = elim a.best [
      | none ↦ some result
      | some best ↦ if fl.lt best.confidence result.confidence then some result else some best
    ];
  }

  abbrev pub no_votes : Aggregate F D
  no_votes = record { weighted_support = fl.nought; frames = 0; best = none }

  -- One frame of the history: a vote if it is eligible, and no change if not.
  unfoldable pub count_frame :
      TemporalPlateConsensusConfig F
      → PlateRecognitionResult F D
      → Aggregates F D × F
      → Aggregates F D × F
  count_frame config result (m, total) =
      if is_eligible config result
      then (upsert result.plate no_votes (vote result) m, fl.add total result.confidence)
      else (m, total)

  -- The loop over `history_`, from the aggregates and the total so far.
  unfoldable pub aggregate :
      TemporalPlateConsensusConfig F
      → List (Observation F D)
      → Aggregates F D × F
      → Aggregates F D × F
  aggregate config [] acc = acc
  aggregate config (o ∷ os) acc = aggregate config os (count_frame config o.result acc)

  -- One round of the loop that looks for the winner: the winner and the support of the runner-up.
  unfoldable pub challenge : Leader F D → Text × Aggregate F D → Leader F D
  challenge ((key, w), runner_up) (k, a) =
      if fl.lt w.weighted_support a.weighted_support
        || fl.eq a.weighted_support w.weighted_support && text_lt k key
      then ((k, a), fmax runner_up w.weighted_support)
      else if not (text_eq k key)
      then ((key, w), fmax runner_up a.weighted_support)
      else ((key, w), runner_up)

  unfoldable pub find_winner : Leader F D → Aggregates F D → Leader F D
  find_winner leader [] = leader
  find_winner leader (e ∷ es) = find_winner (challenge leader e) es

  abbrev pub undecided : ℕ → TemporalConsensusResult F D
  undecided size = record {
    stable_result = none;
    history_size = size;
    supporting_frames = 0;
    support = fl.nought;
  }

  -- What `observe` reports once the winner is known.
  unfoldable pub judge :
      TemporalPlateConsensusConfig F → ℕ → F → Leader F D → TemporalConsensusResult F D
  judge config size total ((key, w), runner_up) =
      let support = clamp (fl.div w.weighted_support total) fl.nought fl.one in
      let ratio = clamp (fl.div runner_up total) fl.nought fl.one in
      let has_margin = fl.le config.conflict_margin (fl.sub support ratio) in
      let output : TemporalConsensusResult F D = record {
        stable_result = none;
        history_size = size;
        supporting_frames = w.frames;
        support = support;
      } in
      if ltb w.frames config.minimum_supporting_frames
        || fl.lt support config.stable_confidence_threshold
        || not has_margin
      then output
      else elim w.best [
        | none ↦ output
        | some best ↦ record output {
          stable_result = some (record best {
            plate = key;
            confidence = support;
            status = RecognitionStatus.accepted;
            decision_reasons = RecognitionDecisionReason.accepted_consensus ∷ [];
          });
        }
      ]

  -- What `observe` reports, from the size of the history and the aggregates over it.
  unfoldable pub report_of :
      TemporalPlateConsensusConfig F → ℕ → Aggregates F D × F → TemporalConsensusResult F D
  report_of config size ([], total) = undecided size
  report_of config size (e ∷ es, total) =
      if fl.le total fl.nought
      then undecided size
      else judge config size total (find_winner (e, fl.nought) (e ∷ es))

  unfoldable pub report :
      TemporalPlateConsensusConfig F → List (Observation F D) → TemporalConsensusResult F D
  report config history =
      report_of config (length history) (aggregate config history ([], fl.nought))

  unfoldable pub observe :
      TemporalPlateConsensus F D
      → PlateRecognitionResult F D
      → ℕ
      → TemporalPlateConsensus F D × TemporalConsensusResult F D
  observe c frame now =
      let history = next_history c.config c.history frame now in
      (record c { history = history }, report c.config history)
