-- ===== src/Consensus/Stable.antt =====
-- A stable result is backed by the frames of the window.
use native.Mathlib.Nat.{zero-add}
use fac_lpr_engine.Prelude.{
  ℕ, ◌≤◌, ◌≡◌, sym, ◌∙◌, inl, inr, true, false, some, List, [], ◌∷◌, arith, length, All, Bool-cases,
  Text,
}
use fac_lpr_engine.Float.{Float}
use fac_lpr_engine.Domain.{PlateRecognitionResult, RecognitionStatus, RecognitionDecisionReason}
use fac_lpr_engine.OrderedMap.{lookup}
use fac_lpr_engine.OrderedMap.Laws.{lookup-entries}
use fac_lpr_engine.Consensus.{
  TemporalPlateConsensusConfig, TemporalConsensusResult, TemporalPlateConsensus, Observation,
  Aggregates, Leader, is_eligible, aggregate, find_winner, judge, report, report_of, observe,
  next_history,
}
use fac_lpr_engine.Consensus.Votes.{
  votes, frames_of, Occurs, IsBacked, aggregate-IsSorted, frames_of-aggregate, aggregate-IsBacked,
  Occurs-self,
}
use fac_lpr_engine.Consensus.Winner.{find_winner-P}

module _ {F D : Type 0} ⦃fl : Float F⦄ where
  -- What a stable result `r` in the report `out` over a history rests on.
  pub record IsStable (config : TemporalPlateConsensusConfig F) (history : List (Observation F D))
      (out : TemporalConsensusResult F D) (r : PlateRecognitionResult F D) : Type 0 where
    -- The supporting frames are the eligible frames of its plate, and they are enough.
    pub counted : out.supporting_frames ≡ votes config r.plate history
    pub enough : config.minimum_supporting_frames ≤ out.supporting_frames
    -- The support reaches the threshold and is the confidence.
    pub reached : fl.lt out.support config.stable_confidence_threshold ≡ false
    pub confidence : r.confidence ≡ out.support
    pub accepted : r.status ≡ RecognitionStatus.accepted
    pub reasons : r.decision_reasons ≡ RecognitionDecisionReason.accepted_consensus ∷ []
    -- All else is taken from an eligible frame of the history that shows the plate.
    pub frame :
        (best : PlateRecognitionResult F D) × Occurs best history
        × (is_eligible config best ≡ true)
        × (best.plate ≡ r.plate)
        × (r ≡ record best {
          confidence = out.support;
          status = RecognitionStatus.accepted;
          decision_reasons = RecognitionDecisionReason.accepted_consensus ∷ [];
        })

  judge-IsStable :
      (config : TemporalPlateConsensusConfig F) (history : List (Observation F D)) (size : ℕ)
      (total : F) (leader : Leader F D) {r : PlateRecognitionResult F D}
      → leader.0.1.frames ≡ votes config leader.0.0 history
      → IsBacked config history leader.0
      → (judge config size total leader).stable_result ≡ some r
      → IsStable config history (judge config size total leader) r
  unfolding judge
  judge-IsStable config history size total ((key, w), runner_up) {r} counted
        (best, p, occurs, eligible, shows) h =
      let out = judge config size total ((key, w), runner_up) in
      let size_of : out.supporting_frames ≡ w.frames = ground arith in
      let plate_of : r.plate ≡ key = ground arith in
      record {
        counted = rw (size_of, plate_of) counted;
        enough = ground arith;
        reached = ground arith;
        confidence = ground arith;
        accepted = ground arith;
        reasons = ground arith;
        frame = (best, occurs, eligible, shows ∙ sym plate_of, ground arith);
      }

  entries_below :
      (config : TemporalPlateConsensusConfig F) (history : List (Observation F D))
      (m : Aggregates F D)
      → ((plate : Text) → frames_of plate m ≡ votes config plate history)
      → (n : Aggregates F D) → All (λ e. lookup e.0 m ≡ some e.1) n
      → All (IsBacked config history) n
      → All (λ e. (e.1.frames ≡ votes config e.0 history) × IsBacked config history e) n
  entries_below config history m counts [] found backed = tt
  entries_below config history m counts ((k, a) ∷ n) found backed = (
    (ground (arith, counts k), backed.0),
    entries_below config history m counts n found.1 backed.1,
  )

  -- The entries of the aggregates over a whole history.
  entries_lem :
      (config : TemporalPlateConsensusConfig F) (history : List (Observation F D))
      → All
          (λ e. (e.1.frames ≡ votes config e.0 history) × IsBacked config history e)
          (aggregate config history ([], fl.nought)).0
  unfolding lookup
  entries_lem config history =
      let m = (aggregate config history ([], fl.nought)).0 in
      let sorted = aggregate-IsSorted config history ([], fl.nought) tt in
      let counts : (plate : Text) → frames_of plate m ≡ votes config plate history =
        λ plate. frames_of-aggregate config plate history ([], fl.nought) tt ∙ zero-add _ in
      entries_below config history m counts m (lookup-entries m sorted)
        (aggregate-IsBacked config history history ([], fl.nought) (Occurs-self history) tt)

  judged-IsStable :
      (config : TemporalPlateConsensusConfig F) (history : List (Observation F D)) (size : ℕ)
      (acc : Aggregates F D × F) {r : PlateRecognitionResult F D}
      → All (λ e. (e.1.frames ≡ votes config e.0 history) × IsBacked config history e) acc.0
      → (report_of config size acc).stable_result ≡ some r
      → IsStable config history (report_of config size acc) r
  unfolding report_of
  judged-IsStable config history size ([], total) all h = cc
  judged-IsStable config history size (e ∷ es, total) {r} all h =
      elim (Bool-cases (fl.le total fl.nought)) [
        | inl x ↦ absurd (ground arith)
        | inr x ↦
            let winner = find_winner (e, fl.nought) (e ∷ es) in
            let (counted, backed) =
              find_winner-P
                (λ e. (e.1.frames ≡ votes config e.0 history) × IsBacked config history e)
                (e, fl.nought) (e ∷ es) all.0 all in
            rw x (judge-IsStable config history size total winner counted backed (rw x at h))
      ]

  -- Whatever the history, a stable result in the report over it is of a plate that at least
  -- `minimum_supporting_frames` eligible frames of the history show: `supporting_frames` is their
  -- exact number. It repeats one of these frames, with the support as its confidence, which is not
  -- below the threshold.
  pub report-IsStable :
      (config : TemporalPlateConsensusConfig F) (history : List (Observation F D))
      {r : PlateRecognitionResult F D}
      → (report config history).stable_result ≡ some r
      → IsStable config history (report config history) r
  unfolding report
  report-IsStable config history h =
      judged-IsStable config history (length history) _ (entries_lem config history) h

  -- The stable result that `observe` returns is backed by the history that `observe` leaves: its
  -- plate is shown by exactly `supporting_frames` eligible frames there, at least
  -- `minimum_supporting_frames`; it repeats one of them, with status accepted and the support as
  -- its confidence, which is not below the threshold.
  pub observe-IsStable :
      (c : TemporalPlateConsensus F D) (frame : PlateRecognitionResult F D) (now : ℕ)
      {r : PlateRecognitionResult F D}
      → (observe c frame now).1.stable_result ≡ some r
      → IsStable c.config (observe c frame now).0.history (observe c frame now).1 r
  unfolding observe
  observe-IsStable c frame now h =
      report-IsStable c.config (next_history c.config c.history frame now) h
