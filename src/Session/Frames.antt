-- ===== src/Session/Frames.antt =====
-- One call of a session: its errors, and what an event rests on.
use fac_lpr_engine.Prelude.{
  ℕ, ◌≡◌, refl, sym, ap, ◌∙◌, ◌⊎◌, true, false, some, List, [], ◌∷◌, arith,
}
use fac_lpr_engine.Errors.{configuration}
use fac_lpr_engine.Effects.{Exception, engine_error, Outcome, returns, throws}
use fac_lpr_engine.Float.{Float}
use fac_lpr_engine.Domain.{PlateRecognitionResult}
use fac_lpr_engine.Pipeline.{LprPipelineResult}
use fac_lpr_engine.Consensus.{TemporalConsensusResult}
use fac_lpr_engine.Consensus.Stable.{IsStable, observe-IsStable}
use fac_lpr_engine.EventFilter
use fac_lpr_engine.EventFilter.{StablePlateEventFilter, StablePlateEventFilterResult}
use fac_lpr_engine.Session.{
  RecognitionStreamSession, RecognitionStreamSessionResult, goes_back, take_frame, recognize_at,
}

module _ {F D : Type 0} ⦃fl : Float F⦄ where
  -- A call that throws leaves the session as it was; it throws because the session is closed, because
  -- the timestamp goes back, or because the pipeline threw, and in the first two cases a
  -- configuration error. What the pipeline threw goes through, of whatever class it is.
  pub recognize_at-err :
      (s : RecognitionStreamSession F D) (outcome : Outcome (LprPipelineResult F D)) (now : ℕ)
      {e : Exception}
      → (recognize_at s outcome now).1 ≡ throws e
      → ((recognize_at s outcome now).0 ≡ s)
        × (((s.is_closed ≡ true) × (e ≡ engine_error configuration))
            ⊎ (((goes_back s.last_timestamp now ≡ true) × (e ≡ engine_error configuration))
                ⊎ (outcome ≡ throws e)))
  unfolding recognize_at
  recognize_at-err s (throws x) now h = ground arith
  recognize_at-err s (returns frame) now h = ground arith

  -- A call that succeeds, after the pipeline returned `frame`.
  pub recognize_at-ok :
      (s : RecognitionStreamSession F D) (outcome : Outcome (LprPipelineResult F D)) (now : ℕ)
      {output : RecognitionStreamSessionResult F D}
      → (recognize_at s outcome now).1 ≡ returns output
      → (s.is_closed ≡ false)
        × (goes_back s.last_timestamp now ≡ false)
        × (frame : LprPipelineResult F D) × (outcome ≡ returns frame)
        × ((recognize_at s outcome now).0
            ≡ (take_frame (record s { last_timestamp = some now }) frame now frame.recognitions).0)
        × (output
            ≡ (take_frame (record s { last_timestamp = some now }) frame now frame.recognitions).1)
  unfolding recognize_at
  recognize_at-ok s (throws x) now h = absurd (ground arith)
  recognize_at-ok s (returns frame) now h =
      (ground arith, ground arith, frame, refl, ground arith, ground arith)

  -- The filter emits what the consensus calls stable, and nothing else.
  observe-emitted :
      (f : StablePlateEventFilter F D) (c : TemporalConsensusResult F D) (now : ℕ)
      {r : PlateRecognitionResult F D}
      → (EventFilter.observe f c now).1.emitted_result ≡ some r
      → c.stable_result ≡ some r
  unfolding EventFilter.observe
  observe-emitted f c now h = ground arith

  take_frame-emitted :
      (s : RecognitionStreamSession F D) (frame : LprPipelineResult F D) (now : ℕ)
      (plates : List (PlateRecognitionResult F D)) {r : PlateRecognitionResult F D}
      → (take_frame s frame now plates).1.emission.emitted_result ≡ some r
      → IsStable s.consensus.config
          (take_frame s frame now plates).0.consensus.history
          (take_frame s frame now plates).1.temporal
          r
  unfolding take_frame
  take_frame-emitted s frame now [] h = absurd (ground arith)
  take_frame-emitted s frame now (a ∷ []) h =
      observe-IsStable s.consensus a now (observe-emitted s.emission_filter _ now h)
  take_frame-emitted s frame now (a ∷ b ∷ rest) h = absurd (ground arith)

  -- Every event of a session is a stable result: the history that the call leaves holds at least
  -- `minimum_supporting_frames` eligible frames of its plate, and the event repeats one of them.
  pub emission-IsStable :
      (s : RecognitionStreamSession F D) (outcome : Outcome (LprPipelineResult F D)) (now : ℕ)
      {output : RecognitionStreamSessionResult F D} {r : PlateRecognitionResult F D}
      → (recognize_at s outcome now).1 ≡ returns output
      → output.emission.emitted_result ≡ some r
      → IsStable s.consensus.config
          (recognize_at s outcome now).0.consensus.history
          output.temporal
          r
  emission-IsStable s outcome now {output} {r} h e =
      let (open_, forward, frame, o, same, out) = recognize_at-ok s outcome now h in
      let s' : RecognitionStreamSession F D = record s { last_timestamp = some now } in
      rw (same, out)
        (take_frame-emitted s' frame now frame.recognitions
          (sym (ap (λ x. x.emission.emitted_result) out) ∙ e))
