-- ===== src/Session/Emissions.antt =====
-- The events of a session over a stream of frames.
use fac_lpr_engine.Prelude.{
  ℕ, ◌+◌, ◌*◌, ◌≤◌, ◌≡◌, refl, ap, ◌∙◌, subst, ◌⊎◌, inl, inr, false, Option, none, some, List, [],
  ◌∷◌, ◌++◌, arith, Bool-cases, Text, text_eq, pos, nanos_per_milli,
}
use fac_lpr_engine.Effects.{Outcome, returns, throws}
use fac_lpr_engine.Float.{Float}
use fac_lpr_engine.Domain.{PlateRecognitionResult}
use fac_lpr_engine.Pipeline.{LprPipelineResult}
use fac_lpr_engine.Consensus
use fac_lpr_engine.EventFilter.Spacing.{Event, Spaced, event_of, last_event, observe-Observed}
use fac_lpr_engine.Session.{
  RecognitionStreamSession, RecognitionStreamSessionResult, goes_back, take_frame, recognize_at,
}

-- Each event is of another plate than the one before it, or came later by the cooldown at least.
abbrev pub Separated : ℕ → Option Event → List Event → Type 0
Separated millis last [] = Unit
Separated millis none ((p, t) ∷ es) = Separated millis (some (p, t)) es
Separated millis (some (q, u)) ((p, t) ∷ es) =
    ((text_eq q p ≡ false) ⊎ (u + millis * nanos_per_milli ≤ t)) × Separated millis (some (p, t)) es

-- The last event is not later than the last frame.
abbrev pub Behind : Option Event → Option ℕ → Type 0
Behind none last = Unit
Behind (some (p, u)) none = ⊥
Behind (some (p, u)) (some t) = u ≤ t

Behind-now :
    (l : Option Event) (last : Option ℕ) (now : ℕ)
    → Behind l last
    → goes_back last now ≡ false
    → Behind l (some now)
Behind-now none last now b h = tt
Behind-now (some (p, u)) none now b h = absurd b
Behind-now (some (p, u)) (some t) now b h = ground arith

Separated-of_Spaced :
    (millis : ℕ) (l : Option Event) (p : Text) (now : ℕ)
    → Behind l (some now)
    → Spaced millis l ((p, now) ∷ [])
    → Separated millis l ((p, now) ∷ [])
Separated-of_Spaced millis none p now b h = tt
Separated-of_Spaced millis (some (q, u)) p now b h = (ground arith, tt)

Separated-cons :
    (millis : ℕ) (last : Option Event) (e : Event) (es : List Event)
    → Separated millis last (e ∷ [])
    → Separated millis (some e) es
    → Separated millis last (e ∷ es)
Separated-cons millis none (p, t) es h k = k
Separated-cons millis (some (q, u)) (p, t) es h k = (h.0, k)

module _ {F D : Type 0} where
  abbrev pub emitted_by : ℕ → Outcome (RecognitionStreamSessionResult F D) → List Event
  emitted_by now (throws e) = []
  emitted_by now (returns out) = event_of now out.emission.emitted_result

module _ {F D : Type 0} ⦃fl : Float F⦄ where
  unfoldable pub session_events :
      RecognitionStreamSession F D → List (Outcome (LprPipelineResult F D) × ℕ) → List Event
  session_events s [] = []
  session_events s ((outcome, now) ∷ rest) =
      let (t, result) = recognize_at s outcome now in emitted_by now result ++ session_events t rest

  -- One call: no event, and what is remembered stays, or an event at its distance.
  abbrev Step :
      RecognitionStreamSession F D → ℕ → ℕ → RecognitionStreamSession F D → List Event → Type 0
  Step s millis now t es =
      (t.emission_filter.config ≡ s.emission_filter.config)
      × Behind (last_event t.emission_filter) t.last_timestamp
      × (((es ≡ []) × (last_event t.emission_filter ≡ last_event s.emission_filter))
          ⊎ ((p : Text) × (es ≡ (p, now) ∷ [])
              × (last_event t.emission_filter ≡ some (p, now))
              × Separated millis (last_event s.emission_filter) ((p, now) ∷ [])))

  take_frame-Step :
      (s : RecognitionStreamSession F D) (frame : LprPipelineResult F D) (now millis : ℕ)
      (plates : List (PlateRecognitionResult F D))
      → s.emission_filter.config.duplicate_cooldown ≡ pos millis
      → s.last_timestamp ≡ some now
      → Behind (last_event s.emission_filter) (some now)
      → let (t, out) = take_frame s frame now plates in
        Step s millis now t (event_of now out.emission.emitted_result)
  unfolding take_frame
  take_frame-Step s frame now millis [] h l b = rw l (refl, b, inl (refl, refl))
  take_frame-Step s frame now millis (only ∷ []) h l b =
      let f = s.emission_filter in
      let temporal = (Consensus.observe s.consensus only now).1 in
      let (same, either) = observe-Observed f temporal now millis h in
      elim either [
        | inl (e, k) ↦ rw (l, e) (same, rw k b, inl (refl, k))
        | inr (r, e, k, d) ↦
            rw (l, e)
              (
                same,
                rw k (omega arith),
                inr (r.plate, refl, k, Separated-of_Spaced millis (last_event f) r.plate now b d),
              )
      ]
  take_frame-Step s frame now millis (a ∷ b' ∷ rest) h l b = rw l (refl, b, inl (refl, refl))

  recognize_at-Step :
      (s : RecognitionStreamSession F D) (outcome : Outcome (LprPipelineResult F D))
      (now millis : ℕ)
      → s.emission_filter.config.duplicate_cooldown ≡ pos millis
      → Behind (last_event s.emission_filter) s.last_timestamp
      → Step s millis now
          (recognize_at s outcome now).0
          (emitted_by now (recognize_at s outcome now).1)
  unfolding recognize_at
  recognize_at-Step s (throws x) now millis h behind = elim (Bool-cases s.is_closed) [
    | inl e ↦ rw e (refl, behind, inl (refl, refl))
    | inr e ↦ elim (Bool-cases (goes_back s.last_timestamp now)) [
      | inl g ↦ rw (e, g) (refl, behind, inl (refl, refl))
      | inr g ↦ rw (e, g) (refl, behind, inl (refl, refl))
    ]
  ]
  recognize_at-Step s (returns frame) now millis h behind = elim (Bool-cases s.is_closed) [
    | inl e ↦ rw e (refl, behind, inl (refl, refl))
    | inr e ↦ elim (Bool-cases (goes_back s.last_timestamp now)) [
      | inl g ↦ rw (e, g) (refl, behind, inl (refl, refl))
      | inr g ↦
          rw (e, g)
            (take_frame-Step (record s { last_timestamp = some now; is_closed = false }) frame now
              millis frame.recognitions h refl
              (Behind-now (last_event s.emission_filter) s.last_timestamp now behind g))
    ]
  ]

  -- In a stream of frames in which no call resets the session, with a cooldown that is not
  -- negative, two events in a row are of different plates or at least the cooldown apart, whatever
  -- the timestamps and errors of the calls are. The first event is compared with the last one that
  -- the session remembers, which must lie behind the last timestamp; a new session remembers none.
  pub session_events-Separated :
      (s : RecognitionStreamSession F D) (frames : List (Outcome (LprPipelineResult F D) × ℕ))
      (millis : ℕ)
      → s.emission_filter.config.duplicate_cooldown ≡ pos millis
      → Behind (last_event s.emission_filter) s.last_timestamp
      → Separated millis (last_event s.emission_filter) (session_events s frames)
  unfolding session_events
  session_events-Separated s [] millis h b = tt
  session_events-Separated s ((outcome, now) ∷ rest) millis h b =
      let t = (recognize_at s outcome now).0 in
      let (same, b', either) = recognize_at-Step s outcome now millis h b in
      let rest' : Separated millis (last_event t.emission_filter) (session_events t rest) =
        session_events-Separated t rest millis (ap (λ x. x.duplicate_cooldown) same ∙ h) b' in
      elim either [
        | inl (e, k) ↦ rw e (subst (λ x. Separated millis x (session_events t rest)) k rest')
        | inr (p, e, k, d) ↦ rw e (
            Separated-cons millis (last_event s.emission_filter) (p, now) (session_events t rest) d
              (subst (λ x. Separated millis x (session_events t rest)) k rest'))
      ]
