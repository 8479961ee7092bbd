-- ===== src/Session/Single.antt =====
-- The frames that do not show exactly one plate, and the calls that fail.
use fac_lpr_engine.Prelude.{
  ℕ, ◌≤◌, ◌≡◌, refl, sym, ap, ◌∙◌, subst, inl, inr, Bool, true, false, Option, none, some, List, [],
  ◌∷◌, ◌++◌, arith, length, ◌==◌, Bool-cases, if◌then◌else◌,
}
use fac_lpr_engine.Effects.{Exception, Outcome, returns, throws}
use fac_lpr_engine.Float.{Float}
use fac_lpr_engine.Domain.{PlateRecognitionResult}
use fac_lpr_engine.Pipeline.{LprPipelineResult}
use fac_lpr_engine.Session.{
  RecognitionStreamSession, RecognitionStreamSessionResult, goes_back, take_frame, recognize_at,
}
use fac_lpr_engine.Session.Emissions.{emitted_by, session_events}

module _ {F D : Type 0} where
  abbrev pub shows_one : Outcome (LprPipelineResult F D) → Bool
  shows_one (throws e) = false
  shows_one (returns frame) = length frame.recognitions == 1

  -- The calls of a stream in which the pipeline returned exactly one plate.
  abbrev pub single_frames :
      List (Outcome (LprPipelineResult F D) × ℕ) → List (Outcome (LprPipelineResult F D) × ℕ)
  single_frames [] = []
  single_frames ((outcome, now) ∷ rest) =
      let tail = single_frames rest in if shows_one outcome then (outcome, now) ∷ tail else tail

  -- The timestamps do not go back, from `start` on.
  abbrev pub Ascends : ℕ → List (Outcome (LprPipelineResult F D) × ℕ) → Type 0
  Ascends start [] = Unit
  Ascends start ((outcome, now) ∷ rest) = (start ≤ now) × Ascends now rest

not_after_itself : (now : ℕ) → goes_back (some now) now ≡ false
not_after_itself now = ground arith

goes_back-later :
    (last : Option ℕ) (start now : ℕ)
    → goes_back last start ≡ false
    → start ≤ now
    → goes_back last now ≡ false
goes_back-later none start now h l = refl
goes_back-later (some t) start now h l = ground arith

module _ {F D : Type 0} ⦃fl : Float F⦄ where
  abbrev at : RecognitionStreamSession F D → Option ℕ → RecognitionStreamSession F D
  at s last = record s { last_timestamp = last }

  -- A call whose frame does not show exactly one plate gives no event, and changes the last timestamp
  -- at most.
  take_frame-quiet :
      (s : RecognitionStreamSession F D) (frame : LprPipelineResult F D) (now : ℕ)
      (plates : List (PlateRecognitionResult F D))
      → (length plates == 1) ≡ false
      → ((take_frame s frame now plates).0 ≡ s)
        × (emitted_by now (returns (take_frame s frame now plates).1) ≡ [])
  unfolding take_frame
  take_frame-quiet s frame now [] h = (refl, refl)
  take_frame-quiet s frame now (a ∷ []) h = absurd (ground arith)
  take_frame-quiet s frame now (a ∷ b ∷ rest) h = (refl, refl)

  take_frame-last :
      (s : RecognitionStreamSession F D) (frame : LprPipelineResult F D) (now : ℕ)
      (plates : List (PlateRecognitionResult F D))
      → (take_frame s frame now plates).0.last_timestamp ≡ s.last_timestamp
  unfolding take_frame
  take_frame-last s frame now [] = refl
  take_frame-last s frame now (a ∷ []) = refl
  take_frame-last s frame now (a ∷ b ∷ rest) = refl

  -- The state after the call is that of `s` with `last`, and there is no event.
  abbrev Quiet :
      RecognitionStreamSession F D
      → Option ℕ
      → ℕ
      → RecognitionStreamSession F D × Outcome (RecognitionStreamSessionResult F D)
      → Type 0
  Quiet s last now call = (call.0 ≡ at s last) × (emitted_by now call.1 ≡ [])

  recognize_at-throws :
      (s : RecognitionStreamSession F D) (last : Option ℕ) (e : Exception) (now : ℕ)
      → Quiet s last now (recognize_at (at s last) (throws e) now)
  unfolding recognize_at
  recognize_at-throws s last e now = ground arith

  recognize_at-closed :
      (s : RecognitionStreamSession F D) (last : Option ℕ)
      (outcome : Outcome (LprPipelineResult F D)) (now : ℕ)
      → s.is_closed ≡ true
      → Quiet s last now (recognize_at (at s last) outcome now)
  unfolding recognize_at
  recognize_at-closed s last outcome now h = rw h (refl, refl)

  -- An open session takes the frame, whatever its last timestamp was.
  recognize_at-takes :
      (s : RecognitionStreamSession F D) (last : Option ℕ) (frame : LprPipelineResult F D) (now : ℕ)
      → s.is_closed ≡ false
      → goes_back last now ≡ false
      → let taken = take_frame (at s (some now)) frame now frame.recognitions in
        recognize_at (at s last) (returns frame) now ≡ (taken.0, returns taken.1)
  unfolding recognize_at
  recognize_at-takes s last frame now h g = rw (h, g) refl

  session_events-Quiet :
      (s : RecognitionStreamSession F D) (before after : Option ℕ)
      (outcome : Outcome (LprPipelineResult F D)) (now : ℕ)
      (rest : List (Outcome (LprPipelineResult F D) × ℕ))
      → Quiet s after now (recognize_at (at s before) outcome now)
      → session_events (at s before) ((outcome, now) ∷ rest) ≡ session_events (at s after) rest
  unfolding session_events
  session_events-Quiet s before after outcome now rest (same, none_emitted) =
      ap (λ es. es ++ session_events (recognize_at (at s before) outcome now).0 rest) none_emitted
      ∙ ap (λ t. session_events t rest) same

  session_events-takes :
      (s : RecognitionStreamSession F D) (last : Option ℕ) (frame : LprPipelineResult F D) (now : ℕ)
      (rest : List (Outcome (LprPipelineResult F D) × ℕ))
      → s.is_closed ≡ false
      → goes_back last now ≡ false
      → let taken = take_frame (at s (some now)) frame now frame.recognitions in
        session_events (at s last) ((returns frame, now) ∷ rest)
        ≡ emitted_by now (returns taken.1) ++ session_events taken.0 rest
  unfolding session_events
  session_events-takes s last frame now rest h g =
      ap (λ call. emitted_by now call.1 ++ session_events call.0 rest)
        (recognize_at-takes s last frame now h g)

  single_frames-drop :
      (outcome : Outcome (LprPipelineResult F D)) (now : ℕ)
      (rest : List (Outcome (LprPipelineResult F D) × ℕ))
      → shows_one outcome ≡ false
      → single_frames ((outcome, now) ∷ rest) ≡ single_frames rest
  single_frames-drop outcome now rest h = rw h refl

  single_frames-keep :
      (outcome : Outcome (LprPipelineResult F D)) (now : ℕ)
      (rest : List (Outcome (LprPipelineResult F D) × ℕ))
      → shows_one outcome ≡ true
      → single_frames ((outcome, now) ∷ rest) ≡ (outcome, now) ∷ single_frames rest
  single_frames-keep outcome now rest h = rw h refl

  session_events-at :
      (s : RecognitionStreamSession F D) (a b : Option ℕ) (start : ℕ)
      (frames : List (Outcome (LprPipelineResult F D) × ℕ))
      → goes_back a start ≡ false
      → goes_back b start ≡ false
      → Ascends start frames
      → session_events (at s a) frames ≡ session_events (at s b) (single_frames frames)
  unfolding session_events
  session_events-at s a b start [] p q h = refl
  session_events-at s a b start ((throws e, now) ∷ rest) p q (l, h) =
      session_events-Quiet s a a (throws e) now rest (recognize_at-throws s a e now)
      ∙ session_events-at s a b now rest (goes_back-later a start now p l)
          (goes_back-later b start now q l) h
  session_events-at s a b start ((returns frame, now) ∷ rest) p q (l, h) =
      let x = returns frame in
      let p' = goes_back-later a start now p l in
      let q' = goes_back-later b start now q l in
      let taken = take_frame (at s (some now)) frame now frame.recognitions in
      elim (Bool-cases (shows_one x)) [
        | inr k ↦
            elim (Bool-cases s.is_closed) [
              | inl c ↦
                  session_events-Quiet s a a x now rest (recognize_at-closed s a x now c)
                  ∙ session_events-at s a b now rest p' q' h
              | inr o ↦
                  session_events-Quiet s a (some now) x now rest (
                    subst (Quiet s (some now) now) (sym (recognize_at-takes s a frame now o p'))
                      (take_frame-quiet (at s (some now)) frame now frame.recognitions k))
                  ∙ session_events-at s (some now) b now rest (not_after_itself now) q' h
            ]
            ∙ ap (session_events (at s b)) (sym (single_frames-drop x now rest k))
        | inl k ↦
            elim (Bool-cases s.is_closed) [
              | inl c ↦
                  session_events-Quiet s a a x now rest (recognize_at-closed s a x now c)
                  ∙ session_events-at s a b now rest p' q' h
                  ∙ sym (
                      session_events-Quiet s b b x now (single_frames rest)
                        (recognize_at-closed s b x now c))
              | inr o ↦
                  let last = taken.0.last_timestamp in
                  let later : goes_back last now ≡ false =
                    ap (λ t. goes_back t now)
                      (take_frame-last (at s (some now)) frame now frame.recognitions)
                    ∙ not_after_itself now in
                  session_events-takes s a frame now rest o p'
                  ∙ ap (λ es. emitted_by now (returns taken.1) ++ es)
                      (session_events-at taken.0 last last now rest later later h)
                  ∙ sym (session_events-takes s b frame now (single_frames rest) o q')
            ]
            ∙ ap (session_events (at s b)) (sym (single_frames-keep x now rest k))
      ]

  -- In a stream whose timestamps do not go back, and do not start before the last timestamp of the
  -- session, the calls that fail in the pipeline and the frames with no plate or with several plates
  -- can be left out: the events of the session are those of the stream of the frames with exactly
  -- one plate.
  pub session_events-single_frames :
      (s : RecognitionStreamSession F D) (start : ℕ)
      (frames : List (Outcome (LprPipelineResult F D) × ℕ))
      → goes_back s.last_timestamp start ≡ false
      → Ascends start frames
      → session_events s frames ≡ session_events s (single_frames frames)
  session_events-single_frames s start frames h ascending =
      session_events-at s s.last_timestamp s.last_timestamp start frames h h ascending
