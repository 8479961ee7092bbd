-- ===== src/EventFilter/Spacing.antt =====
-- How far apart the events of one plate are.
use fac_lpr_engine.Prelude.{
  ℕ, ◌+◌, ◌*◌, ◌≤◌, ◌<◌, ◌≡◌, refl, ap, ◌∙◌, subst, ◌⊎◌, inl, inr, false, Option, none, some, List,
  [], ◌∷◌, ◌++◌, arith, Bool-cases, Option-cases, Text, text_eq, pos, nanos_per_milli,
}
use fac_lpr_engine.Domain.{PlateRecognitionResult}
use fac_lpr_engine.Consensus.{TemporalConsensusResult}
use fac_lpr_engine.EventFilter.{
  StablePlateEventFilter, StablePlateEventFilterResult, observe, inside_cooldown,
}

abbrev pub Event : Type 0
Event = Text × ℕ

module _ {F D : Type 0} where
  abbrev pub event_of : ℕ → Option (PlateRecognitionResult F D) → List Event
  event_of now none = []
  event_of now (some r) = (r.plate, now) ∷ []

  -- The events of a run: the plates emitted, with their times.
  unfoldable pub events :
      StablePlateEventFilter F D → List (TemporalConsensusResult F D × ℕ) → List Event
  events f [] = []
  events f ((c, now) ∷ rest) =
      let (g, out) = observe f c now in event_of now out.emitted_result ++ events g rest

  -- The last event that the filter remembers.
  abbrev pub last_event : StablePlateEventFilter F D → Option Event
  last_event f = elim f.last_emitted [
    | none ↦ none
    | some r ↦ elim f.last_emitted_at [ none ↦ none | some t ↦ some (r.plate, t) ]
  ]

-- Each event is of another plate than the one before it, or came later by the cooldown at least, or
-- the clock went back.
abbrev pub Spaced : ℕ → Option Event → List Event → Type 0
Spaced millis last [] = Unit
Spaced millis none ((p, t) ∷ es) = Spaced millis (some (p, t)) es
Spaced millis (some (q, u)) ((p, t) ∷ es) =
    ((text_eq q p ≡ false) ⊎ ((t < u) ⊎ (u + millis * nanos_per_milli ≤ t)))
    × Spaced millis (some (p, t)) es

Spaced-cons :
    (millis : ℕ) (last : Option Event) (e : Event) (es : List Event)
    → Spaced millis last (e ∷ [])
    → Spaced millis (some e) es
    → Spaced millis last (e ∷ es)
Spaced-cons millis none (p, t) es h k = k
Spaced-cons millis (some (q, u)) (p, t) es h k = (h.0, k)

module _ {F D : Type 0} where
  -- What is not inside the cooldown keeps its distance.
  outside-Spaced :
      (f : StablePlateEventFilter F D) (r : PlateRecognitionResult F D) (now millis : ℕ)
      → f.config.duplicate_cooldown ≡ pos millis
      → inside_cooldown f r now ≡ false
      → Spaced millis (last_event f) ((r.plate, now) ∷ [])
  unfolding inside_cooldown
  outside-Spaced f r now millis h out = elim (Option-cases f.last_emitted) [
    | inl e ↦ rw e tt
    | inr (last, e) ↦ elim (Option-cases f.last_emitted_at) [
      | inl e' ↦ rw (e, e') tt
      | inr (t, e') ↦ rw (e, e') (ground arith, tt)
    ]
  ]

  -- One observation: no event and nothing to remember, or an event at its distance.
  abbrev pub Observed :
      StablePlateEventFilter F D
      → ℕ
      → ℕ
      → StablePlateEventFilter F D
      → StablePlateEventFilterResult F D
      → Type 0
  Observed f millis now g out =
      (g.config ≡ f.config)
      × (((out.emitted_result ≡ none) × (last_event g ≡ last_event f))
          ⊎ ((r : PlateRecognitionResult F D) × (out.emitted_result ≡ some r)
              × (last_event g ≡ some (r.plate, now))
              × Spaced millis (last_event f) ((r.plate, now) ∷ [])))

  pub observe-Observed :
      (f : StablePlateEventFilter F D) (c : TemporalConsensusResult F D) (now millis : ℕ)
      → f.config.duplicate_cooldown ≡ pos millis
      → Observed f millis now (observe f c now).0 (observe f c now).1
  unfolding observe
  observe-Observed f c now millis h = elim (Option-cases c.stable_result) [
    | inl e ↦ rw e (refl, inl (refl, refl))
    | inr (r, e) ↦ elim (Bool-cases (inside_cooldown f r now)) [
      | inl inside ↦ rw (e, inside) (refl, inl (refl, refl))
      | inr outside ↦
          rw (e, outside) (refl, inr (r, refl, refl, outside-Spaced f r now millis h outside))
    ]
  ]

  -- In every run of a filter whose cooldown is not negative, two events in a row are of different
  -- plates, or at least the cooldown apart, or the second has an earlier timestamp. The first event
  -- of the run is compared with the last one that the filter remembers.
  pub events-Spaced :
      (f : StablePlateEventFilter F D) (observations : List (TemporalConsensusResult F D × ℕ))
      (millis : ℕ)
      → f.config.duplicate_cooldown ≡ pos millis
      → Spaced millis (last_event f) (events f observations)
  unfolding events
  events-Spaced f [] millis h = tt
  events-Spaced f ((c, now) ∷ rest) millis h =
      let (g, out) = observe f c now in
      let (same, either) = observe-Observed f c now millis h in
      let rest' : Spaced millis (last_event g) (events g rest) =
        events-Spaced g rest millis (ap (λ x. x.duplicate_cooldown) same ∙ h) in
      elim either [
        | inl (e, l) ↦ rw e (subst (λ x. Spaced millis x (events g rest)) l rest')
        | inr (r, e, l, d) ↦ rw e (
            Spaced-cons millis (last_event f) (r.plate, now) (events g rest) d
              (subst (λ x. Spaced millis x (events g rest)) l rest'))
      ]
