-- ===== src/Consensus/Window.antt =====
-- The history of the consensus: its size, and the age of what it keeps.
use fac_lpr_engine.Prelude.{
  ℕ, ◌+◌, ◌-◌, ◌*◌, ◌≤◌, ◌≡◌, refl, inl, inr, ◌||◌, List, [], ◌∷◌, ◌++◌, arith, length, All,
  All-append, ltb, Bool-cases, pos, elapsed_le, nanos_per_milli,
}
use fac_lpr_engine.Domain.{PlateRecognitionResult}
use fac_lpr_engine.Consensus.{TemporalPlateConsensusConfig, Observation, expire, trim, next_history}

module _ {F D : Type 0} where
  -- Timestamps do not fall, and none lies behind `now`.
  abbrev pub IsOrdered : ℕ → List (Observation F D) → Type 0
  IsOrdered now [] = Unit
  IsOrdered now (o ∷ os) =
      (o.timestamp ≤ now) × All (λ p. o.timestamp ≤ p.timestamp) os × IsOrdered now os

  abbrev pub IsFresh : ℕ → ℕ → Observation F D → Type 0
  IsFresh millis now o = now ≤ o.timestamp + millis * nanos_per_milli

  -- The last observation is the frame that came at `now`.
  abbrev pub EndsWith : Observation F D → List (Observation F D) → Type 0
  EndsWith new [] = ⊥
  EndsWith new (o ∷ []) = o ≡ new
  EndsWith new (o ∷ p ∷ os) = EndsWith new (p ∷ os)

  length-trim : (n : ℕ) (os : List (Observation F D)) → length (trim n os) ≤ n
  unfolding trim
  length-trim n [] = omega arith
  length-trim n (o ∷ os) = ground (arith, length-trim n os)

  -- A property of all observations, and their order, survive the loops that drop the oldest.
  trim-All :
      (P : Observation F D → Type 0) (n : ℕ) (os : List (Observation F D))
      → All P os
      → All P (trim n os)
  unfolding trim
  trim-All P n [] h = tt
  trim-All P n (o ∷ os) h = elim (Bool-cases (ltb n (length (o ∷ os)))) [
    | inl e ↦ rw e (trim-All P n os h.1)
    | inr e ↦ rw e h
  ]

  trim-IsOrdered :
      (now n : ℕ) (os : List (Observation F D)) → IsOrdered now os → IsOrdered now (trim n os)
  unfolding trim
  trim-IsOrdered now n [] h = tt
  trim-IsOrdered now n (o ∷ os) h = elim (Bool-cases (ltb n (length (o ∷ os)))) [
    | inl e ↦ rw e (trim-IsOrdered now n os h.2)
    | inr e ↦ rw e h
  ]

  trim-EndsWith :
      (new : Observation F D) (n : ℕ) (os : List (Observation F D))
      → 1 ≤ n
      → EndsWith new os
      → EndsWith new (trim n os)
  unfolding trim
  trim-EndsWith new n [] h e = e
  trim-EndsWith new n (o ∷ []) h e = ground arith
  trim-EndsWith new n (o ∷ p ∷ os) h e =
      let rest = trim-EndsWith new n (p ∷ os) h e in
      elim (Bool-cases (ltb n (length (o ∷ p ∷ os)))) [ inl x ↦ rw x rest | inr x ↦ rw x e ]

  IsOrdered-IsFresh :
      (millis now t : ℕ) (os : List (Observation F D))
      → now ≤ t + millis * nanos_per_milli
      → All (λ p. t ≤ p.timestamp) os
      → All (IsFresh millis now) os
  IsOrdered-IsFresh millis now t [] h a = tt
  IsOrdered-IsFresh millis now t (o ∷ os) h a =
      (omega arith, IsOrdered-IsFresh millis now t os h a.1)

  expire-IsFresh :
      (millis now : ℕ) (os : List (Observation F D))
      → IsOrdered now os
      → IsOrdered now (expire (pos millis) now os)
        × All (IsFresh millis now) (expire (pos millis) now os)
  unfolding expire
  expire-IsFresh millis now [] h = (tt, tt)
  expire-IsFresh millis now (o ∷ os) h =
      elim (Bool-cases (ltb now o.timestamp || elapsed_le (now - o.timestamp) (pos millis))) [
        | inl e ↦
            let fresh : IsFresh millis now o = ground arith in
            rw e (h, (fresh, IsOrdered-IsFresh millis now o.timestamp os fresh h.1))
        | inr e ↦ rw e (expire-IsFresh millis now os h.2)
      ]

  snoc-IsOrdered :
      (now : ℕ) (os : List (Observation F D)) (new : Observation F D)
      → new.timestamp ≡ now
      → IsOrdered now os
      → IsOrdered now (os ++ (new ∷ []))
  snoc-IsOrdered now [] new e h = (omega arith, tt, tt)
  snoc-IsOrdered now (o ∷ os) new e h = (
    h.0,
    All-append (λ p. o.timestamp ≤ p.timestamp) os (new ∷ []) h.1 (omega arith, tt),
    snoc-IsOrdered now os new e h.2,
  )

  snoc-EndsWith :
      (os : List (Observation F D)) (new : Observation F D) → EndsWith new (os ++ (new ∷ []))
  snoc-EndsWith [] new = refl
  snoc-EndsWith (o ∷ []) new = refl
  snoc-EndsWith (o ∷ p ∷ os) new = snoc-EndsWith (p ∷ os) new

  -- With a `max_history` of at least 1 and a `history_ttl` that is not negative, while timestamps
  -- do not fall: the history after a frame is no longer than `max_history`, ends with that frame,
  -- stays in order, and holds no frame older than `history_ttl`.
  pub next_history-window :
      (config : TemporalPlateConsensusConfig F) (history : List (Observation F D))
      (frame : PlateRecognitionResult F D) (now millis : ℕ)
      → 1 ≤ config.max_history
      → config.history_ttl ≡ pos millis
      → IsOrdered now history
      → (length (next_history config history frame now) ≤ config.max_history)
        × EndsWith
            (record { result = frame; timestamp = now })
            (next_history config history frame now)
        × IsOrdered now (next_history config history frame now)
        × All (IsFresh millis now) (next_history config history frame now)
  unfolding next_history
  next_history-window config history frame now millis h ttl ordered =
      let new : Observation F D = record { result = frame; timestamp = now } in
      let kept : List (Observation F D) = expire config.history_ttl now history in
      let (order, fresh) = expire-IsFresh millis now history ordered in
      (
        length-trim config.max_history _,
        trim-EndsWith new config.max_history _ h (snoc-EndsWith kept new),
        trim-IsOrdered now config.max_history _ (snoc-IsOrdered now kept new refl (rw ttl order)),
        trim-All (IsFresh millis now) config.max_history _
            (All-append (IsFresh millis now) kept (new ∷ []) (rw ttl fresh) (omega arith, tt)),
      )
