-- ===== src/Consensus/Votes.antt =====
-- What the aggregates hold: for each plate the number of its eligible frames, and one of them.
use fac_lpr_engine.Prelude.{
  ℕ, ◌+◌, ◌≡◌, refl, ◌⊎◌, inl, inr, true, ◌&&◌, none, some, List, [], ◌∷◌, arith, All,
  if◌then◌else◌, Bool-cases, Text, text_eq, eq_of_text_eq,
}
use fac_lpr_engine.Float.{Float}
use fac_lpr_engine.Domain.{PlateRecognitionResult}
use fac_lpr_engine.OrderedMap.{lookup, upsert, IsSorted}
use fac_lpr_engine.OrderedMap.Laws.{upsert-IsSorted, lookup-upsert, upsert-All}
use fac_lpr_engine.Consensus.{
  TemporalPlateConsensusConfig, Observation, Aggregate, Aggregates, is_eligible, vote, no_votes,
  count_frame, aggregate,
}

module _ {F D : Type 0} ⦃fl : Float F⦄ where
  -- How many eligible frames of a history show the plate.
  unfoldable pub votes : TemporalPlateConsensusConfig F → Text → List (Observation F D) → ℕ
  votes config plate [] = 0
  votes config plate (o ∷ os) =
      (if is_eligible config o.result && text_eq o.result.plate plate then 1 else 0)
      + votes config plate os

  abbrev pub frames_of : Text → Aggregates F D → ℕ
  frames_of plate m = elim (lookup plate m) [ none ↦ 0 | some a ↦ a.frames ]

  abbrev pub Occurs : PlateRecognitionResult F D → List (Observation F D) → Type 0
  Occurs r [] = ⊥
  Occurs r (o ∷ os) = (o.result ≡ r) ⊎ Occurs r os

  -- The best frame of the entry is an eligible frame of the history, and shows the plate.
  abbrev pub IsBacked :
      TemporalPlateConsensusConfig F → List (Observation F D) → Text × Aggregate F D → Type 0
  IsBacked config history (plate, a) =
      (best : PlateRecognitionResult F D) × (a.best ≡ some best)
      × Occurs best history
      × (is_eligible config best ≡ true)
      × (best.plate ≡ plate)

  frames_of-upsert :
      (plate : Text) (r : PlateRecognitionResult F D) (m : Aggregates F D)
      → IsSorted m
      → frames_of plate (upsert r.plate no_votes (vote r) m)
        ≡ (if text_eq r.plate plate then 1 else 0) + frames_of plate m
  unfolding vote
  frames_of-upsert plate r m s =
      ground (arith, lookup-upsert plate r.plate no_votes (vote r) m s, eq_of_text_eq r.plate plate)

  -- The same of one frame, in the form that the loop uses.
  count_frame-IsSorted :
      (config : TemporalPlateConsensusConfig F) (r : PlateRecognitionResult F D)
      (acc : Aggregates F D × F)
      → IsSorted acc.0
      → IsSorted (count_frame config r acc).0
  unfolding count_frame
  count_frame-IsSorted config r (m, total) s = elim (Bool-cases (is_eligible config r)) [
    | inl e ↦ rw (e, IsSorted) (upsert-IsSorted r.plate no_votes (vote r) m s)
    | inr e ↦ rw (e, IsSorted) s
  ]

  frames_of-count_frame :
      (config : TemporalPlateConsensusConfig F) (plate : Text) (r : PlateRecognitionResult F D)
      (acc : Aggregates F D × F)
      → IsSorted acc.0
      → frames_of plate (count_frame config r acc).0
        ≡ (if is_eligible config r && text_eq r.plate plate then 1 else 0) + frames_of plate acc.0
  unfolding count_frame
  frames_of-count_frame config plate r (m, total) s = ground (arith, frames_of-upsert plate r m s)

  vote-IsBacked :
      (config : TemporalPlateConsensusConfig F) (history : List (Observation F D))
      (r : PlateRecognitionResult F D) (a : Aggregate F D)
      → Occurs r history
      → is_eligible config r ≡ true
      → (a.best ≡ none) ⊎ IsBacked config history (r.plate, a)
      → IsBacked config history (r.plate, vote r a)
  unfolding vote
  vote-IsBacked config history r a occ e (inl n) = (r, rw n, occ, e, refl)
  vote-IsBacked config history r a occ e (inr (b, p, occ', e', q)) =
      elim (Bool-cases (fl.lt b.confidence r.confidence)) [
        | inl x ↦ (r, rw (p, x), occ, e, refl)
        | inr x ↦ (b, rw (p, x), occ', e', q)
      ]

  count_frame-IsBacked :
      (config : TemporalPlateConsensusConfig F) (history : List (Observation F D))
      (r : PlateRecognitionResult F D) (acc : Aggregates F D × F)
      → Occurs r history
      → All (IsBacked config history) acc.0
      → All (IsBacked config history) (count_frame config r acc).0
  unfolding count_frame
  count_frame-IsBacked config history r (m, total) occ b =
      elim (Bool-cases (is_eligible config r)) [
        | inl e ↦
            rw (e, All)
              (upsert-All (IsBacked config history) r.plate no_votes (vote r) m
                (vote-IsBacked config history r no_votes occ e (inl refl))
                (λ v h. vote-IsBacked config history r v occ e (inr h)) b)
        | inr e ↦ rw (e, All) b
      ]

  pub aggregate-IsSorted :
      (config : TemporalPlateConsensusConfig F) (os : List (Observation F D))
      (acc : Aggregates F D × F)
      → IsSorted acc.0
      → IsSorted (aggregate config os acc).0
  unfolding aggregate
  aggregate-IsSorted config [] acc s = s
  aggregate-IsSorted config (o ∷ os) acc s =
      aggregate-IsSorted config os (count_frame config o.result acc)
        (count_frame-IsSorted config o.result acc s)

  -- The count of a plate grows by the number of its eligible frames.
  pub frames_of-aggregate :
      (config : TemporalPlateConsensusConfig F) (plate : Text) (os : List (Observation F D))
      (acc : Aggregates F D × F)
      → IsSorted acc.0
      → frames_of plate (aggregate config os acc).0 ≡ frames_of plate acc.0 + votes config plate os
  unfolding aggregate votes
  frames_of-aggregate config plate [] acc s = omega arith
  frames_of-aggregate config plate (o ∷ os) acc s =
      let next = count_frame config o.result acc in
      omega (
        arith,
        frames_of-count_frame config plate o.result acc s,
        frames_of-aggregate config plate os next (count_frame-IsSorted config o.result acc s),
      )

  pub aggregate-IsBacked :
      (config : TemporalPlateConsensusConfig F) (history os : List (Observation F D))
      (acc : Aggregates F D × F)
      → All (λ o. Occurs o.result history) os
      → All (IsBacked config history) acc.0
      → All (IsBacked config history) (aggregate config os acc).0
  unfolding aggregate
  aggregate-IsBacked config history [] acc occ b = b
  aggregate-IsBacked config history (o ∷ os) acc occ b =
      aggregate-IsBacked config history os (count_frame config o.result acc) occ.1
        (count_frame-IsBacked config history o.result acc occ.0 b)

  Occurs-cons :
      (o : Observation F D) (os ps : List (Observation F D))
      → All (λ p. Occurs p.result os) ps
      → All (λ p. Occurs p.result (o ∷ os)) ps
  Occurs-cons o os [] h = tt
  Occurs-cons o os (p ∷ ps) h = (inr h.0, Occurs-cons o os ps h.1)

  pub Occurs-self : (os : List (Observation F D)) → All (λ o. Occurs o.result os) os
  Occurs-self [] = tt
  Occurs-self (o ∷ os) = (inl refl, Occurs-cons o os os (Occurs-self os))
