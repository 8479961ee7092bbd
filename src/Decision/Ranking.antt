-- ===== src/Decision/Ranking.antt =====
-- The sort of the candidates: it loses none, and none has more confidence than one before it.
use fac_lpr_engine.Prelude.{
  ◌≡◌, subst, ◌⊎◌, inl, inr, Bool, true, false, not, ◌&&◌, List, [], ◌∷◌, arith, All, if◌then◌else◌,
  Bool-cases, is_empty,
}
use fac_lpr_engine.Errors.{ok, Result-cases}
use fac_lpr_engine.Float.{Float, IsOrdered, is_probability}
use fac_lpr_engine.Domain.{PlateCandidate}
use fac_lpr_engine.Decision.{
  chosen_confidence, effective_confidence, ranks_before, insert_stable, stable_sort,
  valid_candidates,
}

module _ {F : Type 0} ⦃fl : Float F⦄ where
  pub insert_stable-All {κ} :
      (P : PlateCandidate F → Type κ) (c : PlateCandidate F) (ds : List (PlateCandidate F))
      → P c
      → All P ds
      → All P (insert_stable c ds)
  unfolding insert_stable
  insert_stable-All P c [] h g = (h, tt)
  insert_stable-All P c (d ∷ ds) h g = elim (Bool-cases (ranks_before c d)) [
    | inl e ↦ rw e (h, g)
    | inr e ↦ rw e (g.0, insert_stable-All P c ds h g.1)
  ]

  All-insert_stable {κ} :
      (P : PlateCandidate F → Type κ) (c : PlateCandidate F) (ds : List (PlateCandidate F))
      → All P (insert_stable c ds)
      → P c × All P ds
  unfolding insert_stable
  All-insert_stable P c [] h = h
  All-insert_stable P c (d ∷ ds) h = elim (Bool-cases (ranks_before c d)) [
    | inl e ↦ rw e at h
    | inr e ↦
        let (hd, hs) = rw e at h in let (hc, hds) = All-insert_stable P c ds hs in (hc, (hd, hds))
  ]

  pub stable_sort-All {κ} :
      (P : PlateCandidate F → Type κ) (sorted cs : List (PlateCandidate F))
      → All P sorted
      → All P cs
      → All P (stable_sort sorted cs)
  unfolding stable_sort
  stable_sort-All P sorted [] h g = h
  stable_sort-All P sorted (c ∷ cs) h g =
      stable_sort-All P (insert_stable c sorted) cs (insert_stable-All P c sorted g.0 h) g.1

  -- What holds of all sorted candidates holds of all that were sorted.
  pub All-stable_sort {κ} :
      (P : PlateCandidate F → Type κ) (sorted cs : List (PlateCandidate F))
      → All P (stable_sort sorted cs)
      → All P sorted × All P cs
  unfolding stable_sort
  All-stable_sort P sorted [] h = (h, tt)
  All-stable_sort P sorted (c ∷ cs) h =
      let (hs, hcs) = All-stable_sort P (insert_stable c sorted) cs h in
      let (hc, rest) = All-insert_stable P c sorted hs in (rest, (hc, hcs))

  abbrev pub HasNumber : PlateCandidate F → Type 0
  HasNumber c = fl.is_finite (chosen_confidence c) ≡ true

  -- No candidate of the list has more confidence than `c`.
  abbrev pub Tops : PlateCandidate F → List (PlateCandidate F) → Type 0
  Tops c = All λ d. fl.lt (chosen_confidence c) (chosen_confidence d) ≡ false

  abbrev pub Descends : List (PlateCandidate F) → Type 0
  Descends [] = Unit
  Descends (c ∷ cs) = Tops c cs × Descends cs

  module _ (laws : IsOrdered F) where
    open laws use {lt_irrefl, lt_trans, lt_total, eq-not-lt}

    Tops-trans :
        (c d : PlateCandidate F) (cs : List (PlateCandidate F))
        → HasNumber c
        → HasNumber d
        → All HasNumber cs
        → fl.lt (chosen_confidence c) (chosen_confidence d) ≡ false
        → Tops d cs
        → Tops c cs
    Tops-trans c d [] fc fd fs h t = tt
    Tops-trans c d (e ∷ es) fc fd fs h t = (
      ground (
        arith,
        lt_total (chosen_confidence c) (chosen_confidence d) (chosen_confidence e) fc fd fs.0,
      ),
      Tops-trans c d es fc fd fs.1 h t.1,
    )

    ranks_before-lt :
        (c d : PlateCandidate F)
        → HasNumber c
        → HasNumber d
        → ranks_before c d ≡ true
        → fl.lt (chosen_confidence c) (chosen_confidence d) ≡ false
    unfolding ranks_before
    ranks_before-lt c d fc fd h =
        let x = chosen_confidence c in
        let y = chosen_confidence d in
        ground (arith, eq-not-lt x y fc fd, lt_trans x y x, lt_irrefl x)

    not_ranks_before-lt :
        (c d : PlateCandidate F)
        → HasNumber c
        → HasNumber d
        → ranks_before c d ≡ false
        → fl.lt (chosen_confidence d) (chosen_confidence c) ≡ false
    unfolding ranks_before
    not_ranks_before-lt c d fc fd h =
        ground (arith, eq-not-lt (chosen_confidence c) (chosen_confidence d) fc fd)

    insert_stable-Descends :
        (c : PlateCandidate F) (ds : List (PlateCandidate F))
        → HasNumber c
        → All HasNumber ds
        → Descends ds
        → Descends (insert_stable c ds)
    unfolding insert_stable
    insert_stable-Descends c [] fc fs h = (tt, tt)
    insert_stable-Descends c (d ∷ ds) fc fs h = elim (Bool-cases (ranks_before c d)) [
      | inl e ↦
          let first = ranks_before-lt c d fc fs.0 e in
          rw (e, Descends) ((first, Tops-trans c d ds fc fs.0 fs.1 first h.0), h)
      | inr e ↦
          let top = not_ranks_before-lt c d fc fs.0 e in
          rw (e, Descends)
            (
              insert_stable-All (λ x. fl.lt (chosen_confidence d) (chosen_confidence x) ≡ false) c
                  ds top h.0,
              insert_stable-Descends c ds fc fs.1 h.1,
            )
    ]

    -- Candidates whose confidences are numbers come out in an order in which confidence falls.
    pub stable_sort-Descends :
        (sorted cs : List (PlateCandidate F))
        → All HasNumber sorted
        → All HasNumber cs
        → Descends sorted
        → Descends (stable_sort sorted cs)
    unfolding stable_sort
    stable_sort-Descends sorted [] fs gs h = h
    stable_sort-Descends sorted (c ∷ cs) fs gs h =
        stable_sort-Descends (insert_stable c sorted) cs
          (insert_stable-All HasNumber c sorted gs.0 fs) gs.1
          (insert_stable-Descends c sorted gs.0 fs h)

  abbrev pub is_usable : PlateCandidate F → Bool
  is_usable c = c.format_valid && not (is_empty c.text)

  pub valid_candidates-cons :
      (c : PlateCandidate F) (cs : List (PlateCandidate F)) {valid : List (PlateCandidate F)}
      → valid_candidates (c ∷ cs) ≡ ok valid
      → (rest : List (PlateCandidate F)) × (valid_candidates cs ≡ ok rest)
        × (is_probability (chosen_confidence c) ≡ true)
        × (valid ≡ (if is_usable c then c ∷ rest else rest))
  unfolding valid_candidates effective_confidence
  valid_candidates-cons c cs h = elim (Result-cases (valid_candidates cs)) [
    | inl (e, p) ↦ absurd (ground arith)
    | inr (rest, p) ↦ (rest, p, ground arith, ground arith)
  ]

  -- What holds of the valid candidates holds of the usable ones among all.
  pub All-valid_candidates {κ} :
      (P : PlateCandidate F → Type κ) (cs : List (PlateCandidate F))
      {valid : List (PlateCandidate F)}
      → valid_candidates cs ≡ ok valid
      → All P valid
      → All (λ c. (is_usable c ≡ false) ⊎ P c) cs
  unfolding valid_candidates
  All-valid_candidates P [] h g = tt
  All-valid_candidates P (c ∷ cs) h g =
      let (rest, p, _, same) = valid_candidates-cons c cs h in
      let both : All P (if is_usable c then c ∷ rest else rest) = subst (All P) same g in
      elim (Bool-cases (is_usable c)) [
        | inl e ↦ let (x, xs) = rw e at both in (inr x, All-valid_candidates P cs p xs)
        | inr e ↦ (inl e, All-valid_candidates P cs p (rw e at both))
      ]

  abbrev pub IsUsable : PlateCandidate F → Type 0
  IsUsable c = (is_usable c ≡ true) × (is_probability (chosen_confidence c) ≡ true)

  -- The valid candidates are candidates of the input that are usable.
  pub valid_candidates-All :
      (P : PlateCandidate F → Type 0) (cs : List (PlateCandidate F))
      {valid : List (PlateCandidate F)}
      → valid_candidates cs ≡ ok valid
      → All P cs
      → All (λ c. IsUsable c × P c) valid
  unfolding valid_candidates
  valid_candidates-All P [] {valid} h g =
      let same : [] ≡ valid = ground arith in subst (All (λ c. IsUsable c × P c)) same tt
  valid_candidates-All P (c ∷ cs) h g =
      let (rest, p, number, same) = valid_candidates-cons c cs h in
      let tail = valid_candidates-All P cs p g.1 in
      elim (Bool-cases (is_usable c)) [
        | inl e ↦ rw (same, e) (((e, number), g.0), tail)
        | inr e ↦ rw (same, e) tail
      ]
