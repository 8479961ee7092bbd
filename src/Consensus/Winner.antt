-- ===== src/Consensus/Winner.antt =====
-- The search for the winner: who wins, and what the runner-up's support bounds.
use fac_lpr_engine.Prelude.{
  ◌≡◌, ◌⊎◌, inl, inr, true, false, ◌&&◌, ◌||◌, [], ◌∷◌, arith, All, Bool-cases, Text, text_eq,
  text_lt, text_eq_refl,
}
use fac_lpr_engine.Float.{Float, IsOrdered, fmax}
use fac_lpr_engine.Consensus.{Aggregate, Aggregates, Leader, challenge, find_winner}

module _ {F D : Type 0} ⦃fl : Float F⦄ where
  challenge-P {κ} :
      (P : Text × Aggregate F D → Type κ) (leader : Leader F D) (e : Text × Aggregate F D)
      → P leader.0
      → P e
      → P (challenge leader e).0
  unfolding challenge
  challenge-P P ((key, w), r) (k, a) h g =
      elim (Bool-cases (
        fl.lt w.weighted_support a.weighted_support
        || fl.eq a.weighted_support w.weighted_support && text_lt k key)) [
          | inl e ↦ rw e g
          | inr e ↦ elim (Bool-cases (text_eq k key)) [ inl x ↦ rw (e, x) h | inr x ↦ rw (e, x) h ]
        ]

  -- The winner is one of the entries.
  pub find_winner-P {κ} :
      (P : Text × Aggregate F D → Type κ) (leader : Leader F D) (es : Aggregates F D)
      → P leader.0
      → All P es
      → P (find_winner leader es).0
  unfolding find_winner
  find_winner-P P leader [] h g = h
  find_winner-P P leader (e ∷ es) h g =
      find_winner-P P (challenge leader e) es (challenge-P P leader e h g.0) g.1

  -- An entry has no more support than the winner, nor than the runner-up if it is of another plate.
  abbrev pub Leads : Leader F D → Text × Aggregate F D → Type 0
  Leads ((key, w), runner_up) (k, a) =
      (fl.lt w.weighted_support a.weighted_support ≡ false)
      × ((text_eq k key ≡ true) ⊎ (fl.lt runner_up a.weighted_support ≡ false))

  abbrev pub HasNumber : Text × Aggregate F D → Type 0
  HasNumber e = fl.is_finite e.1.weighted_support ≡ true

  abbrev pub LeaderHasNumbers : Leader F D → Type 0
  LeaderHasNumbers leader = HasNumber leader.0 × (fl.is_finite leader.1 ≡ true)

  challenge-HasNumbers :
      (leader : Leader F D) (e : Text × Aggregate F D)
      → LeaderHasNumbers leader
      → HasNumber e
      → LeaderHasNumbers (challenge leader e)
  unfolding challenge fmax
  challenge-HasNumbers ((key, w), r) (k, a) h g = ground arith

  module _ (laws : IsOrdered F) where
    open laws use {lt_irrefl, lt_trans, lt_total, eq-not-lt}

    challenge-Leads_new :
        (leader : Leader F D) (e : Text × Aggregate F D) → Leads (challenge leader e) e
    unfolding challenge fmax
    challenge-Leads_new ((key, w), r) (k, a) =
        ground (arith, lt_irrefl a.weighted_support, text_eq_refl k)

    challenge-Leads_old :
        (leader : Leader F D) (e e' : Text × Aggregate F D)
        → LeaderHasNumbers leader
        → HasNumber e
        → HasNumber e'
        → Leads leader e'
        → Leads (challenge leader e) e'
    unfolding challenge fmax
    challenge-Leads_old ((key, w), r) (k, a) (k', a') n fa fe h =
        let W = w.weighted_support in
        let A = a.weighted_support in
        let E = a'.weighted_support in
        ground (
          arith,
          eq-not-lt A W fa n.0,
          lt_total A W E fa n.0 fe,
          lt_total r W E n.1 n.0 fe,
          lt_trans W A W,
          lt_trans r A E,
          lt_irrefl W,
        )

    find_winner-Leads_old :
        (leader : Leader F D) (es : Aggregates F D) (e : Text × Aggregate F D)
        → LeaderHasNumbers leader
        → All HasNumber es
        → HasNumber e
        → Leads leader e
        → Leads (find_winner leader es) e
    unfolding find_winner
    find_winner-Leads_old leader [] e n fs f h = h
    find_winner-Leads_old leader (x ∷ es) e n fs f h =
        find_winner-Leads_old (challenge leader x) es e (challenge-HasNumbers leader x n fs.0) fs.1
          f (challenge-Leads_old leader x e n fs.0 f h)

    -- Where the supports are finite and are compared as numbers are: no plate has more support than
    -- the winner, and no plate but the winner has more than the runner-up's support.
    pub find_winner-Leads :
        (leader : Leader F D) (es : Aggregates F D)
        → LeaderHasNumbers leader
        → All HasNumber es
        → All (Leads (find_winner leader es)) es
    unfolding find_winner
    find_winner-Leads leader [] n fs = tt
    find_winner-Leads leader (e ∷ es) n fs =
        let next = challenge leader e in
        let numbers = challenge-HasNumbers leader e n fs.0 in
        (
          find_winner-Leads_old next es e numbers fs.1 fs.0 (challenge-Leads_new leader e),
          find_winner-Leads next es numbers fs.1,
        )
