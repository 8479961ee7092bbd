-- ===== src/AdaptiveTile/Origins.antt =====
-- The origins of the tiles on one axis.
use fac_lpr_engine.Prelude.{
  ℕ, zero, suc, ◌+◌, ◌-◌, ◌%◌, ◌≤◌, ◌<◌, ◌≡◌, refl, ◌⊎◌, inl, inr, false, some, List, [], ◌∷◌,
  arith, All, Any, ltb, leb, ◌==◌, Bool-cases, size_mod, wrap_add,
}
use fac_lpr_engine.Errors.{ok}
use fac_lpr_engine.AdaptiveTile.{SizeCasts, next_origin, axis_loop, axis_origins}

leb-false : {a b : ℕ} → b < a → leb a b ≡ false
leb-false h = ground arith

==-false : {a : ℕ} → 0 < a → (a == 0) ≡ false
==-false h = ground arith

inside_large :
    (tile extent : ℕ) (xs : List ℕ)
    → All (λ origin. origin + tile ≤ extent) xs
    → All (λ origin. (extent ≤ tile) ⊎ (origin + tile ≤ extent)) xs
inside_large tile extent [] h = tt
inside_large tile extent (x ∷ xs) h = (inr h.0, inside_large tile extent xs h.1)

some_tile : {p : ℕ} {A : Type 0} → (p < 0) ⊎ A → A
some_tile (inl h) = absurd (omega (arith, h))
some_tile (inr a) = a

module _ (extent tile step : ℕ) (moves : 0 < step) (overlapping : step ≤ tile)
    (large : tile < extent) (fits : extent < size_mod) where
  next_bounds :
      (origin : ℕ)
      → origin + tile < extent
      → (origin < next_origin extent tile step origin)
        × (next_origin extent tile step origin + tile ≤ extent)
        × (next_origin extent tile step origin ≤ origin + tile)
  next_bounds origin h = ground arith

  -- An origin from which the tiles stay inside.
  abbrev Fit : ℕ → Type 0
  Fit origin = origin + tile ≤ extent

  -- A tile that contains the point.
  abbrev Contains : ℕ → ℕ → Type 0
  Contains p origin = (origin ≤ p) × (p < origin + tile)

  at_end :
      (p origin : ℕ)
      → origin + tile ≤ extent
      → extent ≤ origin + tile
      → p < extent
      → (p < origin) ⊎ Any (Contains p) (origin ∷ [])
  at_end p origin h e q = elim (Bool-cases (ltb p origin)) [
    | inl b ↦ inl (ground arith)
    | inr b ↦ inr (inl (ground arith, omega (arith, e, q)))
  ]

  here_or_later :
      (p origin : ℕ) {next : ℕ} (xs : List ℕ)
      → next ≤ origin + tile
      → (p < next) ⊎ Any (Contains p) xs
      → (p < origin) ⊎ Any (Contains p) (origin ∷ xs)
  here_or_later p origin xs near (inr a) = inr (inr a)
  here_or_later p origin xs near (inl b) = elim (Bool-cases (ltb p origin)) [
    | inl c ↦ inl (ground arith)
    | inr c ↦ inr (inl (ground arith, omega (arith, near, b)))
  ]

  axis_loop-covers :
      (p fuel origin : ℕ)
      → origin + tile ≤ extent
      → extent < fuel + tile + origin
      → p < extent
      → (xs : List ℕ) × (axis_loop fuel extent tile step origin ≡ some xs)
        × All Fit xs
        × ((p < origin) ⊎ Any (Contains p) xs)
  unfolding axis_loop
  axis_loop-covers p zero origin h f q = absurd (omega arith)
  axis_loop-covers p (suc fuel) origin h f q =
      elim (Bool-cases (leb extent (wrap_add origin tile))) [
        | inl e ↦ (origin ∷ [], rw e refl, (h, tt), at_end p origin h (ground arith) q)
        | inr e ↦
            let (up, inside, near) = next_bounds origin (ground arith) in
            let (xs, same, fit, found) =
              axis_loop-covers p fuel (next_origin extent tile step origin) inside
                (omega (arith, up, f)) q in
            let not_back : leb (next_origin extent tile step origin) origin ≡ false =
              leb-false up in
            (
              origin ∷ xs,
              rw (e, not_back, same) refl,
              (h, fit),
              here_or_later p origin xs near found,
            )
      ]

module _ {F : Type 0} ⦃sc : SizeCasts F⦄ where
  -- For a tile that is not empty, and an overlap that is smaller than the tile, as it is for a ratio
  -- below one half: the loop over the origins ends, with origins of which each tile lies inside of the
  -- extent if this is larger than the tile, and each point of the extent lies in one of the tiles.
  pub axis_origins-covers :
      (extent tile : ℕ) (overlap_ratio : F) (p : ℕ)
      → sc.overlap tile overlap_ratio < tile
      → tile < size_mod
      → extent < size_mod
      → p < extent
      → (xs : List ℕ) × (axis_origins extent tile overlap_ratio ≡ ok xs)
        × All (λ origin. (extent ≤ tile) ⊎ (origin + tile ≤ extent)) xs
        × Any (λ origin. (origin ≤ p) × (p < origin + tile)) xs
  unfolding axis_origins
  axis_origins-covers extent tile overlap_ratio p o t e q = elim (Bool-cases (leb extent tile)) [
    | inl small ↦ (0 ∷ [], rw small refl, (inl (ground arith), tt), inl (omega arith, ground arith))
    | inr large ↦
        let step = (tile + (size_mod - sc.overlap tile overlap_ratio)) % size_mod in
        let positive : 0 < step = omega (arith, o, t) in
        let (xs, same, fit, found) =
          axis_loop-covers extent tile step positive (omega (arith, o, t)) (ground arith) e p extent
            0 (ground arith) (omega (arith, o)) q in
        (
          xs,
          rw (large, ==-false positive, same) refl,
          inside_large tile extent xs fit,
          some_tile found,
        )
  ]
