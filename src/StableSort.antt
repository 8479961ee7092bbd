-- ===== src/StableSort.antt =====
-- `std::stable_sort` with a comparison: each element is inserted behind those that it does not come
-- before.
use fac_lpr_engine.Prelude.{inl, inr, Bool, List, [], ◌∷◌, All, if◌then◌else◌, Bool-cases}

module _ {ℓ} {A : Type ℓ} (before : A → A → Bool) where
  unfoldable pub insert : A → List A → List A
  insert c [] = c ∷ []
  insert c (d ∷ ds) = let rest = insert c ds in if before c d then c ∷ d ∷ ds else d ∷ rest

  -- The elements in their order, each inserted into those that are sorted.
  unfoldable pub sort : List A → List A → List A
  sort sorted [] = sorted
  sort sorted (c ∷ cs) = sort (insert c sorted) cs

-- Any two elements are related.
abbrev pub Pairwise {ℓ κ} : {A : Type ℓ} → (A → A → Type κ) → List A → Type κ
Pairwise R [] = Unit
Pairwise R (c ∷ cs) = All (R c) cs × Pairwise R cs

module _ {ℓ} {A : Type ℓ} (before : A → A → Bool) where
  insert-All {κ} :
      (P : A → Type κ) (c : A) (ds : List A) → P c → All P ds → All P (insert before c ds)
  unfolding insert
  insert-All P c [] h g = (h, tt)
  insert-All P c (d ∷ ds) h g = elim (Bool-cases (before c d)) [
    | inl e ↦ rw e (h, g)
    | inr e ↦ rw e (g.0, insert-All P c ds h g.1)
  ]

  pub sort-All {κ} :
      (P : A → Type κ) (sorted cs : List A)
      → All P sorted
      → All P cs
      → All P (sort before sorted cs)
  unfolding sort
  sort-All P sorted [] h g = h
  sort-All P sorted (c ∷ cs) h g =
      sort-All P (insert before c sorted) cs (insert-All P c sorted g.0 h) g.1

  module _ {κ} (R : A → A → Type κ) (R-sym : (c d : A) → R c d → R d c) where
    insert-Pairwise :
        (c : A) (ds : List A) → All (R c) ds → Pairwise R ds → Pairwise R (insert before c ds)
    unfolding insert
    insert-Pairwise c [] h g = (tt, tt)
    insert-Pairwise c (d ∷ ds) h g = elim (Bool-cases (before c d)) [
      | inl e ↦ rw (e, Pairwise) (h, g)
      | inr e ↦
          rw (e, Pairwise) (insert-All (R d) c ds (R-sym c d h.0) g.0, insert-Pairwise c ds h.1 g.1)
    ]

    apart_insert :
        (c : A) (sorted cs : List A)
        → All (R c) cs
        → All (λ x. All (R x) sorted) cs
        → All (λ x. All (R x) (insert before c sorted)) cs
    apart_insert c sorted [] h g = tt
    apart_insert c sorted (x ∷ cs) h g =
        (insert-All (R x) c sorted (R-sym c x h.0) g.0, apart_insert c sorted cs h.1 g.1)

    -- A symmetric relation between any two elements survives the sort.
    pub sort-Pairwise :
        (sorted cs : List A)
        → Pairwise R sorted
        → Pairwise R cs
        → All (λ x. All (R x) sorted) cs
        → Pairwise R (sort before sorted cs)
    unfolding sort
    sort-Pairwise sorted [] h g a = h
    sort-Pairwise sorted (c ∷ cs) h g a =
        sort-Pairwise (insert before c sorted) cs (insert-Pairwise c sorted a.0 h) g.1
          (apart_insert c sorted cs g.0 a.1)
