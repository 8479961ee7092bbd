-- ===== src/OrderedMap.antt =====
-- `std::map<std::string, V>`: an association list in ascending order of its keys, which is also the
-- order of iteration.
pub mod Laws
use fac_lpr_engine.Prelude.{
  ◌≡◌, true, Option, none, some, List, [], ◌∷◌, Text, text_eq, text_lt, if◌then◌else◌, All,
}

module _ {ℓ} {V : Type ℓ} where
  unfoldable pub lookup : Text → List (Text × V) → Option V
  lookup k [] = none
  lookup k ((j, v) ∷ m) = if text_eq j k then some v else lookup k m

  -- `f(map[key])`, where a missing value starts as `start`.
  unfoldable pub upsert : Text → V → (V → V) → List (Text × V) → List (Text × V)
  upsert k start f [] = (k, f start) ∷ []
  upsert k start f ((j, v) ∷ m) =
      let rest = upsert k start f m in
      if text_lt k j
      then (k, f start) ∷ (j, v) ∷ m
      else if text_eq j k
      then (j, f v) ∷ m
      else (j, v) ∷ rest

  abbrev pub Above : Text → List (Text × V) → Type 0
  Above k = All λ e. text_lt k e.0 ≡ true

  abbrev pub IsSorted : List (Text × V) → Type 0
  IsSorted [] = Unit
  IsSorted ((k, v) ∷ m) = Above k m × IsSorted m
