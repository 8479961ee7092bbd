-- ===== src/OrderedMap/Laws.antt =====
-- Lookup after an update, and the order of the keys.
use fac_lpr_engine.Prelude.{
  text_eq_of_lt, Bool-cases, arith, text_lt_trans, text_eq, ◌∷◌, some, if◌then◌else◌, none, true,
  All, ◌≡◌, text_lt, List, Text,
}
use fac_lpr_engine.Prelude.{
  ◌≡◌, refl, sym, ◌∙◌, subst, inl, inr, true, none, some, List, [], ◌∷◌, arith, All, if◌then◌else◌,
  Bool-cases, Text, text_eq, text_lt, text_eq_refl, eq_of_text_eq, text_lt_trans, text_lt_total,
  text_eq_of_lt, text_eq_sym,
}
use mathlib.Core.Option.{get_or}
use fac_lpr_engine.OrderedMap.{lookup, upsert, Above, IsSorted}

module _ {ℓ} {V : Type ℓ} where
  Above-trans : (j k : Text) (m : List (Text × V)) → text_lt j k ≡ true → Above k m → Above j m
  Above-trans j k [] h a = tt
  Above-trans j k (e ∷ m) h a = (text_lt_trans j k e.0 h a.0, Above-trans j k m h a.1)

  pub lookup-Above : (k : Text) (m : List (Text × V)) → Above k m → lookup k m ≡ none
  unfolding lookup
  lookup-Above k [] a = refl
  lookup-Above k ((j, v) ∷ m) a = ground (arith, text_eq_of_lt k j a.0, lookup-Above k m a.1)

  upsert-Above :
      (j k : Text) (start : V) (f : V → V) (m : List (Text × V))
      → text_lt j k ≡ true
      → Above j m
      → Above j (upsert k start f m)
  unfolding upsert
  upsert-Above j k start f [] h a = (h, tt)
  upsert-Above j k start f ((i, v) ∷ m) h a = ground (arith, upsert-Above j k start f m h a.1)

  pub upsert-IsSorted :
      (k : Text) (start : V) (f : V → V) (m : List (Text × V))
      → IsSorted m
      → IsSorted (upsert k start f m)
  unfolding upsert
  upsert-IsSorted k start f [] s = (tt, tt)
  upsert-IsSorted k start f ((j, v) ∷ m) s = elim (Bool-cases (text_lt k j)) [
    | inl e ↦ rw e ((e, Above-trans k j m e s.0), s)
    | inr e ↦ elim (Bool-cases (text_eq j k)) [
      | inl same ↦ rw (e, same) s
      | inr other ↦
          let above = text_lt_total k j e (text_eq_sym k j ∙ other) in
          rw (e, other) (upsert-Above j k start f m above s.0, upsert-IsSorted k start f m s.1)
    ]
  ]

  -- An entry that an update makes or changes is found under its key, and no other entry changes.
  pub lookup-upsert :
      (j k : Text) (start : V) (f : V → V) (m : List (Text × V))
      → IsSorted m
      → lookup j (upsert k start f m)
        ≡ (if text_eq k j then some (f (get_or (lookup k m) start)) else lookup j m)
  unfolding lookup upsert
  lookup-upsert j k start f [] s = refl
  lookup-upsert j k start f ((i, v) ∷ m) s = elim (Bool-cases (text_lt k i)) [
    | inl e ↦ rw e (ground (arith, text_eq_of_lt k i e, lookup-Above k m (Above-trans k i m e s.0)))
    | inr e ↦ elim (Bool-cases (text_eq i k)) [
      | inl same ↦ rw (e, same, eq_of_text_eq i k same) (ground arith)
      | inr other ↦
          rw (e, other)
            (ground (
              arith,
              lookup-upsert j k start f m s.1,
              eq_of_text_eq i j,
              eq_of_text_eq k j,
              text_eq_refl j,
            ))
    ]
  ]

  entries_below :
      (k : Text) (v : V) (n m : List (Text × V))
      → Above k n
      → All (λ e. lookup e.0 m ≡ some e.1) n
      → All (λ e. lookup e.0 ((k, v) ∷ m) ≡ some e.1) n
  unfolding lookup
  entries_below k v [] m a h = tt
  entries_below k v ((j, w) ∷ n) m a h =
      (ground (arith, text_eq_of_lt k j a.0), entries_below k v n m a.1 h.1)

  -- In a sorted map every entry is the one that a lookup of its key finds.
  pub lookup-entries : (m : List (Text × V)) → IsSorted m → All (λ e. lookup e.0 m ≡ some e.1) m
  unfolding lookup
  lookup-entries [] s = tt
  lookup-entries ((k, v) ∷ m) s =
      (rw (text_eq_refl k), entries_below k v m m s.0 (lookup-entries m s.1))

  -- An update keeps what holds of all entries, if it makes and changes entries accordingly.
  pub upsert-All {κ} :
      (P : Text × V → Type κ) (k : Text) (start : V) (f : V → V) (m : List (Text × V))
      → P (k, f start)
      → ((v : V) → P (k, v) → P (k, f v))
      → All P m
      → All P (upsert k start f m)
  unfolding upsert
  upsert-All P k start f [] new old h = (new, tt)
  upsert-All P k start f ((j, v) ∷ m) new old h = elim (Bool-cases (text_lt k j)) [
    | inl e ↦ rw e (new, h)
    | inr e ↦ elim (Bool-cases (text_eq j k)) [
      | inl same ↦
          let path = sym (eq_of_text_eq j k same) in
          let here : P (k, v) = subst (λ x. P (x, v)) (eq_of_text_eq j k same) h.0 in
          rw (e, same) (subst (λ x. P (x, f v)) path (old v here), h.1)
      | inr other ↦ rw (e, other) (h.0, upsert-All P k start f m new old h.1)
    ]
  ]
