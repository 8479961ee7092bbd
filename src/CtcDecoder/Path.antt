-- ===== src/CtcDecoder/Path.antt =====
-- The best path, and the description of its text.
use fac_lpr_engine.Prelude.{
  ℕ, zero, suc, ◌+◌, ◌-◌, ◌*◌, ◌/◌, ◌%◌, ◌≤◌, ◌<◌, ◌≡◌, refl, ap, inl, inr, Bool, true, false, ◌||◌,
  Option, none, some, List, [], ◌∷◌, arith, length, get_elem?, ltb, ◌==◌, if◌then◌else◌, Bool-cases,
  size_mod,
}
use fac_lpr_engine.Errors.{Result, ok, ◌>>=◌}
use native.Mathlib.Nat.{mul-le-mul, le_refl, div-add-mod, mod-lt}
use fac_lpr_engine.Float.{Float}
use fac_lpr_engine.CtcDecoder.{
  GreedyCtcDecoderConfig, CtcNumbers, size_max, checked_element_count, argmax_loop,
  argmax_probability, row_of,
}

-- The path without repetitions of its neighbours.
abbrev pub dedup_after : ℕ → List ℕ → List ℕ
dedup_after previous [] = []
dedup_after previous (c ∷ cs) = if c == previous then dedup_after c cs else c ∷ dedup_after c cs

abbrev pub dedup : List ℕ → List ℕ
dedup [] = []
dedup (c ∷ cs) = c ∷ dedup_after c cs

abbrev pub without : ℕ → List ℕ → List ℕ
without blank [] = []
without blank (c ∷ cs) = if c == blank then without blank cs else c ∷ without blank cs

-- The character of a class; the classes behind the blank are those of the charset, one further.
abbrev pub character : GreedyCtcDecoderConfig → ℕ → ℕ
character config c =
    or_zero (get_elem? config.charset (if ltb c config.blank_index then c else c - 1))
  where
    or_zero : Option ℕ → ℕ
    or_zero none = 0
    or_zero (some x) = x

module _ {F : Type 0} (D : Type 0) ⦃fl : Float F⦄ ⦃dl : Float D⦄ ⦃cn : CtcNumbers F D⦄ where
  -- The best class of each of a number of rows, from one on.
  unfoldable pub best_path : List F → ℕ → ℕ → ℕ → Result (List ℕ)
  best_path logits classes zero timestep = ok []
  best_path logits classes (suc left) timestep = do
    best ← argmax_probability D (row_of logits classes timestep)
    rest ← best_path logits classes left (timestep + 1)
    ok (best.1 ∷ rest)

pub get_elem-lt :
    {A : Type 0} (xs : List A) (i : ℕ) → i < length xs → (x : A) × (get_elem? xs i ≡ some x)
get_elem-lt [] i h = absurd (omega (arith, h))
get_elem-lt (x ∷ xs) zero h = (x, refl)
get_elem-lt (x ∷ xs) (suc i) h = get_elem-lt xs i (omega (arith, h))

pub ok_inj : {A : Type 0} {a b : A} → ok a ≡ ok b → a ≡ b
ok_inj e = cc

module _ {F : Type 0} ⦃fl : Float F⦄ where
  pub argmax_loop-bound :
      (index : ℕ) (max_logit : F) (best bound : ℕ) (row : List F) {b : ℕ}
      → best < bound
      → index + length row ≤ bound
      → argmax_loop index max_logit best row ≡ ok b
      → b < bound
  unfolding argmax_loop
  argmax_loop-bound index max_logit best bound [] {b} h l e =
      let same : best ≡ b = ground arith in omega (arith, h, same)
  argmax_loop-bound index max_logit best bound (value ∷ row) {b} h l e =
      elim (Bool-cases (fl.is_finite value)) [
        | inr f ↦ absurd (ground arith)
        | inl f ↦
            argmax_loop-bound (index + 1) (if fl.lt max_logit value then value else max_logit)
              (if fl.lt max_logit value then index else best) bound row
              (better (fl.lt max_logit value)) (omega (arith, l)) (rw f at e)
      ]
    where
      better : (c : Bool) → (if c then index else best) < bound
      better true = omega (arith, l)
      better false = h

pub not_equal : {a b : ℕ} → a < b → (a == b) ≡ false
not_equal h = ground arith

pub smaller : (a b : ℕ) → 1 ≤ a → a * b < size_mod → b < size_mod
smaller a b h f = omega (arith, mul-le-mul h (le_refl b), f)

pub checked_element_count_lem :
    (timesteps classes : ℕ)
    → 1 ≤ timesteps
    → 1 ≤ classes
    → timesteps * classes < size_mod
    → checked_element_count timesteps classes ≡ ok (timesteps * classes)
unfolding checked_element_count
checked_element_count_lem timesteps classes t c f =
    let some_left : (timesteps == 0 || classes == 0) ≡ false = ground arith in
    let same : (timesteps * classes) % size_mod ≡ timesteps * classes = omega (arith, f) in
    elim (Bool-cases (ltb (size_max / classes) timesteps)) [
      | inr e ↦ rw (some_left, e) (ap ok same)
      | inl e ↦
          let more : suc (size_max / classes) ≤ timesteps = ground arith in
          absurd (
            omega (
              arith,
              f,
              mul-le-mul more (le_refl classes),
              div-add-mod size_max classes,
              mod-lt size_max c,
            ))
    ]
