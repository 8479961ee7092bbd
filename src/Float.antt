-- ===== src/Float.antt =====
-- What the code does with a `float` or a `double`: constants, comparisons, arithmetic and
-- `std::isfinite`. The type and its operations are a parameter; the laws that some theorems assume
-- of them are those of IEEE 754 comparisons between numbers that are finite.
use fac_lpr_engine.Prelude.{
  ℕ, ◌+◌, ◌-◌, ◌*◌, ◌/◌, ◌^◌, ◌≡◌, ◌⊎◌, Bool, true, false, not, ◌&&◌, Option, none, some, arith,
  ltb, leb, ◌==◌, if◌then◌else◌,
}

pub record Float (F : Type 0) : Type 0 where
  pub nought : F
  pub one : F
  pub lt : F → F → Bool
  pub le : F → F → Bool
  pub eq : F → F → Bool
  pub add : F → F → F
  pub sub : F → F → F
  pub mul : F → F → F
  pub div : F → F → F
  pub is_finite : F → Bool
  -- `literal m d` is the constant `m * 10 ^ -d` of the source.
  pub literal : ℕ → ℕ → F

module _ {F : Type 0} ⦃fl : Float F⦄ where
  -- `std::max` and `std::clamp`
  unfoldable pub fmax : F → F → F
  fmax a b = if fl.lt a b then b else a

  unfoldable pub clamp : F → F → F → F
  clamp v lo hi = if fl.lt v lo then lo else if fl.lt hi v then hi else v

  -- `!std::isfinite(v) || v < 0.0F || v > 1.0F`, the negation
  unfoldable pub is_probability : F → Bool
  is_probability v = fl.is_finite v && not (fl.lt v fl.nought) && not (fl.lt fl.one v)

pub record IsOrdered (F : Type 0) ⦃fl : Float F⦄ : Type 0 where
  pub nought_finite : fl.is_finite fl.nought ≡ true
  pub one_finite : fl.is_finite fl.one ≡ true
  pub nought_le_one : fl.lt fl.one fl.nought ≡ false
  pub lt_irrefl : (x : F) → fl.lt x x ≡ false
  pub lt_trans : (x y z : F) → fl.lt x y ≡ true → fl.lt y z ≡ true → fl.lt x z ≡ true
  -- Between finite numbers, what is not less is greater or equal, and `==` is neither.
  pub lt_total :
      (x y z : F)
      → fl.is_finite x ≡ true
      → fl.is_finite y ≡ true
      → fl.is_finite z ≡ true
      → fl.lt x z ≡ true
      → (fl.lt x y ≡ true) ⊎ (fl.lt y z ≡ true)
  pub le-not-lt :
      (x y : F) → fl.is_finite x ≡ true → fl.is_finite y ≡ true → fl.le x y ≡ not (fl.lt y x)
  pub eq-not-lt :
      (x y : F)
      → fl.is_finite x ≡ true
      → fl.is_finite y ≡ true
      → fl.eq x y ≡ (not (fl.lt x y) && not (fl.lt y x))
  -- NaN and the infinities lie outside of every interval.
  pub between_finite :
      (x : F) → fl.le fl.nought x ≡ true → fl.le x fl.one ≡ true → fl.is_finite x ≡ true

-- The operations at concrete values: thousandths, with `none` for NaN and for the infinities.
abbrev pub Milli : Type 0
Milli = Option ℕ

abbrev pub on_numbers {ℓ} : {A : Type ℓ} → A → (ℕ → ℕ → A) → Milli → Milli → A
on_numbers other f (some a) (some b) = f a b
on_numbers other f _ _ = other

abbrev pub is_number : Milli → Bool
is_number none = false
is_number (some a) = true

instance abbrev pub milli_float : Float Milli
milli_float = record {
  nought = some 0;
  one = some 1000;
  lt = on_numbers false ltb;
  le = on_numbers false leb;
  eq = on_numbers false ◌==◌;
  add = on_numbers none (λ a b. some (a + b));
  sub = on_numbers none (λ a b. some (a - b));
  mul = on_numbers none (λ a b. some (a * b / 1000));
  div = on_numbers none (λ a b. if b == 0 then none else some (a * 1000 / b));
  is_finite = is_number;
  literal = λ m d. some (m * 1000 / 10 ^ d);
}

pub Milli-IsOrdered : IsOrdered Milli
Milli-IsOrdered = ground arith
