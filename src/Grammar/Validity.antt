-- ===== src/Grammar/Validity.antt =====
-- `is_valid_normalized` decides the written form of a plate.
use fac_lpr_engine.Prelude.{
  is_empty, Text, refl, false, some, ℕ, ◌≤◌, ◌≡◌, subst, true, [], ◌∷◌, ◌++◌, ◌⊎◌, ◌↔◌, inl, inr,
  arith, length, length-append, All, Option-cases, Bool-cases,
}
use fac_lpr_engine.Grammar.{
  province_of, province_code, normalize, is_valid, TurkishPlateGrammar, is_ascii_digit,
  is_allowed_letter, scan_letters, code_of, allowed_digit_count, digits_end_plate,
  is_valid_normalized,
}
use fac_lpr_engine.Grammar.Scan.{
  IsDigit, IsLetter, Stops, scan_letters-append, scan_letters-Scanned, skip_digits-nil,
  skip_digits-All,
}
use fac_lpr_engine.Grammar.Build.{IsBuilt}

-- How many digits may follow how many letters.
abbrev pub Counts : ℕ → ℕ → Type 0
Counts l d =
    ((l ≡ 1) × ((d ≡ 4) ⊎ (d ≡ 5)))
    ⊎ ((l ≡ 2) × ((d ≡ 3) ⊎ (d ≡ 4)))
    ⊎ ((l ≡ 3) × ((d ≡ 2) ⊎ (d ≡ 3)))

-- A plate: a province code from 01 to 81, letters, digits.
pub data IsPlate (g : TurkishPlateGrammar) (text : Text) : Type 0 where
  plate :
      (a b : ℕ) (letters digits : Text)
      → text ≡ a ∷ b ∷ (letters ++ digits)
      → IsDigit a
      → IsDigit b
      → 1 ≤ code_of a b
      → code_of a b ≤ 81
      → All (IsLetter g) letters
      → All IsDigit digits
      → Counts (length letters) (length digits)
      → IsPlate g text

digits_end_plate-Counts :
    (l : ℕ) (tail : Text)
    → digits_end_plate l tail ≡ true
    → All IsDigit tail × Counts l (length tail)
unfolding digits_end_plate allowed_digit_count
digits_end_plate-Counts l tail h = (skip_digits-All tail (ground arith), ground arith)

digits_end_plate-true :
    (l : ℕ) (tail : Text)
    → All IsDigit tail
    → Counts l (length tail)
    → digits_end_plate l tail ≡ true
unfolding digits_end_plate allowed_digit_count
digits_end_plate-true l tail h c = ground (arith, skip_digits-nil tail h)

pub is_valid_normalized-IsPlate :
    (g : TurkishPlateGrammar) (text : Text) → is_valid_normalized g text ≡ true → IsPlate g text
unfolding is_valid_normalized
is_valid_normalized-IsPlate g [] h = cc
is_valid_normalized-IsPlate g (a ∷ []) h = cc
is_valid_normalized-IsPlate g (a ∷ b ∷ rest) h = elim (Option-cases (scan_letters g rest 0)) [
  | inl e ↦ absurd (ground arith)
  | inr ((n, tail), e) ↦
      let (letters, p, q, r, s) = scan_letters-Scanned g rest 0 n tail e in
      let (d, k) = digits_end_plate-Counts n tail (ground arith) in
      let same : n ≡ length letters = omega arith in
      plate a b letters tail (cc) (ground arith) (ground arith) (ground arith) (ground arith) q d
        (subst (λ x. Counts x (length tail)) same k)
]

pub digits-Stops :
    (g : TurkishPlateGrammar) (digits : Text) → IsBuilt g → All IsDigit digits → Stops g digits
unfolding is_ascii_digit
digits-Stops g [] built h = tt
digits-Stops g (c ∷ cs) built h = elim (Bool-cases (is_allowed_letter g c)) [
  | inl e ↦ absurd (ground (arith, built.uppercase c e))
  | inr e ↦ e
]

not_empty_of_valid :
    (g : TurkishPlateGrammar) (text : Text)
    → is_valid_normalized g text ≡ true
    → is_empty text ≡ false
unfolding is_valid_normalized
not_empty_of_valid g [] h = cc
not_empty_of_valid g (c ∷ cs) h = refl

pub IsPlate-is_valid_normalized :
    (g : TurkishPlateGrammar) (text : Text)
    → IsBuilt g
    → IsPlate g text
    → is_valid_normalized g text ≡ true
unfolding is_valid_normalized
IsPlate-is_valid_normalized g text built (plate a b letters digits e da db lo hi ls ds k) = rw e (
    ground (
      arith,
      length-append letters digits,
      scan_letters-append g letters digits 0 ls (digits-Stops g digits built ds),
      digits_end_plate-true (length letters) digits ds k,
    ))

-- For every grammar that the constructor makes, a text is valid exactly if its normal form is a plate:
-- a province code from 01 to 81, one to three allowed letters, and as many digits as fit the letters.
pub is_valid_iff :
    (g : TurkishPlateGrammar) (text : Text)
    → IsBuilt g
    → (is_valid g text ≡ true) ↔ IsPlate g (normalize g text)
unfolding is_valid
is_valid_iff g text built = (
  λ h. is_valid_normalized-IsPlate g (normalize g text) (ground arith),
  λ p.
      let valid = IsPlate-is_valid_normalized g (normalize g text) built p in
      rw (valid, not_empty_of_valid g (normalize g text) valid),
)

-- A valid text has a province code, from 1 to 81.
pub is_valid-province_code :
    (g : TurkishPlateGrammar) (text : Text)
    → is_valid g text ≡ true
    → (code : ℕ) × (province_code g text ≡ some code) × (1 ≤ code) × (code ≤ 81)
unfolding is_valid province_code
is_valid-province_code g text h =
    province g (normalize g text) (is_valid_normalized-IsPlate g _ (ground arith))
  where
    province :
        (g : TurkishPlateGrammar) (p : Text)
        → IsPlate g p
        → (code : ℕ) × (province_of p ≡ some code) × (1 ≤ code) × (code ≤ 81)
    province g p (plate a b letters digits e da db lo hi ls ds k) =
        (code_of a b, rw e (ground arith), lo, hi)
