-- ===== src/Grammar/Scan.antt =====
-- The two loops of the grammar, against lists of letters and digits.
use fac_lpr_engine.Prelude.{
  is_empty, Text, ℕ, ◌+◌, ◌≤◌, ◌≡◌, refl, subst, true, false, some, List, [], ◌∷◌, ◌++◌, ◌⊎◌, inl,
  inr, arith, length, All, Bool-cases,
}
use fac_lpr_engine.Grammar.{
  TurkishPlateGrammar, is_ascii_digit, is_allowed_letter, scan_letters, skip_digits,
}

abbrev pub IsDigit : ℕ → Type 0
IsDigit c = is_ascii_digit c ≡ true

abbrev pub IsLetter : TurkishPlateGrammar → ℕ → Type 0
IsLetter g c = is_allowed_letter g c ≡ true

-- The text does not begin with a letter.
abbrev pub Stops : TurkishPlateGrammar → Text → Type 0
Stops g [] = Unit
Stops g (c ∷ cs) = is_allowed_letter g c ≡ false

pub scan_letters-append :
    (g : TurkishPlateGrammar) (letters rest : Text) (count : ℕ)
    → All (IsLetter g) letters
    → Stops g rest
    → count + length letters ≤ 3
    → scan_letters g (letters ++ rest) count ≡ some (count + length letters, rest)
unfolding scan_letters
scan_letters-append g [] [] count h s m = ground arith
scan_letters-append g [] (c ∷ cs) count h s m = ground arith
scan_letters-append g (c ∷ cs) rest count h s m =
    ground (arith, scan_letters-append g cs rest (count + 1) h.1 s)

abbrev pub Scanned : TurkishPlateGrammar → Text → ℕ → ℕ × Text → Type 0
Scanned g text count (n, tail) =
    (letters : Text) × (text ≡ letters ++ tail)
    × All (IsLetter g) letters
    × (n ≡ count + length letters)
    × Stops g tail

pub scan_letters-Scanned :
    (g : TurkishPlateGrammar) (text : Text) (count n : ℕ) (tail : Text)
    → scan_letters g text count ≡ some (n, tail)
    → Scanned g text count (n, tail)
unfolding scan_letters
scan_letters-Scanned g [] count n tail h =
    let same : [] ≡ tail = ground arith in ([], same, tt, ground arith, subst (Stops g) same tt)
scan_letters-Scanned g (c ∷ cs) count n tail h = elim (Bool-cases (is_allowed_letter g c)) [
  | inl e ↦
      let (letters, p, q, r, s) = scan_letters-Scanned g cs (count + 1) n tail (ground arith) in
      (c ∷ letters, ground arith, (e, q), omega arith, s)
  | inr e ↦
      let same : c ∷ cs ≡ tail = ground arith in
      ([], same, tt, ground arith, subst (Stops g) same e)
]

pub scan_letters-le :
    (g : TurkishPlateGrammar) (text : Text) (count n : ℕ) (tail : Text)
    → scan_letters g text count ≡ some (n, tail)
    → count ≤ 3
    → n ≤ 3
unfolding scan_letters
scan_letters-le g [] count n tail h m = ground arith
scan_letters-le g (c ∷ cs) count n tail h m =
    ground (arith, scan_letters-le g cs (count + 1) n tail)

pub skip_digits-nil : (text : Text) → All IsDigit text → skip_digits text ≡ []
unfolding skip_digits
skip_digits-nil [] h = refl
skip_digits-nil (c ∷ cs) h = ground (arith, skip_digits-nil cs h.1)

pub skip_digits-All : (text : Text) → is_empty (skip_digits text) ≡ true → All IsDigit text
unfolding skip_digits
skip_digits-All [] h = tt
skip_digits-All (c ∷ cs) h = ground (arith, skip_digits-All cs)

-- Two ways to cut one text.
pub append_split :
    (xs ys ls ds : Text)
    → xs ++ ys ≡ ls ++ ds
    → ((m : Text) × (ls ≡ xs ++ m)) ⊎ ((d : Text) × (xs ≡ ls ++ d) × (ds ≡ d ++ ys))
append_split [] ys ls ds h = inl (ls, refl)
append_split (x ∷ xs) ys [] ds h = inr (x ∷ xs, refl, cc)
append_split (x ∷ xs) ys (l ∷ ls) ds h = elim (append_split xs ys ls ds (cc)) [
  | inl (m, e) ↦ inl (m, cc)
  | inr (d, e, f) ↦ inr (d, cc, f)
]

pub All-append_left {ℓ κ} :
    {A : Type ℓ} (P : A → Type κ) (xs ys : List A) → All P (xs ++ ys) → All P xs
All-append_left P [] ys h = tt
All-append_left P (x ∷ xs) ys h = (h.0, All-append_left P xs ys h.1)
