-- ===== src/Grammar/Prefix.antt =====
-- `is_valid_prefix` accepts exactly the texts that can still become a plate.
use mathlib.Core.List.{append-nil, append_assoc}
use fac_lpr_engine.Prelude.{
  Text, is_empty, ℕ, zero, suc, ◌+◌, ◌-◌, ◌≤◌, ◌≡◌, refl, ap, subst, true, false, some, [], ◌∷◌,
  ◌++◌, ◌⊎◌, ◌↔◌, ◌≢◌, inl, inr, arith, length, length-append, All, All-append, ◌==◌, Option-cases,
  Bool-cases,
}
use fac_lpr_engine.Grammar.{
  TurkishPlateGrammar, is_ascii_digit, scan_letters, code_of, maximum_digit_count,
  digits_end_prefix, is_normalized_prefix, is_valid_prefix, normalize, is_valid_normalized,
}
use fac_lpr_engine.Grammar.Scan.{
  IsDigit, IsLetter, scan_letters-append, scan_letters-Scanned, scan_letters-le, skip_digits-nil,
  skip_digits-All, append_split, All-append_left,
}
use fac_lpr_engine.Grammar.Build.{IsBuilt}
use fac_lpr_engine.Grammar.Validity.{
  IsPlate, plate, Counts, digits-Stops, is_valid_normalized-IsPlate, IsPlate-is_valid_normalized,
}

zeros : ℕ → Text
zeros zero = []
zeros (suc n) = b'0' ∷ zeros n

zeros-IsDigit : (n : ℕ) → All IsDigit (zeros n)
unfolding zeros is_ascii_digit
zeros-IsDigit zero = tt
zeros-IsDigit (suc n) = (refl, zeros-IsDigit n)

length-zeros : (n : ℕ) → length (zeros n) ≡ n
unfolding zeros
length-zeros zero = refl
length-zeros (suc n) = omega (arith, length-zeros n)

digits_end_prefix-parts :
    (n : ℕ) (tail : Text)
    → digits_end_prefix n tail ≡ true
    → (1 ≤ n) × All IsDigit tail × (length tail ≤ maximum_digit_count n)
unfolding digits_end_prefix
digits_end_prefix-parts n [] h = (ground arith, tt, omega arith)
digits_end_prefix-parts n (c ∷ cs) h =
    (ground arith, skip_digits-All (c ∷ cs) (ground arith), ground arith)

maximum_digit_count-Counts : (n : ℕ) → 1 ≤ n → n ≤ 3 → Counts n (maximum_digit_count n)
unfolding maximum_digit_count
maximum_digit_count-Counts n h k = ground arith

Counts-le : (l d : ℕ) → Counts l d → (1 ≤ l) × (l ≤ 3) × (d ≤ maximum_digit_count l) × (l + d ≤ 6)
unfolding maximum_digit_count
Counts-le l d h = ground arith

-- Letters and digits so far, filled up with zeros.
complete :
    (g : TurkishPlateGrammar) (a b n : ℕ) (rest tail : Text)
    → IsDigit a
    → IsDigit b
    → 1 ≤ code_of a b
    → code_of a b ≤ 81
    → scan_letters g rest 0 ≡ some (n, tail)
    → digits_end_prefix n tail ≡ true
    → (s : Text) × IsPlate g (a ∷ b ∷ (rest ++ s))
complete g a b n rest tail da db lo hi e h =
    let (letters, p, q, r, stops) = scan_letters-Scanned g rest 0 n tail e in
    let (pos, ds, le) = digits_end_prefix-parts n tail h in
    let s = zeros (maximum_digit_count n - length tail) in
    let same : n ≡ length letters = omega arith in
    let size : maximum_digit_count n ≡ length (tail ++ s) =
      omega (arith, length-append tail s, length-zeros (maximum_digit_count n - length tail)) in
    let counts =
      maximum_digit_count-Counts n pos (scan_letters-le g rest 0 n tail e (omega arith)) in
    (
      s,
      plate a b letters (tail ++ s) (rw p (rw append_assoc)) da db lo hi q
          (All-append IsDigit tail s ds (zeros-IsDigit _))
          (subst (λ x. Counts x (length (tail ++ s))) same (subst (Counts n) size counts)),
    )

one_letter :
    (g : TurkishPlateGrammar) (a b l : ℕ)
    → IsLetter g l
    → IsDigit a
    → IsDigit b
    → 1 ≤ code_of a b
    → code_of a b ≤ 81
    → IsPlate g (a ∷ b ∷ l ∷ zeros 5)
one_letter g a b l hl da db lo hi =
    plate a b (l ∷ []) (zeros 5) refl da db lo hi (hl, tt) (zeros-IsDigit 5)
      (inl (refl, inr (length-zeros 5)))

one_digit :
    (g : TurkishPlateGrammar) (a l : ℕ)
    → IsLetter g l
    → b'0' ≤ a
    → a ≤ b'8'
    → (s : Text) × IsPlate g (a ∷ s)
unfolding is_ascii_digit
one_digit g a l hl lo hi = elim (Bool-cases (a == b'0')) [
  | inl e ↦ (
    b'1' ∷ l ∷ zeros 5,
    one_letter g a b'1' l hl (ground arith) refl (ground arith) (ground arith),
  )
  | inr e ↦ (
    b'0' ∷ l ∷ zeros 5,
    one_letter g a b'0' l hl (ground arith) refl (ground arith) (ground arith),
  )
]

prefix-IsPlate :
    (g : TurkishPlateGrammar) (p : Text)
    → IsBuilt g
    → is_normalized_prefix g p ≡ true
    → (s : Text) × IsPlate g (p ++ s)
unfolding is_normalized_prefix
prefix-IsPlate g [] built h = cc
prefix-IsPlate g (a ∷ []) built h =
    one_digit g a built.a_letter.0 built.a_letter.1 (ground arith) (ground arith)
prefix-IsPlate g (a ∷ b ∷ []) built h =
    let (l, hl) = built.a_letter in
    (l ∷ zeros 5, one_letter g a b l hl (ground arith) (ground arith) (ground arith) (ground arith))
prefix-IsPlate g (a ∷ b ∷ c ∷ cs) built h = elim (Option-cases (scan_letters g (c ∷ cs) 0)) [
  | inl e ↦ absurd (ground arith)
  | inr ((n, tail), e) ↦
      complete g a b n (c ∷ cs) tail (ground arith) (ground arith) (ground arith) (ground arith) e
        (ground arith)
]

digits_end_prefix-true :
    (n : ℕ) (tail : Text)
    → 1 ≤ n
    → All IsDigit tail
    → length tail ≤ maximum_digit_count n
    → digits_end_prefix n tail ≡ true
unfolding digits_end_prefix
digits_end_prefix-true n [] h ds k = ground arith
digits_end_prefix-true n (c ∷ cs) h ds k = ground (arith, skip_digits-nil (c ∷ cs) ds)

not_empty-pos : (text : Text) → is_empty text ≡ false → 1 ≤ length text
not_empty-pos [] h = cc
not_empty-pos (c ∷ cs) h = omega arith

-- What has been read of the letters and digits of a plate passes.
rest_of_plate :
    (g : TurkishPlateGrammar) (rest s letters digits : Text)
    → IsBuilt g
    → is_empty rest ≡ false
    → rest ++ s ≡ letters ++ digits
    → All (IsLetter g) letters
    → All IsDigit digits
    → Counts (length letters) (length digits)
    → (n : ℕ) × (tail : Text) × (scan_letters g rest 0 ≡ some (n, tail))
      × (digits_end_prefix n tail ≡ true)
rest_of_plate g rest s letters digits built some_rest e ls ds k =
    let (pos, most, room, total) = Counts-le (length letters) (length digits) k in
    elim (append_split rest s letters digits e) [
      | inl (m, f) ↦
          let few : 0 + length rest ≤ 3 = omega (arith, ap length f, length-append rest m) in
          let all = All-append_left (IsLetter g) rest m (subst (All (IsLetter g)) f ls) in
          let scanned : scan_letters g rest 0 ≡ some (0 + length rest, []) =
            rw append-nil at (scan_letters-append g rest [] 0 all tt few) in
          (
            0 + length rest,
            [],
            scanned,
            digits_end_prefix-true _ [] (omega (arith, not_empty-pos rest some_rest)) tt
                (omega arith),
          )
      | inr (d, f, f') ↦
          let all = All-append_left IsDigit d s (subst (All IsDigit) f' ds) in
          let scanned : scan_letters g rest 0 ≡ some (0 + length letters, d) =
            rw f
              (scan_letters-append g letters d 0 ls (digits-Stops g d built all) (omega arith)) in
          let same : 0 + length letters ≡ length letters = omega arith in
          let fits : length d ≤ maximum_digit_count (length letters) =
            omega (arith, ap length f', length-append d s) in
          (
            0 + length letters,
            d,
            scanned,
            rw same (digits_end_prefix-true (length letters) d pos all fits),
          )
    ]

IsPlate-prefix :
    (g : TurkishPlateGrammar) (p s : Text)
    → IsBuilt g
    → p ≢ []
    → IsPlate g (p ++ s)
    → is_normalized_prefix g p ≡ true
unfolding is_normalized_prefix is_ascii_digit
IsPlate-prefix g [] s built ne pl = absurd (ne refl)
IsPlate-prefix g (x ∷ []) s built ne (plate a b letters digits e da db lo hi ls ds k) = ground arith
IsPlate-prefix g (x ∷ y ∷ []) s built ne (plate a b letters digits e da db lo hi ls ds k) =
    ground arith
IsPlate-prefix g (x ∷ y ∷ c ∷ cs) s built ne (plate a b letters digits e da db lo hi ls ds k) =
    let tails : (c ∷ cs) ++ s ≡ letters ++ digits = cc in
    let (n, tail, scanned, ends) =
      rest_of_plate g (c ∷ cs) s letters digits built refl tails ls ds k in
    let (pos, most, room, total) = Counts-le (length letters) (length digits) k in
    let short : length (c ∷ cs) ≤ 6 =
      omega (arith, ap length tails, length-append (c ∷ cs) s, length-append letters digits) in
    ground arith

prefix_some : (g : TurkishPlateGrammar) (p : Text) → is_normalized_prefix g p ≡ true → p ≢ []
unfolding is_normalized_prefix
prefix_some g [] h = cc
prefix_some g (c ∷ cs) h = λ e. cc

-- Some continuation of a text that is not empty is a valid plate.
abbrev pub IsExtendable : TurkishPlateGrammar → Text → Type 0
IsExtendable g p = (p ≢ []) × (s : Text) × (is_valid_normalized g (p ++ s) ≡ true)

pub is_normalized_prefix_iff :
    (g : TurkishPlateGrammar) (p : Text)
    → IsBuilt g
    → (is_normalized_prefix g p ≡ true) ↔ IsExtendable g p
is_normalized_prefix_iff g p built = (
  λ h.
      let (s, is_plate) = prefix-IsPlate g p built h in
      (prefix_some g p h, s, IsPlate-is_valid_normalized g _ built is_plate),
  λ (ne, s, v). IsPlate-prefix g p s built ne (is_valid_normalized-IsPlate g _ v),
)

-- For every grammar that the constructor makes: a text is a valid prefix exactly if it is empty, or
-- its normal form is not empty and some continuation of the normal form is a valid plate.
pub is_valid_prefix_iff :
    (g : TurkishPlateGrammar) (text : Text)
    → IsBuilt g
    → (is_valid_prefix g text ≡ true) ↔ ((text ≡ []) ⊎ IsExtendable g (normalize g text))
unfolding is_valid_prefix
is_valid_prefix_iff g [] built = (λ h. inl refl, λ h. refl)
is_valid_prefix_iff g (c ∷ cs) built = (
  λ h. inr ((is_normalized_prefix_iff g (normalize g (c ∷ cs)) built).0 h),
  λ h. elim h [
    | inl e ↦ absurd (cc)
    | inr extendable ↦ (is_normalized_prefix_iff g (normalize g (c ∷ cs)) built).1 extendable
  ],
)
