-- ===== src/Grammar.antt =====
-- src/application/turkish_plate_grammar.cpp and its header: the grammar of Turkish licence plates.
-- A text is the list of its bytes, as `static_cast<unsigned char>` reads them. The table
-- `allowed_letters_` of 128 flags is a function, read below 128 only. The loops over `position` are
-- recursions on what is left of the text; `size() - digit_start` is the length of what is left.
pub mod Build
pub mod Normal
pub mod Scan
pub mod Validity
pub mod Prefix
mod Examples
use fac_lpr_engine.Prelude.{
  ℕ, ◌+◌, ◌-◌, ◌*◌, ◌≡◌, Bool, true, false, not, ◌&&◌, ◌||◌, Option, none, some, List, [], ◌∷◌,
  Text, is_empty, ltb, leb, ◌==◌, if◌then◌else◌, length,
}
use fac_lpr_engine.Errors.{Result, ok, err, configuration, throw_if, ◌>>=◌, ◌>>◌}

pub record TurkishPlateGrammarConfig : Type 0 where
  pub allowed_letters : Text
  pub strip_ascii_whitespace : Bool
  pub strip_hyphen : Bool
  pub maximum_input_length : ℕ

pub record TurkishPlateGrammar : Type 0 where
  pub config : TurkishPlateGrammarConfig
  pub allowed : ℕ → Bool

unfoldable pub is_ascii_digit : ℕ → Bool
is_ascii_digit c = leb b'0' c && leb c b'9'

unfoldable pub is_ascii_space : ℕ → Bool
is_ascii_space c = c == 32 || c == 9 || c == 13 || c == 10

unfoldable pub ascii_upper : ℕ → ℕ
ascii_upper c = if leb b'a' c && leb c b'z' then c - (b'a' - b'A') else c

unfoldable pub allowed_digit_count : ℕ → ℕ → Bool
allowed_digit_count letters digits =
    if letters == 1
    then digits == 4 || digits == 5
    else if letters == 2
    then digits == 3 || digits == 4
    else if letters == 3
    then digits == 2 || digits == 3
    else false

unfoldable pub maximum_digit_count : ℕ → ℕ
maximum_digit_count letters =
    if letters == 1 then 5 else if letters == 2 then 4 else if letters == 3 then 3 else 0

-- `allowed_letters_[byte] = true`
abbrev mark : (ℕ → Bool) → ℕ → ℕ → Bool
mark table byte c = byte == c || table c

-- The loop of the constructor.
unfoldable pub add_letters : Text → (ℕ → Bool) → Result (ℕ → Bool)
add_letters [] table = ok table
add_letters (raw ∷ rest) table =
    let value = ascii_upper raw in
    let next = add_letters rest (mark table value) in
    if leb 128 value || ltb value b'A' || ltb b'Z' value || table value
    then err configuration
    else next

unfoldable pub make_grammar : TurkishPlateGrammarConfig → Result TurkishPlateGrammar
make_grammar config = do
  throw_if
      (is_empty config.allowed_letters
        || ltb 26 (length config.allowed_letters)
        || config.maximum_input_length == 0
        || ltb 256 config.maximum_input_length)
      configuration
  table ← add_letters config.allowed_letters (λ _. false)
  ok (record { config = config; allowed = table })

-- The loop of `normalize`; `none` is its early `return {}`.
unfoldable pub strip : TurkishPlateGrammarConfig → Text → Option Text
strip config [] = some []
strip config (raw ∷ rest) =
    let tail = strip config rest in
    if leb 128 raw
    then none
    else if config.strip_ascii_whitespace && is_ascii_space raw
    then tail
    else if config.strip_hyphen && raw == b'-'
    then tail
    else elim tail [ none ↦ none | some kept ↦ some (ascii_upper raw ∷ kept) ]

unfoldable pub normalize : TurkishPlateGrammar → Text → Text
normalize g text =
    if ltb g.config.maximum_input_length (length text)
    then []
    else elim (strip g.config text) [ none ↦ [] | some kept ↦ kept ]

abbrev pub code_of : ℕ → ℕ → ℕ
code_of a b = (a - b'0') * 10 + (b - b'0')

abbrev pub bad_code : ℕ → Bool
bad_code code = ltb code 1 || ltb 81 code

province_of : Text → Option ℕ
province_of (a ∷ b ∷ rest) =
    if not (is_ascii_digit a) || not (is_ascii_digit b)
    then none
    else if bad_code (code_of a b)
    then none
    else some (code_of a b)
province_of _ = none

unfoldable pub province_code : TurkishPlateGrammar → Text → Option ℕ
unfolding province_of
province_code g text = province_of (normalize g text)

unfoldable pub is_allowed_letter : TurkishPlateGrammar → ℕ → Bool
is_allowed_letter g value = ltb value 128 && g.allowed value

-- The letter loop: how many letters were passed and the rest, or `none` after a fourth letter.
unfoldable pub scan_letters : TurkishPlateGrammar → Text → ℕ → Option (ℕ × Text)
scan_letters g [] count = some (count, [])
scan_letters g (c ∷ cs) count =
    let rest = scan_letters g cs (count + 1) in
    if is_allowed_letter g c
    then (if ltb 3 (count + 1) then none else rest)
    else some (count, c ∷ cs)

-- The digit loop: what is left behind the digits.
unfoldable pub skip_digits : Text → Text
skip_digits [] = []
skip_digits (c ∷ cs) = let rest = skip_digits cs in if is_ascii_digit c then rest else c ∷ cs

-- From `digit_start` on.
unfoldable pub digits_end_plate : ℕ → Text → Bool
digits_end_plate letters tail =
    if letters == 0
    then false
    else if not (is_empty (skip_digits tail))
    then false
    else allowed_digit_count letters (length tail)

unfoldable pub is_valid_normalized : TurkishPlateGrammar → Text → Bool
unfolding digits_end_plate
is_valid_normalized g (a ∷ b ∷ rest) =
    let size = length rest + 2 in
    if ltb size 6 || ltb 8 size || not (is_ascii_digit a) || not (is_ascii_digit b)
    then false
    else if bad_code (code_of a b)
    then false
    else elim (scan_letters g rest 0) [
      | none ↦ false
      | some (letters, tail) ↦ digits_end_plate letters tail
    ]
is_valid_normalized g _ = false

unfoldable pub is_valid : TurkishPlateGrammar → Text → Bool
is_valid g text =
    let normalized = normalize g text in
    not (is_empty normalized) && is_valid_normalized g normalized

unfoldable pub digits_end_prefix : ℕ → Text → Bool
digits_end_prefix letters tail =
    if letters == 0
    then false
    else if is_empty tail
    then true
    else if not (is_empty (skip_digits tail))
    then false
    else ltb 0 (length tail) && leb (length tail) (maximum_digit_count letters)

-- `is_valid_prefix` behind the normalization.
unfoldable pub is_normalized_prefix : TurkishPlateGrammar → Text → Bool
unfolding digits_end_prefix
is_normalized_prefix g [] = false
is_normalized_prefix g (a ∷ []) = is_ascii_digit a && leb b'0' a && leb a b'8'
is_normalized_prefix g (a ∷ b ∷ rest) =
    if ltb 8 (length rest + 2) || not (is_ascii_digit a)
    then false
    else if not (is_ascii_digit b)
    then false
    else if bad_code (code_of a b)
    then false
    else if is_empty rest
    then true
    else elim (scan_letters g rest 0) [
      | none ↦ false
      | some (letters, tail) ↦ digits_end_prefix letters tail
    ]

unfoldable pub is_valid_prefix : TurkishPlateGrammar → Text → Bool
is_valid_prefix g prefix =
    let normalized = normalize g prefix in
    if is_empty prefix then true else is_normalized_prefix g normalized
