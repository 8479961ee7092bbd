-- ===== src/Grammar/Examples.antt =====
-- Runs of the grammar, and its theorems at concrete plates.
use fac_lpr_engine.Prelude.{Text, ℕ, ◌≤◌, ◌≡◌, refl, true, false, ◌↔◌, ◌⊎◌, some, [], ◌∷◌}
use fac_lpr_engine.Errors.{Result, ok, err}
use fac_lpr_engine.Grammar.{
  TurkishPlateGrammarConfig, TurkishPlateGrammar, make_grammar, normalize, is_valid,
  is_valid_prefix, province_code, scan_letters, skip_digits, strip, is_valid_normalized,
  is_allowed_letter, is_ascii_digit, add_letters, ascii_upper, is_ascii_space, allowed_digit_count,
  is_normalized_prefix, maximum_digit_count,
}
use fac_lpr_engine.Grammar.Build.{IsBuilt, make_grammar-IsBuilt}
use fac_lpr_engine.Grammar.Normal.{normalize-normalize}
use fac_lpr_engine.Grammar.Validity.{IsPlate, is_valid_iff, is_valid-province_code}
use fac_lpr_engine.Grammar.Prefix.{IsExtendable, is_valid_prefix_iff}

-- The default configuration, with fewer letters.
abbrev small_config : TurkishPlateGrammarConfig
small_config = record {
  allowed_letters = b'a' ∷ b'B' ∷ b'C' ∷ [];
  strip_ascii_whitespace = true;
  strip_hyphen = true;
  maximum_input_length = 32;
}

abbrev built_or : TurkishPlateGrammar → Result TurkishPlateGrammar → TurkishPlateGrammar
built_or g (ok made) = made
built_or g (err e) = g

small : TurkishPlateGrammar
unfolding make_grammar add_letters ascii_upper
small =
    built_or (record { config = small_config; allowed = λ _. false }) (make_grammar small_config)

-- " 34-abc 12"
abbrev sample : Text
sample = 32 ∷ b'3' ∷ b'4' ∷ 45 ∷ b'a' ∷ b'b' ∷ b'c' ∷ 32 ∷ b'1' ∷ b'2' ∷ []

accepts_sample : is_valid small sample ≡ true
unfolding small is_valid normalize strip is_valid_normalized scan_letters skip_digits is_ascii_digit
    is_allowed_letter allowed_digit_count is_ascii_space
accepts_sample = refl

sample_prefix : is_valid_prefix small (b'3' ∷ b'4' ∷ 45 ∷ b'a' ∷ []) ≡ true
unfolding small is_valid_prefix normalize strip is_normalized_prefix scan_letters skip_digits
    is_ascii_digit is_allowed_letter is_ascii_space maximum_digit_count
sample_prefix = refl

small-IsBuilt : IsBuilt small
unfolding small
small-IsBuilt = make_grammar-IsBuilt small_config refl

make_grammar-IsBuilt_example : IsBuilt small
unfolding small
make_grammar-IsBuilt_example = make_grammar-IsBuilt small_config refl

normalize-normalize_example : normalize small (normalize small sample) ≡ normalize small sample
normalize-normalize_example = normalize-normalize small sample

is_valid_iff_example : (is_valid small sample ≡ true) ↔ IsPlate small (normalize small sample)
is_valid_iff_example = is_valid_iff small sample small-IsBuilt

is_valid-province_code_example :
    (code : ℕ) × (province_code small sample ≡ some code) × (1 ≤ code) × (code ≤ 81)
is_valid-province_code_example = is_valid-province_code small sample accepts_sample

is_valid_prefix_iff_example : (is_valid_prefix small (b'3' ∷ b'4' ∷ []) ≡ true) ↔ (
    (◌≡◌ {A = Text} (b'3' ∷ b'4' ∷ []) [])
    ⊎ IsExtendable small (normalize small (b'3' ∷ b'4' ∷ [])))
is_valid_prefix_iff_example = is_valid_prefix_iff small (b'3' ∷ b'4' ∷ []) small-IsBuilt
