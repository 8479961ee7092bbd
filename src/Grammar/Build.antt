-- ===== src/Grammar/Build.antt =====
-- The constructor of `TurkishPlateGrammar`: what every grammar that exists satisfies.
use fac_lpr_engine.Prelude.{
  Text, is_empty, ℕ, ◌≤◌, ◌≡◌, Bool, true, false, ◌||◌, [], ◌∷◌, arith, ◌==◌,
}
use fac_lpr_engine.Errors.{ok}
use fac_lpr_engine.Grammar.{
  TurkishPlateGrammarConfig, TurkishPlateGrammar, ascii_upper, add_letters, make_grammar, mark,
  is_allowed_letter,
}
use fac_lpr_engine.Grammar.Scan.{IsLetter}

-- Some byte of the text is the letter, in either case.
abbrev pub has : ℕ → Text → Bool
has c [] = false
has c (x ∷ xs) = ascii_upper x == c || has c xs

pub record IsBuilt (g : TurkishPlateGrammar) : Type 0 where
  pub uppercase : (c : ℕ) → IsLetter g c → (b'A' ≤ c) × (c ≤ b'Z')
  pub letters : (c : ℕ) → is_allowed_letter g c ≡ has c g.config.allowed_letters
  pub a_letter : (c : ℕ) × IsLetter g c

add_letters-has :
    (ls : Text) (table : ℕ → Bool) (c : ℕ) {after : ℕ → Bool}
    → add_letters ls table ≡ ok after
    → after c ≡ (table c || has c ls)
unfolding add_letters
add_letters-has [] table c h = ground arith
add_letters-has (x ∷ xs) table c {after} h =
    ground (arith, add_letters-has xs (mark table (ascii_upper x)) c {after = after})

add_letters-uppercase :
    (ls : Text) (table : ℕ → Bool) (c : ℕ) {after : ℕ → Bool}
    → add_letters ls table ≡ ok after
    → has c ls ≡ true
    → (b'A' ≤ c) × (c ≤ b'Z')
unfolding add_letters
add_letters-uppercase [] table c h e = cc
add_letters-uppercase (x ∷ xs) table c {after} h e =
    ground (arith, add_letters-uppercase xs (mark table (ascii_upper x)) c {after = after})

a_letter_of :
    (config : TurkishPlateGrammarConfig) {after : ℕ → Bool}
    → is_empty config.allowed_letters ≡ false
    → add_letters config.allowed_letters (λ _. false) ≡ ok after
    → (c : ℕ) × (has c config.allowed_letters ≡ true)
a_letter_of config n h = go config.allowed_letters n
  where
    go : (ls : Text) → is_empty ls ≡ false → (c : ℕ) × (has c ls ≡ true)
    go [] e = cc
    go (x ∷ xs) e = (ascii_upper x, ground arith)

make_grammar-parts :
    (config : TurkishPlateGrammarConfig) {g : TurkishPlateGrammar}
    → make_grammar config ≡ ok g
    → (is_empty config.allowed_letters ≡ false)
      × (add_letters config.allowed_letters (λ _. false) ≡ ok g.allowed)
      × (g.config ≡ config)
unfolding make_grammar
make_grammar-parts config h = ground arith

-- The constructor yields a grammar whose letters are those of the configuration, in upper case and
-- all between A and Z, and which has at least one letter.
pub make_grammar-IsBuilt :
    (config : TurkishPlateGrammarConfig) {g : TurkishPlateGrammar}
    → make_grammar config ≡ ok g
    → IsBuilt g
unfolding make_grammar is_allowed_letter
make_grammar-IsBuilt config {g} h =
    let (n, made, same) = make_grammar-parts config h in
    let ls = g.config.allowed_letters in
    let added : add_letters ls (λ _. false) ≡ ok g.allowed = rw same made in
    let table : (c : ℕ) → g.allowed c ≡ has c ls = λ c. add_letters-has ls (λ _. false) c added in
    let range : (c : ℕ) → has c ls ≡ true → (b'A' ≤ c) × (c ≤ b'Z') =
      λ c e. add_letters-uppercase ls (λ _. false) c added e in
    let exact : (c : ℕ) → is_allowed_letter g c ≡ has c ls =
      λ c. ground (arith, table c, range c) in
    let (c, e) = a_letter_of g.config (rw same n) added in
    record {
      uppercase = λ d h. range d (rw (exact d) at h);
      letters = exact;
      a_letter = (c, rw (exact c) e);
    }
