-- ===== src/Prelude/Texts.antt =====
-- `std::string` as the list of its bytes (as `unsigned char`), with `==` and the order of `<`, which
-- is lexicographic by unsigned bytes.
use Prim.Native.Nat.{ℕ}
use mathlib.Core.Path.{◌≡◌, refl}
use mathlib.Core.Bool.{Bool, true, false, ◌&&◌}
use mathlib.Core.List.{List, [], ◌∷◌}
use native.Mathlib.Omega.{arith}
use fac_lpr_engine.Prelude.Tests.{ltb, ◌==◌, if◌then◌else◌}

abbrev pub Text : Type 0
Text = List ℕ

abbrev pub is_empty : Text → Bool
is_empty [] = true
is_empty (c ∷ cs) = false

unfoldable pub text_eq : Text → Text → Bool
text_eq [] [] = true
text_eq [] (d ∷ ds) = false
text_eq (c ∷ cs) [] = false
text_eq (c ∷ cs) (d ∷ ds) = c == d && text_eq cs ds

unfoldable pub text_lt : Text → Text → Bool
text_lt [] [] = false
text_lt [] (d ∷ ds) = true
text_lt (c ∷ cs) [] = false
text_lt (c ∷ cs) (d ∷ ds) =
    let rest = text_lt cs ds in if ltb c d then true else if ltb d c then false else rest

pub text_eq_refl : (s : Text) → text_eq s s ≡ true
unfolding text_eq
text_eq_refl [] = refl
text_eq_refl (c ∷ cs) = ground (arith, text_eq_refl cs)

pub eq_of_text_eq : (s t : Text) → text_eq s t ≡ true → s ≡ t
unfolding text_eq
eq_of_text_eq [] [] h = refl
eq_of_text_eq [] (d ∷ ds) h = cc
eq_of_text_eq (c ∷ cs) [] h = cc
eq_of_text_eq (c ∷ cs) (d ∷ ds) h = ground (arith, eq_of_text_eq cs ds)

pub text_lt_irrefl : (s : Text) → text_lt s s ≡ false
unfolding text_lt
text_lt_irrefl [] = refl
text_lt_irrefl (c ∷ cs) = ground (arith, text_lt_irrefl cs)

pub text_lt_trans : (s t u : Text) → text_lt s t ≡ true → text_lt t u ≡ true → text_lt s u ≡ true
unfolding text_lt
text_lt_trans [] [] u h k = cc
text_lt_trans [] (d ∷ ds) [] h k = cc
text_lt_trans [] (d ∷ ds) (e ∷ es) h k = refl
text_lt_trans (c ∷ cs) [] u h k = cc
text_lt_trans (c ∷ cs) (d ∷ ds) [] h k = cc
text_lt_trans (c ∷ cs) (d ∷ ds) (e ∷ es) h k = ground (arith, text_lt_trans cs ds es)

pub text_lt_total : (s t : Text) → text_lt s t ≡ false → text_eq s t ≡ false → text_lt t s ≡ true
unfolding text_lt text_eq
text_lt_total [] [] h k = cc
text_lt_total [] (d ∷ ds) h k = cc
text_lt_total (c ∷ cs) [] h k = refl
text_lt_total (c ∷ cs) (d ∷ ds) h k = ground (arith, text_lt_total cs ds)

-- A smaller text is another text.
pub text_eq_of_lt :
    (s t : Text) → text_lt s t ≡ true → (text_eq s t ≡ false) × (text_eq t s ≡ false)
unfolding text_lt text_eq
text_eq_of_lt [] [] h = cc
text_eq_of_lt [] (d ∷ ds) h = (refl, refl)
text_eq_of_lt (c ∷ cs) [] h = cc
text_eq_of_lt (c ∷ cs) (d ∷ ds) h = ground (arith, text_eq_of_lt cs ds)

pub text_eq_sym : (s t : Text) → text_eq s t ≡ text_eq t s
unfolding text_eq
text_eq_sym [] [] = refl
text_eq_sym [] (d ∷ ds) = refl
text_eq_sym (c ∷ cs) [] = refl
text_eq_sym (c ∷ cs) (d ∷ ds) = ground (arith, text_eq_sym cs ds)
