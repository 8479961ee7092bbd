-- ===== src/Grammar/Normal.antt =====
-- `normalize`: what it leaves, and that it does nothing the second time.
use fac_lpr_engine.Prelude.{
  Text, ltb, ℕ, ◌≤◌, ◌<◌, ◌≡◌, refl, subst, Bool, false, ◌&&◌, ◌||◌, some, [], ◌∷◌, ◌⊎◌, inl, inr,
  arith, length, All, ◌==◌, Option-cases, Bool-cases,
}
use fac_lpr_engine.Grammar.{
  TurkishPlateGrammarConfig, TurkishPlateGrammar, ascii_upper, is_ascii_space, strip, normalize,
}

-- The bytes that `normalize` leaves out.
abbrev pub drops : TurkishPlateGrammarConfig → ℕ → Bool
drops config c =
    config.strip_ascii_whitespace && is_ascii_space c || config.strip_hyphen && c == b'-'

abbrev pub IsKept : TurkishPlateGrammarConfig → ℕ → Type 0
IsKept config c = (c < 128) × (drops config c ≡ false) × (ascii_upper c ≡ c)

upper-IsKept :
    (config : TurkishPlateGrammarConfig) (c : ℕ)
    → c < 128
    → drops config c ≡ false
    → IsKept config (ascii_upper c)
unfolding ascii_upper is_ascii_space
upper-IsKept config c h d = ground arith

-- What `strip` leaves, it keeps; there is no more of it than there was text.
abbrev pub Left : TurkishPlateGrammarConfig → Text → Text → Type 0
Left config text kept = All (IsKept config) kept × (length kept ≤ length text)

strip-Left :
    (config : TurkishPlateGrammarConfig) (text : Text) {kept : Text}
    → strip config text ≡ some kept
    → Left config text kept
unfolding strip
strip-Left config [] {kept} h =
    let same : [] ≡ kept = ground arith in subst (Left config []) same (tt, omega arith)
strip-Left config (c ∷ cs) {kept} h = elim (Option-cases (strip config cs)) [
  | inl e ↦ absurd (ground arith)
  | inr (tail, e) ↦
      let ih = strip-Left config cs e in
      elim (Bool-cases (drops config c)) [
        | inl d ↦
            let same : tail ≡ kept = ground arith in
            subst (Left config (c ∷ cs)) same (ih.0, omega arith)
        | inr d ↦
            let same : ascii_upper c ∷ tail ≡ kept = ground arith in
            let first = upper-IsKept config c (ground arith) d in
            subst (Left config (c ∷ cs)) same ((first, ih.0), omega arith)
      ]
]

strip-fixed :
    (config : TurkishPlateGrammarConfig) (text : Text)
    → All (IsKept config) text
    → strip config text ≡ some text
unfolding strip
strip-fixed config [] k = refl
strip-fixed config (c ∷ cs) k = ground (arith, strip-fixed config cs k.1)

normalize-nil : (g : TurkishPlateGrammar) → normalize g [] ≡ []
unfolding normalize strip
normalize-nil g = ground arith

normalize-Left :
    (g : TurkishPlateGrammar) (text : Text)
    → (normalize g text ≡ [])
      ⊎ (Left g.config text (normalize g text) × (length text ≤ g.config.maximum_input_length))
unfolding normalize
normalize-Left g text = elim (Bool-cases (ltb g.config.maximum_input_length (length text))) [
  | inl long ↦ inl (rw long)
  | inr fits ↦ elim (Option-cases (strip g.config text)) [
    | inl e ↦ inl (rw (fits, e))
    | inr (kept, e) ↦ inr (rw (fits, e) (strip-Left g.config text e, ground arith))
  ]
]

normalize-fixed :
    (g : TurkishPlateGrammar) (text : Text)
    → All (IsKept g.config) text
    → length text ≤ g.config.maximum_input_length
    → normalize g text ≡ text
unfolding normalize
normalize-fixed g text k h = ground (arith, strip-fixed g.config text k)

-- The second pass of `normalize` changes nothing, whatever is stripped and however long a text may be.
pub normalize-normalize :
    (g : TurkishPlateGrammar) (text : Text) → normalize g (normalize g text) ≡ normalize g text
normalize-normalize g text = elim (normalize-Left g text) [
  | inl e ↦ rw e (normalize-nil g)
  | inr ((k, le), fits) ↦ normalize-fixed g (normalize g text) k (omega arith)
]
