-- ===== src/CtcDecoder/Collapse.antt =====
-- The text as the collapse of the best path.
use fac_lpr_engine.Prelude.{
  ℕ, zero, suc, ◌+◌, ◌-◌, ◌*◌, ◌≤◌, ◌<◌, ◌≡◌, refl, sym, ap, ◌∙◌, subst, inl, inr, true, false,
  ◌||◌, List, [], ◌∷◌, ◌++◌, map, arith, length, length-take-le, ltb, ◌==◌, if◌then◌else◌,
  Bool-cases, size_mod, Text,
}
use fac_lpr_engine.Errors.{ok, >>=-eq-ok}
use mathlib.Core.List.{append_assoc, append-nil}
use fac_lpr_engine.Float.{Float}
use fac_lpr_engine.CtcDecoder.{
  GreedyCtcDecoderConfig, CtcDecodeResult, CtcNumbers, DecodeState, size_max, class_to_character,
  argmax_loop, softmax_of, argmax_probability, row_of, take_class, decode_loop, finish_decode,
  decode,
}
use fac_lpr_engine.CtcDecoder.Path.{
  dedup_after, dedup, without, character, best_path, get_elem-lt, ok_inj, argmax_loop-bound,
  not_equal, smaller, checked_element_count_lem,
}

module _ (config : GreedyCtcDecoderConfig)
    (blank : config.blank_index ≤ length config.charset) where
  class_to_character_lem :
      (c : ℕ)
      → c < length config.charset + 1
      → (c == config.blank_index) ≡ false
      → class_to_character config c ≡ ok (character config c)
  unfolding class_to_character
  class_to_character_lem c h e = elim (Bool-cases (ltb c config.blank_index)) [
    | inl l ↦ let (x, p) = get_elem-lt config.charset c (ground arith) in rw (e, l, p) refl
    | inr l ↦ let (x, p) = get_elem-lt config.charset (c - 1) (ground arith) in rw (e, l, p) refl
  ]

  abbrev pub spell : List ℕ → Text
  spell path = map (character config) (without config.blank_index path)

  -- What one class adds behind another.
  abbrev piece : ℕ → ℕ → Text
  piece previous b =
      if b == config.blank_index || b == previous then [] else character config b ∷ []

  piece_lem :
      (previous b : ℕ) (path : List ℕ)
      → spell (dedup_after previous (b ∷ path)) ≡ piece previous b ++ spell (dedup_after b path)
  piece_lem previous b path = elim (Bool-cases (b == previous)) [
    | inl e ↦ elim (Bool-cases (b == config.blank_index)) [
      | inl f ↦ rw (e, f) refl
      | inr f ↦ rw (e, f) refl
    ]
    | inr e ↦ elim (Bool-cases (b == config.blank_index)) [
      | inl f ↦ rw (e, f) refl
      | inr f ↦ rw (e, f) refl
    ]
  ]

  module _ {F : Type 0} (D : Type 0) ⦃fl : Float F⦄ ⦃dl : Float D⦄ ⦃cn : CtcNumbers F D⦄ where
    argmax-bound :
        (row : List F) (classes : ℕ) {best : F × ℕ}
        → length row ≤ classes
        → argmax_probability D row ≡ ok best
        → best.1 < classes
    unfolding argmax_probability
    argmax-bound [] classes l e = absurd (ground arith)
    argmax-bound (v ∷ row) classes {best} l e =
        let (b, p, e1) = >>=-eq-ok (argmax_loop 0 cn.negative_infinity 0 (v ∷ row)) _ e in
        let (q, p2, e2) = >>=-eq-ok (softmax_of D (v ∷ row)) _ e1 in
        let same : b ≡ best.1 = ap (λ (x : F × ℕ). x.1) (ok_inj e2) in
        omega (
          arith,
          same,
          argmax_loop-bound 0 cn.negative_infinity 0 classes (v ∷ row) (omega (arith, l))
              (omega (arith, l)) p,
        )

    take_class_lem :
        (p : F) (b previous : ℕ) (s : DecodeState F D)
        → b < length config.charset + 1
        → (next : DecodeState F D) × (take_class D config p b previous s ≡ ok next)
          × (next.text ≡ s.text ++ piece previous b)
    unfolding take_class
    take_class_lem p b previous s h = elim (Bool-cases (b == config.blank_index || b == previous)) [
      | inl e ↦ (s, rw e refl, rw e (sym (append-nil s.text)))
      | inr e ↦
          let f : (b == config.blank_index) ≡ false = ground arith in
          let next : DecodeState F D = record {
            text = s.text ++ (character config b ∷ []);
            confidences = s.confidences ++ (p ∷ []);
            confidence_sum = dl.add s.confidence_sum (cn.widen p);
          } in
          (next, rw (e, class_to_character_lem b h f) refl, rw e refl)
    ]

    decode_loop-spell :
        (logits : List F) (left t previous : ℕ) (s : DecodeState F D) {path : List ℕ}
        → best_path D logits (length config.charset + 1) left t ≡ ok path
        → (end : DecodeState F D) × (decode_loop D config logits
              (length config.charset + 1)
              left
              t
              previous
              s
            ≡ ok end)
          × (end.text ≡ s.text ++ spell (dedup_after previous path))
    unfolding best_path decode_loop
    decode_loop-spell logits zero t previous s {path} e = (
      s,
      refl,
      subst (λ path. s.text ≡ s.text ++ spell (dedup_after previous path)) (ok_inj e)
          (sym (append-nil s.text)),
    )
    decode_loop-spell logits (suc left) t previous s {path} e =
        let classes = length config.charset + 1 in
        let (best, p, e1) = >>=-eq-ok (argmax_probability D (row_of logits classes t)) _ e in
        let (rest, q, e2) = >>=-eq-ok (best_path D logits classes left (t + 1)) _ e1 in
        let b = argmax-bound (row_of logits classes t) classes (length-take-le classes _) p in
        let (next, k, text) = take_class_lem best.0 best.1 previous s b in
        let (end, m, texts) = decode_loop-spell logits left (t + 1) best.1 next q in
        let same : best.1 ∷ rest ≡ path = ok_inj e2 in
        let ends : end.text ≡ s.text ++ spell (dedup_after previous (best.1 ∷ rest)) =
          texts
          ∙ ap (λ x. x ++ spell (dedup_after best.1 rest)) text
          ∙ append_assoc s.text (piece previous best.1) (spell (dedup_after best.1 rest))
          ∙ ap (λ x. s.text ++ x) (sym (piece_lem previous best.1 rest)) in
        (
          end,
          rw (p, k) m,
          subst (λ path. end.text ≡ s.text ++ spell (dedup_after previous path)) same ends,
        )

    dedup_first :
        (logits : List F) (timesteps : ℕ) {path : List ℕ}
        → length config.charset + 1 < size_mod
        → best_path D logits (length config.charset + 1) timesteps 0 ≡ ok path
        → dedup_after size_max path ≡ dedup path
    unfolding best_path
    dedup_first logits zero {path} h e =
        subst (λ path. dedup_after size_max path ≡ dedup path) (ok_inj e) refl
    dedup_first logits (suc n) {path} h e =
        let classes = length config.charset + 1 in
        let (best, p, e1) = >>=-eq-ok (argmax_probability D (row_of logits classes 0)) _ e in
        let (rest, q, e2) = >>=-eq-ok (best_path D logits classes n 1) _ e1 in
        let b = argmax-bound (row_of logits classes 0) classes (length-take-le classes _) p in
        let apart : (best.1 == size_max) ≡ false = not_equal (omega (arith, b, h)) in
        subst (λ path. dedup_after size_max path ≡ dedup path) (ok_inj e2) (rw apart refl)

    -- For a checked configuration whose limits are not exceeded, and logits of the announced shape,
    -- which is not empty: if each row has a best class, that is, finite logits and a denominator that
    -- is valid, then `decode` returns a result, and its text spells, in the charset, the path of the
    -- best classes after first its repetitions and then its blanks are removed.
    pub decode-spell :
        (logits : List F) (timesteps : ℕ) {path : List ℕ}
        → timesteps ≤ config.maximum_timesteps
        → length config.charset + 1 ≤ config.maximum_classes
        → 1 ≤ timesteps
        → timesteps * (length config.charset + 1) < size_mod
        → length logits ≡ timesteps * (length config.charset + 1)
        → best_path D logits (length config.charset + 1) timesteps 0 ≡ ok path
        → (result : CtcDecodeResult F) × (decode D config logits timesteps
              (length config.charset + 1)
            ≡ ok result)
          × (result.text ≡ spell (dedup path))
    unfolding decode finish_decode
    decode-spell logits timesteps {path} t c n fits l e =
        let classes = length config.charset + 1 in
        let wide : classes < size_mod = smaller timesteps classes n fits in
        let start : DecodeState F D = record {
          text = [];
          confidences = [];
          confidence_sum = dl.nought;
        } in
        let (end, m, text) = decode_loop-spell logits timesteps 0 size_max start e in
        let limits : (ltb config.maximum_timesteps timesteps || ltb config.maximum_classes classes)
            ≡ false =
          ground arith in
        let count = checked_element_count_lem timesteps classes n (omega arith) fits in
        let shape : (length logits == timesteps * classes) ≡ true = ground arith in
        let self : (classes == classes) ≡ true = ground arith in
        (
          finish_decode D end,
          rw (limits, self, count, shape, m) refl,
          text ∙ ap spell (dedup_first logits timesteps wide e),
        )
