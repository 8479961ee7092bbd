-- ===== src/CtcDecoder.antt =====
-- src/infrastructure/lprnet/ctc_decoder.cpp: the greedy decoder. A logit is a `float`; the sums are of
-- `double`.
pub mod Path
pub mod Collapse
mod Examples
use fac_lpr_engine.Prelude.{
  ℕ, zero, suc, ◌+◌, ◌-◌, ◌*◌, ◌/◌, ◌%◌, ◌^◌, ◌≤◌, ◌<◌, ◌≡◌, refl, sym, ap, ◌∙◌, subst, ◌≢◌, ◌↔◌,
  ◌⊎◌, inl, inr, Bool, true, false, not, ◌&&◌, ◌||◌, Option, none, some, List, [], ◌∷◌, ◌++◌, map,
  arith, length, length-append, All, Any, take, get_elem?, All-append, length-take-le, ltb, leb,
  ◌==◌, if◌then◌else◌, Bool-cases, Option-cases, size_mod, wrap_add, Text, is_empty, text_eq,
  text_lt, ℤ, pos, negsuc, is_negative, is_positive, exceeds, elapsed_lt, elapsed_le,
  nanos_per_milli, text_eq_refl, eq_of_text_eq, text_lt_irrefl, text_lt_trans, text_lt_total,
  text_eq_of_lt, text_eq_sym,
}
use fac_lpr_engine.Errors.{
  Result, Result-cases, ok, err, ◌>>=◌, ◌>>◌, throw_if, EngineErrorCode, configuration, provider,
  inference, invalid_image, resource_exhausted, internal, cancelled, timeout, >>=-eq-ok,
}
use fac_lpr_engine.Float.{Float, clamp}

pub record GreedyCtcDecoderConfig : Type 0 where
  pub charset : Text
  pub blank_index : ℕ
  pub maximum_timesteps : ℕ
  pub maximum_classes : ℕ

pub record CtcDecodeResult (F : Type 0) : Type 0 where
  pub text : Text
  pub confidence : F
  pub character_confidences : List F

-- What the decoder calls of the library, and the casts.
pub record CtcNumbers (F D : Type 0) : Type 0 where
  pub negative_infinity : F
  pub widen : F → D
  pub narrow : D → F
  pub exp : D → D
  pub of_count : ℕ → D

-- The result so far, and `confidence_sum`.
pub record DecodeState (F D : Type 0) : Type 0 where
  pub text : Text
  pub confidences : List F
  pub confidence_sum : D

abbrev pub size_max : ℕ
size_max = size_mod - 1

abbrev pub drop : {A : Type 0} → ℕ → List A → List A
drop zero xs = xs
drop (suc n) [] = []
drop (suc n) (x ∷ xs) = drop n xs

abbrev pub has_byte : ℕ → Text → Bool
has_byte c [] = false
has_byte c (d ∷ ds) = (d == c) || has_byte c ds

-- The loop over the charset, with the bytes that were seen.
abbrev pub has_bad_character : Text → Text → Bool
has_bad_character seen [] = false
has_bad_character seen (c ∷ cs) = (c == 0) || has_byte c seen || has_bad_character (c ∷ seen) cs

unfoldable pub make_decoder : GreedyCtcDecoderConfig → Result GreedyCtcDecoderConfig
make_decoder config = do
  throw_if (is_empty config.charset) configuration
  throw_if (leb size_max (length config.charset)) configuration
  let classes = length config.charset + 1
  throw_if (leb classes config.blank_index) configuration
  throw_if
      (config.maximum_timesteps == 0
        || config.maximum_classes == 0
        || ltb config.maximum_classes classes)
      configuration
  throw_if (has_bad_character [] config.charset) configuration
  ok config

unfoldable pub checked_element_count : ℕ → ℕ → Result ℕ
checked_element_count timesteps classes = do
  throw_if (timesteps == 0 || classes == 0) inference
  throw_if (ltb (size_max / classes) timesteps) inference
  ok ((timesteps * classes) % size_mod)

unfoldable pub class_to_character : GreedyCtcDecoderConfig → ℕ → Result ℕ
class_to_character config class_index =
    let charset_index =
      if ltb class_index config.blank_index then class_index else class_index - 1 in
    if class_index == config.blank_index
    then err internal
    else elim (get_elem? config.charset charset_index) [ none ↦ err inference | some c ↦ ok c ]

abbrev pub row_of : {F : Type 0} → List F → ℕ → ℕ → List F
row_of logits classes timestep = take classes (drop (timestep * classes) logits)

module _ {F : Type 0} ⦃fl : Float F⦄ where
  -- The first loop over a row, from an index on.
  unfoldable pub argmax_loop : ℕ → F → ℕ → List F → Result ℕ
  argmax_loop index max_logit best_index [] = ok best_index
  argmax_loop index max_logit best_index (value ∷ row) =
      let better = fl.lt max_logit value in
      let rest =
        argmax_loop (index + 1) (if better then value else max_logit)
          (if better then index else best_index) row in
      if not (fl.is_finite value) then err inference else rest

  -- The largest logit that the first loop finds.
  abbrev pub max_logit_of : F → List F → F
  max_logit_of max_logit [] = max_logit
  max_logit_of max_logit (value ∷ row) =
      max_logit_of (if fl.lt max_logit value then value else max_logit) row

module _ {F : Type 0} (D : Type 0) ⦃fl : Float F⦄ ⦃dl : Float D⦄ ⦃cn : CtcNumbers F D⦄ where
  abbrev pub denominator : F → D → List F → D
  denominator max_logit sum [] = sum
  denominator max_logit sum (value ∷ row) =
      denominator max_logit (dl.add sum (cn.exp (dl.sub (cn.widen value) (cn.widen max_logit)))) row

  -- The second loop, and the probability.
  abbrev pub softmax_of : List F → Result F
  softmax_of row =
      let total = denominator (max_logit_of cn.negative_infinity row) dl.nought row in
      if not (dl.is_finite total) || dl.le total dl.nought
      then err inference
      else ok (cn.narrow (clamp (dl.div dl.one total) dl.nought dl.one))

  unfoldable pub argmax_probability : List F → Result (F × ℕ)
  argmax_probability [] = err inference
  argmax_probability (value ∷ row) = do
    best_index ← argmax_loop 0 cn.negative_infinity 0 (value ∷ row)
    probability ← softmax_of (value ∷ row)
    ok (probability, best_index)

  -- The step of the loop for the best class of a row.
  unfoldable pub take_class :
      GreedyCtcDecoderConfig → F → ℕ → ℕ → DecodeState F D → Result (DecodeState F D)
  take_class config probability best_class previous_class s =
      if best_class == config.blank_index || best_class == previous_class then ok s else do
        c ← class_to_character config best_class
        ok (record {
          text = s.text ++ (c ∷ []);
          confidences = s.confidences ++ (probability ∷ []);
          confidence_sum = dl.add s.confidence_sum (cn.widen probability);
        })

  -- The loop over the timesteps, with the number of those that are left.
  unfoldable pub decode_loop :
      GreedyCtcDecoderConfig → List F → ℕ → ℕ → ℕ → ℕ → DecodeState F D → Result (DecodeState F D)
  decode_loop config logits classes zero timestep previous_class s = ok s
  decode_loop config logits classes (suc left) timestep previous_class s = do
    best ← argmax_probability (row_of logits classes timestep)
    next ← take_class config best.0 best.1 previous_class s
    decode_loop config logits classes left (timestep + 1) best.1 next

  unfoldable pub finish_decode : DecodeState F D → CtcDecodeResult F
  finish_decode s = record {
    text = s.text;
    confidence =
        if length s.confidences == 0
        then fl.nought
        else clamp (cn.narrow (dl.div s.confidence_sum (cn.of_count (length s.confidences))))
            fl.nought fl.one;
    character_confidences = s.confidences;
  }

  unfoldable pub decode : GreedyCtcDecoderConfig → List F → ℕ → ℕ → Result (CtcDecodeResult F)
  decode config logits timesteps classes = do
    throw_if (ltb config.maximum_timesteps timesteps || ltb config.maximum_classes classes)
        inference
    throw_if (not (classes == length config.charset + 1)) inference
    expected ← checked_element_count timesteps classes
    throw_if (not (length logits == expected)) inference
    s ←
        decode_loop config logits classes timesteps 0 size_max
          (record { text = []; confidences = []; confidence_sum = dl.nought })
    ok (finish_decode s)
