-- ===== src/CtcDecoder/Examples.antt =====
-- The theorem at five rows for the charset "ab" with the blank in front.
use fac_lpr_engine.Prelude.{◌*◌, ◌≡◌, refl, some, List, [], ◌∷◌, arith}
use fac_lpr_engine.Errors.{ok}
use fac_lpr_engine.Float.{Milli, milli_float}
use fac_lpr_engine.CtcDecoder.{
  GreedyCtcDecoderConfig, CtcDecodeResult, CtcNumbers, make_decoder, argmax_loop,
  argmax_probability, decode,
}
use fac_lpr_engine.CtcDecoder.Path.{best_path}
use fac_lpr_engine.CtcDecoder.Collapse.{decode-spell}

instance abbrev sample_numbers : CtcNumbers Milli Milli
sample_numbers = record {
  negative_infinity = some 0;
  widen = λ x. x;
  narrow = λ x. x;
  exp = λ x. some 1000;
  of_count = λ n. some (n * 1000);
}

abbrev config : GreedyCtcDecoderConfig
config = record {
  charset = b'a' ∷ b'b' ∷ [];
  blank_index = 0;
  maximum_timesteps = 256;
  maximum_classes = 256;
}

made : make_decoder config ≡ ok config
unfolding make_decoder
made = refl

abbrev blank_row : List Milli → List Milli
blank_row rest = some 900 ∷ some 10 ∷ some 20 ∷ rest

abbrev first_row : List Milli → List Milli
first_row rest = some 0 ∷ some 800 ∷ some 700 ∷ rest

abbrev second_row : List Milli → List Milli
second_row rest = some 0 ∷ some 500 ∷ some 600 ∷ rest

abbrev logits : List Milli
logits = first_row (first_row (blank_row (first_row (second_row []))))

path : best_path Milli logits 3 5 0 ≡ ok (1 ∷ 1 ∷ 0 ∷ 1 ∷ 2 ∷ [])
unfolding best_path argmax_probability argmax_loop fac_lpr_engine.Float.clamp
path = refl

decode-spell_example :
    (result : CtcDecodeResult Milli) × (decode Milli config logits 5 3 ≡ ok result)
    × (result.text ≡ b'a' ∷ b'a' ∷ b'b' ∷ [])
decode-spell_example =
    decode-spell config (omega arith) Milli logits 5 (omega arith) (omega arith) (omega arith)
      (omega arith) refl path
