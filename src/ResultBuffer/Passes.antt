-- ===== src/ResultBuffer/Passes.antt =====
-- The two passes over each part of a result.
use fac_lpr_engine.Prelude.{
  ℕ, zero, suc, ◌+◌, ◌*◌, ◌/◌, ◌%◌, ◌≤◌, ◌<◌, ◌≡◌, refl, sym, ap, subst, inl, inr, Option, none,
  some, List, [], ◌∷◌, arith, length, ltb, Bool-cases, size_mod, Text,
}
use native.Mathlib.Nat.{mul-le-mul, le_refl, div-add-mod, mod-lt}
use fac_lpr_engine.Errors.{Result, Result-cases, ok}
use fac_lpr_engine.Float.{Float}
use fac_lpr_engine.Domain.{
  Point2f, BoundingBox, PlateQuadrilateral, RecognitionDecisionReason, PlateCandidate,
  RecognitionEvidence, PlateRecognitionResult,
}
use fac_lpr_engine.Pipeline.{LprPipelineResult}
use fac_lpr_engine.ResultBuffer.{
  Wire, wire_size, wire_alignment, result_size, candidate_size, evidence_size, reason_size,
  plate_size, wire_candidate, wire_evidence, wire_reason, wire_plate, wire_text,
}
use fac_lpr_engine.ResultBuffer.Writer.{
  Writer, lift, ◌>>=◌, size_max, checked_array_bytes, element_offset,
}
use fac_lpr_engine.ResultBuffer.Serialize.{
  Narrowing, append_text, serialize_candidate, append_elements, append_array, append_candidates,
  append_reasons, write_bbox, write_corner, write_quadrilateral, serialize_evidence,
  append_evidence, serialize_plate, serialize_root,
}
use fac_lpr_engine.ResultBuffer.Simulation.{
  Sim, Sim-pure, Sim-lift, Sim-bind, Sim-write, Sim-reserve,
}

-- Nothing is promised of the value.
abbrev Plain : {F A : Type 0} → ℕ → Writer F A → Type 0
Plain p m = Sim p (λ _ _. Unit {0}) m

module _ {F A B : Type 0} {p : ℕ} {R : B → ℕ → Type 0} where
  Sim-then :
      (m : Writer F A) (f : A → Writer F B)
      → Plain p m
      → ((a : A) (q : ℕ) → p ≤ q → Sim q R (f a))
      → Sim p R (m >>= f)
  Sim-then m f h k = Sim-bind (λ _ _. Unit {0}) m f h (λ a q l _. k a q l)

  -- A check that reads no state.
  Sim-check :
      (r : Result A) (f : A → Writer F B)
      → ((a : A) (q : ℕ) → p ≤ q → Sim q R (f a))
      → Sim p R (lift r >>= f)
  Sim-check r f k = Sim-then (lift r) f (Sim-lift r λ _ _ _. tt) k

checked_array_bytes_lem :
    (count size : ℕ) {bytes : ℕ} → checked_array_bytes count size ≡ ok bytes → bytes ≡ count * size
unfolding checked_array_bytes
checked_array_bytes_lem zero size {bytes} h = ground arith
checked_array_bytes_lem (suc n) size {bytes} h = elim (Bool-cases (ltb (size_max / suc n) size)) [
  | inl e ↦ absurd (ground arith)
  | inr e ↦
      let less : size ≤ size_max / suc n = ground arith in
      let positive : 1 ≤ suc n = omega arith in
      let low : suc n * (size_max / suc n) ≤ size_max =
        omega (arith, div-add-mod size_max (suc n), mod-lt size_max positive) in
      let fits : suc n * size < size_mod = omega (arith, mul-le-mul (le_refl (suc n)) less, low) in
      let same : (suc n * size) % size_mod ≡ suc n * size = omega (arith, fits) in
      ground (arith, same)
]

-- What the code relies on of the size of an element.
record IsElementSize (size : ℕ) : Type 0 where
  aligned : (o i : ℕ) → o % wire_alignment ≡ 0 → (o + i * size) % wire_alignment ≡ 0
  inside : (o i n p : ℕ) → o + (i + suc n) * size ≤ p → o + i * size + size ≤ p

element_offset_lem :
    (base index size : ℕ) {place : ℕ}
    → base + index * size < size_mod
    → element_offset base index size ≡ ok place
    → place ≡ base + index * size
unfolding element_offset
element_offset_lem base index size {place} b h =
    elim (Result-cases (checked_array_bytes index size)) [
      | inl (code, e) ↦ absurd (ground arith)
      | inr (relative, e) ↦ let r = checked_array_bytes_lem index size e in ground (arith, r, b)
    ]

module _ {F : Type 0} ⦃fl : Float F⦄ where
  append_text-Sim : (p : ℕ) (text : Text) → Plain {F = F} p (append_text text)
  unfolding append_text
  append_text-Sim p [] = Sim-pure _ tt
  append_text-Sim p (c ∷ cs) = Sim-bind _ _ _ (Sim-reserve (length (c ∷ cs))) λ offset q _ h.
      Sim-then _ _ (Sim-write offset (wire_text (c ∷ cs)) h.0 h.1)
        λ _ _ _. Sim-check _ _ λ _ _ _. Sim-pure _ tt

  serialize_candidate-Sim : (p : ℕ) (c : PlateCandidate F) → Plain p (serialize_candidate c)
  unfolding serialize_candidate
  serialize_candidate-Sim p c =
      Sim-then _ _ (append_text-Sim p c.text)
        λ _ _ _. Sim-check _ _ λ _ _ _. Sim-check _ _ λ _ _ _. Sim-pure _ tt

module _ {F A B : Type 0} (size : ℕ) (make : A → Writer F B) (wrap : B → Wire F)
    (is_size : IsElementSize size) (same_size : (b : B) → wire_size (wrap b) ≡ size)
    (made : (p : ℕ) (a : A) → Plain p (make a)) where
  append_elements-Sim :
      (p offset index : ℕ) (elements : List A)
      → offset % wire_alignment ≡ 0
      → offset + (index + length elements) * size ≤ p
      → Plain p (append_elements size make wrap offset index elements)
  unfolding append_elements
  append_elements-Sim p offset index [] a h = Sim-pure _ tt
  append_elements-Sim p offset index (x ∷ xs) a h =
      let here = is_size.inside offset index (length xs) p h in
      let shift : (index + 1 + length xs) * size ≡ (index + suc (length xs)) * size =
        ap (λ n. n * size) (omega arith) in
      Sim-then _ _ (made p x) λ wire q l.
        Sim-bind (λ place r. (place ≡ offset + index * size) × (q ≤ r)) _ _
          (Sim-lift _ λ place e b.
            (element_offset_lem offset index size (omega (arith, here, l, b)) e, omega arith))
          λ place r _ k.
            Sim-then _ _
              (Sim-write place (wrap wire)
                (subst (λ o. o % wire_alignment ≡ 0) (sym k.0) (is_size.aligned offset index a))
                (omega (arith, here, k.0, k.1, l, same_size wire)))
              λ _ t m.
                append_elements-Sim t offset (index + 1) xs a (omega (arith, h, shift, l, k.1, m))

  append_array-Sim : (p : ℕ) (elements : List A) → Plain p (append_array size make wrap elements)
  unfolding append_array
  append_array-Sim p [] = Sim-pure _ tt
  append_array-Sim p (x ∷ xs) =
      Sim-bind (λ bytes _. bytes ≡ length (x ∷ xs) * size) _ _
        (Sim-lift _ λ bytes e _. checked_array_bytes_lem (length (x ∷ xs)) size e)
        λ bytes q _ e. Sim-bind _ _ _ (Sim-reserve bytes) λ offset r _ h.
          Sim-then _ _ (append_elements-Sim r offset 0 (x ∷ xs) h.0 (omega (arith, h.1, e)))
            λ _ _ _. Sim-pure _ tt

reason_elements : IsElementSize reason_size
reason_elements = record {
  aligned = λ o i h. omega (arith, h);
  inside = λ o i n p h. omega (arith, h);
}

record_elements : IsElementSize candidate_size
record_elements = record {
  aligned = λ o i h. omega (arith, h);
  inside = λ o i n p h. omega (arith, h);
}

plate_elements : IsElementSize plate_size
plate_elements = record {
  aligned = λ o i h. omega (arith, h);
  inside = λ o i n p h. omega (arith, h);
}

module _ {F : Type 0} ⦃fl : Float F⦄ where
  append_candidates-Sim : (p : ℕ) (cs : List (PlateCandidate F)) → Plain p (append_candidates cs)
  unfolding append_candidates
  append_candidates-Sim p cs =
      append_array-Sim candidate_size serialize_candidate wire_candidate record_elements (λ _. refl)
        serialize_candidate-Sim p cs

  append_reasons-Sim :
      (p : ℕ) (rs : List RecognitionDecisionReason) → Plain {F = F} p (append_reasons rs)
  unfolding append_reasons
  append_reasons-Sim p rs =
      append_array-Sim reason_size _ wire_reason reason_elements (λ _. refl) (λ p r. Sim-pure _ tt)
        p rs

  write_bbox-Sim : (p : ℕ) (box : Option (BoundingBox F)) → Plain p (write_bbox box)
  unfolding write_bbox
  write_bbox-Sim p none = Sim-pure _ tt
  write_bbox-Sim p (some box) =
      Sim-check _ _
        λ _ _ _. Sim-check _ _ λ _ _ _. Sim-check _ _ λ _ _ _. Sim-check _ _ λ _ _ _. Sim-pure _ tt

  write_corner-Sim : (p : ℕ) (point : Point2f F) (c : F) → Plain p (write_corner point c)
  unfolding write_corner
  write_corner-Sim p point c =
      Sim-check _ _ λ _ _ _. Sim-check _ _ λ _ _ _. Sim-check _ _ λ _ _ _. Sim-pure _ tt

  write_quadrilateral-Sim :
      (p : ℕ) (q : Option (PlateQuadrilateral F)) → Plain p (write_quadrilateral q)
  unfolding write_quadrilateral
  write_quadrilateral-Sim p none = Sim-pure _ tt
  write_quadrilateral-Sim p (some q) = Sim-then _ _ (write_corner-Sim p _ _) λ _ p1 _.
      Sim-then _ _ (write_corner-Sim p1 _ _) λ _ p2 _.
        Sim-then _ _ (write_corner-Sim p2 _ _)
          λ _ p3 _. Sim-then _ _ (write_corner-Sim p3 _ _) λ _ _ _. Sim-pure _ tt

module _ {F D : Type 0} ⦃fl : Float F⦄ ⦃dl : Float D⦄ ⦃nl : Narrowing F D⦄ where
  serialize_evidence-Sim :
      (p : ℕ) (e : RecognitionEvidence F D) → Plain {F = F} p (serialize_evidence e)
  unfolding serialize_evidence
  serialize_evidence-Sim p e = Sim-then _ _ (append_candidates-Sim p e.candidates) λ _ q _.
      Sim-then _ _ (append_text-Sim q e.source)
        λ _ _ _. Sim-check _ _ λ _ _ _. Sim-check _ _ λ _ _ _. Sim-check _ _ λ _ _ _. Sim-pure _ tt

  append_evidence-Sim :
      (p : ℕ) (es : List (RecognitionEvidence F D)) → Plain {F = F} p (append_evidence es)
  unfolding append_evidence
  append_evidence-Sim p es =
      append_array-Sim evidence_size serialize_evidence wire_evidence record_elements (λ _. refl)
        serialize_evidence-Sim p es

  serialize_plate-Sim :
      (p : ℕ) (r : PlateRecognitionResult F D) → Plain {F = F} p (serialize_plate r)
  unfolding serialize_plate
  serialize_plate-Sim p r = Sim-then _ _ (append_text-Sim p r.plate) λ _ _ _. Sim-check _ _ λ _ _ _.
      Sim-check _ _ λ _ _ _. Sim-check _ _ λ _ _ _. Sim-check _ _ λ _ _ _. Sim-check _ _ λ _ p1 _.
        Sim-then _ _ (write_bbox-Sim p1 r.bbox) λ _ p2 _.
          Sim-then _ _ (write_quadrilateral-Sim p2 r.quadrilateral) λ _ _ _. Sim-check _ _ λ _ p3 _.
            Sim-then _ _ (append_evidence-Sim p3 r.evidence) λ _ _ _. Sim-check _ _ λ _ p4 _.
              Sim-then _ _ (append_candidates-Sim p4 r.alternatives) λ _ _ _.
                Sim-check _ _ λ _ p5 _.
                  Sim-then _ _ (append_reasons-Sim p5 r.decision_reasons) λ _ _ _. Sim-pure _ tt

  -- The root is copied last, to the place that was reserved first.
  pub serialize_root-Sim :
      (result : LprPipelineResult F D) → Plain {F = F} 0 (serialize_root result)
  unfolding serialize_root
  serialize_root-Sim result = Sim-bind _ _ _ (Sim-reserve result_size) λ root p1 _ h.
      Sim-check _ _ λ _ p2 l2.
        Sim-then _ _
          (append_array-Sim plate_size serialize_plate wire_plate plate_elements (λ _. refl)
            serialize_plate-Sim p2 result.recognitions)
          λ _ p3 l3. Sim-check _ _ λ _ p4 l4. Sim-check _ _ λ _ p5 l5.
            Sim-check _ _ λ _ p6 l6. Sim-write root _ h.0 (omega (arith, h.1, l2, l3, l4, l5, l6))
