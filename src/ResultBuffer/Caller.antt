-- ===== src/ResultBuffer/Caller.antt =====
-- What the caller of `serialize_result_v1` sees.
use fac_lpr_engine.Prelude.{
  ℕ, ◌%◌, ◌≤◌, ◌<◌, ◌≡◌, refl, sym, ap, ◌∙◌, subst, ◌⊎◌, inl, inr, true, Option, none, some, List,
  [], arith, All, ltb, ◌==◌, Bool-cases,
}
use fac_lpr_engine.Errors.{EngineErrorCode, Result-cases, ok, err}
use fac_lpr_engine.Float.{Float}
use fac_lpr_engine.Pipeline.{LprPipelineResult}
use fac_lpr_engine.ResultBuffer.{
  to_c_status, Wire, wire_alignment, status_ok, status_configuration_error, status_buffer_too_small,
}
use fac_lpr_engine.ResultBuffer.Writer.{BufferWriter, max_result_bytes}
use fac_lpr_engine.ResultBuffer.Serialize.{
  Narrowing, serialize_root, serialize_impl, Serialized, end_of, answer, finish_pass,
  serialize_result_v1,
}
use fac_lpr_engine.ResultBuffer.Simulation.{sizing, writing, Fits, ok_inj, ok_err}
use fac_lpr_engine.ResultBuffer.Passes.{serialize_root-Sim}

module _ {F : Type 0} where
  abbrev pub IsTooSmall : Option ℕ → ℕ → ℕ → Serialized F → Type 0
  IsTooSmall buffer capacity n out =
      (out.status ≡ status_buffer_too_small)
      × (out.writes ≡ [])
      × ((buffer ≡ none) ⊎ (capacity < n))

  abbrev pub IsMisaligned : Option ℕ → Serialized F → Type 0
  IsMisaligned buffer out =
      (out.status ≡ status_configuration_error)
      × (out.writes ≡ [])
      × ((address : ℕ) × (buffer ≡ some address) × (1 ≤ address % wire_alignment))

  abbrev pub IsWritten : Option ℕ → ℕ → ℕ → Serialized F → Type 0
  IsWritten buffer capacity n out =
      (out.status ≡ status_ok)
      × (n ≤ capacity)
      × All (Fits n) out.writes
      × ((address : ℕ) × (buffer ≡ some address) × (address % wire_alignment ≡ 0))

  -- Not failed: the required size, and one of the three.
  abbrev pub IsMeasured : Option ℕ → ℕ → ℕ → Serialized F → Type 0
  IsMeasured buffer capacity n out =
      (out.required ≡ some n)
      × (n ≤ max_result_bytes)
      × (IsTooSmall buffer capacity n out
          ⊎ IsMisaligned buffer out
          ⊎ IsWritten buffer capacity n out)

module _ {F D : Type 0} ⦃fl : Float F⦄ ⦃dl : Float D⦄ ⦃nl : Narrowing F D⦄ where
  -- A second pass into a buffer that is large enough ends where the first one did.
  record IsRepeated (result : LprPipelineResult F D) (w : BufferWriter F) : Type 0 where
    bounded : w.position ≤ max_result_bytes
    again :
        (capacity : ℕ)
        → w.position ≤ capacity
        → (after : List (ℕ × Wire F)) × (serialize_impl result (some capacity)
            ≡ ok (writing capacity w.position after))
          × All (Fits w.position) after

  passes_agree :
      (result : LprPipelineResult F D) {w : BufferWriter F}
      → serialize_impl result none ≡ ok w
      → IsRepeated result w
  unfolding serialize_impl
  passes_agree result {w} h = elim (Result-cases (serialize_root result (sizing 0))) [
    | inl (code, e) ↦ absurd (ok_err (sym (ap end_of e) ∙ h))
    | inr ((u, v), e) ↦
        let n = (serialize_root-Sim result).run (omega arith) u v e in
        let same : sizing n.end ≡ w = sym n.state ∙ ok_inj (sym (ap end_of e) ∙ h) in
        subst (IsRepeated result) same (record {
          bounded = n.bounded;
          again = λ capacity l.
              let (after, e', fits) = n.real capacity [] l tt in (after, ap end_of e', fits);
        })
  ]

  abbrev pub IsFailed : LprPipelineResult F D → Serialized F → Type 0
  IsFailed result out =
      (code : EngineErrorCode) × (serialize_impl result none ≡ err code)
      × (out.status ≡ to_c_status code)
      × (out.required ≡ some 0)
      × (out.writes ≡ [])

  answer-IsMeasured :
      (result : LprPipelineResult F D) (buffer : Option ℕ) (capacity : ℕ) (w : BufferWriter F)
      → IsRepeated result w
      → IsMeasured buffer capacity w.position
          (answer buffer capacity (serialize_impl result (some capacity)) (ok w))
  unfolding answer
  answer-IsMeasured result none capacity w h = (refl, h.bounded, inl (refl, refl, inl refl))
  answer-IsMeasured result (some address) capacity w h =
      elim (Bool-cases (ltb capacity w.position)) [
        | inl s ↦ rw s (refl, h.bounded, inl (refl, refl, inr (ground arith)))
        | inr s ↦ elim (Bool-cases (address % wire_alignment == 0)) [
          | inr m ↦
              rw (s, m) (refl, h.bounded, inr (inl (refl, refl, (address, refl, ground arith))))
          | inl m ↦
              let (after, p, fits) = h.again capacity (ground arith) in
              let same : (w.position == w.position) ≡ true = ground arith in
              rw (s, m)
                (subst (IsMeasured (some address) capacity w.position)
                  (sym (ap (finish_pass w.position) p))
                  (
                    refl,
                    h.bounded,
                    inr (inr (rw same refl, ground arith, fits, (address, refl, ground arith))),
                  ))
        ]
      ]

  -- For a pointer to the required size that is set, one of these holds. The measuring pass throws: the
  -- status is that of the error, the required size is zero and nothing is written. Or the required size
  -- is one of at most 64 MiB, and the buffer is null or smaller than it and the status says that it is
  -- too small; or the address is not aligned, a configuration error, and nothing is written; or the
  -- status is OK, and every copy into the buffer starts at an aligned offset and ends inside of the
  -- required size, which the buffer has. So the second pass never throws or ends elsewhere.
  pub serialize_result_v1-cases :
      (result : LprPipelineResult F D) (buffer : Option ℕ) (capacity : ℕ)
      → IsFailed result (serialize_result_v1 result buffer capacity true)
        ⊎ ((n : ℕ) × IsMeasured buffer capacity n (serialize_result_v1 result buffer capacity true))
  unfolding serialize_result_v1 answer
  serialize_result_v1-cases result buffer capacity =
      elim (Result-cases (serialize_impl result none)) [
        | inl (code, e) ↦
            let same = ap (answer buffer capacity (serialize_impl result (some capacity))) e in
            inl (subst (IsFailed result) (sym same) (failed code e))
        | inr (w, e) ↦
            let same = ap (answer buffer capacity (serialize_impl result (some capacity))) e in
            inr (
              w.position,
              subst (IsMeasured buffer capacity w.position) (sym same)
                  (answer-IsMeasured result buffer capacity w (passes_agree result e)),
            )
      ]
    where
      failed :
          (code : EngineErrorCode)
          → serialize_impl result none ≡ err code
          → IsFailed result
              (answer buffer capacity (serialize_impl result (some capacity)) (err code))
      failed code e = (code, e, refl, refl, refl)
