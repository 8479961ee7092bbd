-- ===== src/ResultBuffer/Examples.antt =====
-- The theorem at a result with one plate, for a buffer that just holds it.
use fac_lpr_engine.Prelude.{ℕ, ◌≡◌, refl, ◌⊎◌, true, Option, some, List, [], ◌∷◌, map}
use fac_lpr_engine.Float.{Milli, milli_float}
use fac_lpr_engine.Pipeline.{LprPipelineResult}
use fac_lpr_engine.ResultBuffer.{FacLprStatus, status_ok, to_c_status}
use fac_lpr_engine.ResultBuffer.Serialize.{
  Narrowing, Serialized, serialize_result_v1, serialize_impl,
}
use fac_lpr_engine.ResultBuffer.Serialize
use fac_lpr_engine.ResultBuffer.Writer
use fac_lpr_engine.ResultBuffer.Caller.{IsFailed, IsMeasured, serialize_result_v1-cases}
use fac_lpr_engine.Samples.{first_plate, recognized, frame_with}

instance abbrev sample_narrowing : Narrowing Milli Milli
sample_narrowing = record { float_max = some 1_000_000_000; to_float = λ x. x }

abbrev result : LprPipelineResult Milli Milli
result = frame_with (recognized first_plate 900 ∷ [])

abbrev summary : Serialized Milli → FacLprStatus × Option ℕ × List ℕ
summary out = (out.status, out.required, map (λ e. e.0) out.writes)

-- The text of the plate, its reason, the plate and the root, in the order of the copies.
fills :
    summary (serialize_result_v1 result (some 8) 184 true)
    ≡ (status_ok, some 184, 172 ∷ 180 ∷ 32 ∷ 0 ∷ [])
unfolding fac_lpr_engine.ResultBuffer.Serialize.serialize_result_v1
    fac_lpr_engine.ResultBuffer.Serialize.answer
    fac_lpr_engine.ResultBuffer.Serialize.serialize_impl
    fac_lpr_engine.ResultBuffer.Serialize.serialize_root
    fac_lpr_engine.ResultBuffer.Serialize.serialize_plate
    fac_lpr_engine.ResultBuffer.Serialize.append_evidence
    fac_lpr_engine.ResultBuffer.Serialize.serialize_evidence
    fac_lpr_engine.ResultBuffer.Serialize.latency_to_float
    fac_lpr_engine.ResultBuffer.Serialize.write_quadrilateral
    fac_lpr_engine.ResultBuffer.Serialize.write_corner
    fac_lpr_engine.ResultBuffer.Serialize.write_bbox
    fac_lpr_engine.ResultBuffer.Serialize.append_reasons
    fac_lpr_engine.ResultBuffer.Serialize.append_candidates
    fac_lpr_engine.ResultBuffer.Serialize.append_array
    fac_lpr_engine.ResultBuffer.Serialize.append_elements
    fac_lpr_engine.ResultBuffer.Serialize.serialize_candidate
    fac_lpr_engine.ResultBuffer.Serialize.append_text fac_lpr_engine.ResultBuffer.Writer.pure
    fac_lpr_engine.ResultBuffer.Writer.lift fac_lpr_engine.ResultBuffer.Writer.resume
    fac_lpr_engine.ResultBuffer.Writer.◌>>=◌ fac_lpr_engine.ResultBuffer.Writer.checked_array_bytes
    fac_lpr_engine.ResultBuffer.Writer.element_offset
    fac_lpr_engine.ResultBuffer.Writer.align_position fac_lpr_engine.ResultBuffer.Writer.reserve_at
    fac_lpr_engine.ResultBuffer.Writer.position_of fac_lpr_engine.ResultBuffer.Writer.reserve
    fac_lpr_engine.ResultBuffer.Writer.write fac_lpr_engine.ResultBuffer.map_status
    fac_lpr_engine.ResultBuffer.map_reason fac_lpr_engine.Float.is_probability
fills = refl

serialize_result_v1-cases_example :
    IsFailed result (serialize_result_v1 result (some 8) 184 true)
    ⊎ ((n : ℕ) × IsMeasured (some 8) 184 n (serialize_result_v1 result (some 8) 184 true))
serialize_result_v1-cases_example = serialize_result_v1-cases result (some 8) 184
