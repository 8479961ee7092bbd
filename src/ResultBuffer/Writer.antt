-- ===== src/ResultBuffer/Writer.antt =====
-- src/c_api/result_buffer.cpp: `BufferWriter`, and the checks of sizes. The writer's memory is the list
-- of what was copied into it, with the offsets; `none` for the buffer is the null pointer, for which
-- the writer only measures.
use fac_lpr_engine.Prelude.{
  ℕ, ◌-◌, ◌*◌, ◌/◌, ◌%◌, Bool, false, not, ◌&&◌, ◌||◌, Option, none, some, List, [], ◌∷◌, ◌++◌, ltb,
  ◌==◌, if◌then◌else◌, size_mod, wrap_add,
}
use fac_lpr_engine.Errors.{Result, ok, err, resource_exhausted}
use fac_lpr_engine.Budget.{default_resource_budget}
use fac_lpr_engine.ResultBuffer.{Wire, wire_size, wire_alignment}

pub record BufferWriter (F : Type 0) : Type 0 where
  pub capacity : Option ℕ
  pub position : ℕ
  pub writes : List (ℕ × Wire F)

abbrev pub Writer : Type 0 → Type 0 → Type 0
Writer F A = BufferWriter F → Result (A × BufferWriter F)

module _ {F A : Type 0} where
  unfoldable pub pure : A → Writer F A
  pure a w = ok (a, w)

  unfoldable pub lift : Result A → Writer F A
  lift (ok a) w = ok (a, w)
  lift (err code) w = err code

module _ {F A B : Type 0} where
  unfoldable pub resume :
      (A → Writer F B) → Result (A × BufferWriter F) → Result (B × BufferWriter F)
  resume f (ok (a, w)) = f a w
  resume f (err code) = err code

  infixl 5 ◌>>=◌ ◌>>◌
  unfoldable pub ◌>>=◌ : Writer F A → (A → Writer F B) → Writer F B
  unfolding resume
  ◌>>=◌ m f w = resume f (m w)

  abbrev pub ◌>>◌ : Writer F A → Writer F B → Writer F B
  m >> n = m >>= λ _. n

abbrev pub max_result_bytes : ℕ
max_result_bytes = default_resource_budget.max_result_bytes

abbrev pub u32_max : ℕ
u32_max = 4_294_967_295

abbrev pub size_max : ℕ
size_max = size_mod - 1

abbrev pub to_u32 : ℕ → Result ℕ
to_u32 value = if ltb u32_max value then err resource_exhausted else ok value

unfoldable pub checked_array_bytes : ℕ → ℕ → Result ℕ
checked_array_bytes count element_size =
    let bytes = (count * element_size) % size_mod in
    if not (count == 0) && ltb (size_max / count) element_size
    then err resource_exhausted
    else if ltb max_result_bytes bytes
    then err resource_exhausted
    else ok bytes

unfoldable pub element_offset : ℕ → ℕ → ℕ → Result ℕ
element_offset base index element_size = elim (checked_array_bytes index element_size) [
  | err code ↦ err code
  | ok relative ↦ to_u32 (wrap_add base relative)
]

unfoldable pub align_position : ℕ → Result ℕ
align_position value =
    let remainder = value % wire_alignment in
    let padding = wire_alignment - remainder in
    if remainder == 0
    then ok value
    else if ltb (size_max - value) padding
    then err resource_exhausted
    else ok (wrap_add value padding)

-- `bytes_ != nullptr && end > capacity_`
abbrev pub beyond : Option ℕ → ℕ → Bool
beyond none end = false
beyond (some capacity) end = ltb capacity end

module _ {F : Type 0} where
  -- `reserve`, after the position was aligned.
  unfoldable pub reserve_at : ℕ → ℕ → Writer F ℕ
  reserve_at bytes aligned w =
      let end = wrap_add aligned bytes in
      if ltb (size_max - aligned) bytes
      then err resource_exhausted
      else if ltb max_result_bytes end
      then err resource_exhausted
      else if ltb u32_max end
      then err resource_exhausted
      else if beyond w.capacity end
      then err resource_exhausted
      else ok (aligned, record w { position = end })

  unfoldable pub position_of : Writer F ℕ
  position_of w = ok (w.position, w)

  unfoldable pub reserve : ℕ → Writer F ℕ
  reserve bytes = do
    position ← position_of
    aligned ← lift (align_position position)
    reserve_at bytes aligned

  -- `write` and `write_bytes`
  unfoldable pub write : ℕ → Wire F → Writer F (Unit {0})
  write offset value w = elim w.capacity [
    | none ↦ ok (tt, w)
    | some capacity ↦
        if ltb capacity offset || ltb (capacity - offset) (wire_size value)
        then err resource_exhausted
        else ok (tt, record w { writes = w.writes ++ ((offset, value) ∷ []) })
  ]

abbrev pub new_writer : {F : Type 0} → Option ℕ → BufferWriter F
new_writer capacity = record { capacity = capacity; position = 0; writes = [] }
