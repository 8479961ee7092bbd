-- ===== src/ResultBuffer/Simulation.antt =====
-- The two passes side by side: what measures and succeeds, writes and succeeds in a buffer of the
-- measured size, at aligned offsets inside of it.
use fac_lpr_engine.Prelude.{
  ℕ, ◌+◌, ◌-◌, ◌%◌, ◌≤◌, ◌<◌, ◌≡◌, refl, sym, ap, ◌∙◌, subst, inl, inr, false, ◌||◌, none, some,
  List, [], ◌∷◌, ◌++◌, arith, All, All-append, ltb, ◌==◌, Bool-cases, size_mod, wrap_add,
}
use fac_lpr_engine.Errors.{EngineErrorCode, Result, Result-cases, ok, err, resource_exhausted}
use fac_lpr_engine.ResultBuffer.{Wire, wire_size, wire_alignment}
use fac_lpr_engine.ResultBuffer.Writer.{
  BufferWriter, Writer, pure, lift, resume, ◌>>=◌, max_result_bytes, u32_max, size_max,
  align_position, reserve_at, position_of, reserve, write,
}

pub ok_inj : {A : Type 0} {a b : A} → ok a ≡ ok b → a ≡ b
ok_inj e = cc

pub ok_err : {A : Type 0} {a : A} {code : EngineErrorCode} → err code ≡ ok a → ⊥
ok_err e = cc

no_overrun :
    (capacity offset size : ℕ)
    → offset + size ≤ capacity
    → (ltb capacity offset || ltb (capacity - offset) size) ≡ false
no_overrun capacity offset size h = ground arith

module _ {F : Type 0} where
  abbrev pub sizing : ℕ → BufferWriter F
  sizing position = record { capacity = none; position = position; writes = [] }

  abbrev pub writing : ℕ → ℕ → List (ℕ × Wire F) → BufferWriter F
  writing capacity position writes = record {
    capacity = some capacity;
    position = position;
    writes = writes;
  }

  -- The copy starts at an aligned offset and ends before the position.
  abbrev pub Fits : ℕ → ℕ × Wire F → Type 0
  Fits position e = (e.0 % wire_alignment ≡ 0) × (e.0 + wire_size e.1 ≤ position)

  Fits-up : {p q : ℕ} (log : List (ℕ × Wire F)) → p ≤ q → All (Fits p) log → All (Fits q) log
  Fits-up [] l h = tt
  Fits-up (e ∷ log) l h = ((h.0.0, omega (arith, h.0.1, l)), Fits-up log l h.1)

module _ {F A : Type 0} (p : ℕ) (Q : A → ℕ → Type 0) (m : Writer F A) where
  pub record Next (a : A) (w : BufferWriter F) : Type 0 where
    pub end : ℕ
    pub state : w ≡ sizing end
    pub grows : p ≤ end
    pub bounded : end ≤ max_result_bytes
    pub post : Q a end
    pub real :
        (capacity : ℕ) (log : List (ℕ × Wire F))
        → end ≤ capacity
        → All (Fits p) log
        → (after : List (ℕ × Wire F)) × (m (writing capacity p log)
            ≡ ok (a, writing capacity end after))
          × All (Fits end) after

  -- From the position `p`, with `Q` of the value and of the position at the end.
  pub record Sim : Type 0 where
    pub run :
        p ≤ max_result_bytes → (a : A) (w : BufferWriter F) → m (sizing p) ≡ ok (a, w) → Next a w

module _ {F A : Type 0} {p : ℕ} {Q : A → ℕ → Type 0} where
  step_of :
      (m : Writer F A) (a : A) (end : ℕ)
      → m (sizing p) ≡ ok (a, sizing end)
      → (p ≤ max_result_bytes → Next p Q m a (sizing end))
      → Sim p Q m
  step_of m a end same next = record {
    run = λ b x w e.
        let pair : (a, sizing end) ≡ (x, w) = ok_inj (sym same ∙ e) in
        subst (λ (q : A × BufferWriter F). Next p Q m q.0 q.1) pair (next b);
  }

  refused : (m : Writer F A) {code : EngineErrorCode} → m (sizing p) ≡ err code → Sim p Q m
  refused m same = record { run = λ b x w e. absurd (ok_err (sym same ∙ e)) }

  pub Sim-pure : (a : A) → Q a p → Sim {F = F} p Q (pure a)
  unfolding pure
  Sim-pure a q = step_of (pure a) a p refl λ b. record {
    end = p;
    state = refl;
    grows = omega arith;
    bounded = b;
    post = q;
    real = λ capacity log c f. (log, refl, f);
  }

  pub Sim-lift :
      (r : Result A)
      → ((a : A) → r ≡ ok a → p ≤ max_result_bytes → Q a p)
      → Sim {F = F} p Q (lift r)
  unfolding lift
  Sim-lift (err code) q = refused _ refl
  Sim-lift (ok a) q = step_of (lift (ok a)) a p refl λ b. record {
    end = p;
    state = refl;
    grows = omega arith;
    bounded = b;
    post = q a refl b;
    real = λ capacity log c f. (log, refl, f);
  }

module _ {F A B : Type 0} {p : ℕ} {R : B → ℕ → Type 0} where
  pub Sim-bind :
      (Q : A → ℕ → Type 0) (m : Writer F A) (f : A → Writer F B)
      → Sim p Q m
      → ((a : A) (q : ℕ) → p ≤ q → Q a q → Sim q R (f a))
      → Sim p R (m >>= f)
  unfolding ◌>>=◌ resume
  Sim-bind Q m f h k = record {
    run = λ b x w e. elim (Result-cases (m (sizing p))) [
      | inl (code, same) ↦ absurd (ok_err (sym (ap (resume f) same) ∙ e))
      | inr ((a, v), same) ↦
          let n = h.run b a v same in
          let e' : f a (sizing n.end) ≡ ok (x, w) =
            sym (ap (λ v. f a v) n.state) ∙ sym (ap (resume f) same) ∙ e in
          let n' = (k a n.end n.grows n.post).run n.bounded x w e' in
          record {
            end = n'.end;
            state = n'.state;
            grows = omega (arith, n.grows, n'.grows);
            bounded = n'.bounded;
            post = n'.post;
            real = λ capacity log c fits.
                let (log1, e1, f1) = n.real capacity log (omega (arith, n'.grows, c)) fits in
                let (log2, e2, f2) = n'.real capacity log1 c f1 in
                (log2, ap (resume f) e1 ∙ e2, f2);
          }
    ];
  }

module _ {F : Type 0} {p : ℕ} where
  -- A copy that fits before the position.
  pub Sim-write :
      (offset : ℕ) (value : Wire F)
      → offset % wire_alignment ≡ 0
      → offset + wire_size value ≤ p
      → Sim p (λ _ _. Unit {0}) (write offset value)
  unfolding write
  Sim-write offset value aligned fits = step_of (write offset value) tt p refl λ b. record {
    end = p;
    state = refl;
    grows = omega arith;
    bounded = b;
    post = tt;
    real = λ capacity log c f.
        let inside : (ltb capacity offset || ltb (capacity - offset) (wire_size value)) ≡ false =
          no_overrun capacity offset (wire_size value) (omega (arith, fits, c)) in
        (
          log ++ ((offset, value) ∷ []),
          rw inside refl,
          All-append (Fits p) log _ f ((aligned, fits), tt),
        );
  }

  position_of-Sim : Sim {F = F} p (λ a q. (a ≡ p) × (q ≡ p)) position_of
  unfolding position_of
  position_of-Sim = step_of position_of p p refl λ b. record {
    end = p;
    state = refl;
    grows = omega arith;
    bounded = b;
    post = (refl, refl);
    real = λ capacity log c f. (log, refl, f);
  }

no_wrap : (a b : ℕ) → a < size_mod → ltb (size_max - a) b ≡ false → wrap_add a b ≡ a + b
no_wrap a b h e = ground arith

within : {end : ℕ} (capacity : ℕ) → end ≤ capacity → ltb capacity end ≡ false
within capacity h = ground arith

-- The aligned position, up to three bytes behind.
aligned_lem :
    (v a : ℕ)
    → align_position v ≡ ok a
    → (a % wire_alignment ≡ 0) × (v ≤ a) × (a < v + wire_alignment)
unfolding align_position
aligned_lem v a h = elim (Bool-cases (v % wire_alignment == 0)) [
  | inl e ↦ ground arith
  | inr e ↦ ground arith
]

module _ {F : Type 0} {p : ℕ} where
  reserve_at-Sim :
      (bytes aligned : ℕ)
      → aligned % wire_alignment ≡ 0
      → p ≤ aligned
      → aligned < p + wire_alignment
      → Sim {F = F} p
          (λ o end. (o % wire_alignment ≡ 0) × (o + bytes ≤ end))
          (reserve_at bytes aligned)
  unfolding reserve_at
  reserve_at-Sim bytes aligned a l s = elim (Bool-cases (ltb (size_max - aligned) bytes)) [
    | inl e ↦ refused _ {code = resource_exhausted} (rw e refl)
    | inr e ↦ elim (Bool-cases (ltb max_result_bytes (wrap_add aligned bytes))) [
      | inl g ↦ refused _ {code = resource_exhausted} (rw (e, g) refl)
      | inr g ↦ elim (Bool-cases (ltb u32_max (wrap_add aligned bytes))) [
        | inl u ↦ refused _ {code = resource_exhausted} (rw (e, g, u) refl)
        | inr u ↦ step_of _ aligned (wrap_add aligned bytes) (rw (e, g, u) refl) λ b.
            let whole : wrap_add aligned bytes ≡ aligned + bytes =
              no_wrap aligned bytes (omega (arith, s, b)) e in
            record {
              end = wrap_add aligned bytes;
              state = refl;
              grows = omega (arith, whole, l);
              bounded = ground arith;
              post = (a, omega (arith, whole));
              real = λ capacity log c f. (
                log,
                rw (e, g, u, within capacity c) refl,
                Fits-up log (omega (arith, whole, l)) f,
              );
            }
      ]
    ]
  ]

module _ {F : Type 0} {p : ℕ} where
  -- Reserved bytes start at an aligned offset and end before the new position.
  pub Sim-reserve :
      (bytes : ℕ)
      → Sim {F = F} p (λ o end. (o % wire_alignment ≡ 0) × (o + bytes ≤ end)) (reserve bytes)
  unfolding reserve
  Sim-reserve bytes = Sim-bind _ _ _ position_of-Sim λ v q _ here.
      Sim-bind (λ al end. (al % wire_alignment ≡ 0) × (end ≤ al) × (al < end + wire_alignment)) _ _
        (Sim-lift (align_position v) λ al same _.
          let h = aligned_lem v al same in
          (h.0, omega (arith, h.1, here), omega (arith, h.2, here)))
        λ al end _ h. reserve_at-Sim bytes al h.0 h.1 h.2
