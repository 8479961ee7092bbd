-- ===== src/WorkerPool/Counters.antt =====
-- The counters of the pool against the events of a schedule.
use fac_lpr_engine.Prelude.{
  ℕ, suc, ◌+◌, ◌%◌, ◌≡◌, sym, ap, Bool, true, false, List, [], ◌∷◌, ◌++◌, arith, length,
  length-append, size_mod, wrap_add,
}
use fac_lpr_engine.Errors.{Result, ok}
use fac_lpr_engine.WorkerPool.{
  BoundedWorkerPoolConfig, BoundedWorkerPool, make_pool, enqueue, finish,
}
use fac_lpr_engine.WorkerPool.Schedule.{
  System, Event, Step, Run, new_system, accepted_of, started_of,
}
use fac_lpr_engine.WorkerPool.Sections.{
  submit-accepted, submit-refused, take_turn-starts, shutdown-Shut,
}
use fac_lpr_engine.WorkerPool.Bounds.{make_pool-fresh}

module _ {T : Type 0} where
  abbrev pub finished_count : List (Event T) → ℕ
  finished_count [] = 0
  finished_count (Event.finished task succeeded ∷ es) = suc (finished_count es)
  finished_count (_ ∷ es) = finished_count es

  -- From one state to another, over these events.
  abbrev Counted : System T → List (Event T) → System T → Type 0
  Counted s es t =
      (t.pool.submitted % size_mod ≡ (s.pool.submitted + length (accepted_of es)) % size_mod)
      × ((t.pool.completed + t.pool.failed) % size_mod
          ≡ (s.pool.completed + s.pool.failed + finished_count es) % size_mod)
      × (length t.running + finished_count es ≡ length s.running + length (started_of es))

  length_split :
      (xs : List T) (x : T) (ys : List T) → length (xs ++ (x ∷ ys)) ≡ suc (length (xs ++ ys))
  length_split xs x ys = omega (arith, length-append xs (x ∷ ys), length-append xs ys)

  Step-Counted : {s t : System T} {e : Event T} → Step s e t → Counted s (e ∷ []) t
  unfolding enqueue finish
  Step-Counted {s = s} (Step.submits {task = task} {p = p} h) =
      let (open_now, space, same) = submit-accepted s.pool task h in
      let a : p.submitted ≡ wrap_add s.pool.submitted 1 = ap (λ q. q.submitted) same in
      let b : p.completed ≡ s.pool.completed = ap (λ q. q.completed) same in
      let c : p.failed ≡ s.pool.failed = ap (λ q. q.failed) same in
      (omega arith, omega arith, omega arith)
  Step-Counted {s = s} (Step.is_refused {task = task} {p = p} h) =
      let same = submit-refused s.pool task h in
      let a : p.submitted ≡ s.pool.submitted = ap (λ q. q.submitted) same in
      let b : p.completed ≡ s.pool.completed = ap (λ q. q.completed) same in
      let c : p.failed ≡ s.pool.failed = ap (λ q. q.failed) same in
      (omega arith, omega arith, omega arith)
  Step-Counted {s = s} (Step.shuts_down h) =
      let shut = shutdown-Shut s.pool in
      (
        omega (arith, shut.same_submitted),
        omega (arith, shut.same_completed, shut.same_failed),
        omega arith,
      )
  Step-Counted {s = s} (Step.starts {task = task} {p = p} i h) =
      let (front, same) = take_turn-starts s.pool task h in
      let a : p.submitted ≡ s.pool.submitted = ap (λ q. q.submitted) same in
      let b : p.completed ≡ s.pool.completed = ap (λ q. q.completed) same in
      let c : p.failed ≡ s.pool.failed = ap (λ q. q.failed) same in
      (omega arith, omega arith, omega arith)
  Step-Counted {s = s} (Step.finishes {task = task} before after {succeeded = true} h) =
      (omega arith, omega arith, omega (arith, ap length h, length_split before task after))
  Step-Counted {s = s} (Step.finishes {task = task} before after {succeeded = false} h) =
      (omega arith, omega arith, omega (arith, ap length h, length_split before task after))
  Step-Counted {s = s} (Step.leaves i h) = (omega arith, omega arith, omega arith)

  events_cons :
      (e : Event T) (es : List (Event T))
      → (length (accepted_of (e ∷ es)) ≡ length (accepted_of (e ∷ [])) + length (accepted_of es))
        × (finished_count (e ∷ es) ≡ finished_count (e ∷ []) + finished_count es)
        × (length (started_of (e ∷ es)) ≡ length (started_of (e ∷ [])) + length (started_of es))
  events_cons (Event.accepted task) es = (omega arith, omega arith, omega arith)
  events_cons (Event.refused task) es = (omega arith, omega arith, omega arith)
  events_cons (Event.closed tasks) es = (omega arith, omega arith, omega arith)
  events_cons (Event.started task) es = (omega arith, omega arith, omega arith)
  events_cons (Event.finished task b) es = (omega arith, omega arith, omega arith)
  events_cons Event.left es = (omega arith, omega arith, omega arith)

  Run-Counted : {s t : System T} {es : List (Event T)} → Run s es t → Counted s es t
  Run-Counted Run.done = (omega arith, omega arith, omega arith)
  Run-Counted {es = e ∷ es} (Run.then step rest) =
      let (a, b, c) = Step-Counted step in
      let (a', b', c') = Run-Counted rest in
      let (l, m, n) = events_cons e es in (omega arith, omega arith, omega arith)

  -- In every schedule of a new pool, modulo 2^64: `submitted` counts the tasks accepted, and
  -- `completed` and `failed` together count the tasks finished. The tasks started are those finished
  -- and those running.
  pub Run-tasks_counted :
      (config : BoundedWorkerPoolConfig) (workspace : Result (Unit {0})) (threads_started : Bool)
      {p : BoundedWorkerPool T} {es : List (Event T)} {t : System T}
      → make_pool config workspace threads_started ≡ ok p
      → Run (new_system p) es t
      → (t.pool.submitted % size_mod ≡ length (accepted_of es) % size_mod)
        × ((t.pool.completed + t.pool.failed) % size_mod ≡ finished_count es % size_mod)
        × (length (started_of es) ≡ finished_count es + length t.running)
  Run-tasks_counted config workspace threads_started {p = p} h run =
      let (few, same) = make_pool-fresh config workspace threads_started h in
      let (a, b, c) = Run-Counted run in
      let i : p.submitted ≡ 0 = ap (λ q. q.submitted) (sym same) in
      let j : p.completed ≡ 0 = ap (λ q. q.completed) (sym same) in
      let k : p.failed ≡ 0 = ap (λ q. q.failed) (sym same) in
      (omega arith, omega arith, omega arith)
