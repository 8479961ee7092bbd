-- ===== src/WorkerPool/Invariant.antt =====
-- The invariant of the pool, and that every critical section preserves it.
use fac_lpr_engine.Prelude.{
  ℕ, suc, ◌+◌, ◌-◌, ◌≤◌, ◌≡◌, sym, ap, ◌∙◌, subst, ◌⊎◌, inl, inr, Bool, true, false, some, List, [],
  ◌∷◌, ◌++◌, arith, length, length-append, size_mod, wrap_add,
}
use fac_lpr_engine.Errors.{ok}
use fac_lpr_engine.WorkerPool.{
  BoundedWorkerPoolConfig, BoundedWorkerPool, Submission, Turn, enqueue, submit, shutdown,
  take_turn, finish,
}
use fac_lpr_engine.WorkerPool.Schedule.{System, Event, Step}
use fac_lpr_engine.WorkerPool.Sections.{
  submit-accepted, submit-refused, take_turn-starts, take_turn-exits, shutdown-Shut,
}

module _ {T : Type 0} where
  pub record IsWell (config : BoundedWorkerPoolConfig) (s : System T) : Type 0 where
    pub same_config : s.pool.config ≡ config
    -- The queue and its peak respect the capacity.
    pub queue_bound : length s.pool.queue ≤ s.pool.peak_pending
    pub peak_bound : s.pool.peak_pending ≤ config.queue_capacity
    -- `active` is the number of running tasks, and no worker is lost.
    pub active : s.pool.active ≡ length s.running
    pub workers : s.idle + length s.running + s.exited ≡ config.worker_count
    -- A pool that stops accepts nothing.
    pub closed : (s.pool.stopping ≡ false) ⊎ (s.pool.accepting ≡ false)
    -- A worker has returned only if the pool stops, and leaves an empty queue for good.
    pub joined : (s.exited ≡ 0) ⊎ ((s.pool.stopping ≡ true) × (s.pool.queue ≡ []))

  module _ (config : BoundedWorkerPoolConfig) where
    submits-IsWell :
        (s : System T) (task : T) {p : BoundedWorkerPool T}
        → submit s.pool (some task) ≡ ok (Submission.returns true p)
        → IsWell config s
        → IsWell config (record s { pool = p })
    unfolding enqueue
    submits-IsWell s task {p} h w =
        let (open_now, space, same) = submit-accepted s.pool task h in
        let size = length-append s.pool.queue (task ∷ []) in
        let capacity = ap (λ c. c.queue_capacity) w.same_config in
        subst (λ q. IsWell config (record s { pool = q })) (sym same)
          (record {
            same_config = w.same_config;
            queue_bound = ground arith;
            peak_bound = ground arith;
            active = w.active;
            workers = w.workers;
            closed = w.closed;
            joined = ground arith;
          })

    is_refused-IsWell :
        (s : System T) (task : T) {p : BoundedWorkerPool T}
        → submit s.pool (some task) ≡ ok (Submission.returns false p)
        → IsWell config s
        → IsWell config (record s { pool = p })
    is_refused-IsWell s task {p} h w =
        subst (λ q. IsWell config (record s { pool = q })) (sym (submit-refused s.pool task h))
          (record {
            same_config = w.same_config;
            queue_bound = w.queue_bound;
            peak_bound = w.peak_bound;
            active = w.active;
            workers = w.workers;
            closed = w.closed;
            joined = w.joined;
          })

    shuts_down-IsWell :
        (s : System T) → IsWell config s → IsWell config (record s { pool = shutdown s.pool })
    shuts_down-IsWell s w =
        let shut = shutdown-Shut s.pool in
        record {
          same_config = shut.same_config ∙ w.same_config;
          queue_bound = elim shut.same_queue [
            | inl e ↦ omega (arith, ap length e, shut.same_peak, w.queue_bound)
            | inr e ↦ omega (arith, ap length e.0)
          ];
          peak_bound = omega (arith, shut.same_peak, w.peak_bound);
          active = shut.same_active ∙ w.active;
          workers = w.workers;
          closed = elim shut.not_accepting [
            | inl (e, same) ↦
                let shuts : s.pool.accepting ≡ false = ground arith in
                inr (ap (λ q. q.accepting) same ∙ shuts)
            | inr e ↦ inr e
          ];
          joined = elim w.joined [
            | inl e ↦ inl e
            | inr (e, q) ↦ inr (shut.stopped, elim shut.same_queue [ inl x ↦ x ∙ q | inr x ↦ x.0 ])
          ];
        }

    starts-IsWell :
        (s : System T) (task : T) (others : ℕ) {p : BoundedWorkerPool T}
        → config.worker_count ≤ 256
        → s.idle ≡ suc others
        → take_turn s.pool ≡ Turn.starts task p
        → IsWell config s
        → IsWell config (record s { pool = p; idle = others; running = task ∷ s.running })
    starts-IsWell s task others {p} few i h w =
        let (front, same) = take_turn-starts s.pool task h in
        let length_front : length s.pool.queue ≡ suc (length p.queue) = ap length front in
        subst
          (λ q. IsWell config (record s { pool = q; idle = others; running = task ∷ s.running }))
          (sym same)
          (record {
            same_config = w.same_config;
            queue_bound = omega (arith, w.queue_bound);
            peak_bound = w.peak_bound;
            active = omega (arith, w.active, w.workers);
            workers = omega (arith, w.workers);
            closed = w.closed;
            joined = elim w.joined [
              | inl e ↦ inl e
              | inr (e, q) ↦ absurd (omega (arith, length_front, ap length q))
            ];
          })

    finishes-IsWell :
        (s : System T) (task : T) (before after : List T) (succeeded : Bool)
        → config.worker_count ≤ 256
        → s.running ≡ before ++ (task ∷ after)
        → IsWell config s
        → IsWell config (record s {
          pool = finish succeeded s.pool;
          idle = suc s.idle;
          running = before ++ after;
        })
    unfolding finish
    finishes-IsWell s task before after succeeded few h w =
        let size : length s.running ≡ suc (length (before ++ after)) =
          ap length h ∙ length_split before task after in
        let count : wrap_add s.pool.active (size_mod - 1) ≡ length (before ++ after) =
          omega (arith, w.active, w.workers) in
        let total : suc s.idle + length (before ++ after) + s.exited ≡ config.worker_count =
          omega (arith, w.workers) in
        by_outcome succeeded count total
      where
        length_split :
            (xs : List T) (x : T) (ys : List T) → length (xs ++ (x ∷ ys)) ≡ suc (length (xs ++ ys))
        length_split xs x ys = omega (arith, length-append xs (x ∷ ys), length-append xs ys)

        by_outcome :
            (ok_now : Bool)
            → wrap_add s.pool.active (size_mod - 1) ≡ length (before ++ after)
            → suc s.idle + length (before ++ after) + s.exited ≡ config.worker_count
            → IsWell config (record s {
              pool = finish ok_now s.pool;
              idle = suc s.idle;
              running = before ++ after;
            })
        by_outcome true count total = record {
          same_config = w.same_config;
          queue_bound = w.queue_bound;
          peak_bound = w.peak_bound;
          active = count;
          workers = total;
          closed = w.closed;
          joined = w.joined;
        }
        by_outcome false count total = record {
          same_config = w.same_config;
          queue_bound = w.queue_bound;
          peak_bound = w.peak_bound;
          active = count;
          workers = total;
          closed = w.closed;
          joined = w.joined;
        }

    leaves-IsWell :
        (s : System T) (others : ℕ)
        → s.idle ≡ suc others
        → take_turn s.pool ≡ Turn.exits
        → IsWell config s
        → IsWell config (record s { idle = others; exited = suc s.exited })
    leaves-IsWell s others i h w =
        let (no_task, stops) = take_turn-exits s.pool h in
        record {
          same_config = w.same_config;
          queue_bound = w.queue_bound;
          peak_bound = w.peak_bound;
          active = w.active;
          workers = omega (arith, w.workers);
          closed = w.closed;
          joined = inr (stops, no_task);
        }

    pub Step-IsWell :
        {s t : System T} {e : Event T}
        → config.worker_count ≤ 256
        → Step s e t
        → IsWell config s
        → IsWell config t
    Step-IsWell {s = s} few (Step.submits {task = task} h) w = submits-IsWell s task h w
    Step-IsWell {s = s} few (Step.is_refused {task = task} h) w = is_refused-IsWell s task h w
    Step-IsWell {s = s} few (Step.shuts_down h) w = shuts_down-IsWell s w
    Step-IsWell {s = s} few (Step.starts {task = task} {others = others} i h) w =
        starts-IsWell s task others few i h w
    Step-IsWell {s = s} few (Step.finishes {task = task} before after {succeeded = b} h) w =
        finishes-IsWell s task before after b few h w
    Step-IsWell {s = s} few (Step.leaves {others = others} i h) w = leaves-IsWell s others i h w
