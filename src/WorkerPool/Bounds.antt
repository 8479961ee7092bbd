-- ===== src/WorkerPool/Bounds.antt =====
-- The invariant of the pool in every schedule.
use fac_lpr_engine.Prelude.{◌≤◌, ◌≡◌, refl, subst, inl, inr, Bool, true, false, List, [], arith}
use fac_lpr_engine.Errors.{Result, Result-cases, ok}
use fac_lpr_engine.Budget.{checked_resource_multiply}
use fac_lpr_engine.WorkerPool.{BoundedWorkerPoolConfig, BoundedWorkerPool, make_pool}
use fac_lpr_engine.WorkerPool.Schedule.{System, Event, Run, new_system}
use fac_lpr_engine.WorkerPool.Invariant.{IsWell, Step-IsWell}

module _ {T : Type 0} where
  module _ (config : BoundedWorkerPoolConfig) where
    Run-IsWell_from :
        {s t : System T} {es : List (Event T)}
        → config.worker_count ≤ 256
        → Run s es t
        → IsWell config s
        → IsWell config t
    Run-IsWell_from few Run.done w = w
    Run-IsWell_from few (Run.then step rest) w =
        Run-IsWell_from few rest (Step-IsWell config few step w)

  abbrev pub fresh : BoundedWorkerPoolConfig → BoundedWorkerPool T
  fresh config = record {
    config = config;
    queue = [];
    accepting = true;
    stopping = false;
    submitted = 0;
    completed = 0;
    failed = 0;
    dropped = 0;
    active = 0;
    peak_pending = 0;
  }

  pub make_pool-fresh :
      (config : BoundedWorkerPoolConfig) (workspace : Result (Unit {0})) (threads_started : Bool)
      {p : BoundedWorkerPool T}
      → make_pool config workspace threads_started ≡ ok p
      → (config.worker_count ≤ 256) × (fresh config ≡ p)
  unfolding make_pool
  make_pool-fresh config workspace threads_started h =
      elim (Result-cases (
        checked_resource_multiply config.queue_capacity config.estimated_task_bytes
          config.max_queue_memory_bytes)) [
            | inl (e, q) ↦ absurd (ground arith)
            | inr (n, q) ↦ elim (Result-cases workspace) [
              | inl (e, q') ↦ absurd (ground arith)
              | inr (u, q') ↦ ground arith
            ]
          ]

  fresh-IsWell : (config : BoundedWorkerPoolConfig) → IsWell config (new_system (fresh config))
  fresh-IsWell config = record {
    same_config = refl;
    queue_bound = omega arith;
    peak_bound = omega arith;
    active = refl;
    workers = omega arith;
    closed = inl refl;
    joined = inl refl;
  }

  -- In every schedule of a pool that its constructor has made: the queue and its peak are within the
  -- capacity, `active` is the number of running tasks, every worker is idle, running or has returned,
  -- a stopping pool does not accept, and once a worker has returned the queue is empty.
  pub Run-IsWell :
      (config : BoundedWorkerPoolConfig) (workspace : Result (Unit {0})) (threads_started : Bool)
      {p : BoundedWorkerPool T} {es : List (Event T)} {t : System T}
      → make_pool config workspace threads_started ≡ ok p
      → Run (new_system p) es t
      → IsWell config t
  Run-IsWell config workspace threads_started h run =
      let (few, same) = make_pool-fresh config workspace threads_started h in
      Run-IsWell_from config few run
        (subst (λ q. IsWell config (new_system q)) same (fresh-IsWell config))
