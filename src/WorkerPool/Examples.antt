-- ===== src/WorkerPool/Examples.antt =====
-- A schedule of a pool with one worker, and the theorems at it.
use fac_lpr_engine.Prelude.{
  ℕ, ◌+◌, ◌%◌, ◌≡◌, refl, true, false, List, [], ◌∷◌, ◌++◌, arith, length, size_mod,
}
use fac_lpr_engine.Errors.{ok}
use fac_lpr_engine.Budget.{checked_resource_multiply}
use fac_lpr_engine.WorkerPool.{
  QueueFullPolicy, ShutdownPolicy, BoundedWorkerPoolConfig, BoundedWorkerPool, make_pool, submit,
  submit_full, enqueue, shutdown, discard, take_turn, next_task, finish,
}
use fac_lpr_engine.WorkerPool.Schedule.{
  System, Event, Step, Run, new_system, accepted_of, started_of, taken_of,
}
use fac_lpr_engine.WorkerPool.Invariant.{IsWell}
use fac_lpr_engine.WorkerPool.Bounds.{fresh, Run-IsWell}
use fac_lpr_engine.WorkerPool.Order.{Run-order, Run-drained}
use fac_lpr_engine.WorkerPool.Counters.{finished_count, Run-tasks_counted}

abbrev config : BoundedWorkerPoolConfig
config = record {
  worker_count = 1;
  queue_capacity = 2;
  estimated_task_bytes = 1024;
  max_queue_memory_bytes = 4096;
  full_policy = QueueFullPolicy.reject_newest;
  shutdown_policy = ShutdownPolicy.drain;
}

abbrev pool : BoundedWorkerPool ℕ
pool = fresh config

made : make_pool config (ok tt) true ≡ ok pool
unfolding make_pool checked_resource_multiply
made = refl

abbrev schedule : List (Event ℕ)
schedule =
    Event.accepted 7
    ∷ Event.accepted 8
    ∷ Event.refused 9
    ∷ Event.started 7
    ∷ Event.closed []
    ∷ Event.finished 7 true
    ∷ Event.started 8
    ∷ Event.finished 8 false
    ∷ Event.left
    ∷ []

abbrev end : System ℕ
end = record {
  pool = record pool {
    accepting = false;
    stopping = true;
    submitted = 2;
    completed = 1;
    failed = 1;
    dropped = 1;
    peak_pending = 2;
  };
  idle = 0;
  running = [];
  exited = 1;
}

happens : Run (new_system pool) schedule end
unfolding submit submit_full enqueue shutdown discard take_turn next_task finish
happens = Run.then (Step.submits refl) (
    Run.then (Step.submits refl) (
      Run.then (Step.is_refused refl) (
        Run.then (Step.starts refl refl) (
          Run.then (Step.shuts_down refl) (
            Run.then (Step.finishes [] [] refl) (
              Run.then (Step.starts refl refl) (
                Run.then (Step.finishes [] [] refl)
                  (Run.then (Step.leaves refl refl) Run.done))))))))

Run-IsWell_example : IsWell config end
Run-IsWell_example = Run-IsWell config (ok tt) true made happens

Run-order_example : accepted_of schedule ≡ taken_of schedule ++ end.pool.queue
Run-order_example = Run-order config (ok tt) true made happens

Run-drained_example : started_of schedule ≡ accepted_of schedule
Run-drained_example = Run-drained config (ok tt) true made refl happens (omega arith)

Run-tasks_counted_example :
    (2 % size_mod ≡ length (accepted_of schedule) % size_mod)
    × ((1 + 1) % size_mod ≡ finished_count schedule % size_mod)
    × (length (started_of schedule) ≡ finished_count schedule + length end.running)
Run-tasks_counted_example = Run-tasks_counted config (ok tt) true made happens
