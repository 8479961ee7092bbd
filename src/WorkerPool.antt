-- ===== src/WorkerPool.antt =====
-- src/infrastructure/concurrency/bounded_worker_pool.cpp: a bounded queue of tasks and its workers.
-- Every critical section under the mutex is one function of the state that the mutex guards; a
-- schedule of the threads is a sequence of these sections (Schedule). A wait on a condition variable
-- is a section that does not take place yet. `T` stands for the tasks.
pub mod Schedule
pub mod Sections
pub mod Invariant
pub mod Bounds
pub mod Order
pub mod Counters
mod Examples
use fac_lpr_engine.Prelude.{
  ℕ, zero, suc, ◌+◌, ◌-◌, ◌*◌, ◌/◌, ◌%◌, ◌^◌, ◌≤◌, ◌<◌, ◌≡◌, refl, sym, ap, ◌∙◌, subst, ◌≢◌, ◌↔◌,
  ◌⊎◌, inl, inr, Bool, true, false, not, ◌&&◌, ◌||◌, Option, none, some, List, [], ◌∷◌, ◌++◌, map,
  arith, length, length-append, All, take, get_elem?, All-append, length-take-le, ltb, leb, ◌==◌,
  if◌then◌else◌, Bool-cases, Option-cases, size_mod, wrap_add, Text, is_empty, text_eq, text_lt, ℤ,
  pos, negsuc, is_negative, is_positive, exceeds, elapsed_lt, elapsed_le, nanos_per_milli,
  text_eq_refl, eq_of_text_eq, text_lt_irrefl, text_lt_trans, text_lt_total, text_eq_of_lt,
  text_eq_sym,
}
use fac_lpr_engine.Errors.{
  Result, Result-cases, ok, err, ◌>>=◌, ◌>>◌, throw_if, EngineErrorCode, configuration, provider,
  inference, invalid_image, resource_exhausted, internal, cancelled, timeout, >>=-eq-ok,
}
use fac_lpr_engine.Budget.{checked_resource_multiply}

pub data QueueFullPolicy : Type 0 where
  reject_newest : QueueFullPolicy
  block : QueueFullPolicy

pub data ShutdownPolicy : Type 0 where
  drain : ShutdownPolicy
  discard_pending : ShutdownPolicy

pub record BoundedWorkerPoolConfig : Type 0 where
  pub worker_count : ℕ
  pub queue_capacity : ℕ
  pub estimated_task_bytes : ℕ
  pub max_queue_memory_bytes : ℕ
  pub full_policy : QueueFullPolicy
  pub shutdown_policy : ShutdownPolicy

pub record BoundedWorkerPoolStats : Type 0 where
  pub submitted : ℕ
  pub completed : ℕ
  pub failed : ℕ
  pub dropped : ℕ
  pub pending : ℕ
  pub active : ℕ
  pub peak_pending : ℕ

pub record BoundedWorkerPool (T : Type 0) : Type 0 where
  pub config : BoundedWorkerPoolConfig
  pub queue : List T
  pub accepting : Bool
  pub stopping : Bool
  pub submitted : ℕ
  pub completed : ℕ
  pub failed : ℕ
  pub dropped : ℕ
  pub active : ℕ
  pub peak_pending : ℕ

-- A call of `submit` waits for space, or returns.
pub data Submission (T : Type 0) : Type 0 where
  waits : Submission T
  returns : Bool → BoundedWorkerPool T → Submission T

-- A worker waits for work, returns from its loop, or starts a task.
pub data Turn (T : Type 0) : Type 0 where
  waits : Turn T
  exits : Turn T
  starts : T → BoundedWorkerPool T → Turn T

-- The constructor. What it calls is given: the outcome of building a workspace, and whether all
-- threads could be started.
unfoldable pub make_pool :
    {T : Type 0} → BoundedWorkerPoolConfig → Result (Unit {0}) → Bool → Result (BoundedWorkerPool T)
make_pool config workspace threads_started = do
  throw_if (config.worker_count == 0 || ltb 256 config.worker_count) configuration
  throw_if (config.queue_capacity == 0 || ltb 65536 config.queue_capacity) configuration
  throw_if (config.estimated_task_bytes == 0 || config.max_queue_memory_bytes == 0) configuration
  memory ←
      checked_resource_multiply config.queue_capacity config.estimated_task_bytes
        config.max_queue_memory_bytes
  workspace
  throw_if (not threads_started) resource_exhausted
  ok (record {
    config = config;
    queue = [];
    accepting = true;
    stopping = false;
    submitted = 0;
    completed = 0;
    failed = 0;
    dropped = 0;
    active = 0;
    peak_pending = 0;
  })

abbrev pub nat_max : ℕ → ℕ → ℕ
nat_max a b = if ltb a b then b else a

module _ {T : Type 0} where
  unfoldable pub enqueue : BoundedWorkerPool T → T → BoundedWorkerPool T
  enqueue p task = record p {
    queue = p.queue ++ (task ∷ []);
    submitted = wrap_add p.submitted 1;
    peak_pending = nat_max p.peak_pending (length (p.queue ++ (task ∷ [])));
  }

  unfoldable pub submit_full : BoundedWorkerPool T → QueueFullPolicy → Submission T
  submit_full p QueueFullPolicy.block = Submission.waits
  submit_full p QueueFullPolicy.reject_newest =
      Submission.returns false (record p { dropped = wrap_add p.dropped 1 })

  -- A task is `none` if its `std::function` is empty.
  unfoldable pub submit : BoundedWorkerPool T → Option T → Result (Submission T)
  submit p none = err configuration
  submit p (some task) =
      if not p.accepting
      then ok (Submission.returns false p)
      else if ltb (length p.queue) p.config.queue_capacity
      then ok (Submission.returns true (enqueue p task))
      else ok (submit_full p p.config.full_policy)

  -- The section of `shutdown`; the workers are joined after it.
  unfoldable pub discard : BoundedWorkerPool T → ShutdownPolicy → BoundedWorkerPool T
  discard p ShutdownPolicy.drain = p
  discard p ShutdownPolicy.discard_pending = record p {
    queue = [];
    dropped = wrap_add p.dropped (length p.queue);
  }

  unfoldable pub shutdown : BoundedWorkerPool T → BoundedWorkerPool T
  shutdown p =
      if p.stopping
      then p
      else discard (record p { accepting = false; stopping = true }) p.config.shutdown_policy

  -- The first section of a round of `worker_loop`.
  unfoldable pub next_task : BoundedWorkerPool T → List T → Turn T
  next_task p [] = if p.stopping then Turn.exits else Turn.waits
  next_task p (task ∷ rest) =
      Turn.starts task (record p { queue = rest; active = wrap_add p.active 1 })

  unfoldable pub take_turn : BoundedWorkerPool T → Turn T
  take_turn p = next_task p p.queue

  -- Its second section, after the task has returned (`succeeded`) or thrown. Subtracting 1 modulo
  -- 2^64 is adding 2^64 - 1.
  unfoldable pub finish : Bool → BoundedWorkerPool T → BoundedWorkerPool T
  finish true p = record p {
    active = wrap_add p.active (size_mod - 1);
    completed = wrap_add p.completed 1;
  }
  finish false p = record p {
    active = wrap_add p.active (size_mod - 1);
    failed = wrap_add p.failed 1;
  }

  unfoldable pub stats : BoundedWorkerPool T → BoundedWorkerPoolStats
  stats p = record {
    submitted = p.submitted;
    completed = p.completed;
    failed = p.failed;
    dropped = p.dropped;
    pending = length p.queue;
    active = p.active;
    peak_pending = p.peak_pending;
  }
