-- ===== src/WorkerPool/Schedule.antt =====
-- The schedules of a worker pool: any number of callers, and the workers that the constructor starts.
use fac_lpr_engine.Prelude.{ℕ, suc, ◌≡◌, Bool, true, false, some, List, [], ◌∷◌, ◌++◌}
use fac_lpr_engine.Errors.{ok}
use fac_lpr_engine.WorkerPool.{
  BoundedWorkerPool, Submission, Turn, submit, shutdown, take_turn, finish,
}

-- The pool, and what its workers do: wait for a turn, run a task, or have returned.
pub record System (T : Type 0) : Type 0 where
  pub pool : BoundedWorkerPool T
  pub idle : ℕ
  pub running : List T
  pub exited : ℕ

pub data Event (T : Type 0) : Type 0 where
  accepted : T → Event T
  refused : T → Event T
  closed : List T → Event T
  started : T → Event T
  finished : T → Bool → Event T
  left : Event T

-- One critical section of one thread.
pub data Step {T : Type 0} : System T → Event T → System T → Type 0 where
  submits :
      {s : System T} {task : T} {p : BoundedWorkerPool T}
      → submit s.pool (some task) ≡ ok (Submission.returns true p)
      → Step s (Event.accepted task) (record s { pool = p })
  is_refused :
      {s : System T} {task : T} {p : BoundedWorkerPool T}
      → submit s.pool (some task) ≡ ok (Submission.returns false p)
      → Step s (Event.refused task) (record s { pool = p })
  -- The event holds the tasks that are discarded.
  shuts_down :
      {s : System T} {discarded : List T}
      → s.pool.queue ≡ discarded ++ (shutdown s.pool).queue
      → Step s (Event.closed discarded) (record s { pool = shutdown s.pool })
  starts :
      {s : System T} {task : T} {p : BoundedWorkerPool T} {others : ℕ}
      → s.idle ≡ suc others
      → take_turn s.pool ≡ Turn.starts task p
      → Step s
          (Event.started task)
          (record s { pool = p; idle = others; running = task ∷ s.running })
  finishes :
      {s : System T} {task : T} (before after : List T) {succeeded : Bool}
      → s.running ≡ before ++ (task ∷ after)
      → Step s (Event.finished task succeeded) (record s {
        pool = finish succeeded s.pool;
        idle = suc s.idle;
        running = before ++ after;
      })
  leaves :
      {s : System T} {others : ℕ}
      → s.idle ≡ suc others
      → take_turn s.pool ≡ Turn.exits
      → Step s Event.left (record s { idle = others; exited = suc s.exited })

-- A schedule from one state to another, with its events in their order.
pub data Run {T : Type 0} : System T → List (Event T) → System T → Type 0 where
  done : {s : System T} → Run s [] s
  then :
      {s t u : System T} {e : Event T} {es : List (Event T)}
      → Step s e t
      → Run t es u
      → Run s (e ∷ es) u

module _ {T : Type 0} where
  -- A new pool with its workers.
  abbrev pub new_system : BoundedWorkerPool T → System T
  new_system p = record { pool = p; idle = p.config.worker_count; running = []; exited = 0 }

  abbrev pub accepted_of : List (Event T) → List T
  accepted_of [] = []
  accepted_of (Event.accepted task ∷ es) = task ∷ accepted_of es
  accepted_of (_ ∷ es) = accepted_of es

  abbrev pub started_of : List (Event T) → List T
  started_of [] = []
  started_of (Event.started task ∷ es) = task ∷ started_of es
  started_of (_ ∷ es) = started_of es

  -- The tasks that leave the queue, started or discarded.
  abbrev pub taken_of : List (Event T) → List T
  taken_of [] = []
  taken_of (Event.started task ∷ es) = task ∷ taken_of es
  taken_of (Event.closed discarded ∷ es) = discarded ++ taken_of es
  taken_of (_ ∷ es) = taken_of es
