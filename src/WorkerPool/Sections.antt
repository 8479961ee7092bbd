-- ===== src/WorkerPool/Sections.antt =====
-- What the critical sections of the pool do, read from their outcomes.
use fac_lpr_engine.Prelude.{
  ◌<◌, ◌≡◌, refl, sym, subst, ◌⊎◌, inl, inr, true, false, some, List, [], ◌∷◌, arith, length,
  Bool-cases, wrap_add,
}
use fac_lpr_engine.Errors.{ok}
use fac_lpr_engine.WorkerPool.{
  BoundedWorkerPool, Submission, Turn, ShutdownPolicy, QueueFullPolicy, enqueue, submit_full,
  submit, discard, shutdown, next_task, take_turn,
}

module _ {T : Type 0} where
  pub submit-accepted :
      (p : BoundedWorkerPool T) (task : T) {q : BoundedWorkerPool T}
      → submit p (some task) ≡ ok (Submission.returns true q)
      → (p.accepting ≡ true) × (length p.queue < p.config.queue_capacity) × (q ≡ enqueue p task)
  unfolding submit submit_full
  submit-accepted p task h = ground arith

  submit_full-refused :
      (p : BoundedWorkerPool T) (policy : QueueFullPolicy) {q : BoundedWorkerPool T}
      → submit_full p policy ≡ Submission.returns false q
      → q ≡ record p { dropped = q.dropped }
  unfolding submit_full
  submit_full-refused p QueueFullPolicy.block h = cc
  submit_full-refused p QueueFullPolicy.reject_newest h = ground arith

  -- A refused submission changes no more than the counter of drops.
  pub submit-refused :
      (p : BoundedWorkerPool T) (task : T) {q : BoundedWorkerPool T}
      → submit p (some task) ≡ ok (Submission.returns false q)
      → q ≡ record p { dropped = q.dropped }
  unfolding submit
  submit-refused p task {q} h = ground (arith, submit_full-refused p p.config.full_policy {q = q})

  next_task-starts :
      (p : BoundedWorkerPool T) (queue : List T) (task : T) {q : BoundedWorkerPool T}
      → next_task p queue ≡ Turn.starts task q
      → (queue ≡ task ∷ q.queue) × (q ≡ record p { queue = q.queue; active = wrap_add p.active 1 })
  unfolding next_task
  next_task-starts p [] task h = absurd (ground arith)
  next_task-starts p (first ∷ rest) task h = ground arith

  pub take_turn-starts :
      (p : BoundedWorkerPool T) (task : T) {q : BoundedWorkerPool T}
      → take_turn p ≡ Turn.starts task q
      → (p.queue ≡ task ∷ q.queue)
        × (q ≡ record p { queue = q.queue; active = wrap_add p.active 1 })
  unfolding take_turn
  take_turn-starts p task h = next_task-starts p p.queue task h

  next_task-exits :
      (p : BoundedWorkerPool T) (queue : List T)
      → next_task p queue ≡ Turn.exits
      → (queue ≡ []) × (p.stopping ≡ true)
  unfolding next_task
  next_task-exits p [] h = ground arith
  next_task-exits p (first ∷ rest) h = absurd (ground arith)

  pub take_turn-exits :
      (p : BoundedWorkerPool T) → take_turn p ≡ Turn.exits → (p.queue ≡ []) × (p.stopping ≡ true)
  unfolding take_turn
  take_turn-exits p h = next_task-exits p p.queue h

  -- After `shutdown` the pool is stopping; the queue is as it was, or empty; and no counter changes
  -- but that of drops. Only a pool that was stopping already may still accept.
  pub record Shut (p q : BoundedWorkerPool T) : Type 0 where
    pub stopped : q.stopping ≡ true
    pub not_accepting : ((p.stopping ≡ true) × (q ≡ p)) ⊎ (q.accepting ≡ false)
    pub same_config : q.config ≡ p.config
    pub same_queue :
        (q.queue ≡ p.queue)
        ⊎ ((q.queue ≡ []) × (p.config.shutdown_policy ≡ ShutdownPolicy.discard_pending))
    pub same_submitted : q.submitted ≡ p.submitted
    pub same_completed : q.completed ≡ p.completed
    pub same_failed : q.failed ≡ p.failed
    pub same_active : q.active ≡ p.active
    pub same_peak : q.peak_pending ≡ p.peak_pending

  shutdown_again : (p : BoundedWorkerPool T) → p.stopping ≡ true → shutdown p ≡ p
  unfolding shutdown
  shutdown_again p e = rw e refl

  shutdown_first :
      (p : BoundedWorkerPool T)
      → p.stopping ≡ false
      → shutdown p
        ≡ discard (record p { accepting = false; stopping = true }) p.config.shutdown_policy
  unfolding shutdown
  shutdown_first p e = rw e refl

  pub shutdown-Shut : (p : BoundedWorkerPool T) → Shut p (shutdown p)
  unfolding discard
  shutdown-Shut p = elim (Bool-cases p.stopping) [
    | inl e ↦
        let unchanged : Shut p p = record {
          stopped = e;
          not_accepting = inl (e, refl);
          same_config = refl;
          same_queue = inl refl;
          same_submitted = refl;
          same_completed = refl;
          same_failed = refl;
          same_active = refl;
          same_peak = refl;
        } in
        subst (Shut p) (sym (shutdown_again p e)) unchanged
    | inr e ↦ subst (Shut p) (sym (shutdown_first p e)) (by_policy p.config.shutdown_policy refl)
  ]
    where
      by_policy :
          (policy : ShutdownPolicy)
          → p.config.shutdown_policy ≡ policy
          → Shut p (discard (record p { accepting = false; stopping = true }) policy)
      by_policy ShutdownPolicy.drain h = record {
        stopped = refl;
        not_accepting = inr refl;
        same_config = refl;
        same_queue = inl refl;
        same_submitted = refl;
        same_completed = refl;
        same_failed = refl;
        same_active = refl;
        same_peak = refl;
      }
      by_policy ShutdownPolicy.discard_pending h = record {
        stopped = refl;
        not_accepting = inr refl;
        same_config = refl;
        same_queue = inr (refl, h);
        same_submitted = refl;
        same_completed = refl;
        same_failed = refl;
        same_active = refl;
        same_peak = refl;
      }
