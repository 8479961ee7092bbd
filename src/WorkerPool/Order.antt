-- ===== src/WorkerPool/Order.antt =====
-- The order of the tasks: first in, first out, and none is lost.
use fac_lpr_engine.Prelude.{
  ◌≤◌, ◌≡◌, refl, sym, ap, ◌∙◌, inl, inr, Bool, true, false, List, [], ◌∷◌, ◌++◌, arith, length,
  length-append,
}
use fac_lpr_engine.Errors.{Result, ok}
use fac_lpr_engine.WorkerPool.{
  BoundedWorkerPoolConfig, BoundedWorkerPool, ShutdownPolicy, make_pool, enqueue, finish,
}
use fac_lpr_engine.WorkerPool.Schedule.{
  System, Event, Step, Run, new_system, accepted_of, started_of, taken_of,
}
use fac_lpr_engine.WorkerPool.Sections.{
  submit-accepted, submit-refused, take_turn-starts, shutdown-Shut,
}
use fac_lpr_engine.WorkerPool.Bounds.{Run-IsWell, make_pool-fresh}

module _ {T : Type 0} where
  append_assoc : (xs ys zs : List T) → (xs ++ ys) ++ zs ≡ xs ++ (ys ++ zs)
  append_assoc [] ys zs = refl
  append_assoc (x ∷ xs) ys zs = ap (λ l. x ∷ l) (append_assoc xs ys zs)

  append_nothing : (xs : List T) → xs ++ [] ≡ xs
  append_nothing [] = refl
  append_nothing (x ∷ xs) = ap (λ l. x ∷ l) (append_nothing xs)

  finish-queue : (succeeded : Bool) (p : BoundedWorkerPool T) → (finish succeeded p).queue ≡ p.queue
  unfolding finish
  finish-queue true p = refl
  finish-queue false p = refl

  -- One step: what was in the queue and what it accepts is what it takes and what is in the queue then.
  Step-order :
      {s t : System T} {e : Event T} (es : List (Event T)) (out : List T)
      → Step s e t
      → t.pool.queue ++ accepted_of es ≡ taken_of es ++ out
      → s.pool.queue ++ accepted_of (e ∷ es) ≡ taken_of (e ∷ es) ++ out
  unfolding enqueue
  Step-order {s = s} es out (Step.submits {task = task} h) k =
      let (open_now, space, same) = submit-accepted s.pool task h in
      sym (append_assoc s.pool.queue (task ∷ []) (accepted_of es))
      ∙ ap (λ q. q.queue ++ accepted_of es) (sym same)
      ∙ k
  Step-order {s = s} es out (Step.is_refused {task = task} h) k =
      ap (λ q. q.queue ++ accepted_of es) (sym (submit-refused s.pool task h)) ∙ k
  Step-order {s = s} es out (Step.shuts_down {discarded = discarded} h) k =
      ap (λ q. q ++ accepted_of es) h
      ∙ append_assoc discarded _ (accepted_of es)
      ∙ ap (λ q. discarded ++ q) k
      ∙ sym (append_assoc discarded (taken_of es) out)
  Step-order {s = s} es out (Step.starts {task = task} i h) k =
      let (front, same) = take_turn-starts s.pool task h in
      ap (λ q. q ++ accepted_of es) front ∙ ap (λ q. task ∷ q) k
  Step-order {s = s} es out (Step.finishes before after {succeeded = b} h) k =
      ap (λ q. q ++ accepted_of es) (sym (finish-queue b s.pool)) ∙ k
  Step-order {s = s} es out (Step.leaves i h) k = k

  Run-order_from :
      {s t : System T} {es : List (Event T)}
      → Run s es t
      → s.pool.queue ++ accepted_of es ≡ taken_of es ++ t.pool.queue
  Run-order_from {t = t} Run.done = append_nothing t.pool.queue
  Run-order_from {t = t} {es = e ∷ es} (Run.then step rest) =
      Step-order es t.pool.queue step (Run-order_from rest)

  -- In every schedule of a new pool, the tasks accepted are, in their order, the tasks that were
  -- started or discarded, followed by the tasks in the queue: the queue is first in, first out, and
  -- loses and repeats none.
  pub Run-order :
      (config : BoundedWorkerPoolConfig) (workspace : Result (Unit {0})) (threads_started : Bool)
      {p : BoundedWorkerPool T} {es : List (Event T)} {t : System T}
      → make_pool config workspace threads_started ≡ ok p
      → Run (new_system p) es t
      → accepted_of es ≡ taken_of es ++ t.pool.queue
  Run-order config workspace threads_started {es = es} h run =
      let (few, same) = make_pool-fresh config workspace threads_started h in
      ap (λ q. q.queue ++ accepted_of es) same ∙ Run-order_from run

  nothing_discarded : (discarded queue : List T) → queue ≡ discarded ++ queue → discarded ≡ []
  nothing_discarded [] queue h = refl
  nothing_discarded (x ∷ xs) queue h = absurd (omega (arith, ap length h, length-append xs queue))

  finish-config :
      (succeeded : Bool) (p : BoundedWorkerPool T) → (finish succeeded p).config ≡ p.config
  unfolding finish
  finish-config true p = refl
  finish-config false p = refl

  Step-same_config : {s t : System T} {e : Event T} → Step s e t → t.pool.config ≡ s.pool.config
  unfolding enqueue
  Step-same_config {s = s} (Step.submits {task = task} h) =
      ap (λ q. q.config) (submit-accepted s.pool task h).2
  Step-same_config {s = s} (Step.is_refused {task = task} h) =
      ap (λ q. q.config) (submit-refused s.pool task h)
  Step-same_config {s = s} (Step.shuts_down h) = (shutdown-Shut s.pool).same_config
  Step-same_config {s = s} (Step.starts {task = task} i h) =
      ap (λ q. q.config) (take_turn-starts s.pool task h).1
  Step-same_config {s = s} (Step.finishes before after {succeeded = b} h) = finish-config b s.pool
  Step-same_config (Step.leaves i h) = refl

  -- With the policy to drain, a step that takes a task out of the queue starts it.
  Step-drain :
      {s t : System T} {e : Event T} (es : List (Event T))
      → Step s e t
      → s.pool.config.shutdown_policy ≡ ShutdownPolicy.drain
      → taken_of es ≡ started_of es
      → taken_of (e ∷ es) ≡ started_of (e ∷ es)
  Step-drain es (Step.submits h) d k = k
  Step-drain es (Step.is_refused h) d k = k
  Step-drain {s = s} es (Step.shuts_down {discarded = discarded} h) d k =
      let none_gone : discarded ≡ [] = elim (shutdown-Shut s.pool).same_queue [
        | inl e ↦ nothing_discarded discarded s.pool.queue (h ∙ ap (λ q. discarded ++ q) e)
        | inr e ↦ absurd (ground arith)
      ] in
      ap (λ q. q ++ taken_of es) none_gone ∙ k
  Step-drain es (Step.starts {task = task} i h) d k = ap (λ q. task ∷ q) k
  Step-drain es (Step.finishes before after h) d k = k
  Step-drain es (Step.leaves i h) d k = k

  taken-drain :
      {s t : System T} {es : List (Event T)}
      → Run s es t
      → s.pool.config.shutdown_policy ≡ ShutdownPolicy.drain
      → taken_of es ≡ started_of es
  taken-drain Run.done d = refl
  taken-drain {es = e ∷ es} (Run.then step rest) d =
      Step-drain es step d
        (taken-drain rest (ap (λ c. c.shutdown_policy) (Step-same_config step) ∙ d))

  -- In every schedule of a new pool with the policy to drain, once a worker has returned, the
  -- tasks started are the tasks accepted, in the same order: `shutdown`, which joins the workers,
  -- leaves no accepted task behind.
  pub Run-drained :
      (config : BoundedWorkerPoolConfig) (workspace : Result (Unit {0})) (threads_started : Bool)
      {p : BoundedWorkerPool T} {es : List (Event T)} {t : System T}
      → make_pool config workspace threads_started ≡ ok p
      → config.shutdown_policy ≡ ShutdownPolicy.drain
      → Run (new_system p) es t
      → 1 ≤ t.exited
      → started_of es ≡ accepted_of es
  Run-drained config workspace threads_started {es = es} {t = t} h d run gone =
      let well = Run-IsWell config workspace threads_started h run in
      let (few, same) = make_pool-fresh config workspace threads_started h in
      let policy = ap (λ q. q.config.shutdown_policy) (sym same) ∙ d in
      let empty : t.pool.queue ≡ [] = elim well.joined [
        | inl e ↦ absurd (omega arith)
        | inr e ↦ e.1
      ] in
      let order = Run-order config workspace threads_started h run in
      sym (
        order
        ∙ ap (λ q. taken_of es ++ q) empty
        ∙ append_nothing (taken_of es)
        ∙ taken-drain run policy)
