-- ===== src/Life/Scheduler/Order.antt =====
-- Runs of scheduler.c: tasks that are created, and steps of the workers, in any order.
pub mod Served
pub mod Sound
pub mod Repeats
pub mod Taken
pub mod Fifo
pub mod Drain
pub mod Finish
mod Tests
use my_enseirb_matmeca_proje.Base.{
  ℕ, ◌<◌, ◌≡◌, Bool, true, update, List, [], ◌∷◌, ◌++◌, Option, none, some,
}
use my_enseirb_matmeca_proje.Life.Scheduler.{
  Task, Worker, At, Scheduler, scheduler_init, scheduler_create_task, worker_step, no_more_task,
  is_signalled,
}

-- The tasks that each worker was given, and those it has begun to run, in order.
pub record Run : Type 0 where
  pub sched : Scheduler
  pub created : ℕ → List Task
  pub started : ℕ → List Task

-- The worker that a task is for.
abbrev pub target : Option ℕ → Scheduler → ℕ
target none s = s.cyclic
target (some cpu) s = cpu

-- What a worker has begun to run in its last step.
abbrev pub begun : Worker → List Task
begun w = elim w.here [ At.running ↦ w.task ∷ [] | _ ↦ [] ]

abbrev pub empty_run : (ℕ → ℕ → Task) → ℕ → Run
empty_run cells n = record { sched = scheduler_init cells n; created = λ w. []; started = λ w. [] }

-- A task was created, and the scheduler is now `s`.
abbrev pub with_task : Task → ℕ → Scheduler → Run → Run
with_task t w s r = record r { sched = s; created = update r.created w (r.created w ++ (t ∷ [])) }

abbrev pub after_step : ℕ → Run → Run
after_step w r =
    let s = worker_step w r.sched in
    record r { sched = s; started = update r.started w (r.started w ++ begun (s.workers w)) }

-- When `pthread_cond_wait` returns is the library's: `wakes` tells which sleeping workers may go on.
-- POSIX lets it return without a signal; the code relies on it that it does not.
abbrev pub OnlySignals : (Worker → Bool) → Type 0
OnlySignals wakes = (me : Worker) → wakes me ≡ true → is_signalled me ≡ true

-- The runs with `n` workers.
pub data Reach (wakes : Worker → Bool) (n : ℕ) : Run → Type 0 where
  start : (cells : ℕ → ℕ → Task) → Reach wakes n (empty_run cells n)
  create :
      (r : Run) (t : Task) (cpu : Option ℕ) (s : Scheduler)
      → Reach wakes n r
      → target cpu r.sched < n
      → scheduler_create_task t cpu r.sched ≡ some s
      → Reach wakes n (with_task t (target cpu r.sched) s r)
  step :
      (r : Run) (w : ℕ)
      → Reach wakes n r
      → w < n
      → ((r.sched.workers w).here ≡ At.asleep → wakes (r.sched.workers w) ≡ true)
      → Reach wakes n (after_step w r)
  stop :
      (r : Run) (w : ℕ)
      → Reach wakes n r
      → w < n
      → Reach wakes n (record r { sched = no_more_task w r.sched })
