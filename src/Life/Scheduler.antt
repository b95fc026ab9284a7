-- ===== src/Life/Scheduler.antt =====
-- scheduler.c of The Game of Life: the task queues of the workers. A task is run after the critical
-- section that takes it. Mutexes, conditions and the binding to cores are left out: a section is a
-- step, and a worker that waits for its condition is `asleep`.
pub mod Ring
pub mod Order
use my_enseirb_matmeca_proje.Base.{
  ℕ, zero, suc, ◌+◌, ◌%◌, Bool, true, false, not, ◌&&◌, ◌==◌, if◌then◌else◌, update, Option, none,
  some,
}
use my_enseirb_matmeca_proje.Base.Int.{ℤ, pos, negsuc, eqb_ℤ, ltb_ℤ, ◌+ℤ◌, ◌-ℤ◌}

abbrev pub work_queue : ℕ
work_queue = 1024

-- `struct task`: the addresses of a function and of its argument.
pub record Task : Type 0 where
  pub fun : ℕ
  pub p : ℕ

-- Where a worker stands in `worker_main`: before the critical section, in `pthread_cond_wait`, in
-- the call of a task, or returned.
pub data At : Type 0 where
  top asleep running ended : At

-- `struct worker`, and the local variable `todo` of `worker_main` as `task`.
pub record Worker : Type 0 where
  pub fin : ℤ
  pub todo : ℤ
  pub tasks : ℕ → Task
  pub d : ℕ
  pub f : ℕ
  pub task : Task
  pub here : At

pub record Scheduler : Type 0 where
  pub nb_workers : ℕ
  pub nb_task : ℤ
  pub cyclic : ℕ
  pub workers : ℕ → Worker

abbrev null_task : Task
null_task = record { fun = 0; p = 0 }

-- What `scheduler_init` writes to a worker, and the start of its thread. The cells of the array hold
-- what `malloc` gave.
pub new_worker : (ℕ → Task) → Worker
new_worker cells = record {
  fin = pos 0;
  todo = pos 0;
  tasks = cells;
  d = 0;
  f = 0;
  task = null_task;
  here = At.top;
}

-- `scheduler_init` for a number of workers.
pub scheduler_init : (ℕ → ℕ → Task) → ℕ → Scheduler
unfolding new_worker
scheduler_init cells n = record {
  nb_workers = n;
  nb_task = pos 0;
  cyclic = 0;
  workers = λ w. new_worker (cells w);
}

pub one_more_task : Scheduler → Scheduler
one_more_task s = record s { nb_task = s.nb_task +ℤ pos 1 }

pub one_less_task : Scheduler → Scheduler
one_less_task s = record s { nb_task = s.nb_task -ℤ pos 1 }

-- `scheduler_task_wait` returns.
abbrev pub task_wait_ends : Scheduler → Bool
task_wait_ends s = not (ltb_ℤ (pos 0) s.nb_task)

-- The critical section of `add_task`. A worker that is asleep stays so until its step.
pub push : Task → Worker → Worker
push t w = record w {
  tasks = update w.tasks w.f t;
  f = (w.f + 1) % work_queue;
  todo = w.todo +ℤ pos 1;
}

-- `none`: the assertion fails.
pub add_task : Task → ℕ → Scheduler → Option Scheduler
unfolding one_more_task push
add_task t w s =
    let new = push t (s.workers w) in
    if ltb_ℤ new.todo (pos work_queue)
    then some (record (one_more_task s) { workers = update s.workers w new })
    else none

pub no_more_task : ℕ → Scheduler → Scheduler
no_more_task w s = record s { workers = update s.workers w (record (s.workers w) { fin = pos 1 }) }

-- The workers below `k`, one after the other.
pub stop_all : ℕ → Scheduler → Scheduler
unfolding no_more_task
stop_all zero s = s
stop_all (suc k) s = no_more_task k (stop_all k s)

-- What `scheduler_finalize` does before it waits for the threads to end.
pub scheduler_finalize : Scheduler → Scheduler
unfolding stop_all
scheduler_finalize s = stop_all s.nb_workers s

-- `none` is the CPU -1: the workers in turn.
pub scheduler_create_task : Task → Option ℕ → Scheduler → Option Scheduler
unfolding add_task
scheduler_create_task t none s =
    add_task t s.cyclic (record s { cyclic = (s.cyclic + 1) % s.nb_workers })
scheduler_create_task t (some cpu) s = add_task t cpu s

-- The critical section of `worker_main` after the wait: a task is taken, the worker ends, or, when
-- it was woken with nothing to do, the last task is run once more.
pub take_task : Worker → Worker
take_task w =
    if not (w.d == w.f)
    then record w {
      task = w.tasks w.d;
      d = (w.d + 1) % work_queue;
      todo = w.todo -ℤ pos 1;
      here = At.running;
    }
    else if eqb_ℤ w.fin (pos 1)
    then record w { fin = negsuc 0; here = At.ended }
    else record w { here = At.running }

-- The section from its beginning.
pub begin_section : Worker → Worker
unfolding take_task
begin_section w =
    if w.d == w.f && eqb_ℤ w.fin (pos 0) then record w { here = At.asleep } else take_task w

-- What a worker does next.
pub worker_step : ℕ → Scheduler → Scheduler
unfolding begin_section one_less_task
worker_step w s =
    let me = s.workers w in
    elim me.here [
      | top ↦ record s { workers = update s.workers w (begin_section me) }
      | asleep ↦ record s { workers = update s.workers w (take_task me) }
      | running ↦ record (one_less_task s) {
        workers = update s.workers w (record me { here = At.top });
      }
      | ended ↦ s
    ]

-- A worker that sleeps is woken by a signal: a task was added, or there are no more tasks. POSIX
-- allows to wake it without.
abbrev pub is_signalled : Worker → Bool
is_signalled w = not (w.d == w.f && eqb_ℤ w.fin (pos 0))
