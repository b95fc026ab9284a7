-- ===== src/Life/Scheduler/Order/Tests.antt =====
-- A run of scheduler.c with two workers and three tasks.
use my_enseirb_matmeca_proje.Life.Scheduler.Order.Repeats.{Repeats}
use my_enseirb_matmeca_proje.Life.Scheduler.Order.Taken.{taken_in_order}
use my_enseirb_matmeca_proje.Base.{
  ℕ, ◌+◌, ◌≡◌, refl, Option, none, some, [], ◌∷◌, ◌++◌, ◌<◌, length, true, arith, List,
}
use my_enseirb_matmeca_proje.Base.Int.{pos, ◌+ℤ◌, ◌-ℤ◌}
use my_enseirb_matmeca_proje.Life.Scheduler.{
  work_queue, Task, At, Scheduler, null_task, scheduler_init, new_worker, scheduler_create_task,
  add_task, push, one_more_task, worker_step, begin_section, take_task, scheduler_finalize,
  is_signalled,
}
use my_enseirb_matmeca_proje.Life.Scheduler.Ring.{queue}
use my_enseirb_matmeca_proje.Life.Scheduler.Order.{
  Run, Reach, start, create, step, target, empty_run, with_task, after_step,
}
use my_enseirb_matmeca_proje.Life.Scheduler.Order.Drain.{run_tasks}
use my_enseirb_matmeca_proje.Life.Scheduler.Order.Finish.{scheduler_finalize-ends}

abbrev task_of : ℕ → Task
task_of k = record { fun = 100 + k; p = k }

abbrev created_or : Scheduler → Option Scheduler → Scheduler
created_or s none = s
created_or s (some s') = s'

abbrev add : ℕ → Option ℕ → Run → Run
add k cpu r =
    with_task (task_of k) (target cpu r.sched)
      (created_or r.sched (scheduler_create_task (task_of k) cpu r.sched)) r

abbrev run0 : Run
run0 = empty_run (λ w k. null_task) 2

-- Worker 0 is given the tasks 1 and 3, worker 1 the task 2.
abbrev run1 : Run
run1 = add 1 none run0

abbrev run2 : Run
run2 = add 2 none run1

abbrev run3 : Run
run3 = add 3 (some 0) run2

run3-Reach : Reach is_signalled 2 run3
unfolding scheduler_init new_worker scheduler_create_task add_task push one_more_task ◌+ℤ◌
run3-Reach =
    let one : Reach is_signalled 2 run1 =
      create run0 (task_of 1) none _ (start (λ w k. null_task)) (omega arith) refl in
    let two : Reach is_signalled 2 run2 = create run1 (task_of 2) none _ one (omega arith) refl in
    create run2 (task_of 3) (some 0) _ two (omega arith) refl

started_test : (after_step 0 run3).started 0 ≡ task_of 1 ∷ []
unfolding scheduler_init new_worker scheduler_create_task add_task push one_more_task ◌+ℤ◌
    worker_step begin_section take_task ◌-ℤ◌
started_test = refl

scheduler_finalize-ends_example :
    let r1 = record run3 { sched = scheduler_finalize run3.sched } in
    let r2 = after_step 0 (run_tasks (length (queue (run3.sched.workers 0))) 0 r1) in
    (r2.started 0 ≡ run3.started 0 ++ queue (run3.sched.workers 0))
    × Repeats (run3.created 0) (r2.started 0) (r2.sched.workers 0).task
    × ((r2.sched.workers 0).here ≡ At.ended)
unfolding scheduler_init new_worker scheduler_create_task add_task push one_more_task ◌+ℤ◌
scheduler_finalize-ends_example =
    scheduler_finalize-ends is_signalled 2 0 run3 run3-Reach (omega arith) refl

-- When a wait may return without a signal, a worker runs the task that it ran last once more.
abbrev run_twice : Run
run_twice = after_step 0 (after_step 0 (after_step 0 (after_step 0 (add 1 (some 0) run0))))

run_twice-Reach : Reach (λ me. true) 2 run_twice
unfolding scheduler_init new_worker scheduler_create_task add_task push one_more_task ◌+ℤ◌
    worker_step begin_section take_task ◌-ℤ◌
run_twice-Reach =
    let one : Reach (λ me. true) 2 (add 1 (some 0) run0) =
      create run0 (task_of 1) (some 0) _ (start (λ w k. null_task)) (omega arith) refl in
    step _ 0
      (step _ 0 (step _ 0 (step _ 0 one (omega arith) (λ e. refl)) (omega arith) (λ e. refl))
        (omega arith) (λ e. refl))
      (omega arith) (λ e. refl)

run_twice_test : run_twice.started 0 ≡ task_of 1 ∷ task_of 1 ∷ []
unfolding scheduler_init new_worker scheduler_create_task add_task push one_more_task ◌+ℤ◌
    worker_step begin_section take_task ◌-ℤ◌
run_twice_test = refl

taken_in_order_example :
    let me = run_twice.sched.workers 0 in
    (taken : List Task) × (run_twice.created 0 ≡ taken ++ queue me)
    × Repeats taken (run_twice.started 0) me.task
    × (me.todo ≡ pos (length (queue me)))
    × (length (queue me) < work_queue)
taken_in_order_example = taken_in_order (λ me. true) 2 0 run_twice run_twice-Reach (omega arith)
