-- ===== src/Life/Scheduler/Order/Taken.antt =====
-- The runs of scheduler.c, also when `pthread_cond_wait` may return without a signal: the order in
-- which a worker takes its tasks.
use my_enseirb_matmeca_proje.Base.{
  ℕ, ◌+◌, ◌%◌, ◌<◌, ◌≡◌, refl, ap, sym, subst, ◌∙◌, Bool, true, false, ◌==◌, inl, inr, List, [],
  ◌++◌, append-nil, length, arith, Bool-cases, Option, none, some,
}
use my_enseirb_matmeca_proje.Base.Int.{pos}
use my_enseirb_matmeca_proje.Life.Scheduler.{
  work_queue, Task, Worker, At, Scheduler, scheduler_init, take_task, begin_section, worker_step,
  no_more_task, scheduler_create_task, one_more_task, one_less_task,
}
use my_enseirb_matmeca_proje.Life.Scheduler.Ring.{waiting, queue, length-contents}
use my_enseirb_matmeca_proje.Life.Scheduler.Order.{
  Run, Reach, start, create, step, stop, begun, after_step, with_task, target,
}
use my_enseirb_matmeca_proje.Life.Scheduler.Order.Served.{moved-IsRing}
use my_enseirb_matmeca_proje.Life.Scheduler.Order.Sound.{IsAdded, add_task-IsAdded}
use my_enseirb_matmeca_proje.Life.Scheduler.Order.Repeats.{
  Repeats, IsHeld, new_worker-IsHeld, push-IsHeld, begin_section-IsHeld, take_task-IsHeld,
  moved-IsHeld,
}

-- What a worker that stands at a place becomes by its step.
stepped : At → Worker → Worker
unfolding begin_section
stepped At.top me = begin_section me
stepped At.asleep me = take_task me
stepped At.running me = record me { here = At.top }
stepped At.ended me = me

stepped-IsHeld :
    (created started : List Task) (at : At) (w : Worker)
    → IsHeld created started w
    → w.here ≡ at
    → IsHeld created (started ++ begun (stepped at w)) (stepped at w)
unfolding stepped
stepped-IsHeld created started At.top w v e = begin_section-IsHeld created started w v (rw e refl)
stepped-IsHeld created started At.asleep w v e = take_task-IsHeld created started w v (rw e refl)
stepped-IsHeld created started At.running w v e =
    moved-IsHeld created started w w.fin At.top v refl (ground (arith, v.flag, e))
stepped-IsHeld created started At.ended w v e =
    let idle : begun w ≡ [] = rw e refl in rw (idle, append-nil started) v

self_step :
    (w : ℕ) (s : Scheduler) → (worker_step w s).workers w ≡ stepped (s.workers w).here (s.workers w)
unfolding worker_step stepped one_less_task
self_step w s = go (s.workers w).here refl
  where
    self : (w == w) ≡ true
    self = ground arith

    go :
        (at : At) → (s.workers w).here ≡ at → (worker_step w s).workers w ≡ stepped at (s.workers w)
    go At.top e = rw (worker_step, e, self) refl
    go At.asleep e = rw (worker_step, e, self) refl
    go At.running e = rw (worker_step, e, self) refl
    go At.ended e = rw (worker_step, e) (ap (λ h. record (s.workers w) { here = h }) e)

other_step :
    (w i : ℕ) (s : Scheduler) → (w == i) ≡ false → (worker_step w s).workers i ≡ s.workers i
unfolding worker_step one_less_task
other_step w i s other = go (s.workers w).here refl
  where
    go : (at : At) → (s.workers w).here ≡ at → (worker_step w s).workers i ≡ s.workers i
    go At.top e = rw (worker_step, e, other) refl
    go At.asleep e = rw (worker_step, e, other) refl
    go At.running e = rw (worker_step, e, other) refl
    go At.ended e = rw (worker_step, e) refl

-- What every worker is in a run.
abbrev Held : ℕ → Run → Type 0
Held n r = (w : ℕ) → w < n → IsHeld (r.created w) (r.started w) (r.sched.workers w)

-- Only worker `w` is concerned.
at_one :
    (n w : ℕ) (r r' : Run)
    → w < n
    → IsHeld (r'.created w) (r'.started w) (r'.sched.workers w)
    → ((i : ℕ)
        → (w == i) ≡ false
        → (r'.created i ≡ r.created i)
          × (r'.started i ≡ r.started i)
          × (r'.sched.workers i ≡ r.sched.workers i))
    → Held n r
    → Held n r'
at_one n w r r' lt here others v i h = elim (Bool-cases (w == i)) [
  | inl e ↦
      let same : w ≡ i = ground arith in
      subst (λ j. IsHeld (r'.created j) (r'.started j) (r'.sched.workers j)) same here
  | inr e ↦ let (c, s, m) = others i e in rw (c, s, m) (v i h)
]

after_step-Held : (n w : ℕ) (r : Run) → w < n → Held n r → Held n (after_step w r)
after_step-Held n w r lt v =
    let self : (w == w) ≡ true = ground arith in
    let me = r.sched.workers w in
    at_one n w r (after_step w r) lt
      (rw (after_step, self, self_step w r.sched)
        (stepped-IsHeld (r.created w) (r.started w) me.here me (v w lt) refl))
      (λ i other. (refl, rw other refl, other_step w i r.sched other)) v

added-Held :
    (n w cyclic : ℕ) (t : Task) (r : Run) (s' : Scheduler)
    → w < n
    → Held n r
    → IsAdded t w (record r.sched { cyclic = cyclic }) s'
    → Held n (with_task t w s' r)
unfolding one_more_task
added-Held n w cyclic t r s' lt v a =
    let self : (w == w) ≡ true = ground arith in
    at_one n w r (with_task t w s' r) lt
      (rw (a.new, self)
        (push-IsHeld (r.created w) (r.started w) t (r.sched.workers w) (v w lt) a.room))
      (λ i other. (rw other refl, refl, rw (a.new, other) refl)) v

create-Held :
    (n : ℕ) (r : Run) (t : Task) (cpu : Option ℕ) (s' : Scheduler)
    → target cpu r.sched < n
    → Held n r
    → scheduler_create_task t cpu r.sched ≡ some s'
    → Held n (with_task t (target cpu r.sched) s' r)
unfolding scheduler_create_task
create-Held n r t none s' lt v e =
    added-Held n r.sched.cyclic ((r.sched.cyclic + 1) % r.sched.nb_workers) t r s' lt v
      (add_task-IsAdded t r.sched.cyclic _ s' e)
create-Held n r t (some cpu) s' lt v e =
    added-Held n cpu r.sched.cyclic t r s' lt v (add_task-IsAdded t cpu _ s' e)

no_more_task-Held :
    (n w : ℕ) (r : Run) → w < n → Held n r → Held n (record r { sched = no_more_task w r.sched })
unfolding no_more_task
no_more_task-Held n w r lt v =
    let self : (w == w) ≡ true = ground arith in
    let h = v w lt in
    at_one n w r (record r { sched = no_more_task w r.sched }) lt
      (rw self record {
        ring = moved-IsRing (r.sched.workers w) _ _ h.ring;
        taken = h.taken;
        order = h.order;
        repeats = h.repeats;
        flag = refl;
      })
      (λ i other. (refl, refl, rw other refl)) v

pub Reach-Held : {wakes : Worker → Bool} (n : ℕ) (r : Run) → Reach wakes n r → Held n r
unfolding scheduler_init
Reach-Held n _ (start cells) = λ w lt. new_worker-IsHeld (cells w)
Reach-Held n _ (create r t cpu s m lt e) = create-Held n r t cpu s lt (Reach-Held n r m) e
Reach-Held n _ (step r w m lt up) = after_step-Held n w r lt (Reach-Held n r m)
Reach-Held n _ (stop r w m lt) = no_more_task-Held n w r lt (Reach-Held n r m)

step_size : (w : ℕ) (s : Scheduler) → (worker_step w s).nb_workers ≡ s.nb_workers
unfolding worker_step one_less_task
step_size w s = go (s.workers w).here refl
  where
    go : (at : At) → (s.workers w).here ≡ at → (worker_step w s).nb_workers ≡ s.nb_workers
    go At.top e = rw (worker_step, e) refl
    go At.asleep e = rw (worker_step, e) refl
    go At.running e = rw (worker_step, e) refl
    go At.ended e = rw (worker_step, e) refl

added_size :
    (w cyclic : ℕ) (t : Task) (s s' : Scheduler)
    → IsAdded t w (record s { cyclic = cyclic }) s'
    → s'.nb_workers ≡ s.nb_workers
unfolding one_more_task
added_size w cyclic t s s' a = ap (λ z. z.nb_workers) a.new

pub Reach-size :
    {wakes : Worker → Bool} (n : ℕ) (r : Run) → Reach wakes n r → r.sched.nb_workers ≡ n
unfolding scheduler_init scheduler_create_task one_more_task no_more_task
Reach-size n _ (start cells) = refl
Reach-size n _ (create r t none s m lt e) =
    added_size r.sched.cyclic ((r.sched.cyclic + 1) % r.sched.nb_workers) t r.sched s
      (add_task-IsAdded t r.sched.cyclic _ s e)
    ∙ Reach-size n r m
Reach-size n _ (create r t (some cpu) s m lt e) =
    added_size cpu r.sched.cyclic t r.sched s (add_task-IsAdded t cpu _ s e) ∙ Reach-size n r m
Reach-size n _ (step r w m lt up) = step_size w r.sched ∙ Reach-size n r m
Reach-size n _ (stop r w m lt) = Reach-size n r m

-- Whatever `n` workers and the threads that create tasks do, in any order, and also when
-- `pthread_cond_wait` returns without a signal: for each worker the tasks that were created for it
-- are, in that order, those that it took from its array and then those that wait there, of which
-- there are as many as its counter says and fewer than 1024. It began each task when it took it, in
-- the same order; what else it began is the task that it began last, once more, or NULL when it had
-- begun none.
pub taken_in_order :
    (wakes : Worker → Bool) (n w : ℕ) (r : Run)
    → Reach wakes n r
    → w < n
    → let me = r.sched.workers w in
      (taken : List Task) × (r.created w ≡ taken ++ queue me)
      × Repeats taken (r.started w) me.task
      × (me.todo ≡ pos (length (queue me)))
      × (length (queue me) < work_queue)
taken_in_order wakes n w r m lt =
    let me = r.sched.workers w in
    let h = Reach-Held n r m w lt in
    let long = length-contents me.tasks me.d (waiting me) in
    (
      h.taken,
      h.order,
      h.repeats,
      h.ring.counted ∙ ap pos (sym long),
      omega (arith, long, h.ring.room),
    )
