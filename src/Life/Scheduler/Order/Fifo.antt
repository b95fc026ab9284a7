-- ===== src/Life/Scheduler/Order/Fifo.antt =====
-- The runs of scheduler.c against queues: each worker begins its tasks in the order in which they
-- were created.
use my_enseirb_matmeca_proje.Base.{
  ℕ, zero, suc, ◌<◌, ◌≡◌, refl, ap, sym, ◌∙◌, Bool, true, ◌==◌, update, [], ◌++◌, append-nil, arith,
  Bool-cases, inl, inr,
}
use my_enseirb_matmeca_proje.Base.Int.{ℤ, pos, ◌-ℤ◌, pos_dec}
use my_enseirb_matmeca_proje.Base.Sums.{total}
use my_enseirb_matmeca_proje.Life.Scheduler.{
  Worker, At, scheduler_init, worker_step, no_more_task, is_signalled, begin_section, take_task,
  one_less_task,
}
use my_enseirb_matmeca_proje.Life.Scheduler.Order.{
  Run, Reach, OnlySignals, start, create, step, stop, begun, after_step,
}
use my_enseirb_matmeca_proje.Life.Scheduler.Order.Served.{
  begin_section-IsStep, take_task-IsStep, back-IsServed, no_more_task-IsServed, new_worker-IsServed,
  IsServed, load,
}
use my_enseirb_matmeca_proje.Life.Scheduler.Order.Sound.{
  IsSound, at_one-IsServed, changed-total, create-IsSound,
}

-- A step of a worker leaves a sound run.
step_worker-IsSound :
    (n w : ℕ) (r : Run) (me : Worker) (nb_task : ℤ)
    → IsSound n r
    → w < n
    → IsServed (r.created w) (r.started w ++ begun me) me
    → nb_task ≡ pos (total (λ i. load (update r.sched.workers w me i)) n)
    → IsSound n (record r {
      sched = record r.sched { workers = update r.sched.workers w me; nb_task = nb_task };
      started = update r.started w (r.started w ++ begun me);
    })
step_worker-IsSound n w r me nb_task v lt served e =
    let here : (w == w) ≡ true = ground arith in
    record {
      size = v.size;
      turn = v.turn;
      each = at_one-IsServed n w _ _ _ (rw here served) (λ i h other. rw other (v.each i h));
      counted = e;
    }

same_total :
    (n w : ℕ) (r : Run) (me : Worker)
    → IsSound n r
    → w < n
    → load me ≡ load (r.sched.workers w)
    → r.sched.nb_task ≡ pos (total (λ i. load (update r.sched.workers w me i)) n)
same_total n w r me v lt e =
    v.counted ∙ ap pos (omega (arith, e, changed-total n w r.sched.workers me lt))

back_total :
    (n w : ℕ) (r : Run) (me : Worker)
    → IsSound n r
    → w < n
    → load (r.sched.workers w) ≡ suc (load me)
    → r.sched.nb_task -ℤ pos 1 ≡ pos (total (λ i. load (update r.sched.workers w me i)) n)
back_total n w r me v lt e =
    let more : total (λ i. load (r.sched.workers i)) n
        ≡ suc (total (λ i. load (update r.sched.workers w me i)) n) =
      omega (arith, e, changed-total n w r.sched.workers me lt) in
    ap (λ z. z -ℤ pos 1) (v.counted ∙ ap pos more) ∙ pos_dec _

-- A worker that has ended does nothing.
ended-IsSound :
    (n w : ℕ) (r : Run)
    → IsSound n r
    → begun (r.sched.workers w) ≡ []
    → IsSound n
        (record r { started = update r.started w (r.started w ++ begun (r.sched.workers w)) })
ended-IsSound n w r v e =
    rw (e, append-nil (r.started w))
      record {
        size = v.size;
        turn = v.turn;
        each = λ i lt. elim (Bool-cases (w == i)) [
          | inl here ↦ let same : w ≡ i = ground arith in rw (here, same) (v.each i lt)
          | inr other ↦ rw other (v.each i lt)
        ];
        counted = v.counted;
      }

pub step-IsSound :
    (n w : ℕ) (r : Run)
    → IsSound n r
    → w < n
    → ((r.sched.workers w).here ≡ At.asleep → is_signalled (r.sched.workers w) ≡ true)
    → IsSound n (after_step w r)
unfolding worker_step one_less_task
step-IsSound n w r v lt wakes = go (r.sched.workers w).here refl
  where
    self : (w == w) ≡ true
    self = ground arith

    go : (at : At) → (r.sched.workers w).here ≡ at → IsSound n (after_step w r)
    go At.top e =
        let i =
          begin_section-IsStep (r.created w) (r.started w) (r.sched.workers w) (v.each w lt) e in
        rw (after_step, worker_step, e, self)
          (step_worker-IsSound n w r (begin_section (r.sched.workers w)) r.sched.nb_task v lt
            i.served (same_total n w r (begin_section (r.sched.workers w)) v lt i.same))
    go At.asleep e =
        let i =
          take_task-IsStep (r.created w) (r.started w) (r.sched.workers w) (v.each w lt) (rw e refl)
            (rw e refl) (ground (arith, wakes e)) in
        rw (after_step, worker_step, e, self)
          (step_worker-IsSound n w r (take_task (r.sched.workers w)) r.sched.nb_task v lt i.served
            (same_total n w r (take_task (r.sched.workers w)) v lt i.same))
    go At.running e =
        let (served, less) =
          back-IsServed (r.created w) (r.started w) (r.sched.workers w) (v.each w lt) e in
        rw (after_step, worker_step, e, self)
          (step_worker-IsSound n w r (record (r.sched.workers w) { here = At.top })
            (r.sched.nb_task -ℤ pos 1) v lt served
            (back_total n w r (record (r.sched.workers w) { here = At.top }) v lt less))
    go At.ended e = rw (after_step, worker_step, e) (ended-IsSound n w r v (rw e refl))

pub stop-IsSound :
    (n w : ℕ) (r : Run)
    → IsSound n r
    → w < n
    → IsSound n (record r { sched = no_more_task w r.sched })
unfolding no_more_task
stop-IsSound n w r v lt =
    let me : Worker = record (r.sched.workers w) { fin = pos 1 } in
    let self : (w == w) ≡ true = ground arith in
    let (served, same) =
      no_more_task-IsServed (r.created w) (r.started w) (r.sched.workers w) (v.each w lt) in
    record {
      size = v.size;
      turn = v.turn;
      each = at_one-IsServed n w _ _ _ (rw self served) (λ i h other. rw other (v.each i h));
      counted = same_total n w r me v lt same;
    }

total-zero : (w : ℕ → ℕ) (n : ℕ) → ((i : ℕ) → i < n → w i ≡ 0) → total w n ≡ 0
unfolding total
total-zero w zero h = refl
total-zero w (suc n) h =
    omega (arith, total-zero w n (λ i lt. h i (omega arith)), h n (omega arith))

pub Reach-IsSound :
    {wakes : Worker → Bool} → OnlySignals wakes → (n : ℕ) (r : Run) → Reach wakes n r → IsSound n r
unfolding scheduler_init
Reach-IsSound only n _ (start cells) = record {
  size = refl;
  turn = λ lt. lt;
  each = λ w lt. (new_worker-IsServed (cells w)).0;
  counted = ap pos (sym (total-zero _ n (λ w lt. (new_worker-IsServed (cells w)).1)));
}
Reach-IsSound only n _ (create r t cpu s m lt e) =
    create-IsSound n r t cpu s (Reach-IsSound only n r m) lt e
Reach-IsSound only n _ (step r w m lt up) =
    step-IsSound n w r (Reach-IsSound only n r m) lt (λ e. only (r.sched.workers w) (up e))
Reach-IsSound only n _ (stop r w m lt) = stop-IsSound n w r (Reach-IsSound only n r m) lt
