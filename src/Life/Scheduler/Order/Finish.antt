-- ===== src/Life/Scheduler/Order/Finish.antt =====
-- `scheduler_finalize` of scheduler.c, and the end of a worker.
use my_enseirb_matmeca_proje.Life.Scheduler.Order.Repeats.{Repeats}
use my_enseirb_matmeca_proje.Life.Scheduler.Order.Taken.{Reach-size, Reach-Held}
use my_enseirb_matmeca_proje.Base.{
  Bool, ℕ, zero, suc, ◌<◌, ◌≤◌, ◌≡◌, refl, ap, ◌∙◌, true, false, ◌==◌, length, append-nil, arith,
  inl, inr, Bool-cases, ◌++◌, subst, sym, [], ◌≢◌,
}
use my_enseirb_matmeca_proje.Base.Int.{pos, negsuc}
use my_enseirb_matmeca_proje.Life.Scheduler.{
  Worker, At, Scheduler, worker_step, begin_section, take_task, no_more_task, stop_all,
  scheduler_finalize,
}
use my_enseirb_matmeca_proje.Life.Scheduler.Ring.{
  queue, waiting, length-contents, empty-waiting, contents,
}
use my_enseirb_matmeca_proje.Life.Scheduler.Order.{Run, Reach, stop, begun, after_step, step}
use my_enseirb_matmeca_proje.Life.Scheduler.Order.Drain.{run_tasks, drain}

abbrev with_sched : Scheduler → Run → Run
with_sched s r = record r { sched = s }

stop_all-Reach :
    {wakes : Worker → Bool} (n k : ℕ) (r : Run)
    → Reach wakes n r
    → k ≤ n
    → Reach wakes n (with_sched (stop_all k r.sched) r)
unfolding stop_all
stop_all-Reach n zero r m h = m
stop_all-Reach n (suc k) r m h =
    stop (with_sched (stop_all k r.sched) r) k (stop_all-Reach n k r m (omega arith)) (omega arith)

stop_all-above : (k w : ℕ) (s : Scheduler) → k ≤ w → (stop_all k s).workers w ≡ s.workers w
unfolding stop_all no_more_task
stop_all-above zero w s h = refl
stop_all-above (suc k) w s h =
    let other : (k == w) ≡ false = ground arith in
    rw (stop_all, no_more_task, other) (stop_all-above k w s (omega arith))

stop_all-below :
    (k w : ℕ) (s : Scheduler)
    → w < k
    → (stop_all k s).workers w ≡ record (s.workers w) { fin = pos 1 }
unfolding stop_all no_more_task
stop_all-below zero w s h = absurd (omega arith)
stop_all-below (suc k) w s h = elim (Bool-cases (k == w)) [
  | inl e ↦
      let same : k ≡ w = ground arith in
      rw (stop_all, no_more_task, e, same, stop_all-above w w s (omega arith)) refl
  | inr other ↦ rw (stop_all, no_more_task, other) (stop_all-below k w s (ground arith))
]

-- A worker that shall end, with nothing to do.
end_step :
    (w : ℕ) (s : Scheduler)
    → (s.workers w).here ≡ At.top
    → ((s.workers w).d == (s.workers w).f) ≡ true
    → (s.workers w).fin ≡ pos 1
    → (worker_step w s).workers w ≡ record (s.workers w) { fin = negsuc 0; here = At.ended }
unfolding worker_step begin_section take_task
end_step w s top empty fin =
    let self : (w == w) ≡ true = ground arith in
    rw (worker_step, begin_section, take_task, top, self, empty, fin) refl

At_distinct : At.top ≢ At.asleep
At_distinct e = absurd cc

ends_from :
    (wakes : Worker → Bool) (k n w : ℕ) (r : Run)
    → Reach wakes n r
    → w < n
    → (r.sched.workers w).here ≡ At.top
    → waiting (r.sched.workers w) ≡ k
    → let r2 = after_step w (run_tasks k w (with_sched (stop_all n r.sched) r)) in
      (r2.started w ≡ r.started w ++ queue (r.sched.workers w))
      × Repeats (r.created w) (r2.started w) (r2.sched.workers w).task
      × ((r2.sched.workers w).here ≡ At.ended)
unfolding contents
ends_from wakes k n w r m lt top e =
    let r1 : Run = with_sched (stop_all n r.sched) r in
    let me = stop_all-below n w r.sched lt in
    let m1 : Reach wakes n r1 = stop_all-Reach n n r m (omega arith) in
    let d = drain wakes k n w r1 m1 lt (ap (λ v. v.here) me ∙ top) (ap (λ v. waiting v) me ∙ e) in
    let r' : Run = run_tasks k w r1 in
    let me' : Worker = r'.sched.workers w in
    let ring = (Reach-Held n r' d.reach w lt).ring in
    let empty : (me'.d == me'.f) ≡ true = ground (arith, empty-waiting me' ring, d.nothing) in
    let last = end_step w r'.sched d.top empty (d.same_fin ∙ ap (λ v. v.fin) me) in
    let ended : ((worker_step w r'.sched).workers w).here ≡ At.ended = ap (λ v. v.here) last in
    let asleep_not : me'.here ≢ At.asleep = λ h. At_distinct (sym d.top ∙ h) in
    let self : (w == w) ≡ true = ground arith in
    let r2 : Run = after_step w r' in
    let held = Reach-Held n r2 (step r' w d.reach lt (λ h. absurd (asleep_not h))) w lt in
    let nothing : queue (r2.sched.workers w) ≡ [] =
      ap queue last ∙ ap (contents me'.tasks me'.d) d.nothing in
    let all : held.taken ≡ r.created w =
      sym (append-nil held.taken)
      ∙ ap (λ q. held.taken ++ q) (sym nothing)
      ∙ sym held.order
      ∙ d.created in
    (
      rw (after_step, self, begun, ended, append-nil (r'.started w))
          (d.all ∙ ap (λ v. r.started w ++ queue v) me),
      subst (λ c. Repeats c (r2.started w) (r2.sched.workers w).task) all held.repeats,
      ended,
    )

-- Also when `pthread_cond_wait` returns without a signal: after `scheduler_finalize` in a state that
-- a run reaches, a worker that stands before its critical section begins every task that waits for
-- it, in order, when it alone goes on, two steps for each, and ends with the next step. It has then
-- begun all the tasks that were created for it, in that order; what else it began is the task
-- that it had begun last, once more, or NULL when it had begun none.
pub scheduler_finalize-ends :
    (wakes : Worker → Bool) (n w : ℕ) (r : Run)
    → Reach wakes n r
    → w < n
    → (r.sched.workers w).here ≡ At.top
    → let r1 = record r { sched = scheduler_finalize r.sched } in
      let r2 = after_step w (run_tasks (length (queue (r.sched.workers w))) w r1) in
      (r2.started w ≡ r.started w ++ queue (r.sched.workers w))
      × Repeats (r.created w) (r2.started w) (r2.sched.workers w).task
      × ((r2.sched.workers w).here ≡ At.ended)
unfolding scheduler_finalize
scheduler_finalize-ends wakes n w r m lt top =
    let me : Worker = r.sched.workers w in
    let stopped : scheduler_finalize r.sched ≡ stop_all n r.sched =
      ap (λ k. stop_all k r.sched) (Reach-size n r m) in
    rw (stopped, length-contents me.tasks me.d (waiting me))
      (ends_from wakes (waiting me) n w r m lt top refl)
