-- ===== src/Life/Scheduler/Order/Drain.antt =====
-- The steps of one worker of scheduler.c until its queue is empty.
use my_enseirb_matmeca_proje.Base.{
  Bool, ℕ, zero, suc, ◌<◌, ◌≡◌, refl, ap, sym, ◌∙◌, true, false, ◌==◌, [], ◌∷◌, ◌++◌, append-nil,
  append_assoc, arith,
}
use my_enseirb_matmeca_proje.Life.Scheduler.{
  Worker, Scheduler, take_task, At, worker_step, begin_section,
}
use my_enseirb_matmeca_proje.Life.Scheduler.Ring.{
  queue, contents, waiting, take_task-IsRing, empty-waiting,
}
use my_enseirb_matmeca_proje.Life.Scheduler.Order.{Run, Reach, step, begun, after_step}
use my_enseirb_matmeca_proje.Life.Scheduler.Order.Taken.{Reach-Held}

-- `n` tasks are run by worker `w`, with no other step between.
unfoldable pub run_tasks : ℕ → ℕ → Run → Run
run_tasks zero w r = r
run_tasks (suc n) w r = run_tasks n w (after_step w (after_step w r))

step_taken :
    (w : ℕ) (s : Scheduler)
    → (s.workers w).here ≡ At.top
    → ((s.workers w).d == (s.workers w).f) ≡ false
    → (worker_step w s).workers w ≡ take_task (s.workers w)
unfolding worker_step begin_section take_task
step_taken w s top there =
    let self : (w == w) ≡ true = ground arith in
    rw (worker_step, begin_section, take_task, top, self, there) refl

step_back :
    (w : ℕ) (s : Scheduler)
    → (s.workers w).here ≡ At.running
    → (worker_step w s).workers w ≡ record (s.workers w) { here = At.top }
unfolding worker_step
step_back w s runs = let self : (w == w) ≡ true = ground arith in rw (worker_step, runs, self) refl

begun_running : (w : Worker) → w.here ≡ At.running → begun w ≡ w.task ∷ []
begun_running w e = rw (e, begun) refl

module _ (wakes : Worker → Bool) where
  -- A task is run, the first of the queue, and the worker is at its loop's beginning again.
  record IsRunOff (n w : ℕ) (r r' : Run) : Type 0 where
    reach : Reach wakes n r'
    top : (r'.sched.workers w).here ≡ At.top
    less : suc (waiting (r'.sched.workers w)) ≡ waiting (r.sched.workers w)
    same_fin : (r'.sched.workers w).fin ≡ (r.sched.workers w).fin
    order : r'.started w ++ queue (r'.sched.workers w) ≡ r.started w ++ queue (r.sched.workers w)

  one_task :
      (n w : ℕ) (r : Run)
      → Reach wakes n r
      → w < n
      → (r.sched.workers w).here ≡ At.top
      → 0 < waiting (r.sched.workers w)
      → IsRunOff n w r (after_step w (after_step w r))
  one_task n w r m lt top more =
      let me = r.sched.workers w in
      let ring = (Reach-Held n r m w lt).ring in
      let there : (me.d == me.f) ≡ false = ground (arith, empty-waiting me ring) in
      let t = take_task-IsRing me ring there in
      let self : (w == w) ≡ true = ground arith in
      let one = step_taken w r.sched top there in
      let runs : ((worker_step w r.sched).workers w).here ≡ At.running =
        ap (λ v. v.here) one ∙ t.runs in
      let two = step_back w (worker_step w r.sched) runs in
      let taken : Worker = take_task me in
      let back : (worker_step w (worker_step w r.sched)).workers w
          ≡ record taken { here = At.top } =
        two ∙ ap {B = Worker} (λ v. record v { here = At.top }) one in
      let first : begun ((worker_step w r.sched).workers w) ≡ taken.task ∷ [] =
        ap begun one ∙ begun_running taken t.runs in
      let second : begun ((worker_step w (worker_step w r.sched)).workers w) ≡ [] = ap begun back in
      let left : queue ((worker_step w (worker_step w r.sched)).workers w) ≡ queue taken =
        ap queue back in
      record {
        reach = step _ w (step r w m lt (λ e. absurd cc)) lt (λ e. absurd cc);
        top = ap (λ v. v.here) two;
        less = ap (λ v. suc (waiting v)) two ∙ ap (λ v. suc (waiting v)) one ∙ sym t.less;
        same_fin = ap (λ v. v.fin) two ∙ ap (λ v. v.fin) one ∙ t.same_fin;
        order =
            rw (after_step, self, first, second, left)
              (ap (λ q. q ++ queue taken) (append-nil (r.started w ++ (taken.task ∷ [])))
                ∙ append_assoc (r.started w) (taken.task ∷ []) (queue taken)
                ∙ ap (λ q. r.started w ++ q) (sym t.first));
      }

  -- What worker `w` is after its tasks were run.
  pub record IsDrained (n w : ℕ) (r r' : Run) : Type 0 where
    pub reach : Reach wakes n r'
    pub all : r'.started w ≡ r.started w ++ queue (r.sched.workers w)
    pub top : (r'.sched.workers w).here ≡ At.top
    pub nothing : waiting (r'.sched.workers w) ≡ 0
    pub same_fin : (r'.sched.workers w).fin ≡ (r.sched.workers w).fin
    pub created : r'.created w ≡ r.created w

  -- All the tasks that wait are run.
  pub drain :
      (k n w : ℕ) (r : Run)
      → Reach wakes n r
      → w < n
      → (r.sched.workers w).here ≡ At.top
      → waiting (r.sched.workers w) ≡ k
      → IsDrained n w r (run_tasks k w r)
  unfolding run_tasks contents
  drain zero n w r m lt top e = record {
    reach = m;
    all = sym (
        ap (λ k. r.started w ++ contents (r.sched.workers w).tasks (r.sched.workers w).d k) e
        ∙ append-nil (r.started w));
    top = top;
    nothing = e;
    same_fin = refl;
    created = refl;
  }
  drain (suc k) n w r m lt top e =
      let one = one_task n w r m lt top (omega (arith, e)) in
      let next =
        drain k n w (after_step w (after_step w r)) one.reach lt one.top
          (omega (arith, one.less, e)) in
      record {
        reach = next.reach;
        all = next.all ∙ one.order;
        top = next.top;
        nothing = next.nothing;
        same_fin = next.same_fin ∙ one.same_fin;
        created = next.created;
      }
