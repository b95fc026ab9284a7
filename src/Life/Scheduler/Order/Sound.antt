-- ===== src/Life/Scheduler/Order/Sound.antt =====
-- What holds in every run of scheduler.c, and the creation of a task.
use my_enseirb_matmeca_proje.Base.{
  ℕ, ◌+◌, ◌%◌, ◌<◌, ◌≡◌, ap, subst, ◌∙◌, true, false, ◌==◌, update, List, Option, none, some, arith,
  Bool-cases, if_some, inl, inr,
}
use my_enseirb_matmeca_proje.Base.Int.{pos, ltb_ℤ, ◌+ℤ◌, pos_inc}
use my_enseirb_matmeca_proje.Base.Sums.{total, total-ext, total-update}
use my_enseirb_matmeca_proje.Life.Scheduler.{
  work_queue, Task, Worker, Scheduler, scheduler_create_task, add_task, push, one_more_task,
}
use my_enseirb_matmeca_proje.Life.Scheduler.Order.{Run, target, with_task}
use my_enseirb_matmeca_proje.Life.Scheduler.Order.Served.{push-IsServed, IsServed, load}

pub record IsSound (n : ℕ) (r : Run) : Type 0 where
  pub size : r.sched.nb_workers ≡ n
  pub turn : 0 < n → r.sched.cyclic < n
  pub each : (w : ℕ) → w < n → IsServed (r.created w) (r.started w) (r.sched.workers w)
  pub counted : r.sched.nb_task ≡ pos (total (λ w. load (r.sched.workers w)) n)

pub at_one-IsServed :
    (n w : ℕ) (created started : ℕ → List Task) (workers : ℕ → Worker)
    → IsServed (created w) (started w) (workers w)
    → ((i : ℕ) → i < n → (w == i) ≡ false → IsServed (created i) (started i) (workers i))
    → (i : ℕ) → i < n
    → IsServed (created i) (started i) (workers i)
at_one-IsServed n w created started workers here others i lt = elim (Bool-cases (w == i)) [
  | inl e ↦
      let same : w ≡ i = ground arith in
      subst (λ j. IsServed (created j) (started j) (workers j)) same here
  | inr e ↦ others i lt e
]

pub changed-total :
    (n w : ℕ) (workers : ℕ → Worker) (me : Worker)
    → w < n
    → total (λ i. load (update workers w me i)) n + load (workers w)
      ≡ total (λ i. load (workers i)) n + load me
changed-total n w workers me lt =
    let same : total (λ i. load (update workers w me i)) n
        ≡ total (update (λ i. load (workers i)) w (load me)) n =
      total-ext _ _ n (λ i h. ground arith) in
    omega (arith, same, total-update (λ i. load (workers i)) n w (load me) lt)

-- `add_task` succeeds: there was room.
pub record IsAdded (t : Task) (w : ℕ) (s s' : Scheduler) : Type 0 where
  pub room : ltb_ℤ (push t (s.workers w)).todo (pos work_queue) ≡ true
  pub new : s' ≡ record (one_more_task s) { workers = update s.workers w (push t (s.workers w)) }

pub add_task-IsAdded :
    (t : Task) (w : ℕ) (s s' : Scheduler) → add_task t w s ≡ some s' → IsAdded t w s s'
unfolding add_task
add_task-IsAdded t w s s' e =
    let (room, new) = if_some (ltb_ℤ (push t (s.workers w)).todo (pos work_queue)) _ s' e in
    record { room = room; new = new }

add_task-IsSound :
    (n w cyclic : ℕ) (t : Task) (r : Run) (s' : Scheduler)
    → IsSound n r
    → w < n
    → (0 < n → cyclic < n)
    → IsAdded t w (record r.sched { cyclic = cyclic }) s'
    → IsSound n (with_task t w s' r)
unfolding one_more_task
add_task-IsSound n w cyclic t r s' v lt turn a =
    let here : (w == w) ≡ true = ground arith in
    let (served, more) =
      push-IsServed (r.created w) (r.started w) t (r.sched.workers w) (v.each w lt) a.room in
    rw (a.new) record {
      size = v.size;
      turn = turn;
      each = at_one-IsServed n w _ _ _ (rw here served) (λ i h other. rw other (v.each i h));
      counted =
          ap (λ z. z +ℤ pos 1) v.counted
          ∙ pos_inc _
          ∙ ap pos (
              omega
                (arith, more, changed-total n w r.sched.workers (push t (r.sched.workers w)) lt));
    }

pub create-IsSound :
    (n : ℕ) (r : Run) (t : Task) (cpu : Option ℕ) (s' : Scheduler)
    → IsSound n r
    → target cpu r.sched < n
    → scheduler_create_task t cpu r.sched ≡ some s'
    → IsSound n (with_task t (target cpu r.sched) s' r)
unfolding scheduler_create_task
create-IsSound n r t none s' v lt e =
    add_task-IsSound n r.sched.cyclic ((r.sched.cyclic + 1) % r.sched.nb_workers) t r s' v lt
      (λ h. rw (v.size) (omega arith)) (add_task-IsAdded t r.sched.cyclic _ s' e)
create-IsSound n r t (some cpu) s' v lt e =
    add_task-IsSound n cpu r.sched.cyclic t r s' v lt v.turn (add_task-IsAdded t cpu _ s' e)
