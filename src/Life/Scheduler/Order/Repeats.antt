-- ===== src/Life/Scheduler/Order/Repeats.antt =====
-- The runs of scheduler.c when `pthread_cond_wait` may return without a signal: a worker then runs the
-- task that it ran last once more.
use my_enseirb_matmeca_proje.Base.{
  ℕ, ◌≡◌, refl, ap, sym, ◌∙◌, true, false, ◌&&◌, ◌||◌, ◌==◌, inl, inr, List, [], ◌∷◌, ◌++◌,
  append_assoc, append-nil, arith, Bool-cases,
}
use my_enseirb_matmeca_proje.Base.Int.{ℤ, pos, eqb_ℤ, ltb_ℤ}
use my_enseirb_matmeca_proje.Life.Scheduler.{
  work_queue, null_task, Task, Worker, At, new_worker, push, take_task, begin_section,
}
use my_enseirb_matmeca_proje.Life.Scheduler.Ring.{
  IsRing, contents, queue, push-IsRing, take_task-IsRing,
}
use my_enseirb_matmeca_proje.Life.Scheduler.Order.{begun}
use my_enseirb_matmeca_proje.Life.Scheduler.Order.Served.{has_ended, moved-IsRing}

-- The tasks that a worker took from its array, those that it began to run, and the last of these,
-- at first NULL: a task is run when it is taken, and perhaps again before the next one is.
pub data Repeats : List Task → List Task → Task → Type 0 where
  nothing : Repeats [] [] null_task
  takes :
      {taken started : List Task} {last : Task} (t : Task)
      → Repeats taken started last
      → Repeats (taken ++ (t ∷ [])) (started ++ (t ∷ [])) t
  again :
      {taken started : List Task} {last : Task}
      → Repeats taken started last
      → Repeats taken (started ++ (last ∷ [])) last

pub record IsHeld (created started : List Task) (w : Worker) : Type 0 where
  pub ring : IsRing w
  pub taken : List Task
  pub order : created ≡ taken ++ queue w
  pub repeats : Repeats taken started w.task
  pub flag : eqb_ℤ w.fin (pos 0) || eqb_ℤ w.fin (pos 1) || has_ended w ≡ true

pub new_worker-IsHeld : (cells : ℕ → Task) → IsHeld [] [] (new_worker cells)
unfolding new_worker contents
new_worker-IsHeld cells = record {
  ring = record { counted = refl; inside = omega arith; room = omega arith; end = refl };
  taken = [];
  order = refl;
  repeats = nothing;
  flag = refl;
}

pub push-IsHeld :
    (created started : List Task) (t : Task) (w : Worker)
    → IsHeld created started w
    → ltb_ℤ (push t w).todo (pos work_queue) ≡ true
    → IsHeld (created ++ (t ∷ [])) started (push t w)
unfolding push
push-IsHeld created started t w v h =
    let (ring, more, last) = push-IsRing t w v.ring h in
    record {
      ring = ring;
      taken = v.taken;
      order = rw (v.order, last) (append_assoc v.taken (queue w) (t ∷ []));
      repeats = v.repeats;
      flag = v.flag;
    }

-- The worker goes to another place, and begins no task.
pub moved-IsHeld :
    (created started : List Task) (w : Worker) (fin : ℤ) (here : At)
    → IsHeld created started w
    → let w' = record w { fin = fin; here = here } in
      begun w' ≡ []
      → eqb_ℤ fin (pos 0) || eqb_ℤ fin (pos 1) || has_ended w' ≡ true
      → IsHeld created (started ++ begun w') w'
moved-IsHeld created started w fin here v idle flag = record {
  ring = moved-IsRing w fin here v.ring;
  taken = v.taken;
  order = v.order;
  repeats = rw (idle, append-nil started) v.repeats;
  flag = flag;
}

pub take_task-IsHeld :
    (created started : List Task) (w : Worker)
    → IsHeld created started w
    → has_ended w ≡ false
    → IsHeld created (started ++ begun (take_task w)) (take_task w)
unfolding take_task
take_task-IsHeld created started w v on = elim (Bool-cases (w.d == w.f)) [
  | inr there ↦
      let w' : Worker = take_task w in
      let t = take_task-IsRing w v.ring there in
      record {
        ring = t.ring;
        taken = v.taken ++ (w'.task ∷ []);
        order =
            v.order
            ∙ ap (λ q. v.taken ++ q) t.first
            ∙ sym (append_assoc v.taken (w'.task ∷ []) (queue w'));
        repeats = rw (t.runs, begun) (takes w'.task v.repeats);
        flag = ground (arith, v.flag, on, t.same_fin);
      }
  | inl empty ↦ elim (Bool-cases (eqb_ℤ w.fin (pos 1))) [
    | inl one ↦ rw (take_task, empty, one) (moved-IsHeld created started w _ _ v refl refl)
    | inr other ↦
        rw (take_task, empty, other)
          record {
            ring = moved-IsRing w _ _ v.ring;
            taken = v.taken;
            order = v.order;
            repeats = again v.repeats;
            flag = ground (arith, v.flag, on, other);
          }
  ]
]

pub begin_section-IsHeld :
    (created started : List Task) (w : Worker)
    → IsHeld created started w
    → has_ended w ≡ false
    → IsHeld created (started ++ begun (begin_section w)) (begin_section w)
unfolding begin_section
begin_section-IsHeld created started w v on =
    elim (Bool-cases (w.d == w.f && eqb_ℤ w.fin (pos 0))) [
      | inr go ↦ rw go (take_task-IsHeld created started w v on)
      | inl sleep ↦ rw sleep (moved-IsHeld created started w _ _ v refl (ground (arith, sleep)))
    ]
