-- ===== src/Life/Scheduler/Order/Served.antt =====
-- One worker of scheduler.c: its queue against the tasks it was given and those it has begun.
use my_enseirb_matmeca_proje.Base.{
  ℕ, suc, ◌+◌, ◌≡◌, ◌≢◌, inl, inr, refl, ap, sym, ◌∙◌, Bool, true, false, ◌&&◌, ◌||◌, ◌==◌, List,
  [], ◌∷◌, ◌++◌, append_assoc, append-nil, arith, Bool-cases,
}
use my_enseirb_matmeca_proje.Base.Int.{ℤ, pos, eqb_ℤ, ltb_ℤ}
use my_enseirb_matmeca_proje.Life.Scheduler.{
  work_queue, Task, Worker, At, new_worker, push, take_task, begin_section,
}
use my_enseirb_matmeca_proje.Life.Scheduler.Ring.{
  IsRing, IsTaken, contents, waiting, queue, push-IsRing, take_task-IsRing,
}
use my_enseirb_matmeca_proje.Life.Scheduler.Order.{begun}

abbrev pub has_ended : Worker → Bool
has_ended w = elim w.here [ At.ended ↦ true | _ ↦ false ]

abbrev busy_at : At → ℕ
busy_at here = elim here [ At.running ↦ 1 | _ ↦ 0 ]

abbrev busy : Worker → ℕ
busy w = busy_at w.here

-- The tasks of a worker that count: those that wait, and the one that it runs.
abbrev pub load : Worker → ℕ
load w = waiting w + busy w

-- A worker that is served: its queue is a ring, what it was given is what it has begun and then
-- what waits, and it knows whether it shall end.
pub record IsServed (created started : List Task) (w : Worker) : Type 0 where
  pub ring : IsRing w
  pub order : created ≡ started ++ queue w
  pub flag : eqb_ℤ w.fin (pos 0) || eqb_ℤ w.fin (pos 1) || has_ended w ≡ true

pub new_worker-IsServed :
    (cells : ℕ → Task) → IsServed [] [] (new_worker cells) × (load (new_worker cells) ≡ 0)
unfolding new_worker contents
new_worker-IsServed cells = (
  record {
    ring = record { counted = refl; inside = omega arith; room = omega arith; end = refl };
    order = refl;
    flag = refl;
  },
  refl,
)

pub push-IsServed :
    (created started : List Task) (t : Task) (w : Worker)
    → IsServed created started w
    → ltb_ℤ (push t w).todo (pos work_queue) ≡ true
    → IsServed (created ++ (t ∷ [])) started (push t w) × (load (push t w) ≡ load w + 1)
unfolding push
push-IsServed created started t w v h =
    let (ring, more, last) = push-IsRing t w v.ring h in
    (
      record {
        ring = ring;
        order = rw (v.order, last) (append_assoc started (queue w) (t ∷ []));
        flag = v.flag;
      },
      omega (arith, more),
    )

-- A step of a worker: what it has begun by it is at the end of what it has begun.
pub record IsStep (created started : List Task) (w w' : Worker) : Type 0 where
  pub served : IsServed created (started ++ begun w') w'
  pub same : load w' ≡ load w

taken-IsStep :
    (created started : List Task) (w w' : Worker)
    → IsServed created started w
    → busy w ≡ 0
    → has_ended w ≡ false
    → IsTaken w w'
    → IsStep created started w w'
taken-IsStep created started w w' v idle on t = record {
  served = record {
    ring = t.ring;
    order =
        rw (t.runs, begun)
          (v.order
            ∙ ap (λ q. started ++ q) t.first
            ∙ sym (append_assoc started (w'.task ∷ []) (queue w')));
    flag = ground (arith, v.flag, on, t.same_fin);
  };
  same = rw t.runs (omega (arith, t.less, idle));
}

pub moved-IsRing :
    (w : Worker) (fin : ℤ) (here : At) → IsRing w → IsRing (record w { fin = fin; here = here })
moved-IsRing w fin here r = record {
  counted = r.counted;
  inside = r.inside;
  room = r.room;
  end = r.end;
}

nothing-IsServed :
    (created started : List Task) (w w' : Worker)
    → IsServed created started w
    → begun w' ≡ []
    → IsRing w'
    → queue w' ≡ queue w
    → eqb_ℤ w'.fin (pos 0) || eqb_ℤ w'.fin (pos 1) || has_ended w' ≡ true
    → IsServed created (started ++ begun w') w'
nothing-IsServed created started w w' v none ring q flag = record {
  ring = ring;
  order = rw (none, append-nil started, q) v.order;
  flag = flag;
}

-- A worker that does not run a task takes one, or ends.
pub take_task-IsStep :
    (created started : List Task) (w : Worker)
    → IsServed created started w
    → busy w ≡ 0
    → has_ended w ≡ false
    → (w.d == w.f && eqb_ℤ w.fin (pos 0)) ≡ false
    → IsStep created started w (take_task w)
unfolding take_task
take_task-IsStep created started w v idle on h = elim (Bool-cases (w.d == w.f)) [
  | inr there ↦
      taken-IsStep created started w (take_task w) v idle on (take_task-IsRing w v.ring there)
  | inl empty ↦
      let one : eqb_ℤ w.fin (pos 1) ≡ true = ground (arith, v.flag, on, h, empty) in
      rw (empty, one)
        record {
          served =
              nothing-IsServed created started w _ v refl (moved-IsRing w _ _ v.ring) refl refl;
          same = omega (arith, idle);
        }
]

-- The section from its beginning.
pub begin_section-IsStep :
    (created started : List Task) (w : Worker)
    → IsServed created started w
    → w.here ≡ At.top
    → IsStep created started w (begin_section w)
unfolding begin_section
begin_section-IsStep created started w v e = elim (Bool-cases (w.d == w.f && eqb_ℤ w.fin (pos 0))) [
  | inr go ↦ rw go (take_task-IsStep created started w v (rw e refl) (rw e refl) go)
  | inl sleep ↦ rw sleep record {
    served =
        nothing-IsServed created started w _ v refl (moved-IsRing w _ _ v.ring) refl
          (ground (arith, sleep));
    same = rw e refl;
  }
]

-- The end of a task.
pub back-IsServed :
    (created started : List Task) (w : Worker)
    → IsServed created started w
    → w.here ≡ At.running
    → let w' = record w { here = At.top } in
      IsServed created (started ++ begun w') w' × (load w ≡ suc (load w'))
back-IsServed created started w v e = (
  nothing-IsServed created started w _ v refl (moved-IsRing w _ _ v.ring) refl
      (ground (arith, v.flag, e)),
  rw e (omega arith),
)

pub no_more_task-IsServed :
    (created started : List Task) (w : Worker)
    → IsServed created started w
    → let w' = record w { fin = pos 1 } in IsServed created started w' × (load w' ≡ load w)
no_more_task-IsServed created started w v =
    (record { ring = moved-IsRing w _ _ v.ring; order = v.order; flag = refl }, refl)

-- Nothing waits and nothing runs.
pub idle_lem :
    (created started : List Task) (w : Worker)
    → IsServed created started w
    → load w ≡ 0
    → (created ≡ started) × (w.here ≢ At.running)
unfolding contents
idle_lem created started w v e =
    let none : waiting w ≡ 0 = omega (arith, e) in
    (
      v.order ∙ ap (λ n. started ++ contents w.tasks w.d n) none ∙ append-nil started,
      λ h. absurd (ground (arith, ap busy_at h)),
    )
