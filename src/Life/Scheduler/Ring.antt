-- ===== src/Life/Scheduler/Ring.antt =====
-- The array `tasks` of a worker of scheduler.c as a queue.
use my_enseirb_matmeca_proje.Base.{
  ℕ, zero, suc, ◌+◌, ◌-◌, ◌%◌, ◌≤◌, ◌<◌, ◌≡◌, refl, ap, ◌∙◌, true, false, ◌==◌, update, List, [],
  ◌∷◌, ◌++◌, length, length-append, arith,
}
use my_enseirb_matmeca_proje.Base.Int.{pos, pos_part, ltb_ℤ, ◌+ℤ◌, ◌-ℤ◌, pos_inc, pos_dec}
use my_enseirb_matmeca_proje.Life.Scheduler.{work_queue, Task, Worker, At, push, take_task}

-- The `n` tasks from index `d` on.
unfoldable pub contents : (ℕ → Task) → ℕ → ℕ → List Task
contents tasks d zero = []
contents tasks d (suc n) = contents tasks d n ++ (tasks ((d + n) % work_queue) ∷ [])

pub length-contents : (tasks : ℕ → Task) (d n : ℕ) → length (contents tasks d n) ≡ n
unfolding contents
length-contents tasks d zero = refl
length-contents tasks d (suc n) = omega (
  arith,
  length-contents tasks d n,
  length-append (contents tasks d n) (tasks ((d + n) % work_queue) ∷ []),
)

contents-update :
    (tasks : ℕ → Task) (t : Task) (d n m : ℕ)
    → m ≤ n
    → n < work_queue
    → contents (update tasks ((d + n) % work_queue) t) d m ≡ contents tasks d m
unfolding contents
contents-update tasks t d n zero h k = refl
contents-update tasks t d n (suc m) h k =
    let other : ((d + n) % work_queue == (d + m) % work_queue) ≡ false = ground arith in
    rw (other, contents-update tasks t d n m (omega arith) k) refl

-- What is pushed comes last.
pub contents-push :
    (tasks : ℕ → Task) (t : Task) (d n : ℕ)
    → n < work_queue
    → contents (update tasks ((d + n) % work_queue) t) d (suc n) ≡ contents tasks d n ++ (t ∷ [])
unfolding contents
contents-push tasks t d n h =
    let here : ((d + n) % work_queue == (d + n) % work_queue) ≡ true = ground arith in
    rw (here, contents-update tasks t d n n (omega arith) h) refl

-- What is taken comes first.
pub contents-take :
    (tasks : ℕ → Task) (d n : ℕ)
    → d < work_queue
    → contents tasks d (suc n) ≡ tasks d ∷ contents tasks ((d + 1) % work_queue) n
unfolding contents
contents-take tasks d zero h = let e : (d + 0) % work_queue ≡ d = omega arith in rw e refl
contents-take tasks d (suc n) h =
    let e : (d + suc n) % work_queue ≡ ((d + 1) % work_queue + n) % work_queue = omega arith in
    rw (contents-take tasks d n h, e) refl

-- The queue of a worker: how many tasks wait in it is `waiting`.
abbrev pub waiting : Worker → ℕ
waiting w = pos_part w.todo

pub record IsRing (w : Worker) : Type 0 where
  pub counted : w.todo ≡ pos (waiting w)
  pub inside : w.d < work_queue
  pub room : waiting w < work_queue
  pub end : w.f ≡ (w.d + waiting w) % work_queue

abbrev pub queue : Worker → List Task
queue w = contents w.tasks w.d (waiting w)

pub empty-waiting : (w : Worker) → IsRing w → (w.d == w.f) ≡ (waiting w == 0)
empty-waiting w r = ground (arith, r.inside, r.room, r.end)

pub push-IsRing :
    (t : Task) (w : Worker)
    → IsRing w
    → ltb_ℤ (push t w).todo (pos work_queue) ≡ true
    → IsRing (push t w)
      × (waiting (push t w) ≡ suc (waiting w))
      × (queue (push t w) ≡ queue w ++ (t ∷ []))
unfolding push
push-IsRing t w r h =
    let up : w.todo +ℤ pos 1 ≡ pos (suc (waiting w)) =
      ap (λ z. z +ℤ pos 1) r.counted ∙ pos_inc (waiting w) in
    (
      record {
        counted = rw up refl;
        inside = r.inside;
        room = rw up (ground (arith, up));
        end = rw (up, r.end) (omega arith);
      },
      rw up refl,
      rw (up, r.end) (contents-push w.tasks t w.d (waiting w) r.room),
    )

-- What a worker that takes a task has become.
pub record IsTaken (w w' : Worker) : Type 0 where
  pub ring : IsRing w'
  pub less : waiting w ≡ suc (waiting w')
  pub first : queue w ≡ w'.task ∷ queue w'
  pub runs : w'.here ≡ At.running
  pub same_fin : w'.fin ≡ w.fin

take_some :
    (w : Worker) (m : ℕ)
    → IsRing w
    → (w.d == w.f) ≡ false
    → waiting w ≡ suc m
    → IsTaken w (take_task w)
unfolding take_task
take_some w m r h e =
    let down : w.todo -ℤ pos 1 ≡ pos m = ap (λ z. z -ℤ pos 1) (r.counted ∙ ap pos e) ∙ pos_dec m in
    rw h record {
      ring = record {
        counted = rw down refl;
        inside = omega arith;
        room = rw down (omega (arith, r.room));
        end = rw down (omega (arith, r.end, e));
      };
      less = rw down e;
      first = rw down (ap (contents w.tasks w.d) e ∙ contents-take w.tasks w.d m r.inside);
      runs = refl;
      same_fin = refl;
    }

-- A task is there: the first of the queue is taken.
pub take_task-IsRing : (w : Worker) → IsRing w → (w.d == w.f) ≡ false → IsTaken w (take_task w)
take_task-IsRing w r h = take_some w (waiting w - 1) r h (ground (arith, empty-waiting w r))
