-- ===== src/Thread/System/Steps.antt =====
-- The invariant of a program, step by step.
use my_enseirb_matmeca_proje.Base.{
  update, ℕ, ◌<◌, ◌≡◌, refl, ap, inl, inr, Bool, true, false, Option, none, some, List, [], ◌∷◌,
  arith, Bool-cases, ◌==◌, count,
}
use my_enseirb_matmeca_proje.Thread.{
  Runtime, first, thread_yield, Joined, returns, waits, thread_join, leave, thread_exit,
}
use my_enseirb_matmeca_proje.Thread.Invariant.{IsValid, thread_exit-IsValid}
use my_enseirb_matmeca_proje.Thread.System.{
  System, Pc, user, joining, locking, Call, create, give_way, join, exit_with, mutex_init, lock,
  unlock, thread_mutex_init, thread_mutex_lock, thread_mutex_unlock, join_round, serve, go_on, turn,
  step, Allowed, Current, Reach, here, next,
}
use my_enseirb_matmeca_proje.Thread.System.Invariant.{
  Keeps, thread_create-Keeps, thread_yield-Keeps, thread_join-Keeps, Inv, IsStart, start-Inv,
}

-- What the loop of `thread_join` needs of the thread that it waits for.
abbrev Fits : Pc → Runtime → Type 0
Fits (joining th w) s = th < s.next
Fits user s = Unit
Fits (locking m) s = Unit

module _ (σ : System) (inv : Inv σ) where
  runtime-Inv : {s : Runtime} → Keeps σ.runtime s → Inv (record σ { runtime = s })
  runtime-Inv {s} k = record {
    valid = k.valid;
    closed = inv.closed;
    alone = inv.alone;
    recorded = λ t lt. ground (arith, k.retval t, inv.recorded t, ap (count t) k.finished);
    targets = λ t th w e. ground (arith, inv.targets t th w e, k.grows);
  }

  pc-Inv : (t : ℕ) (p : Pc) → Fits p σ.runtime → Inv (record σ { pc = update σ.pc t p })
  pc-Inv t user f = record {
    valid = inv.valid;
    closed = inv.closed;
    alone = inv.alone;
    recorded = inv.recorded;
    targets = λ u th w e. ground (arith, inv.targets u th w);
  }
  pc-Inv t p f = record {
    valid = inv.valid;
    closed = inv.closed;
    alone = inv.alone;
    recorded = inv.recorded;
    targets = λ u th w e. ground (arith, inv.targets u th w);
  }

  thread_mutex_init-Inv : (m : ℕ) → ((u : ℕ) → σ.inside u m ≡ false) → Inv (thread_mutex_init m σ)
  unfolding thread_mutex_init
  thread_mutex_init-Inv m none_in = record {
    valid = inv.valid;
    closed = λ t n e. ground (arith, inv.closed t n, none_in t);
    alone = inv.alone;
    recorded = inv.recorded;
    targets = inv.targets;
  }

  thread_mutex_unlock-Inv : (t m : ℕ) → σ.inside t m ≡ true → Inv (thread_mutex_unlock t m σ)
  unfolding thread_mutex_unlock
  thread_mutex_unlock-Inv t m held = record {
    valid = inv.valid;
    closed = λ u n e. ground (arith, inv.closed u n, inv.alone u t n);
    alone = λ u w n e f. ground (arith, inv.alone u w n);
    recorded = inv.recorded;
    targets = inv.targets;
  }

module _ (σ : System) (inv : Inv σ) where
  take_lock-Inv : (t m : ℕ) → σ.flag m ≡ 0 → Inv (thread_mutex_lock t m σ)
  unfolding thread_mutex_lock
  take_lock-Inv t m free = rw free record {
    valid = inv.valid;
    closed = λ u n e. ground (arith, inv.closed u n);
    alone = λ u w n e f. ground (arith, inv.closed u n, inv.closed w n, inv.alone u w n);
    recorded = inv.recorded;
    targets = λ u th w e. ground (arith, inv.targets u th w);
  }

  thread_mutex_lock-Inv : (t m : ℕ) → Inv (thread_mutex_lock t m σ)
  unfolding thread_mutex_lock
  thread_mutex_lock-Inv t m = elim (Bool-cases (σ.flag m == 0)) [
    | inl free ↦ take_lock-Inv t m (ground arith)
    | inr held ↦ rw held (
        pc-Inv (record σ { runtime = thread_yield true σ.runtime })
          (runtime-Inv σ inv (thread_yield-Keeps σ.runtime inv.valid true)) t (locking m) tt)
  ]

  join_round-Inv : (t th : ℕ) (w : Bool) → th < σ.runtime.next → Inv (join_round t th w σ)
  unfolding join_round
  join_round-Inv t th w lt =
      go (thread_join (some th) w σ.runtime) (thread_join-Keeps σ.runtime inv.valid th w lt)
    where
      go :
          (r : Joined × Runtime)
          → Keeps σ.runtime r.1
          → Inv (elim r.0 [
            | returns code v ↦ record σ { pc = update σ.pc t user }
            | waits ↦ record σ { runtime = r.1; pc = update σ.pc t (joining th w) }
          ])
      go (returns code v, s) k = pc-Inv σ inv t user tt
      go (waits, s) k =
          pc-Inv (record σ { runtime = s }) (runtime-Inv σ inv k) t (joining th w)
            (omega (arith, k.grows, lt))

-- `thread_exit` by the first thread of the queue.
leave-recorded :
    (q : List ℕ) (t v : ℕ) (s : Runtime) (exited : ℕ → Option ℕ)
    → IsValid s
    → s.queue ≡ q
    → first q ≡ some t
    → ((u : ℕ) → 0 < count u s.queue_finished → exited u ≡ some (s.threads u).retval)
    → (u : ℕ) → 0 < count u (leave q v s).1.queue_finished
    → update exited t (some v) u ≡ some ((leave q v s).1.threads u).retval
unfolding leave first
leave-recorded [] t v s exited valid e h old u lt = absurd (cc h)
leave-recorded (c ∷ q) t v s exited valid e h old u lt =
    ground (arith, old u, valid.once u, ap (count u) e)

leave-next : (q : List ℕ) (v : ℕ) (s : Runtime) → (leave q v s).1.next ≡ s.next
unfolding leave
leave-next [] v s = refl
leave-next (c ∷ q) v s = refl

exit-Inv :
    (σ : System) (t v : ℕ) → Inv σ → first σ.runtime.queue ≡ some t → Inv (serve t (exit_with v) σ)
unfolding serve
exit-Inv σ t v inv e = record {
  valid = thread_exit-IsValid v σ.runtime inv.valid;
  closed = inv.closed;
  alone = inv.alone;
  recorded =
      unfold thread_exit in
      leave-recorded σ.runtime.queue t v σ.runtime σ.exited inv.valid refl e inv.recorded;
  targets = λ u th w p.
      unfold thread_exit in
      omega (arith, leave-next σ.runtime.queue v σ.runtime, inv.targets u th w p);
}

serve-Inv :
    (c : Call) (σ : System) (t : ℕ)
    → Inv σ
    → first σ.runtime.queue ≡ some t
    → Allowed t c σ
    → Inv (serve t c σ)
unfolding serve
serve-Inv (create a b) σ t inv e ok =
    runtime-Inv σ inv (thread_create-Keeps σ.runtime inv.valid true a b)
serve-Inv give_way σ t inv e ok = runtime-Inv σ inv (thread_yield-Keeps σ.runtime inv.valid true)
serve-Inv (join none w) σ t inv e ok = inv
serve-Inv (join (some th) w) σ t inv e ok = join_round-Inv σ inv t th w ok
serve-Inv (exit_with v) σ t inv e ok = exit-Inv σ t v inv e
serve-Inv (mutex_init m) σ t inv e ok = thread_mutex_init-Inv σ inv m ok
serve-Inv (lock m) σ t inv e ok = thread_mutex_lock-Inv σ inv t m
serve-Inv (unlock m) σ t inv e ok = thread_mutex_unlock-Inv σ inv t m ok

go_on-Inv :
    (p : Pc) (c : Call) (σ : System) (t : ℕ)
    → Inv σ
    → first σ.runtime.queue ≡ some t
    → σ.pc t ≡ p
    → (p ≡ user → Allowed t c σ)
    → Inv (go_on t p c σ)
unfolding go_on
go_on-Inv user c σ t inv e at ok = serve-Inv c σ t inv e (ok refl)
go_on-Inv (joining th w) c σ t inv e at ok = join_round-Inv σ inv t th w (inv.targets t th w at)
go_on-Inv (locking m) c σ t inv e at ok = thread_mutex_lock-Inv σ inv t m

turn-Inv :
    (q : List ℕ) (c : Call) (σ : System)
    → Inv σ
    → σ.runtime.queue ≡ q
    → ((t : ℕ) → Current t σ → Allowed t c σ)
    → Inv (turn q c σ)
unfolding turn first
turn-Inv [] c σ inv e ok = inv
turn-Inv (t ∷ q) c σ inv e ok = go_on-Inv (σ.pc t) c σ t inv (rw e) refl (λ at. ok t (rw e, at))

-- A step of a program that keeps to the interface keeps the invariant.
pub step-Inv :
    (c : Call) (σ : System) → Inv σ → ((t : ℕ) → Current t σ → Allowed t c σ) → Inv (step c σ)
unfolding step
step-Inv c σ inv ok =
    elim σ.ending as (λ o. Inv (elim o [ none ↦ turn σ.runtime.queue c σ | some e ↦ σ ])) [
      | none ↦ turn-Inv σ.runtime.queue c σ inv refl ok
      | some e ↦ inv
    ]

pub Reach-Inv : {start σ : System} → IsStart start → Reach start σ → Inv σ
Reach-Inv h here = start-Inv h
Reach-Inv h (next {σ} c r ok) = step-Inv c σ (Reach-Inv h r) ok
