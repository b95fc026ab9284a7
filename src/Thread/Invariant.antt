-- ===== src/Thread/Invariant.antt =====
-- The two queues of thread.c: when a runtime is valid, and that the operations keep it so.
use my_enseirb_matmeca_proje.Base.{
  ◌==◌, ℕ, ◌+◌, ◌<◌, ◌≡◌, refl, ap, inl, inr, Bool, true, false, some, List, [], ◌∷◌, arith,
  Bool-cases, ltb, if◌then◌else◌, count, count_if-append, count-remove,
}
use my_enseirb_matmeca_proje.Thread.{
  Runtime, is_finish, init, thread_create, pass_turn, thread_yield, thread_join, leave, thread_exit,
}

abbrev pub below : ℕ → ℕ → ℕ
below n t = if ltb t n then 1 else 0

-- The addresses below `next` are those that `malloc` has given.
pub record IsValid (s : Runtime) : Type 0 where
  pub started : s.has_been_initialized ≡ true
  pub once : (t : ℕ) → count t s.queue + count t s.queue_finished ≡ below s.next t
  pub live : (t : ℕ) → 0 < count t s.queue → is_finish (s.threads t).status ≡ false
  pub ended : (t : ℕ) → 0 < count t s.queue_finished → is_finish (s.threads t).status ≡ true

-- The first call of the library starts with a heap in which it has allocated nothing.
pub record IsFresh (s : Runtime) : Type 0 where
  pub unstarted : s.has_been_initialized ≡ false
  pub empty : s.next ≡ 0

pub init-IsValid : (s : Runtime) → IsFresh s → IsValid (init true s)
unfolding init
init-IsValid s f = record {
  started = ground arith;
  once = λ t. ground arith;
  live = λ t h. ground arith;
  ended = λ t h. ground arith;
}

pub init-id : (b : Bool) (s : Runtime) → IsValid s → init b s ≡ s
unfolding init
init-id b s v = ground arith

-- An address that `malloc` has not given stands in no queue.
pub fresh_lem :
    (s : Runtime) → IsValid s → (count s.next s.queue ≡ 0) × (count s.next s.queue_finished ≡ 0)
fresh_lem s v = ground (arith, v.once s.next)

pub thread_create-IsValid :
    (main_ok context_ok stack_ok : Bool) (s : Runtime)
    → IsValid s
    → IsValid (thread_create main_ok context_ok stack_ok s).2
unfolding thread_create
thread_create-IsValid b true true s v = rw (init-id b s v) record {
  started = v.started;
  once = λ t. ground (arith, v.once t, count_if-append (λ x. x == t) s.queue (s.next ∷ []));
  live = λ t h.
      ground (arith, v.live t, count_if-append (λ x. x == t) s.queue (s.next ∷ []), fresh_lem s v);
  ended = λ t h. ground (arith, v.ended t, fresh_lem s v);
}
thread_create-IsValid b true false s v = rw (init-id b s v) v
thread_create-IsValid b false c s v = rw (init-id b s v) v

pass_turn-IsValid : (q : List ℕ) (s : Runtime) → IsValid s → s.queue ≡ q → IsValid (pass_turn q s)
unfolding pass_turn
pass_turn-IsValid [] s v e = v
pass_turn-IsValid (c ∷ []) s v e = v
pass_turn-IsValid (c ∷ n ∷ q) s v e = record {
  started = v.started;
  once =
      λ t. ground (arith, v.once t, ap (count t) e, count_if-append (λ x. x == t) (n ∷ q) (c ∷ []));
  live = λ t h.
      ground (arith, v.live t, ap (count t) e, count_if-append (λ x. x == t) (n ∷ q) (c ∷ []));
  ended = λ t h. ground (arith, v.once t, v.ended t, ap (count t) e);
}

pub thread_yield-IsValid : (b : Bool) (s : Runtime) → IsValid s → IsValid (thread_yield b s)
unfolding thread_yield
thread_yield-IsValid b s v = rw (init-id b s v) (pass_turn-IsValid s.queue s v refl)

-- A thread that has not finished is in the ready queue.
pub queued_lem :
    (s : Runtime) (t : ℕ)
    → IsValid s
    → t < s.next
    → is_finish (s.threads t).status ≡ false
    → count t s.queue ≡ 1
queued_lem s t v lt e = ground (arith, v.once t, v.ended t)

pub thread_join-IsValid :
    (t : ℕ) (wanted : Bool) (s : Runtime)
    → IsValid s
    → t < s.next
    → IsValid (thread_join (some t) wanted s).1
unfolding thread_join
thread_join-IsValid t wanted s v lt = elim (Bool-cases (is_finish (s.threads t).status)) [
  | inl e ↦ rw e v
  | inr e ↦ rw e record {
    started = v.started;
    once = λ a. ground (arith, v.once a, count-remove a t s.queue, queued_lem s t v lt e);
    live = λ a h. ground (arith, v.live a, count-remove a t s.queue, e);
    ended = λ a h. v.ended a h;
  }
]

leave-IsValid :
    (q : List ℕ) (r : ℕ) (s : Runtime) → IsValid s → s.queue ≡ q → IsValid (leave q r s).1
unfolding leave
leave-IsValid [] r s v e = v
leave-IsValid (c ∷ q) r s v e = record {
  started = v.started;
  once = λ t. ground (arith, v.once t, ap (count t) e);
  live = λ t h. ground (arith, v.once t, v.live t, ap (count t) e);
  ended = λ t h. ground (arith, v.once t, v.ended t, ap (count t) e);
}

pub thread_exit-IsValid : (r : ℕ) (s : Runtime) → IsValid s → IsValid (thread_exit r s).1
unfolding thread_exit
thread_exit-IsValid r s v = leave-IsValid s.queue r s v refl
