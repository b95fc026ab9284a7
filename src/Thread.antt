-- ===== src/Thread.antt =====
-- System Programming/Final Project: Reimplementation of the cthread library/src/thread.c, built
-- without PREEMPTION: the ready queue, and the operations on it. A thread is the address of its
-- `struct thread_s`; the running one is the first of `queue`.
pub mod Invariant
pub mod Rotation
pub mod Cleanup
pub mod System
use my_enseirb_matmeca_proje.Base.{
  update, ℕ, ◌+◌, Bool, true, false, Option, none, some, List, [], ◌∷◌, ◌++◌, not, ◌&&◌, ◌==◌,
  if◌then◌else◌, remove,
}
use my_enseirb_matmeca_proje.Base.Int.{ℤ, pos, negsuc}

-- `enum status` of include/tailhead.h.
pub data Status : Type 0 where
  ready running finish : Status

-- `struct thread_s`, less its context: `stack` says that `uc.uc_stack.ss_sp` is allocated.
pub record ThreadS : Type 0 where
  pub status : Status
  pub retval : ℕ
  pub th_join : Option ℕ
  pub stack : Bool

-- The static variables of thread.c and the heap: `next` is the address that `malloc` gives next.
pub record Runtime : Type 0 where
  pub has_been_initialized : Bool
  pub queue : List ℕ
  pub queue_finished : List ℕ
  pub thread_main : ℕ
  pub threads : ℕ → ThreadS
  pub next : ℕ

abbrev pub set_status : (ℕ → ThreadS) → ℕ → Status → ℕ → ThreadS
set_status threads t s = update threads t (record (threads t) { status = s })

abbrev pub is_finish : Status → Bool
is_finish finish = true
is_finish ready = false
is_finish running = false

-- The codes that an operation returns.
abbrev pub success : ℤ
success = pos 0

abbrev pub failure : ℤ
failure = negsuc 0

-- `NULL` as a return value.
abbrev pub null : ℕ
null = 0

-- The argument is whether `getcontext` succeeds.
pub init : Bool → Runtime → Runtime
init context_ok s =
    if s.has_been_initialized
    then s
    else if context_ok
    then record s {
      has_been_initialized = true;
      queue = s.next ∷ [];
      queue_finished = [];
      thread_main = s.next;
      threads =
          update s.threads s.next
            (record { status = running; retval = null; th_join = none; stack = false });
      next = s.next + 1;
    }
    else record s { queue = []; queue_finished = []; next = s.next + 1 }

pub first : List ℕ → Option ℕ
first [] = none
first (t ∷ q) = some t

pub thread_self : Bool → Runtime → Option ℕ × Runtime
unfolding first
thread_self main_ok s = let s' = init main_ok s in (first s'.queue, s')

-- The arguments are whether `getcontext` and the stack's `malloc` succeed.
pub thread_init : Bool → Bool → Option ThreadS
thread_init context_ok stack_ok =
    if context_ok && stack_ok
    then some (record { status = ready; retval = null; th_join = none; stack = true })
    else none

-- The code, what `*newthread` is set to, and the new state.
pub thread_create : Bool → Bool → Bool → Runtime → ℤ × Option ℕ × Runtime
unfolding init thread_init
thread_create main_ok context_ok stack_ok s =
    let s' = init main_ok s in
    elim (thread_init context_ok stack_ok) [
      | none ↦ (failure, none, s')
      | some t ↦ (
        success,
        some s'.next,
        record s' {
          queue = s'.queue ++ s'.next ∷ [];
          threads = update s'.threads s'.next t;
          next = s'.next + 1;
        },
      )
    ]

-- What `thread_yield` does to the queue that the argument is.
pub pass_turn : List ℕ → Runtime → Runtime
pass_turn [] s = s
pass_turn (current ∷ []) s = s
pass_turn (current ∷ n ∷ q) s = record s {
  queue = n ∷ q ++ current ∷ [];
  threads = set_status (set_status s.threads n running) current ready;
}

-- The state in which the context of the new first thread goes on; `thread_yield` returns 0.
pub thread_yield : Bool → Runtime → Runtime
unfolding init pass_turn
thread_yield main_ok s = let s' = init main_ok s in pass_turn s'.queue s'

-- One round of the loop of `thread_join`: it returns a code and what `*retval` is set to, or gives
-- the processor to the first of the queue, and makes the next round when it runs again.
pub data Joined : Type 0 where
  returns : ℤ → Option ℕ → Joined
  waits : Joined

-- `wanted` says that the argument `retval` is not NULL.
pub thread_join : Option ℕ → Bool → Runtime → Joined × Runtime
thread_join none wanted s = (returns failure none, s)
thread_join (some th) wanted s =
    if is_finish (s.threads th).status
    then (returns success (if wanted then some (s.threads th).retval else none), s)
    else (waits, record s { queue = th ∷ remove th s.queue })

-- How `thread_exit` ends: the process exits, the context of a thread is resumed, or `setcontext`
-- is given the context of the first of an empty queue, a null pointer.
pub data Ending : Type 0 where
  exits : Ending
  resumes : ℕ → Ending
  null_context : Ending

pub resume_first : List ℕ → Ending
resume_first [] = null_context
resume_first (n ∷ q) = resumes n

pub leave : List ℕ → ℕ → Runtime → Ending × Runtime
unfolding resume_first
leave [] retval s = (exits, s)
leave (current ∷ q) retval s = (
  resume_first q,
  record s {
    queue = q;
    queue_finished = current ∷ s.queue_finished;
    threads =
        update s.threads current (record (s.threads current) { status = finish; retval = retval });
  },
)

pub thread_exit : ℕ → Runtime → Ending × Runtime
unfolding leave
thread_exit retval s = leave s.queue retval s

-- `free_all`: for each queue in turn, what is freed: a thread, and whether its stack is freed too.
pub free_queue : ℕ → (ℕ → ThreadS) → List ℕ → List (ℕ × Bool)
free_queue main threads [] = []
free_queue main threads (item ∷ q) =
    (item, not (item == main) && (threads item).stack) ∷ free_queue main threads q

pub free_all : Runtime → List (ℕ × Bool) × Runtime
unfolding free_queue
free_all s = (
  free_queue s.thread_main s.threads s.queue ++ free_queue s.thread_main s.threads s.queue_finished,
  record s { queue = []; queue_finished = [] },
)
