-- ===== src/Thread/System.antt =====
-- A program that runs on thread.c, without PREEMPTION: its threads call the library one after the
-- other, and the mutexes of `thread_mutex_lock` and `thread_mutex_unlock`. The processor is with
-- the first thread of the queue, so the calls of a run say all of its order.
pub mod Invariant
pub mod Steps
pub mod Safety
pub mod Exit
mod Tests
use my_enseirb_matmeca_proje.Base.{
  update, ℕ, ◌<◌, ◌≡◌, Bool, true, false, Option, none, some, List, [], ◌∷◌, ◌==◌, if◌then◌else◌,
}
use my_enseirb_matmeca_proje.Thread.{
  Runtime, first, thread_create, thread_yield, Joined, returns, waits, thread_join, Ending,
  thread_exit,
}

-- Where a thread stands: in the code of the program, in the loop of `thread_join`, or in the loop
-- of `thread_mutex_lock`.
pub data Pc : Type 0 where
  user : Pc
  joining : ℕ → Bool → Pc
  locking : ℕ → Pc

-- What the code of the program does next. A thread's function that returns a value calls
-- `thread_exit` with it (`wrapper`).
pub data Call : Type 0 where
  create : Bool → Bool → Call
  give_way : Call
  join : Option ℕ → Bool → Call
  exit_with : ℕ → Call
  mutex_init : ℕ → Call
  lock : ℕ → Call
  unlock : ℕ → Call

-- `flag` holds each mutex's field of that name. What the program knows and the code does not store:
-- `inside t m`, that `t` has locked `m` and not unlocked it, and the value a thread exited with.
pub record System : Type 0 where
  pub runtime : Runtime
  pub pc : ℕ → Pc
  pub flag : ℕ → ℕ
  pub inside : ℕ → ℕ → Bool
  pub exited : ℕ → Option ℕ
  pub ending : Option Ending

abbrev set_pc : ℕ → Pc → System → System
set_pc t p σ = record σ { pc = update σ.pc t p }

abbrev set_inside : ℕ → ℕ → Bool → System → System
set_inside t m b σ = record σ { inside = update σ.inside t (update (σ.inside t) m b) }

-- `thread_mutex_init`. `thread_mutex_destroy` does nothing.
pub thread_mutex_init : ℕ → System → System
thread_mutex_init m σ = record σ { flag = update σ.flag m 0 }

-- One compare-and-swap of `thread_mutex_lock`, and the yield if it fails.
pub thread_mutex_lock : ℕ → ℕ → System → System
thread_mutex_lock t m σ =
    if σ.flag m == 0
    then set_inside t m true (record σ { flag = update σ.flag m 1; pc = update σ.pc t user })
    else record σ { pc = update σ.pc t (locking m); runtime = thread_yield true σ.runtime }

pub thread_mutex_unlock : ℕ → ℕ → System → System
thread_mutex_unlock t m σ = set_inside t m false (record σ { flag = update σ.flag m 0 })

-- One round of `thread_join` by `t`.
pub join_round : ℕ → ℕ → Bool → System → System
join_round t th wanted σ =
    let (r, s) = thread_join (some th) wanted σ.runtime in
    elim r [
      | returns code v ↦ set_pc t user σ
      | waits ↦ record σ { runtime = s; pc = update σ.pc t (joining th wanted) }
    ]

pub serve : ℕ → Call → System → System
unfolding thread_mutex_init thread_mutex_lock thread_mutex_unlock join_round
serve t (create context_ok stack_ok) σ = record σ {
  runtime = (thread_create true context_ok stack_ok σ.runtime).2;
}
serve t give_way σ = record σ { runtime = thread_yield true σ.runtime }
serve t (join none wanted) σ = σ
serve t (join (some th) wanted) σ = join_round t th wanted σ
serve t (exit_with v) σ =
    let (e, s) = thread_exit v σ.runtime in
    record σ {
      runtime = s;
      exited = update σ.exited t (some v);
      ending = elim e [ Ending.resumes n ↦ none | other ↦ some other ];
    }
serve t (mutex_init m) σ = thread_mutex_init m σ
serve t (lock m) σ = thread_mutex_lock t m σ
serve t (unlock m) σ = thread_mutex_unlock t m σ

-- A thread in a loop of the library goes on with it, and the call is not looked at.
pub go_on : ℕ → Pc → Call → System → System
unfolding serve
go_on t user c σ = serve t c σ
go_on t (joining th wanted) c σ = join_round t th wanted σ
go_on t (locking m) c σ = thread_mutex_lock t m σ

pub turn : List ℕ → Call → System → System
unfolding go_on
turn [] c σ = σ
turn (t ∷ q) c σ = go_on t (σ.pc t) c σ

-- Nothing happens after the process has ended.
pub step : Call → System → System
unfolding turn
step c σ = elim σ.ending [ none ↦ turn σ.runtime.queue c σ | some e ↦ σ ]

-- What the interface asks of a program: it joins threads that were created, unlocks a mutex that
-- the thread has locked, and initialises a mutex that no thread is inside.
abbrev pub Allowed : ℕ → Call → System → Type 0
Allowed t (join (some th) wanted) σ = th < σ.runtime.next
Allowed t (unlock m) σ = σ.inside t m ≡ true
Allowed t (mutex_init m) σ = (u : ℕ) → σ.inside u m ≡ false
Allowed t _ σ = Unit

-- `t` has the processor and is in the code of the program.
abbrev pub Current : ℕ → System → Type 0
Current t σ = (first σ.runtime.queue ≡ some t) × (σ.pc t ≡ user)

-- The states that a program can reach from its first call of the library.
pub data Reach (start : System) : System → Type 0 where
  here : Reach start start
  next :
      {σ : System} (c : Call)
      → Reach start σ
      → ((t : ℕ) → Current t σ → Allowed t c σ)
      → Reach start (step c σ)
