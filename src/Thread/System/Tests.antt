-- ===== src/Thread/System/Tests.antt =====
-- Runs of the thread library on small programs, and each theorem at one of their states.
use my_enseirb_matmeca_proje.Base.{
  ℕ, ◌+◌, ◌≡◌, ◌⊎◌, refl, true, false, none, some, List, [], ◌∷◌, ◌==◌, not, ◌&&◌, if◌then◌else◌,
  count, arith,
}
use my_enseirb_matmeca_proje.Thread.{
  Status, Runtime, init, first, thread_create, thread_yield, thread_exit, thread_join, null_context,
  free_all, success, is_finish, returns, waits,
}
use my_enseirb_matmeca_proje.Thread.Invariant.{IsValid, init-IsValid, below, thread_create-IsValid}
use my_enseirb_matmeca_proje.Thread.Rotation.{yields, yields-queue}
use my_enseirb_matmeca_proje.Thread.Cleanup.{freed, stack_freed, free_all_once}
use my_enseirb_matmeca_proje.Thread.System.{
  System, Pc, Call, create, give_way, join, exit_with, lock, unlock, step, Reach, here, next,
}
use my_enseirb_matmeca_proje.Thread.System.Invariant.{IsStart}
use my_enseirb_matmeca_proje.Thread.System.Safety.{
  mutual_exclusion, no_thread_lost, thread_join_lem,
}
use my_enseirb_matmeca_proje.Thread.System.Exit.{thread_exit_last}

abbrev unused : Runtime
unused = record {
  has_been_initialized = false;
  queue = [];
  queue_finished = [];
  thread_main = 0;
  threads = λ _. record { status = Status.ready; retval = 0; th_join = none; stack = false };
  next = 0;
}

abbrev begin : System
begin = record {
  runtime = init true unused;
  pc = λ _. Pc.user;
  flag = λ _. 0;
  inside = λ _ _. false;
  exited = λ _. none;
  ending = none;
}

begin-IsStart : IsStart begin
begin-IsStart = record {
  fresh = unused;
  is_fresh = record { unstarted = refl; empty = refl };
  begins = refl;
  outside = λ t m. refl;
  in_user = λ t. refl;
}

begin-IsValid : IsValid (init true unused)
begin-IsValid = init-IsValid unused (record { unstarted = refl; empty = refl })

run : List Call → System → System
run [] σ = σ
run (c ∷ cs) σ = run cs (step c σ)

-- The main thread creates two threads, locks and yields; thread 1 waits for the mutex, thread 2
-- exits; the main thread unlocks and yields, and thread 1 has the mutex.
handover :
    let σ =
      run
        (create true true
          ∷ create true true
          ∷ lock 7
          ∷ give_way
          ∷ lock 7
          ∷ exit_with 5
          ∷ unlock 7
          ∷ give_way
          ∷ give_way
          ∷ [])
        begin in
    (σ.runtime.queue ≡ 1 ∷ 0 ∷ [])
    × (σ.runtime.queue_finished ≡ 2 ∷ [])
    × (σ.inside 1 7 ≡ true)
    × (σ.exited 2 ≡ some 5)
unfolding run step thread_create thread_yield thread_exit init
handover = (refl, refl, refl, refl)

-- `thread_join` runs the thread that it waits for before the others.
join_first :
    let σ =
      run (create true true ∷ create true true ∷ join (some 2) true ∷ exit_with 9 ∷ []) begin in
    (σ.runtime.queue ≡ 0 ∷ 1 ∷ [])
    × ((thread_join (some 2) true σ.runtime).0 ≡ returns success (some 9))
unfolding run step thread_create thread_yield thread_exit thread_join init
join_first = (refl, refl)

abbrev locked : System
locked = step (lock 7) begin

locked_reached : Reach begin locked
locked_reached = next (lock 7) here (λ t c. tt)

mutual_exclusion_example : (◌≡◌ {A = ℕ} 0 0) × (locked.flag 7 ≡ 1)
unfolding step init
mutual_exclusion_example = mutual_exclusion 0 0 7 begin-IsStart locked_reached refl refl

no_thread_lost_example :
    (count 0 locked.runtime.queue + count 0 locked.runtime.queue_finished ≡ 1)
    × (count 0 locked.runtime.queue_finished
        ≡ (if is_finish (locked.runtime.threads 0).status then 1 else 0))
unfolding step init
no_thread_lost_example = no_thread_lost 0 begin-IsStart locked_reached (omega arith)

thread_join_lem_example :
    let (r, s') = thread_join (some 0) true locked.runtime in
    ((count 0 locked.runtime.queue_finished ≡ 1)
      × (r ≡ returns success (locked.exited 0))
      × (s' ≡ locked.runtime))
    ⊎ ((count 0 locked.runtime.queue ≡ 1) × (r ≡ waits) × (first s'.queue ≡ some 0))
unfolding step init
thread_join_lem_example = thread_join_lem 0 begin-IsStart locked_reached (omega arith)

abbrev two : Runtime
two = (thread_create true true true (init true unused)).2

two-IsValid : IsValid two
two-IsValid = thread_create-IsValid true true true (init true unused) begin-IsValid

yields-queue_example : (yields 1 two).queue ≡ 1 ∷ 0 ∷ []
unfolding thread_create init
yields-queue_example = yields-queue two (0 ∷ []) (1 ∷ []) two-IsValid refl

free_all_once_example :
    let (l, s') = free_all two in
    (freed 1 l ≡ below two.next 1)
    × (stack_freed 1 l
        ≡ (if not (1 == two.thread_main) && (two.threads 1).stack then below two.next 1 else 0))
    × (s'.queue ≡ [])
    × (s'.queue_finished ≡ [])
free_all_once_example = free_all_once two 1 two-IsValid

thread_exit_last_example :
    let (e, s') = thread_exit 3 (init true unused) in
    (e ≡ null_context)
    × ((u : ℕ) → count u s'.queue_finished ≡ below (init true unused).next u)
    × ((u : ℕ) → count u s'.queue ≡ 0)
unfolding init
thread_exit_last_example = thread_exit_last 3 0 (init true unused) begin-IsValid refl
