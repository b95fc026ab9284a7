-- ===== src/Thread/System/Safety.antt =====
-- What a program that keeps to the interface of include/thread.h can rely on.
use my_enseirb_matmeca_proje.Base.{
  ℕ, ◌+◌, ◌<◌, ◌≡◌, inl, inr, ◌⊎◌, true, some, arith, Bool-cases, if◌then◌else◌, count,
}
use my_enseirb_matmeca_proje.Thread.{first, is_finish, returns, waits, thread_join, success}
use my_enseirb_matmeca_proje.Thread.Invariant.{queued_lem}
use my_enseirb_matmeca_proje.Thread.System.{System, Reach}
use my_enseirb_matmeca_proje.Thread.System.Invariant.{Inv, IsStart}
use my_enseirb_matmeca_proje.Thread.System.Steps.{Reach-Inv}

-- In every state that a program reaches, no two threads are inside the same mutex, and the flag of
-- a mutex that a thread is inside is 1.
pub mutual_exclusion :
    {start σ : System} (t u m : ℕ)
    → IsStart start
    → Reach start σ
    → σ.inside t m ≡ true
    → σ.inside u m ≡ true
    → (t ≡ u) × (σ.flag m ≡ 1)
mutual_exclusion t u m h r it iu =
    let inv = Reach-Inv h r in (inv.alone t u m it iu, inv.closed t m it)

-- In every state that a program reaches, each thread that was created stands exactly once in the
-- two queues together, and in `queue_finished` exactly if its status is STATUS_FINISH.
pub no_thread_lost :
    {start σ : System} (t : ℕ)
    → IsStart start
    → Reach start σ
    → t < σ.runtime.next
    → (count t σ.runtime.queue + count t σ.runtime.queue_finished ≡ 1)
      × (count t σ.runtime.queue_finished
          ≡ (if is_finish (σ.runtime.threads t).status then 1 else 0))
no_thread_lost t h r lt =
    let v = (Reach-Inv h r).valid in ground (arith, v.once t, v.live t, v.ended t)

-- In every state that a program reaches, a call of `thread_join` for a thread that was created
-- returns exactly if that thread has finished, with the value that it gave to `thread_exit`, and
-- changes nothing; otherwise the thread is then the first of the queue.
pub thread_join_lem :
    {start σ : System} (th : ℕ)
    → IsStart start
    → Reach start σ
    → th < σ.runtime.next
    → let (r, s') = thread_join (some th) true σ.runtime in
      ((count th σ.runtime.queue_finished ≡ 1)
        × (r ≡ returns success (σ.exited th))
        × (s' ≡ σ.runtime))
      ⊎ ((count th σ.runtime.queue ≡ 1) × (r ≡ waits) × (first s'.queue ≡ some th))
unfolding thread_join first
thread_join_lem {start} {σ} th h r lt =
    elim (Bool-cases (is_finish (σ.runtime.threads th).status)) [
      | inl e ↦
          let fin : count th σ.runtime.queue_finished ≡ 1 = ground (arith, v.once th, v.live th) in
          inl (fin, ground (arith, inv.recorded th), rw e)
      | inr e ↦ inr (queued_lem σ.runtime th v lt e, rw e, rw e)
    ]
  where
    inv : Inv σ
    inv = Reach-Inv h r

    open inv use {valid as v}
