-- ===== src/Thread/System/Exit.antt =====
-- How `thread_exit` ends when its caller is the only thread that is ready.
use my_enseirb_matmeca_proje.Base.{ℕ, ◌≡◌, refl, ap, [], ◌∷◌, count, arith}
use my_enseirb_matmeca_proje.Thread.{Runtime, null_context, resume_first, leave, thread_exit}
use my_enseirb_matmeca_proje.Thread.Invariant.{IsValid, below}

-- On a valid runtime, when the last ready thread calls `thread_exit` every thread that was created
-- is then finished, but the process does not exit: `setcontext` is given a null pointer.
pub thread_exit_last :
    (v t : ℕ) (s : Runtime)
    → IsValid s
    → s.queue ≡ t ∷ []
    → let (e, s') = thread_exit v s in
      (e ≡ null_context)
      × ((u : ℕ) → count u s'.queue_finished ≡ below s.next u)
      × ((u : ℕ) → count u s'.queue ≡ 0)
unfolding thread_exit leave resume_first
thread_exit_last v t s valid e =
    rw e (refl, λ u. ground (arith, valid.once u, ap (count u) e), λ u. refl)
