-- ===== src/Thread/Cleanup.antt =====
-- `free_all` of thread.c: what it releases.
use my_enseirb_matmeca_proje.Base.{
  ℕ, ◌+◌, ◌≡◌, refl, Bool, List, [], ◌∷◌, ◌++◌, ◌==◌, if◌then◌else◌, arith, count, not, ◌&&◌,
}
use my_enseirb_matmeca_proje.Thread.{Runtime, ThreadS, free_queue, free_all}
use my_enseirb_matmeca_proje.Thread.Invariant.{IsValid, below}

-- How often `free` is called on a thread, and on the stack of a thread.
abbrev pub freed : ℕ → List (ℕ × Bool) → ℕ
freed t [] = 0
freed t ((x, b) ∷ l) = (if x == t then 1 else 0) + freed t l

abbrev pub stack_freed : ℕ → List (ℕ × Bool) → ℕ
stack_freed t [] = 0
stack_freed t ((x, b) ∷ l) = (if (x == t) && b then 1 else 0) + stack_freed t l

freed-append : (t : ℕ) (xs ys : List (ℕ × Bool)) → freed t (xs ++ ys) ≡ freed t xs + freed t ys
freed-append t [] ys = omega arith
freed-append t ((x, b) ∷ xs) ys = omega (arith, freed-append t xs ys)

stack_freed-append :
    (t : ℕ) (xs ys : List (ℕ × Bool))
    → stack_freed t (xs ++ ys) ≡ stack_freed t xs + stack_freed t ys
stack_freed-append t [] ys = omega arith
stack_freed-append t ((x, b) ∷ xs) ys = omega (arith, stack_freed-append t xs ys)

module _ (main : ℕ) (threads : ℕ → ThreadS) where
  freed-free_queue : (t : ℕ) (q : List ℕ) → freed t (free_queue main threads q) ≡ count t q
  unfolding free_queue
  freed-free_queue t [] = refl
  freed-free_queue t (x ∷ q) = omega (arith, freed-free_queue t q)

  -- Whether the loop frees the stack of a thread when it meets it.
  abbrev frees_stack : ℕ → Bool
  frees_stack t = not (t == main) && (threads t).stack

  stack_freed-free_queue :
      (t : ℕ) (q : List ℕ)
      → stack_freed t (free_queue main threads q) ≡ (if frees_stack t then count t q else 0)
  unfolding free_queue
  stack_freed-free_queue t [] = ground arith
  stack_freed-free_queue t (x ∷ q) = ground (arith, stack_freed-free_queue t q)

-- On a valid runtime `free_all` frees each thread that was created exactly once, its stack exactly
-- once if it has one and is not the main thread, and nothing else; both queues are empty after it.
pub free_all_once :
    (s : Runtime) (t : ℕ)
    → IsValid s
    → let (l, s') = free_all s in
      (freed t l ≡ below s.next t)
      × (stack_freed t l
          ≡ (if not (t == s.thread_main) && (s.threads t).stack then below s.next t else 0))
      × (s'.queue ≡ [])
      × (s'.queue_finished ≡ [])
unfolding free_all
free_all_once s t v = ground (
  arith,
  v.once t,
  freed-append t (free_queue m th s.queue) (free_queue m th s.queue_finished),
  stack_freed-append t (free_queue m th s.queue) (free_queue m th s.queue_finished),
  freed-free_queue m th t s.queue,
  freed-free_queue m th t s.queue_finished,
  stack_freed-free_queue m th t s.queue,
  stack_freed-free_queue m th t s.queue_finished,
)
  where
    open s use {thread_main as m, threads as th}
