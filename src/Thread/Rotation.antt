-- ===== src/Thread/Rotation.antt =====
-- `thread_yield` of thread.c as a rotation of the queue.
use my_enseirb_matmeca_proje.Base.{
  ℕ, zero, suc, ◌≡◌, refl, ap, ◌∙◌, Bool, true, List, [], ◌∷◌, ◌++◌, append-nil, append_assoc,
  length,
}
use my_enseirb_matmeca_proje.Thread.{Runtime, pass_turn, thread_yield}
use my_enseirb_matmeca_proje.Thread.Invariant.{IsValid, thread_yield-IsValid, init-id}

pub rotate {ℓ} : {A : Type ℓ} → List A → List A
rotate [] = []
rotate (x ∷ xs) = xs ++ x ∷ []

queue-pass_turn : (q : List ℕ) (s : Runtime) → s.queue ≡ q → (pass_turn q s).queue ≡ rotate q
unfolding pass_turn rotate
queue-pass_turn [] s e = e
queue-pass_turn (c ∷ []) s e = e
queue-pass_turn (c ∷ n ∷ q) s e = refl

pub queue-thread_yield :
    (b : Bool) (s : Runtime) → IsValid s → (thread_yield b s).queue ≡ rotate s.queue
unfolding thread_yield
queue-thread_yield b s v = rw (init-id b s v) (queue-pass_turn s.queue s refl)

-- `n` threads in turn call `thread_yield`.
pub yields : ℕ → Runtime → Runtime
yields zero s = s
yields (suc n) s = yields n (thread_yield true s)

yields-IsValid : (n : ℕ) (s : Runtime) → IsValid s → IsValid (yields n s)
unfolding yields
yields-IsValid zero s v = v
yields-IsValid (suc n) s v = yields-IsValid n (thread_yield true s) (thread_yield-IsValid true s v)

rotations : ℕ → List ℕ → List ℕ
rotations zero q = q
rotations (suc n) q = rotations n (rotate q)

queue-yields : (n : ℕ) (s : Runtime) → IsValid s → (yields n s).queue ≡ rotations n s.queue
unfolding yields rotations
queue-yields zero s v = refl
queue-yields (suc n) s v =
    queue-yields n (thread_yield true s) (thread_yield-IsValid true s v)
    ∙ ap (rotations n) (queue-thread_yield true s v)

rotations-append : (xs ys : List ℕ) → rotations (length xs) (xs ++ ys) ≡ ys ++ xs
unfolding rotations rotate
rotations-append [] ys = rw append-nil
rotations-append (x ∷ xs) ys =
    ap (rotations (length xs)) (append_assoc xs ys (x ∷ []))
    ∙ rotations-append xs (ys ++ x ∷ [])
    ∙ append_assoc ys (x ∷ []) xs

-- On a valid runtime, after the threads of a first part of the queue have each yielded, that part
-- stands behind the rest, in the same order: the next to run is the first of the rest.
pub yields-queue :
    (s : Runtime) (xs ys : List ℕ)
    → IsValid s
    → s.queue ≡ xs ++ ys
    → (yields (length xs) s).queue ≡ ys ++ xs
yields-queue s xs ys v e =
    queue-yields (length xs) s v ∙ ap (rotations (length xs)) e ∙ rotations-append xs ys

-- When every thread of the queue has yielded once the queue is as before.
pub yields_round : (s : Runtime) → IsValid s → (yields (length s.queue) s).queue ≡ s.queue
yields_round s v = yields-queue s s.queue [] v (rw append-nil)
