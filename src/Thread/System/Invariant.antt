-- ===== src/Thread/System/Invariant.antt =====
-- The invariant of a program that runs on thread.c.
use my_enseirb_matmeca_proje.Base.{
  ℕ, ◌≤◌, ◌<◌, ◌≡◌, refl, ap, Bool, true, false, some, List, [], ◌∷◌, arith, count,
}
use my_enseirb_matmeca_proje.Thread.{
  Runtime, init, thread_create, pass_turn, thread_yield, thread_join,
}
use my_enseirb_matmeca_proje.Thread.Invariant.{
  IsValid, IsFresh, init-IsValid, init-id, fresh_lem, thread_create-IsValid, thread_yield-IsValid,
  thread_join-IsValid,
}
use my_enseirb_matmeca_proje.Thread.System.{System, user, joining}

-- `s'` follows `s` by an operation that ends no thread.
pub record Keeps (s s' : Runtime) : Type 0 where
  pub valid : IsValid s'
  pub finished : s'.queue_finished ≡ s.queue_finished
  pub grows : s.next ≤ s'.next
  pub retval : (t : ℕ) → 0 < count t s.queue_finished → (s'.threads t).retval ≡ (s.threads t).retval

module _ (s : Runtime) (v : IsValid s) where
  pub thread_create-Keeps : (b c d : Bool) → Keeps s (thread_create b c d s).2
  thread_create-Keeps b c d = record {
    valid = thread_create-IsValid b c d s v;
    finished = unfold thread_create in ground (arith, init-id b s v);
    grows = unfold thread_create in ground (arith, init-id b s v);
    retval = λ t h. unfold thread_create in ground (arith, init-id b s v, fresh_lem s v);
  }

  pass_turn-keeps :
      (q : List ℕ) (t : ℕ)
      → let s' = pass_turn q s in
        (s'.queue_finished ≡ s.queue_finished)
        × (s'.next ≡ s.next)
        × ((s'.threads t).retval ≡ (s.threads t).retval)
  unfolding pass_turn
  pass_turn-keeps [] t = (refl, refl, refl)
  pass_turn-keeps (c ∷ []) t = (refl, refl, refl)
  pass_turn-keeps (c ∷ n ∷ q) t = (refl, refl, ground arith)

  pub thread_yield-Keeps : (b : Bool) → Keeps s (thread_yield b s)
  thread_yield-Keeps b = record {
    valid = thread_yield-IsValid b s v;
    finished = unfold thread_yield in rw (init-id b s v) (pass_turn-keeps s.queue 0).0;
    grows = unfold thread_yield in ground (arith, init-id b s v, pass_turn-keeps s.queue 0);
    retval = λ t h. unfold thread_yield in rw (init-id b s v) (pass_turn-keeps s.queue t).2;
  }

  pub thread_join-Keeps : (th : ℕ) (w : Bool) → th < s.next → Keeps s (thread_join (some th) w s).1
  thread_join-Keeps th w lt = record {
    valid = thread_join-IsValid th w s v lt;
    finished = unfold thread_join in ground arith;
    grows = unfold thread_join in ground arith;
    retval = λ t h. unfold thread_join in ground arith;
  }

pub record Inv (σ : System) : Type 0 where
  pub valid : IsValid σ.runtime
  pub closed : (t m : ℕ) → σ.inside t m ≡ true → σ.flag m ≡ 1
  pub alone : (t u m : ℕ) → σ.inside t m ≡ true → σ.inside u m ≡ true → t ≡ u
  pub recorded :
      (t : ℕ)
      → 0 < count t σ.runtime.queue_finished
      → σ.exited t ≡ some (σ.runtime.threads t).retval
  pub targets : (t th : ℕ) (w : Bool) → σ.pc t ≡ joining th w → th < σ.runtime.next

-- A program starts when its first call has initialised the library, outside every mutex.
pub record IsStart (σ : System) : Type 0 where
  pub fresh : Runtime
  pub is_fresh : IsFresh fresh
  pub begins : σ.runtime ≡ init true fresh
  pub outside : (t m : ℕ) → σ.inside t m ≡ false
  pub in_user : (t : ℕ) → σ.pc t ≡ user

finished-init : (r : Runtime) → IsFresh r → (init true r).queue_finished ≡ []
unfolding init
finished-init r f = ground arith

pub start-Inv : {σ : System} → IsStart σ → Inv σ
start-Inv {σ} h = record {
  valid = rw h.begins (init-IsValid h.fresh h.is_fresh);
  closed = λ t m e. ground (arith, h.outside t m);
  alone = λ t u m e f. ground (arith, h.outside t m);
  recorded = λ t lt. absurd (
      ground (
        arith,
        h.begins,
        finished-init h.fresh h.is_fresh,
        ap (count t) (ap (λ (r : Runtime). r.queue_finished) h.begins),
      ));
  targets = λ t th w e. ground (arith, h.in_user t);
}
