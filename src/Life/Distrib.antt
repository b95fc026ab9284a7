-- ===== src/Life/Distrib.antt =====
-- pthread_distrib.c of The Game of Life: elements are handed out to threads, which meet at a barrier
-- when there are none left. A call is one critical section; what follows `pthread_cond_wait` is
-- `leaves`. The calls of `pthread_mutex_init` and `pthread_cond_init` do not fail.
pub mod Round
use my_enseirb_matmeca_proje.Base.{
  ℕ, zero, suc, ◌+◌, ◌%◌, ◌^◌, Bool, true, false, not, ◌||◌, ◌==◌, leb, if◌then◌else◌, List, [],
  ◌∷◌, Option, none, some,
}

-- `pthread_distrib_t`, less its mutex and condition. `finalize_func` says that it is not NULL, and
-- `finalized` counts its calls.
pub record Distrib : Type 0 where
  pub limit : ℕ
  pub count : ℕ
  pub phase : ℕ
  pub total_elements : ℕ
  pub next_element : ℕ
  pub finalize_func : Bool
  pub finalized : ℕ

-- `none` is the result -1.
unfoldable pub pthread_distrib_init : ℕ → ℕ → Bool → Option Distrib
pthread_distrib_init nb_threads nb_elements f =
    if nb_elements == 0 || nb_threads == 0
    then none
    else some (record {
      limit = nb_threads;
      count = 0;
      phase = 0;
      total_elements = nb_elements;
      next_element = 0;
      finalize_func = f;
      finalized = 0;
    })

-- What a call of `pthread_distrib_get` does: it returns an element, it returns -1 at once, or it
-- waits in the given phase and returns -1 later.
pub data Got : Type 0 where
  element : ℕ → Got
  last_one : Got
  waits : ℕ → Got

-- `phase` is an `unsigned`.
abbrev pub next_phase : ℕ → ℕ
next_phase p = (p + 1) % 4294967296

pub pthread_distrib_get : Distrib → Got × Distrib
pthread_distrib_get d =
    let count = d.count + 1 in
    if d.next_element == d.total_elements
    then (if leb d.limit count
        then (
          last_one,
          record d {
            phase = next_phase d.phase;
            count = 0;
            next_element = 0;
            finalized = d.finalized + (if d.finalize_func then 1 else 0);
          },
        )
        else (waits d.phase, record d { count = count }))
    else (element d.next_element, record d { next_element = d.next_element + 1 })

-- Whether a thread that waits in a phase, and is woken, leaves the loop.
abbrev pub leaves : ℕ → Distrib → Bool
leaves phase d = not (phase == d.phase)

-- `n` calls, by whatever threads.
pub gets : ℕ → Distrib → List Got × Distrib
unfolding pthread_distrib_get
gets zero d = ([], d)
gets (suc n) d = let (g, d') = pthread_distrib_get d in let (gs, d'') = gets n d' in (g ∷ gs, d'')
