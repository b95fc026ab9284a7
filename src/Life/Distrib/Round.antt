-- ===== src/Life/Distrib/Round.antt =====
-- One round of the distribution of pthread_distrib.c.
use my_enseirb_matmeca_proje.Base.{
  ℕ, zero, suc, ◌+◌, ◌-◌, ◌≤◌, ◌<◌, ◌≡◌, refl, ap, ◌∙◌, Bool, true, false, List, [], ◌∷◌, ◌++◌,
  if◌then◌else◌, some, dec_lt, arith,
}
use my_enseirb_matmeca_proje.Life.Distrib.{
  Distrib, pthread_distrib_init, Got, element, last_one, waits, next_phase, pthread_distrib_get,
  leaves, gets,
}

-- The elements from `e` on, `n` of them.
pub elements : ℕ → ℕ → List Got
elements e zero = []
elements e (suc n) = element e ∷ elements (e + 1) n

pub repeated : Got → ℕ → List Got
repeated g zero = []
repeated g (suc n) = g ∷ repeated g n

-- A call, and `n` more.
abbrev call_then : ℕ → Got × Distrib → List Got × Distrib
call_then n (g, d) = (g ∷ (gets n d).0, (gets n d).1)

-- Calls after others.
abbrev then_gets : List Got × Distrib → ℕ → List Got × Distrib
then_gets (gs, d) n = (gs ++ (gets n d).0, (gets n d).1)

gets-append : (m n : ℕ) (d : Distrib) → gets (m + n) d ≡ then_gets (gets m d) n
unfolding gets
gets-append zero n d = ap (λ k. gets k d) (omega arith)
gets-append (suc m) n d =
    let (g, d') = pthread_distrib_get d in
    let e : suc m + n ≡ suc (m + n) = omega arith in
    ap (λ k. gets k d) e ∙ ap (λ r. (g ∷ r.0, r.1)) (gets-append m n d')

get-element :
    (d : Distrib)
    → d.next_element < d.total_elements
    → pthread_distrib_get d
      ≡ (element d.next_element, record d { next_element = d.next_element + 1 })
unfolding pthread_distrib_get
get-element d h = ground arith

get-waits :
    (d : Distrib)
    → d.next_element ≡ d.total_elements
    → d.count + 1 < d.limit
    → pthread_distrib_get d ≡ (waits d.phase, record d { count = d.count + 1 })
unfolding pthread_distrib_get
get-waits d e h = ground arith

-- The state after a round.
abbrev pub next_round : Distrib → Distrib
next_round d = record d {
  phase = next_phase d.phase;
  count = 0;
  next_element = 0;
  finalized = d.finalized + (if d.finalize_func then 1 else 0);
}

get-last_one :
    (d : Distrib)
    → d.next_element ≡ d.total_elements
    → d.count + 1 ≡ d.limit
    → pthread_distrib_get d ≡ (last_one, next_round d)
unfolding pthread_distrib_get
get-last_one d e h = ground arith

gets-elements :
    (n : ℕ) (d : Distrib)
    → d.next_element + n ≤ d.total_elements
    → gets n d ≡ (elements d.next_element n, record d { next_element = d.next_element + n })
unfolding gets elements
gets-elements zero d h = ap (λ k. ([], record d { next_element = k })) (omega arith)
gets-elements (suc n) d h =
    ap (call_then n) (get-element d (omega arith))
    ∙ ap (λ r. (element d.next_element ∷ r.0, r.1))
        (gets-elements n (record d { next_element = d.next_element + 1 }) (omega arith))
    ∙ ap (λ k. (elements d.next_element (suc n), record d { next_element = k })) (omega arith)

gets-waits :
    (n : ℕ) (d : Distrib)
    → d.next_element ≡ d.total_elements
    → d.count + n < d.limit
    → gets n d ≡ (repeated (waits d.phase) n, record d { count = d.count + n })
unfolding gets repeated
gets-waits zero d e h = ap (λ k. ([], record d { count = k })) (omega arith)
gets-waits (suc n) d e h =
    ap (call_then n) (get-waits d e (omega arith))
    ∙ ap (λ r. (waits d.phase ∷ r.0, r.1))
        (gets-waits n (record d { count = d.count + 1 }) e (omega arith))
    ∙ ap (λ k. (repeated (waits d.phase) (suc n), record d { count = k })) (omega arith)

-- The phase stays until the last thread comes.
gets-phase :
    (n : ℕ) (d : Distrib)
    → d.next_element ≤ d.total_elements
    → d.next_element + d.count + n < d.total_elements + d.limit
    → (gets n d).1.phase ≡ d.phase
unfolding gets
gets-phase zero d inside h = refl
gets-phase (suc n) d inside h = elim (dec_lt d.next_element d.total_elements) [
  | yes more ↦
      ap (λ r. (gets n (r.1)).1.phase) (get-element d more)
      ∙ gets-phase n (record d { next_element = d.next_element + 1 }) (omega arith) (omega arith)
  | no done ↦
      ap (λ r. (gets n (r.1)).1.phase) (get-waits d (omega arith) (omega arith))
      ∙ gets-phase n (record d { count = d.count + 1 }) inside (omega arith)
]

-- At the beginning of a round.
pub record IsFresh (d : Distrib) : Type 0 where
  pub none_waits : d.count ≡ 0
  pub none_given : d.next_element ≡ 0
  pub some_come : 0 < d.limit
  pub in_range : d.phase < 4294967296

one_round :
    (d : Distrib)
    → IsFresh d
    → gets (d.total_elements + (d.limit - 1 + 1)) d ≡ (
      elements 0 d.total_elements ++ (repeated (waits d.phase) (d.limit - 1) ++ (last_one ∷ [])),
      next_round d,
    )
unfolding gets
one_round d v =
    let given : Distrib = record d { next_element = d.next_element + d.total_elements } in
    let waiting : Distrib = record given { count = d.count + (d.limit - 1) } in
    gets-append d.total_elements (d.limit - 1 + 1) d
    ∙ ap (λ r. then_gets r (d.limit - 1 + 1))
        (gets-elements d.total_elements d (omega (arith, v.none_given)))
    ∙ ap (λ r. (elements d.next_element d.total_elements ++ r.0, r.1))
        (gets-append (d.limit - 1) 1 given
          ∙ ap (λ r. then_gets r 1)
              (gets-waits (d.limit - 1) given (omega (arith, v.none_given))
                (omega (arith, v.none_waits, v.some_come)))
          ∙ ap (λ r. (repeated (waits d.phase) (d.limit - 1) ++ r.0, r.1))
              (ap (call_then 0) (
                get-last_one waiting (omega (arith, v.none_given))
                  (omega (arith, v.none_waits, v.some_come)))))
    ∙ ap
        (λ e. (
          elements e d.total_elements
              ++ (repeated (waits d.phase) (d.limit - 1) ++ (last_one ∷ [])),
          next_round d,
        ))
        v.none_given

pub init-IsFresh :
    (nb_threads nb_elements : ℕ) (f : Bool) (d : Distrib)
    → pthread_distrib_init nb_threads nb_elements f ≡ some d
    → IsFresh d
unfolding pthread_distrib_init
init-IsFresh nb_threads nb_elements f d e = record {
  none_waits = ground arith;
  none_given = ground arith;
  some_come = ground arith;
  in_range = ground arith;
}

-- From the beginning of a round, the first calls of `pthread_distrib_get`, whichever threads make
-- them, return each element once and in order; then all but one of the `limit` threads of the
-- barrier wait, and the next call returns -1 at once. That call ends the round: it calls the
-- function for the end once, if there is one, and the state is that of the beginning of the next
-- round. A thread that waits does not leave before that call, and leaves after it.
pub gets_round :
    (d : Distrib)
    → IsFresh d
    → (gets (d.total_elements + d.limit) d ≡ (
      elements 0 d.total_elements ++ (repeated (waits d.phase) (d.limit - 1) ++ (last_one ∷ [])),
      next_round d,
    ))
      × IsFresh (next_round d)
      × (leaves d.phase (next_round d) ≡ true)
      × ((n : ℕ) → n < d.total_elements + d.limit → leaves d.phase (gets n d).1 ≡ false)
unfolding gets
gets_round d v = (
  ap (λ k. gets (d.total_elements + k) d) (omega (arith, v.some_come)) ∙ one_round d v,
  record { none_waits = refl; none_given = refl; some_come = v.some_come; in_range = ground arith },
  ground (arith, v.in_range),
  λ n h.
      rw (gets-phase n d (omega (arith, v.none_given)) (omega (arith, v.none_given, v.none_waits)))
        (ground arith),
)
