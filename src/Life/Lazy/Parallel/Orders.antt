-- ===== src/Life/Lazy/Parallel/Orders.antt =====
-- The lazy versions of vie.c with a parallel loop, in any order of the tiles.
use mathlib.Core.List.{Permᴰ}
use mathlib.Core.Path.{fun_ext}
use my_enseirb_matmeca_proje.Base.{
  ℕ, zero, suc, ◌+◌, ◌≡◌, ap, ap₂, refl, ◌∙◌, if◌then◌else◌, List, [], ◌∷◌, ◌++◌, Bool, Bool-cases,
  inl, inr, true, ◌==◌, ◌≤◌, subst, sym,
}
use my_enseirb_matmeca_proje.Life.Parallel.{race_loop}
use my_enseirb_matmeca_proje.Life.Parallel.Races.{always, race_loop-reported, race_loop-always}
use my_enseirb_matmeca_proje.Life.{for_from, swap_images}
use my_enseirb_matmeca_proje.Life.Lazy.{
  Marks, Lazy, Sweep, visit, sweep, iterate_lazy, vie_compute_seq_tuilee_opti,
}
use my_enseirb_matmeca_proje.Life.Lazy.Parallel.{
  visits, row, rows, all_tiles, sweep_by, lazy_iteration, vie_compute_omp_for_tuilee_opti,
  vie_compute_omp_for_tuilee_opti_static,
}
use my_enseirb_matmeca_proje.Life.Lazy.Parallel.Commuting.{visit-commute}

-- An order in which each tile stands once.
abbrev pub IsOrder : ℕ → List (ℕ × ℕ) → Type 0
IsOrder grain order = Permᴰ order (all_tiles grain)

module _ (dim grain : ℕ) where
  module _ (before : Marks) where
    abbrev go_pair : ℕ × ℕ → Sweep → Sweep
    go_pair t = visit dim grain before t.0 t.1

    visits-Permᴰ :
        {o p : List (ℕ × ℕ)}
        → Permᴰ o p
        → (w : Sweep) → visits dim grain before o w ≡ visits dim grain before p w
    unfolding visits
    visits-Permᴰ Permᴰ.nil w = refl
    visits-Permᴰ (Permᴰ.cons {a = a} {b = b} {l₂ = p} e d) w =
        visits-Permᴰ d (go_pair a w) ∙ ap (λ t. visits dim grain before p (go_pair t w)) e
    visits-Permᴰ (Permᴰ.swap {a = a} {b = b} {l = o} e f) w = ap (visits dim grain before o) (
        visit-commute dim grain before a.0 a.1 b.0 b.1 w ∙ ap₂ (λ t u. go_pair t (go_pair u w)) e f)
    visits-Permᴰ (Permᴰ.trans d e) w = visits-Permᴰ d w ∙ visits-Permᴰ e w

    visits-append :
        (o p : List (ℕ × ℕ)) (w : Sweep)
        → visits dim grain before (o ++ p) w
          ≡ visits dim grain before p (visits dim grain before o w)
    unfolding visits
    visits-append [] p w = refl
    visits-append ((i, j) ∷ o) p w = visits-append o p (visit dim grain before i j w)

    visits-row :
        (i k j : ℕ) (w : Sweep)
        → visits dim grain before (row i k j) w ≡ for_from (visit dim grain before i) k j w
    unfolding visits row for_from
    visits-row i zero j w = refl
    visits-row i (suc k) j w = visits-row i k (j + 1) (visit dim grain before i j w)

    visits-rows :
        (k i : ℕ) (w : Sweep)
        → visits dim grain before (rows grain k i) w
          ≡ for_from (λ i. for_from (visit dim grain before i) grain 0) k i w
    unfolding visits rows for_from
    visits-rows zero i w = refl
    visits-rows (suc k) i w =
        visits-append (row i grain 0) (rows grain k (i + 1)) w
        ∙ visits-rows k (i + 1) (visits dim grain before (row i grain 0) w)
        ∙ ap (for_from (λ i. for_from (visit dim grain before i) grain 0) k (i + 1))
            (visits-row i grain 0 w)

  sweep_by-sweep :
      (order : List (ℕ × ℕ)) (l : Lazy)
      → IsOrder grain order
      → sweep_by dim grain order l ≡ sweep dim grain l
  unfolding sweep_by sweep all_tiles
  sweep_by-sweep order l p = visits-Permᴰ l.before p _ ∙ visits-rows l.before grain 0 _

  -- The body of the sequential loop.
  abbrev seq_body : Lazy → Lazy × Bool
  seq_body l =
      let w = sweep dim grain l in
      (record l { images = swap_images w.images; after = w.marks }, w.change)

  lazy_iteration-seq_body :
      (order : List (ℕ × ℕ))
      → IsOrder grain order
      → (l : Lazy) → lazy_iteration dim grain order l ≡ seq_body l
  unfolding lazy_iteration
  lazy_iteration-seq_body order p l =
      ap (λ w. (record l { images = swap_images w.images; after = w.marks }, w.change))
        (sweep_by-sweep order l p)

  iterate_lazy-race_loop :
      (k it : ℕ) (l : Lazy)
      → iterate_lazy dim grain k it l ≡ race_loop (λ n. seq_body) always k it l
  unfolding iterate_lazy race_loop
  iterate_lazy-race_loop zero it l = refl
  iterate_lazy-race_loop (suc k) it l = elim (Bool-cases (sweep dim grain l).change) [
    | inl c ↦ rw (iterate_lazy, race_loop, c) (iterate_lazy-race_loop k (it + 1) (seq_body l).0)
    | inr c ↦ rw (iterate_lazy, race_loop, c) refl
  ]

-- What a parallel version returns against the sequential one: the state is that of the sequential
-- version for as many iterations as were done, at most as many as were asked for; and if no change
-- is lost the number is that of the sequential version as well.
abbrev pub LazyAgrees : ℕ → ℕ → ℕ → (ℕ → Bool) → Lazy → Lazy × ℕ → Type 0
LazyAgrees dim grain nb_iter kept l r =
    let n = if r.1 == 0 then nb_iter else r.1 in
    (n ≤ nb_iter)
    × (r.0 ≡ (vie_compute_seq_tuilee_opti dim grain n l).0)
    × (((it : ℕ) → kept it ≡ true) → r ≡ vie_compute_seq_tuilee_opti dim grain nb_iter l)

race_loop-LazyAgrees :
    (dim grain nb_iter : ℕ) (order : ℕ → List (ℕ × ℕ)) (kept : ℕ → Bool) (l : Lazy)
    → ((it : ℕ) → IsOrder grain (order it))
    → LazyAgrees dim grain nb_iter kept l
        (race_loop (λ it. lazy_iteration dim grain (order it)) kept nb_iter 1 l)
unfolding vie_compute_seq_tuilee_opti
race_loop-LazyAgrees dim grain nb_iter order kept l p =
    let same : (λ it. lazy_iteration dim grain (order it)) ≡ (λ it. seq_body dim grain) =
      fun_ext (λ it. fun_ext (lazy_iteration-seq_body dim grain (order it) (p it))) in
    subst (λ f. LazyAgrees dim grain nb_iter kept l (race_loop f kept nb_iter 1 l)) (sym same) plain
  where
    seq :
        (k : ℕ)
        → vie_compute_seq_tuilee_opti dim grain k l
          ≡ race_loop (λ it. seq_body dim grain) always k 1 l
    seq k = iterate_lazy-race_loop dim grain k 1 l

    plain :
        LazyAgrees dim grain nb_iter kept l (race_loop (λ it. seq_body dim grain) kept nb_iter 1 l)
    plain =
        let (most, done) = race_loop-reported (seq_body dim grain) kept nb_iter l in
        (
          most,
          done ∙ ap (λ r. r.0) (sym (seq _)),
          λ all. race_loop-always (seq_body dim grain) kept all nb_iter 1 l ∙ sym (seq nb_iter),
        )

-- Whatever order the threads take the tiles in, another one in each iteration, and whatever the race
-- on `change` leaves of it: the lazy versions with a parallel loop do at most as many iterations as
-- they are asked for, and leave the images and the marks of the sequential lazy version for the
-- number of iterations that they do. If no change is lost in the race, they return the number of the
-- sequential version too. They start from the same state, any one, and each tile is taken once in an
-- iteration.
pub omp_tuilee_opti-seq_eq :
    (dim grain nb_iter : ℕ) (order : ℕ → List (ℕ × ℕ)) (kept : ℕ → Bool) (l : Lazy)
    → ((it : ℕ) → IsOrder grain (order it))
    → LazyAgrees dim grain nb_iter kept l
        (vie_compute_omp_for_tuilee_opti dim grain order kept nb_iter l)
      × LazyAgrees dim grain nb_iter kept l
          (vie_compute_omp_for_tuilee_opti_static dim grain order kept nb_iter l)
unfolding vie_compute_omp_for_tuilee_opti vie_compute_omp_for_tuilee_opti_static
omp_tuilee_opti-seq_eq dim grain nb_iter order kept l p =
    let agrees = race_loop-LazyAgrees dim grain nb_iter order kept l p in (agrees, agrees)
