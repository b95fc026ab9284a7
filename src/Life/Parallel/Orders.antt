-- ===== src/Life/Parallel/Orders.antt =====
-- The parallel loops over the tiles of vie.c, in any order.
use mathlib.Core.Path.{fun_ext}
use my_enseirb_matmeca_proje.Base.{
  ℕ, ◌+◌, ◌*◌, ◌-◌, ◌/◌, ◌≤◌, ◌<◌, ◌≡◌, refl, sym, ap, ◌∙◌, inl, inr, Bool, true, false, ◌&&◌, ◌||◌,
  ◌==◌, if◌then◌else◌, List, [], ◌∷◌, Bool-cases, subst, arith,
}
use my_enseirb_matmeca_proje.Life.Parallel.Races.{
  always, iterate-race_loop, race_loop-reported, race_loop-always,
}
use my_enseirb_matmeca_proje.Life.{
  Images, interior, compute_new_state_no_jump, traiter_tuile_no_jump, traiter_tuile_basic,
  swap_images, iterate, vie_compute_seq_basic, vie_compute_seq_no_jump,
}
use my_enseirb_matmeca_proje.Life.Region.{
  Region, Computes, Computes-none, Computes-then, Computes-eq,
}
use my_enseirb_matmeca_proje.Life.Generation.{
  tile, tile-intro, no_jump-ComputesCell, traiter_tuile-Computes, or_change-Computes, tile_of,
}
use my_enseirb_matmeca_proje.Life.Versions.{basic-no_jump, whole, no_jump-basic_eq}
use my_enseirb_matmeca_proje.Life.Parallel.{
  one_tile, tiles_in_order, race_loop, iteration, vie_compute_omp_for_basic,
  vie_compute_omp_for_no_jump, vie_compute_omp_for_tuilee, vie_compute_omp_for_tuilee_static,
  vie_compute_omp_task_tuilee, vie_compute_omp_task_tuilee_opti,
}

-- Whether a tile is in an order.
unfoldable pub has_tile : ℕ → ℕ → List (ℕ × ℕ) → Bool
has_tile i j [] = false
has_tile i j ((a, b) ∷ order) = (a == i && b == j) || has_tile i j order

-- The cells of the tiles of an order.
covered : ℕ → List (ℕ × ℕ) → Region
covered size [] y x = false
covered size ((i, j) ∷ order) y x =
    tile (i * size) (j * size) ((i + 1) * size) ((j + 1) * size) y x || covered size order y x

tiles_in_order-Computes :
    (dim size : ℕ) (order : List (ℕ × ℕ)) (s : Images × Bool)
    → Computes dim (covered size order) s (tiles_in_order dim size order s)
unfolding tiles_in_order covered
tiles_in_order-Computes dim size [] s = Computes-none dim s
tiles_in_order-Computes dim size ((i, j) ∷ order) s =
    Computes-then
      (or_change-Computes dim _
        (traiter_tuile_no_jump dim (i * size) (j * size) ((i + 1) * size) ((j + 1) * size)) s.0 s.1
        (traiter_tuile-Computes dim (compute_new_state_no_jump dim) (no_jump-ComputesCell dim) _ _ _
          _ s.0))
      (tiles_in_order-Computes dim size order (one_tile dim size i j s))

covered-intro :
    (size : ℕ) (order : List (ℕ × ℕ)) (i j y x : ℕ)
    → has_tile i j order ≡ true
    → tile (i * size) (j * size) ((i + 1) * size) ((j + 1) * size) y x ≡ true
    → covered size order y x ≡ true
unfolding has_tile covered
covered-intro size [] i j y x h t = absurd cc
covered-intro size ((a, b) ∷ order) i j y x h t = elim (Bool-cases (a == i && b == j)) [
  | inl e ↦ let ea : a ≡ i = ground arith in let eb : b ≡ j = ground arith in rw (ea, eb, t) refl
  | inr e ↦ ground (arith, covered-intro size order i j y x (rw e at h) t)
]

-- An order in which no tile is missing.
abbrev pub Covers : ℕ → List (ℕ × ℕ) → Type 0
Covers grain order = (i j : ℕ) → i < grain → j < grain → has_tile i j order ≡ true

tiles_in_order-basic :
    (dim grain : ℕ) (order : List (ℕ × ℕ)) (s : Images)
    → 0 < grain
    → dim ≤ grain * (dim / grain) + 2
    → Covers grain order
    → tiles_in_order dim (dim / grain) order (s, false)
      ≡ traiter_tuile_basic dim 0 0 (dim - 1) (dim - 1) s
tiles_in_order-basic dim grain order s p h c =
    Computes-eq (tiles_in_order-Computes dim (dim / grain) order (s, false))
      (traiter_tuile-Computes dim (compute_new_state_no_jump dim) (no_jump-ComputesCell dim) 0 0
        (dim - 1) (dim - 1) s)
      (λ y x i. all y x i ∙ sym (whole dim y x i))
    ∙ sym (basic-no_jump dim s)
  where
    all : (y x : ℕ) → interior dim y x ≡ true → covered (dim / grain) order y x ≡ true
    all y x i =
        let (a, la, lo, hi) = tile_of (dim / grain) grain y p (ground arith) in
        let (b, lb, left, right) = tile_of (dim / grain) grain x p (ground arith) in
        covered-intro (dim / grain) order a b y x (c a b la lb)
          (tile-intro _ _ _ _ y x lo hi left right)

-- The body of the sequential loop.
abbrev basic_body : ℕ → Images → Images × Bool
basic_body dim s =
    let (s', change) = traiter_tuile_basic dim 0 0 (dim - 1) (dim - 1) s in (swap_images s', change)

basic-race_loop :
    (dim nb_iter : ℕ) (s : Images)
    → vie_compute_seq_basic dim nb_iter s ≡ race_loop (λ n. basic_body dim) always nb_iter 1 s
unfolding vie_compute_seq_basic
basic-race_loop dim nb_iter s =
    iterate-race_loop (traiter_tuile_basic dim 0 0 (dim - 1) (dim - 1)) nb_iter 1 s

-- What a parallel version returns against the basic one: the images are those of the basic version
-- for as many iterations as were done, at most as many as were asked for; and if no change is lost
-- the number is that of the basic version as well.
abbrev pub Agrees : ℕ → ℕ → (ℕ → Bool) → Images → Images × ℕ → Type 0
Agrees dim nb_iter kept s r =
    let n = if r.1 == 0 then nb_iter else r.1 in
    (n ≤ nb_iter)
    × (r.0 ≡ (vie_compute_seq_basic dim n s).0)
    × (((it : ℕ) → kept it ≡ true) → r ≡ vie_compute_seq_basic dim nb_iter s)

race_loop-Agrees :
    (dim grain nb_iter : ℕ) (order : ℕ → List (ℕ × ℕ)) (kept : ℕ → Bool) (s : Images)
    → 0 < grain
    → dim ≤ grain * (dim / grain) + 2
    → ((it : ℕ) → Covers grain (order it))
    → Agrees dim nb_iter kept s (race_loop (λ it. iteration dim grain (order it)) kept nb_iter 1 s)
unfolding iteration
race_loop-Agrees dim grain nb_iter order kept s p h c =
    let same : (λ it. iteration dim grain (order it)) ≡ (λ it. basic_body dim) = fun_ext (λ it.
      fun_ext (λ t.
        ap (λ r. (swap_images r.0, r.1))
          (tiles_in_order-basic dim grain (order it) t p h (c it)))) in
    subst (λ f. Agrees dim nb_iter kept s (race_loop f kept nb_iter 1 s)) (sym same) plain
  where
    plain : Agrees dim nb_iter kept s (race_loop (λ it. basic_body dim) kept nb_iter 1 s)
    plain =
        let (most, done) = race_loop-reported (basic_body dim) kept nb_iter s in
        (
          most,
          done ∙ ap (λ r. r.0) (sym (basic-race_loop dim _ s)),
          λ all.
              race_loop-always (basic_body dim) kept all nb_iter 1 s
              ∙ sym (basic-race_loop dim nb_iter s),
        )

-- Whatever order the threads compute the tiles in, another one in each iteration, and whatever the
-- race on `change` leaves of it: the parallel tiled versions (two with a loop, one with tasks) do at
-- most as many iterations as they are asked for, and compute the images of the basic version for
-- the number of iterations that they do. If no change is lost in the race, they return the number of
-- the basic version too, and so the images. GRAIN is positive, no tile is missing, and the tiles
-- leave at most two rows and columns uncovered.
pub omp_tuilee-basic_eq :
    (dim grain nb_iter : ℕ) (order : ℕ → List (ℕ × ℕ)) (kept : ℕ → Bool) (s : Images)
    → 0 < grain
    → dim ≤ grain * (dim / grain) + 2
    → ((it : ℕ) → Covers grain (order it))
    → Agrees dim nb_iter kept s (vie_compute_omp_for_tuilee dim grain order kept nb_iter s)
      × Agrees dim nb_iter kept s (vie_compute_omp_for_tuilee_static dim grain order kept nb_iter s)
      × Agrees dim nb_iter kept s (vie_compute_omp_task_tuilee dim grain order kept nb_iter s)
unfolding vie_compute_omp_for_tuilee vie_compute_omp_for_tuilee_static vie_compute_omp_task_tuilee
omp_tuilee-basic_eq dim grain nb_iter order kept s p h c =
    let agrees = race_loop-Agrees dim grain nb_iter order kept s p h c in (agrees, agrees, agrees)

one_iteration :
    (dim : ℕ) (s : Images)
    → swap_images (traiter_tuile_basic dim 0 0 (dim - 1) (dim - 1) s).0
      ≡ (vie_compute_seq_basic dim 1 s).0
unfolding vie_compute_seq_basic iterate
one_iteration dim s = elim (Bool-cases (traiter_tuile_basic dim 0 0 (dim - 1) (dim - 1) s).1) [
  | inl e ↦ rw (vie_compute_seq_basic, iterate, e) refl
  | inr e ↦ rw (vie_compute_seq_basic, iterate, e) refl
]

-- The lazy version with tasks does one iteration of the basic version for any number of iterations
-- from 1 on, on the same conditions, and never reports that the image is stable.
pub omp_task_tuilee_opti_lem :
    (dim grain nb_iter : ℕ) (order : List (ℕ × ℕ)) (s : Images)
    → 0 < grain
    → dim ≤ grain * (dim / grain) + 2
    → Covers grain order
    → let (t, it) = vie_compute_omp_task_tuilee_opti dim grain order nb_iter s in
      (t ≡ (vie_compute_seq_basic dim 1 s).0) × (it ≡ 0)
unfolding vie_compute_omp_task_tuilee_opti vie_compute_seq_basic iterate
omp_task_tuilee_opti_lem dim grain nb_iter order s p h c = (
  ap (λ r. swap_images r.0) (tiles_in_order-basic dim grain order s p h c) ∙ one_iteration dim s,
  refl,
)

-- The versions for OpenMP that compute one tile compute the same images, and return the same number of
-- iterations, as the basic one.
pub omp_for-basic_eq :
    (dim nb_iter : ℕ) (s : Images)
    → (vie_compute_omp_for_basic dim nb_iter s ≡ vie_compute_seq_basic dim nb_iter s)
      × (vie_compute_omp_for_no_jump dim nb_iter s ≡ vie_compute_seq_basic dim nb_iter s)
unfolding vie_compute_omp_for_basic vie_compute_omp_for_no_jump vie_compute_seq_basic
    vie_compute_seq_no_jump
omp_for-basic_eq dim nb_iter s = (refl, no_jump-basic_eq dim nb_iter s)
