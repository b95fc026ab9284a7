-- ===== src/Life/Parallel.antt =====
-- The OpenMP versions of vie.c whose tiles are spread over threads. Two tiles at once only read the
-- current image, and write to a cell the same value, so a run is an order of the tiles, any one in
-- each iteration, and what the race on the variable `change` leaves of it.
pub mod Races
pub mod Orders
use my_enseirb_matmeca_proje.Base.{
  ℕ, zero, suc, ◌+◌, ◌*◌, ◌-◌, ◌/◌, Bool, true, false, ◌&&◌, ◌||◌, if◌then◌else◌, List, [], ◌∷◌,
}
use my_enseirb_matmeca_proje.Life.{
  Images, or_change, traiter_tuile_basic, traiter_tuile_no_jump, swap_images, iterate,
}

pub vie_compute_omp_for_basic : ℕ → ℕ → Images → Images × ℕ
vie_compute_omp_for_basic dim nb_iter s =
    iterate (traiter_tuile_basic dim 0 0 (dim - 1) (dim - 1)) nb_iter 1 s

pub vie_compute_omp_for_no_jump : ℕ → ℕ → Images → Images × ℕ
vie_compute_omp_for_no_jump dim nb_iter s =
    iterate (traiter_tuile_no_jump dim 0 0 (dim - 1) (dim - 1)) nb_iter 1 s

-- The body of the loops for one tile, row `i` and column `j`.
abbrev pub one_tile : ℕ → ℕ → ℕ → ℕ → Images × Bool → Images × Bool
one_tile dim size i j =
    or_change (traiter_tuile_no_jump dim (i * size) (j * size) ((i + 1) * size) ((j + 1) * size))

unfoldable pub tiles_in_order : ℕ → ℕ → List (ℕ × ℕ) → Images × Bool → Images × Bool
tiles_in_order dim size [] s = s
tiles_in_order dim size ((i, j) ∷ order) s = tiles_in_order dim size order (one_tile dim size i j s)

-- The loop over the iterations. Two threads that do `change |= ...` at once may lose a change:
-- `kept it` tells whether one is left in iteration `it` after those that were found.
unfoldable pub race_loop {ℓ} : {S : Type ℓ} → (ℕ → S → S × Bool) → (ℕ → Bool) → ℕ → ℕ → S → S × ℕ
race_loop body kept zero it s = (s, 0)
race_loop body kept (suc k) it s =
    let (s', change) = body it s in
    let rest = race_loop body kept k (it + 1) s' in if change && kept it then rest else (s', it)

-- One iteration, up to the exchange of the images, with the tiles in an order.
unfoldable pub iteration : ℕ → ℕ → List (ℕ × ℕ) → Images → Images × Bool
unfolding tiles_in_order
iteration dim grain order s =
    let (s', change) = tiles_in_order dim (dim / grain) order (s, false) in (swap_images s', change)

-- `order it` is the order of the tiles in iteration `it`.
unfoldable pub vie_compute_omp_for_tuilee :
    ℕ → ℕ → (ℕ → List (ℕ × ℕ)) → (ℕ → Bool) → ℕ → Images → Images × ℕ
unfolding race_loop iteration
vie_compute_omp_for_tuilee dim grain order kept nb_iter s =
    race_loop (λ it. iteration dim grain (order it)) kept nb_iter 1 s

-- The schedule of `static` gives an order as well.
pub vie_compute_omp_for_tuilee_static :
    ℕ → ℕ → (ℕ → List (ℕ × ℕ)) → (ℕ → Bool) → ℕ → Images → Images × ℕ
unfolding race_loop iteration
vie_compute_omp_for_tuilee_static dim grain order kept nb_iter s =
    race_loop (λ it. iteration dim grain (order it)) kept nb_iter 1 s

-- A task for each tile; they all end before the images are swapped.
pub vie_compute_omp_task_tuilee : ℕ → ℕ → (ℕ → List (ℕ × ℕ)) → (ℕ → Bool) → ℕ → Images → Images × ℕ
unfolding race_loop iteration
vie_compute_omp_task_tuilee dim grain order kept nb_iter s =
    race_loop (λ it. iteration dim grain (order it)) kept nb_iter 1 s

-- One iteration, whatever `nb_iter` is: the loop is commented out in the source, and no change is
-- reported.
pub vie_compute_omp_task_tuilee_opti : ℕ → ℕ → List (ℕ × ℕ) → ℕ → Images → Images × ℕ
unfolding tiles_in_order
vie_compute_omp_task_tuilee_opti dim grain order nb_iter s =
    (swap_images (tiles_in_order dim (dim / grain) order (s, false)).0, 0)
