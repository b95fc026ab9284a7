-- ===== src/Life/Lazy/Parallel.antt =====
-- The lazy versions of vie.c with a parallel loop over the tiles. A tile is looked at by one thread,
-- which reads the current image and the marks before, so that a run is an
-- order of the tiles, and what the race on the variable `change` leaves of it.
pub mod Commuting
pub mod Orders
mod Tests
use my_enseirb_matmeca_proje.Base.{
  ℕ, zero, suc, ◌+◌, Bool, true, false, if◌then◌else◌, List, [], ◌∷◌, ◌++◌,
}
use my_enseirb_matmeca_proje.Life.{swap_images}
use my_enseirb_matmeca_proje.Life.Parallel.{race_loop}
use my_enseirb_matmeca_proje.Life.Lazy.{Marks, Lazy, Sweep, visit}

pub visits : ℕ → ℕ → Marks → List (ℕ × ℕ) → Sweep → Sweep
unfolding visit
visits dim grain before [] w = w
visits dim grain before ((i, j) ∷ order) w =
    visits dim grain before order (visit dim grain before i j w)

-- The tiles of row `i` from column `j` on, `k` of them.
pub row : ℕ → ℕ → ℕ → List (ℕ × ℕ)
row i zero j = []
row i (suc k) j = (i, j) ∷ row i k (j + 1)

-- `k` rows of `grain` tiles, from row `i` on.
pub rows : ℕ → ℕ → ℕ → List (ℕ × ℕ)
unfolding row
rows grain zero i = []
rows grain (suc k) i = row i grain 0 ++ rows grain k (i + 1)

-- The pairs that the two loops, collapsed, share out.
pub all_tiles : ℕ → List (ℕ × ℕ)
unfolding rows
all_tiles grain = rows grain grain 0

pub sweep_by : ℕ → ℕ → List (ℕ × ℕ) → Lazy → Sweep
unfolding visits
sweep_by dim grain order l =
    visits dim grain l.before order record { images = l.images; marks = l.after; change = false }

-- One iteration, up to the exchange of the images, with the tiles in an order.
pub lazy_iteration : ℕ → ℕ → List (ℕ × ℕ) → Lazy → Lazy × Bool
unfolding sweep_by
lazy_iteration dim grain order l =
    let w = sweep_by dim grain order l in
    (record l { images = swap_images w.images; after = w.marks }, w.change)

-- `order it` is the order of the tiles in iteration `it`, and `kept it` what a race leaves of
-- `change`.
pub vie_compute_omp_for_tuilee_opti : ℕ → ℕ → (ℕ → List (ℕ × ℕ)) → (ℕ → Bool) → ℕ → Lazy → Lazy × ℕ
unfolding lazy_iteration
vie_compute_omp_for_tuilee_opti dim grain order kept nb_iter l =
    race_loop (λ it. lazy_iteration dim grain (order it)) kept nb_iter 1 l

-- The schedule of `static` gives an order as well.
pub vie_compute_omp_for_tuilee_opti_static :
    ℕ → ℕ → (ℕ → List (ℕ × ℕ)) → (ℕ → Bool) → ℕ → Lazy → Lazy × ℕ
unfolding lazy_iteration
vie_compute_omp_for_tuilee_opti_static dim grain order kept nb_iter l =
    race_loop (λ it. lazy_iteration dim grain (order it)) kept nb_iter 1 l
