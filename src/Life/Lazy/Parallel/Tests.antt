-- ===== src/Life/Lazy/Parallel/Tests.antt =====
-- The lazy versions of vie.c with a parallel loop, at a blinker.
use mathlib.Core.List.{Permᴰ}
use my_enseirb_matmeca_proje.Base.{ℕ, refl, List, [], ◌∷◌}
use my_enseirb_matmeca_proje.Life.Tests.{blinker, all_but_two}
use my_enseirb_matmeca_proje.Life.Lazy.{vie_init}
use my_enseirb_matmeca_proje.Life.Lazy.Parallel.{
  all_tiles, vie_compute_omp_for_tuilee_opti, vie_compute_omp_for_tuilee_opti_static,
}
use my_enseirb_matmeca_proje.Life.Lazy.Parallel.Orders.{IsOrder, LazyAgrees, omp_tuilee_opti-seq_eq}

-- The first two tiles change places.
abbrev crossed : List (ℕ × ℕ)
crossed = (0, 1) ∷ (0, 0) ∷ (1, 0) ∷ (1, 1) ∷ []

crossed-IsOrder : IsOrder 2 crossed
unfolding all_tiles
crossed-IsOrder = Permᴰ.swap refl refl

omp_tuilee_opti-seq_eq_example :
    LazyAgrees 5 2 3 all_but_two
      (vie_init blinker)
      (vie_compute_omp_for_tuilee_opti 5 2 (λ it. crossed) all_but_two 3 (vie_init blinker))
    × LazyAgrees 5 2 3 all_but_two (vie_init blinker) (
        vie_compute_omp_for_tuilee_opti_static 5 2 (λ it. crossed) all_but_two 3 (vie_init blinker))
omp_tuilee_opti-seq_eq_example =
    omp_tuilee_opti-seq_eq 5 2 3 (λ it. crossed) all_but_two (vie_init blinker)
      (λ it. crossed-IsOrder)
