-- ===== src/Life/Tests.antt =====
-- A blinker on a board of 5 by 5, and the theorems on vie.c at it.
use my_enseirb_matmeca_proje.Base.{
  List, Bool, false, ◌<◌, ◌++◌, ◌+◌, ℕ, ◌≡◌, refl, [], ◌∷◌, true, ◌&&◌, ◌||◌, ◌==◌, if◌then◌else◌,
  arith,
}
use my_enseirb_matmeca_proje.Life.{
  Images, for_from, yellow, interior, count_around, compute_new_state_basic,
  compute_new_state_no_jump, basic_cell, traiter_tuile, traiter_tuile_basic, iterate,
  vie_compute_seq_basic, vie_compute_seq_tuilee,
}
use my_enseirb_matmeca_proje.Life.Region.{after, turns}
use my_enseirb_matmeca_proje.Life.Versions.{generation_lem, tuilee-basic_eq}
use my_enseirb_matmeca_proje.Life.Distrib.{Distrib, waits, last_one, leaves, gets}
use my_enseirb_matmeca_proje.Life.Distrib.Round.{
  elements, repeated, next_round, IsFresh, gets_round,
}
use my_enseirb_matmeca_proje.Life.Parallel.{
  vie_compute_omp_for_tuilee, vie_compute_omp_for_tuilee_static, vie_compute_omp_task_tuilee,
  race_loop, iteration, tiles_in_order,
}
use my_enseirb_matmeca_proje.Life.Parallel.Orders.{has_tile, Covers, Agrees, omp_tuilee-basic_eq}
use my_enseirb_matmeca_proje.Life.Stop.{Stops, vie_compute_seq_basic_lem}

-- Three cells in a row.
abbrev pub blinker : Images
blinker = record {
  cur = λ y x. if y == 2 && (x == 1 || x == 2 || x == 3) then yellow else 0;
  next = λ y x. 0;
}

-- After one iteration they are three cells in a column, and the count of iterations is 0.
blinker_turns :
    (let (s, n) = vie_compute_seq_basic 5 1 blinker in s.cur 1 2 ∷ s.cur 2 1 ∷ s.cur 2 2 ∷ n ∷ [])
    ≡ yellow ∷ 0 ∷ yellow ∷ 0 ∷ []
unfolding vie_compute_seq_basic iterate traiter_tuile for_from compute_new_state_basic basic_cell
    count_around
blinker_turns = refl

generation_lem_example :
    let (t, change) = traiter_tuile_basic 5 0 0 4 4 blinker in
    (t.cur ≡ blinker.cur)
    × ((y x : ℕ)
        → t.next y x ≡ (
            if interior 5 y x
            then (if after blinker.cur y x then yellow else 0)
            else blinker.next y x))
    × (change ≡ true → (y : ℕ) × (x : ℕ) × (interior 5 y x ≡ true) × (turns blinker.cur y x ≡ true))
    × ((y x : ℕ) → interior 5 y x ≡ true → turns blinker.cur y x ≡ true → change ≡ true)
generation_lem_example = generation_lem 5 blinker

tuilee-basic_eq_example : vie_compute_seq_tuilee 5 2 3 blinker ≡ vie_compute_seq_basic 5 3 blinker
tuilee-basic_eq_example = tuilee-basic_eq 5 2 3 blinker (omega arith) (omega arith)

vie_compute_seq_basic_lem_example :
    Stops (traiter_tuile_basic 5 0 0 4 4) 3 1 blinker (vie_compute_seq_basic 5 3 blinker)
vie_compute_seq_basic_lem_example = vie_compute_seq_basic_lem 5 3 blinker

-- Two elements for three threads.
abbrev shared_out : Distrib
shared_out = record {
  limit = 3;
  count = 0;
  phase = 0;
  total_elements = 2;
  next_element = 0;
  finalize_func = true;
  finalized = 0;
}

gets_round_example :
    (gets (2 + 3) shared_out
      ≡ (elements 0 2 ++ (repeated (waits 0) 2 ++ (last_one ∷ [])), next_round shared_out))
    × IsFresh (next_round shared_out)
    × (leaves 0 (next_round shared_out) ≡ true)
    × ((n : ℕ) → n < 2 + 3 → leaves 0 (gets n shared_out).1 ≡ false)
gets_round_example = gets_round shared_out (record {
  none_waits = refl;
  none_given = refl;
  some_come = omega arith;
  in_range = omega arith;
})

-- Four tiles, from the last to the first.
abbrev backwards : List (ℕ × ℕ)
backwards = (1, 1) ∷ (1, 0) ∷ (0, 1) ∷ (0, 0) ∷ []

backwards-Covers : Covers 2 backwards
unfolding has_tile
backwards-Covers i j hi hj = ground arith

-- What a race leaves: every change but those of iteration 2.
abbrev pub all_but_two : ℕ → Bool
all_but_two it = if it == 2 then false else true

omp_tuilee-basic_eq_example :
    Agrees 5 3 all_but_two blinker
      (vie_compute_omp_for_tuilee 5 2 (λ it. backwards) all_but_two 3 blinker)
    × Agrees 5 3 all_but_two blinker
        (vie_compute_omp_for_tuilee_static 5 2 (λ it. backwards) all_but_two 3 blinker)
    × Agrees 5 3 all_but_two blinker
        (vie_compute_omp_task_tuilee 5 2 (λ it. backwards) all_but_two 3 blinker)
omp_tuilee-basic_eq_example =
    omp_tuilee-basic_eq 5 2 3 (λ it. backwards) all_but_two blinker (omega arith) (omega arith)
      (λ it. backwards-Covers)

-- The change of iteration 2 is lost, and the loop stops.
stops_early : (vie_compute_omp_for_tuilee 5 2 (λ it. backwards) all_but_two 3 blinker).1 ≡ 2
unfolding vie_compute_omp_for_tuilee race_loop iteration tiles_in_order traiter_tuile for_from
    compute_new_state_no_jump count_around
stops_early = refl
