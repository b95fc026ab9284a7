-- ===== src/Life.antt =====
-- vie.c of The Game of Life: the sequential versions. An image is a function of the row and the
-- column; `cur` is what `cur_img` reads, `next` what `next_img` writes. DIM is `dim`, a positive
-- number, and GRAIN is `grain`. A test of C is a Bool, and `change |= c` is `◌||◌`.
pub mod Region
pub mod Generation
pub mod Versions
pub mod Stop
pub mod Parallel
pub mod Distrib
pub mod Scheduler
pub mod Lazy
mod Tests
use my_enseirb_matmeca_proje.Base.{
  ℕ, zero, suc, ◌+◌, ◌-◌, ◌*◌, ◌/◌, Bool, true, false, not, ◌&&◌, ◌||◌, ◌==◌, if◌then◌else◌, ltb,
}

-- The images, and whether anything has changed.
pub record Images : Type 0 where
  pub cur : ℕ → ℕ → ℕ
  pub next : ℕ → ℕ → ℕ

-- A loop `for (i = first; ...; i++)` of `k` rounds.
pub for_from {ℓ} : {S : Type ℓ} → (ℕ → S → S) → ℕ → ℕ → S → S
for_from body zero i s = s
for_from body (suc k) i s = for_from body k (i + 1) (body i s)

-- 0xFFFF00FF.
abbrev pub yellow : ℕ
yellow = 4294902015

abbrev pub alive : ℕ → ℕ
alive c = if c == 0 then 0 else 1

abbrev pub interior : ℕ → ℕ → ℕ → Bool
interior dim y x = ltb 0 x && ltb x (dim - 1) && ltb 0 y && ltb y (dim - 1)

-- The living cells in the square around a cell, itself left out.
pub count_around : (ℕ → ℕ → ℕ) → ℕ → ℕ → ℕ
unfolding for_from
count_around img y x =
    let n = for_from (λ i n. for_from (λ j n. n + alive (img i j)) 3 (x - 1) n) 3 (y - 1) 0 in
    n - alive (img y x)

abbrev pub write : ℕ → ℕ → ℕ → Images → Images
write y x n s = record s { next = λ i j. if i == y && j == x then n else s.next i j }

-- What `compute_new_state_basic` writes, and what it returns.
pub basic_cell : Bool → ℕ → ℕ × Bool
basic_cell true n = if n == 2 || n == 3 then (yellow, false) else (0, true)
basic_cell false n = if n == 3 then (yellow, true) else (0, false)

pub compute_new_state_basic : ℕ → ℕ → ℕ → Images → Images × Bool
unfolding basic_cell count_around
compute_new_state_basic dim y x s =
    if interior dim y x
    then (let (n, change) = basic_cell (not (s.cur y x == 0)) (count_around s.cur y x) in
        (write y x n s, change))
    else (s, false)

pub compute_new_state_no_jump : ℕ → ℕ → ℕ → Images → Images × Bool
unfolding count_around
compute_new_state_no_jump dim y x s =
    if interior dim y x
    then (let n = count_around s.cur y x in
        let is_alive_before = not (s.cur y x == 0) in
        let is_alive_after = n == 3 || is_alive_before && n == 2 in
        (
          write y x (yellow * (if is_alive_after then 1 else 0)) s,
          if is_alive_after then not is_alive_before else is_alive_before,
        ))
    else (s, false)

abbrev pub or_change : (Images → Images × Bool) → Images × Bool → Images × Bool
or_change f (s, change) = let (s', c) = f s in (s', change || c)

-- `traiter_tuile_*` with the function that computes a cell: rows `i_d` to `i_f`, columns `j_d` to
-- `j_f`, all included.
pub traiter_tuile : (ℕ → ℕ → Images → Images × Bool) → ℕ → ℕ → ℕ → ℕ → Images → Images × Bool
unfolding for_from
traiter_tuile compute i_d j_d i_f j_f s =
    for_from (λ i. for_from (λ j. or_change (compute i j)) (j_f + 1 - j_d) j_d) (i_f + 1 - i_d) i_d
      (s, false)

abbrev pub traiter_tuile_basic : ℕ → ℕ → ℕ → ℕ → ℕ → Images → Images × Bool
traiter_tuile_basic dim = traiter_tuile (compute_new_state_basic dim)

abbrev pub traiter_tuile_no_jump : ℕ → ℕ → ℕ → ℕ → ℕ → Images → Images × Bool
traiter_tuile_no_jump dim = traiter_tuile (compute_new_state_no_jump dim)

-- All tiles of one iteration of `vie_compute_seq_tuilee`.
pub traiter_tuiles : ℕ → ℕ → Images → Images × Bool
unfolding for_from traiter_tuile
traiter_tuiles dim grain s =
    let size = dim / grain in
    for_from
      (λ i.
        for_from
          (λ j.
            or_change
              (traiter_tuile_no_jump dim (i * size) (j * size) ((i + 1) * size) ((j + 1) * size)))
          grain 0)
      grain 0 (s, false)

abbrev pub swap_images : Images → Images
swap_images s = record { cur = s.next; next = s.cur }

-- The loop over `it` of the `vie_compute_seq_*` functions: `k` iterations are left.
pub iterate : (Images → Images × Bool) → ℕ → ℕ → Images → Images × ℕ
iterate generation zero it s = (s, 0)
iterate generation (suc k) it s =
    let (s', change) = generation s in
    let rest = iterate generation k (it + 1) (swap_images s') in
    if change then rest else (swap_images s', it)

pub vie_compute_seq_basic : ℕ → ℕ → Images → Images × ℕ
unfolding iterate traiter_tuile compute_new_state_basic
vie_compute_seq_basic dim nb_iter s =
    iterate (traiter_tuile_basic dim 0 0 (dim - 1) (dim - 1)) nb_iter 1 s

pub vie_compute_seq_no_jump : ℕ → ℕ → Images → Images × ℕ
unfolding iterate traiter_tuile compute_new_state_no_jump
vie_compute_seq_no_jump dim nb_iter s =
    iterate (traiter_tuile_no_jump dim 0 0 (dim - 1) (dim - 1)) nb_iter 1 s

pub vie_compute_seq_tuilee : ℕ → ℕ → ℕ → Images → Images × ℕ
unfolding iterate traiter_tuiles
vie_compute_seq_tuilee dim grain nb_iter s = iterate (traiter_tuiles dim grain) nb_iter 1 s
