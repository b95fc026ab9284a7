-- ===== src/Life/Lazy.antt =====
-- The lazy tiles of vie.c: a tile is computed only when it, or one around it, has changed. The marks
-- of the tiles are a function of their row and column.
pub mod Loops
pub mod Skipping
pub mod Around
pub mod Ready
pub mod Kept
pub mod Rounds
pub mod Parallel
mod Tests
use my_enseirb_matmeca_proje.Base.{
  ℕ, zero, suc, ◌+◌, ◌-◌, ◌*◌, ◌/◌, Bool, true, false, ◌&&◌, ◌||◌, ◌==◌, ltb, leb, if◌then◌else◌,
  List, [], ◌∷◌,
}
use my_enseirb_matmeca_proje.Life.{
  Images, for_from, compute_new_state_no_jump, traiter_tuile, traiter_tuile_no_jump, swap_images,
  iterate, traiter_tuile_basic,
}

abbrev pub Marks : Type 0
Marks = ℕ → ℕ → Bool

-- The images with `need_to_change_before` and `need_to_change_after`.
pub record Lazy : Type 0 where
  pub images : Images
  pub before : Marks
  pub after : Marks

abbrev pub vie_init : Images → Lazy
vie_init s = record { images = s; before = λ i j. true; after = λ i j. true }

abbrev pub vie_refresh_img : Lazy → Lazy
vie_refresh_img l = record l { before = l.after; after = λ i j. false }

-- Row `i + a - 1` and column `j + b - 1` are those of a tile.
abbrev pub in_range : ℕ → ℕ → ℕ → Bool
in_range grain i a = leb 1 (i + a) && ltb (i + a - 1) grain

abbrev pub look : ℕ → Marks → ℕ → ℕ → ℕ → ℕ → Bool → Bool
look grain before i j a b changed =
    if in_range grain i a && in_range grain j b
    then changed || before (i + a - 1) (j + b - 1)
    else changed

pub has_changed_tuilee_opti : ℕ → Marks → ℕ → ℕ → Bool
unfolding for_from
has_changed_tuilee_opti grain before i j =
    for_from (λ a. for_from (look grain before i j a) 3 0) 3 0 false

-- What the loops over the tiles change.
pub record Sweep : Type 0 where
  pub images : Images
  pub marks : Marks
  pub change : Bool

abbrev pub mark : ℕ → ℕ → Bool → Marks → Marks
mark i j c marks a b = if a == i && b == j then c else marks a b

unfoldable pub visit : ℕ → ℕ → Marks → ℕ → ℕ → Sweep → Sweep
unfolding has_changed_tuilee_opti traiter_tuile
visit dim grain before i j w =
    let size = dim / grain in
    let (s, c) =
      traiter_tuile_no_jump dim (i * size) (j * size) ((i + 1) * size) ((j + 1) * size) w.images in
    if has_changed_tuilee_opti grain before i j
    then record { images = s; marks = mark i j c w.marks; change = w.change || c }
    else w

-- One iteration of `vie_compute_seq_tuilee_opti`, before the images are swapped.
pub sweep : ℕ → ℕ → Lazy → Sweep
unfolding for_from visit
sweep dim grain l =
    for_from (λ i. for_from (visit dim grain l.before i) grain 0) grain 0
      record { images = l.images; marks = l.after; change = false }

-- The loop over `it`: `k` iterations are left.
pub iterate_lazy : ℕ → ℕ → ℕ → ℕ → Lazy → Lazy × ℕ
unfolding sweep
iterate_lazy dim grain zero it l = (l, 0)
iterate_lazy dim grain (suc k) it l =
    let w = sweep dim grain l in
    let l' = record l { images = swap_images w.images; after = w.marks } in
    let rest = iterate_lazy dim grain k (it + 1) l' in if w.change then rest else (l', it)

pub vie_compute_seq_tuilee_opti : ℕ → ℕ → ℕ → Lazy → Lazy × ℕ
unfolding iterate_lazy
vie_compute_seq_tuilee_opti dim grain nb_iter l = iterate_lazy dim grain nb_iter 1 l

-- The loop that computes one iteration and shows the image, until an iteration finds that the image
-- is stable, `n` times at most: the numbers that the iterations return.
pub opti_rounds : ℕ → ℕ → ℕ → Lazy → Lazy × List ℕ
unfolding vie_compute_seq_tuilee_opti
opti_rounds dim grain zero l = (l, [])
opti_rounds dim grain (suc n) l =
    let (l', it) = vie_compute_seq_tuilee_opti dim grain 1 l in
    let (l'', its) = opti_rounds dim grain n (vie_refresh_img l') in
    if it == 0 then (l'', it ∷ its) else (vie_refresh_img l', it ∷ [])
