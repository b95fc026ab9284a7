-- ===== src/Life/Versions.antt =====
-- The sequential versions of vie.c against the rule of the game, and against each other.
use mathlib.Core.Path.{fun_ext}
use my_enseirb_matmeca_proje.Base.{
  ℕ, ◌+◌, ◌-◌, ◌*◌, ◌/◌, ◌≤◌, ◌<◌, ◌≡◌, inl, inr, refl, sym, ap, ◌∙◌, Bool, true, if◌then◌else◌,
  arith,
}
use my_enseirb_matmeca_proje.Life.{
  Images, yellow, interior, traiter_tuile_basic, traiter_tuile_no_jump, traiter_tuiles, iterate,
  compute_new_state_basic, compute_new_state_no_jump, vie_compute_seq_basic,
  vie_compute_seq_no_jump, vie_compute_seq_tuilee,
}
use my_enseirb_matmeca_proje.Life.Region.{Region, after, turns, Computes, Computes-eq}
use my_enseirb_matmeca_proje.Life.Generation.{
  basic-ComputesCell, no_jump-ComputesCell, tile, tile-intro, traiter_tuile-Computes,
  traiter_tuiles-Computes, tiles-cover,
}

abbrev pub everywhere : Region
everywhere y x = true

pub whole : (dim y x : ℕ) → interior dim y x ≡ true → tile 0 0 (dim - 1) (dim - 1) y x ≡ true
whole dim y x h =
    tile-intro 0 0 (dim - 1) (dim - 1) y x (omega arith) (ground arith) (omega arith) (ground arith)

Computes-whole :
    {dim : ℕ} {p : Region} {s t : Images × Bool}
    → Computes dim p s t
    → ((y x : ℕ) → interior dim y x ≡ true → p y x ≡ true)
    → Computes dim everywhere s t
Computes-whole {dim} {p} {s} {t} a h = record {
  cur = a.cur;
  next = λ y x. a.next y x ∙ ground (arith, h y x);
  change = (
    λ d. elim (a.change.0 d) [ inl c ↦ inl c | inr (y, x, e, f, r) ↦ inr (y, x, refl, f, r) ],
    λ d. elim d [
      | inl c ↦ a.change.1 (inl c)
      | inr (y, x, e, f, r) ↦ a.change.1 (inr (y, x, h y x f, f, r))
    ],
  );
}

-- One iteration of the basic version leaves the current image as it is; in the next image every
-- cell inside the border gets the state that the rule of the game gives it from the current image
-- (alive, 0xFFFF00FF, if it is alive with two or three living cells among the eight around it, or
-- dead with three; else dead, 0), and the border is left as it was. It reports a change exactly when
-- a cell inside the border changes from the living to the dead or back.
pub generation_lem :
    (dim : ℕ) (s : Images)
    → let (t, change) = traiter_tuile_basic dim 0 0 (dim - 1) (dim - 1) s in
      (t.cur ≡ s.cur)
      × ((y x : ℕ)
          → t.next y x
            ≡ (if interior dim y x then (if after s.cur y x then yellow else 0) else s.next y x))
      × (change ≡ true → (y : ℕ) × (x : ℕ) × (interior dim y x ≡ true) × (turns s.cur y x ≡ true))
      × ((y x : ℕ) → interior dim y x ≡ true → turns s.cur y x ≡ true → change ≡ true)
generation_lem dim s =
    let a =
      Computes-whole
        (traiter_tuile-Computes dim (compute_new_state_basic dim) (basic-ComputesCell dim) 0 0
          (dim - 1) (dim - 1) s)
        (whole dim) in
    (
      a.cur,
      a.next,
      λ h. elim (a.change.0 h) [ inl c ↦ absurd cc | inr (y, x, e, f, r) ↦ (y, x, f, r) ],
      λ y x f r. a.change.1 (inr (y, x, refl, f, r)),
    )

pub basic-no_jump :
    (dim : ℕ) (s : Images)
    → traiter_tuile_basic dim 0 0 (dim - 1) (dim - 1) s
      ≡ traiter_tuile_no_jump dim 0 0 (dim - 1) (dim - 1) s
basic-no_jump dim s =
    Computes-eq
      (traiter_tuile-Computes dim (compute_new_state_basic dim) (basic-ComputesCell dim) 0 0
        (dim - 1) (dim - 1) s)
      (traiter_tuile-Computes dim (compute_new_state_no_jump dim) (no_jump-ComputesCell dim) 0 0
        (dim - 1) (dim - 1) s)
      (λ y x h. refl)

tuilee-no_jump :
    (dim grain : ℕ) (s : Images)
    → 0 < grain
    → dim ≤ grain * (dim / grain) + 2
    → traiter_tuiles dim grain s ≡ traiter_tuile_no_jump dim 0 0 (dim - 1) (dim - 1) s
tuilee-no_jump dim grain s p h =
    Computes-eq (traiter_tuiles-Computes dim grain s)
      (traiter_tuile-Computes dim (compute_new_state_no_jump dim) (no_jump-ComputesCell dim) 0 0
        (dim - 1) (dim - 1) s)
      (λ y x i.
        tiles-cover (dim / grain) grain y x p (ground arith) (ground arith) ∙ sym (whole dim y x i))

-- The version without jumps computes the same images, and returns the same number of iterations, as
-- the basic one, for every size of the image, number of iterations and images.
pub no_jump-basic_eq :
    (dim nb_iter : ℕ) (s : Images)
    → vie_compute_seq_no_jump dim nb_iter s ≡ vie_compute_seq_basic dim nb_iter s
unfolding vie_compute_seq_no_jump vie_compute_seq_basic
no_jump-basic_eq dim nb_iter s =
    ap (λ f. iterate f nb_iter 1 s) (fun_ext (λ t. sym (basic-no_jump dim t)))

-- When GRAIN is positive and the GRAIN × GRAIN tiles of DIM / GRAIN cells leave at most two rows
-- and columns uncovered, the tiled version computes the same images, and returns the same number
-- of iterations, as the basic one, although neighbouring tiles share their borders.
pub tuilee-basic_eq :
    (dim grain nb_iter : ℕ) (s : Images)
    → 0 < grain
    → dim ≤ grain * (dim / grain) + 2
    → vie_compute_seq_tuilee dim grain nb_iter s ≡ vie_compute_seq_basic dim nb_iter s
unfolding vie_compute_seq_tuilee vie_compute_seq_basic
tuilee-basic_eq dim grain nb_iter s p h =
    ap (λ f. iterate f nb_iter 1 s)
      (fun_ext (λ t. tuilee-no_jump dim grain t p h ∙ sym (basic-no_jump dim t)))
