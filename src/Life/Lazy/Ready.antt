-- ===== src/Life/Lazy/Ready.antt =====
-- When the lazy tiles of vie.c may be skipped.
use my_enseirb_matmeca_proje.Base.{
  true-false, ℕ, ◌+◌, ◌-◌, ◌*◌, ◌/◌, ◌≤◌, ◌<◌, ◌≡◌, ◌⊎◌, refl, sym, ◌∙◌, inl, inr, true, false,
  ◌&&◌, if◌then◌else◌, Bool-cases, arith,
}
use my_enseirb_matmeca_proje.Life.{
  Images, yellow, interior, traiter_tuile_basic, compute_new_state_basic,
}
use my_enseirb_matmeca_proje.Life.Region.{after, turns, Computes, Computes-eq, union-intro}
use my_enseirb_matmeca_proje.Life.Generation.{tile_of, basic-ComputesCell, traiter_tuile-Computes}
use my_enseirb_matmeca_proje.Life.Versions.{everywhere, whole}
use my_enseirb_matmeca_proje.Life.Lazy.{Lazy, has_changed_tuilee_opti, sweep}
use my_enseirb_matmeca_proje.Life.Lazy.Around.{all_marked_lem}
use my_enseirb_matmeca_proje.Life.Lazy.Skipping.{
  InTile, InTile-tile_at, all_visited, visited, of_sweep, sweep-Computes,
}

-- The next image has already what the rule says, and nothing changes.
pub record IsSettled (s : Images) (y x : ℕ) : Type 0 where
  pub next : s.next y x ≡ (if after s.cur y x then yellow else 0)
  pub quiet : turns s.cur y x ≡ false

pub record IsReady (dim grain : ℕ) (l : Lazy) : Type 0 where
  pub painted :
      (y x : ℕ) → interior dim y x ≡ true → (l.images.cur y x ≡ 0) ⊎ (l.images.cur y x ≡ yellow)
  pub border : (y x : ℕ) → interior dim y x ≡ false → l.images.cur y x ≡ l.images.next y x
  pub skipped :
      (i j : ℕ)
      → i < grain
      → j < grain
      → has_changed_tuilee_opti grain l.before i j ≡ false
      → (l.after i j ≡ false)
        × ((y x : ℕ) → InTile dim grain i j y x → interior dim y x ≡ true → IsSettled l.images y x)

module _ (dim grain : ℕ) (positive : 0 < grain) (fits : dim ≤ grain * (dim / grain) + 2) where
  in_tile :
      (y x : ℕ)
      → interior dim y x ≡ true
      → (i : ℕ) × (j : ℕ) × (i < grain) × (j < grain) × InTile dim grain i j y x
  in_tile y x h =
      let (i, a, b, c) = tile_of (dim / grain) grain y positive (ground arith) in
      let (j, d, e, f) = tile_of (dim / grain) grain x positive (ground arith) in
      (i, j, a, d, record { top = b; bottom = c; left = e; right = f })

  visited-or_IsSettled :
      (l : Lazy) (y x : ℕ)
      → IsReady dim grain l
      → interior dim y x ≡ true
      → (all_visited dim grain l.before y x ≡ true) ⊎ IsSettled l.images y x
  visited-or_IsSettled l y x r h =
      let (i, j, a, b, t) = in_tile y x h in
      elim (Bool-cases (has_changed_tuilee_opti grain l.before i j)) [
        | inl c ↦ inl (
            union-intro _ grain 0 i y x (omega arith) (omega arith) (
              union-intro _ grain 0 j y x (omega arith) (omega arith)
                (rw (visited, c) (InTile-tile_at dim grain i j y x t))))
        | inr c ↦ inr ((r.skipped i j a b c).1 y x t h)
      ]

  next_lem :
      (l : Lazy) (y x : ℕ)
      → IsReady dim grain l
      → (if all_visited dim grain l.before y x && interior dim y x
          then (if after l.images.cur y x then yellow else 0)
          else l.images.next y x)
        ≡ (if interior dim y x
            then (if after l.images.cur y x then yellow else 0)
            else l.images.next y x)
  next_lem l y x r = elim (Bool-cases (interior dim y x)) [
    | inr o ↦ rw o (ground arith)
    | inl h ↦ elim (Bool-cases (all_visited dim grain l.before y x)) [
      | inl v ↦ rw (h, v) refl
      | inr v ↦ elim (visited-or_IsSettled l y x r h) [
        | inl e ↦ absurd (true-false (sym e ∙ v))
        | inr k ↦ rw (h, v) (k.next)
      ]
    ]
  ]

  pub sweep-everywhere :
      (l : Lazy)
      → IsReady dim grain l
      → Computes dim everywhere (l.images, false) (of_sweep dim grain l.before (sweep dim grain l))
  sweep-everywhere l r =
      let c = sweep-Computes dim grain l in
      record {
        cur = c.cur;
        next = λ y x. c.next y x ∙ next_lem l y x r;
        change = (
          λ d. elim (c.change.0 d) [ inl e ↦ inl e | inr (y, x, e, f, t) ↦ inr (y, x, refl, f, t) ],
          λ d. elim d [
            | inl e ↦ c.change.1 (inl e)
            | inr (y, x, e, f, t) ↦ elim (visited-or_IsSettled l y x r f) [
              | inl v ↦ c.change.1 (inr (y, x, v, f, t))
              | inr k ↦ absurd (true-false (sym t ∙ k.quiet))
            ]
          ],
        );
      }

  -- An iteration over the lazy tiles is one of the basic version.
  pub sweep-basic :
      (l : Lazy)
      → IsReady dim grain l
      → of_sweep dim grain l.before (sweep dim grain l)
        ≡ traiter_tuile_basic dim 0 0 (dim - 1) (dim - 1) l.images
  sweep-basic l r =
      Computes-eq (sweep-everywhere l r)
        (traiter_tuile-Computes dim (compute_new_state_basic dim) (basic-ComputesCell dim) 0 0
          (dim - 1) (dim - 1) l.images)
        (λ y x h. sym (whole dim y x h))

  -- When all tiles are marked, every image will do.
  pub sweep_all-basic :
      (l : Lazy)
      → l.before ≡ (λ i j. true)
      → of_sweep dim grain l.before (sweep dim grain l)
        ≡ traiter_tuile_basic dim 0 0 (dim - 1) (dim - 1) l.images
  sweep_all-basic l e =
      Computes-eq (sweep-Computes dim grain l)
        (traiter_tuile-Computes dim (compute_new_state_basic dim) (basic-ComputesCell dim) 0 0
          (dim - 1) (dim - 1) l.images)
        (λ y x h. covered y x h ∙ sym (whole dim y x h))
    where
      covered : (y x : ℕ) → interior dim y x ≡ true → all_visited dim grain l.before y x ≡ true
      covered y x h =
          let (i, j, a, b, t) = in_tile y x h in
          let c : has_changed_tuilee_opti grain l.before i j ≡ true =
            rw e (all_marked_lem grain i j a b) in
          union-intro _ grain 0 i y x (omega arith) (omega arith) (
            union-intro _ grain 0 j y x (omega arith) (omega arith)
              (rw (visited, c) (InTile-tile_at dim grain i j y x t)))
