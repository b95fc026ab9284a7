-- ===== src/Life/Lazy/Kept.antt =====
-- After an iteration over the lazy tiles of vie.c they may be skipped again.
use my_enseirb_matmeca_proje.Base.{
  true-false, ℕ, ◌+◌, ◌-◌, ◌*◌, ◌/◌, ◌≤◌, ◌<◌, ◌≡◌, ◌⊎◌, refl, sym, ap, ap₂, ◌∙◌, inl, inr, true,
  false, not, ◌==◌, if◌then◌else◌, Bool-cases, arith,
}
use my_enseirb_matmeca_proje.Life.{Images, yellow, interior, swap_images}
use my_enseirb_matmeca_proje.Life.Region.{rule, after, turns}
use my_enseirb_matmeca_proje.Life.Lazy.{
  Lazy, has_changed_tuilee_opti, sweep, vie_init, vie_refresh_img,
}
use my_enseirb_matmeca_proje.Life.Lazy.Around.{
  living_around-same, beside, unmarked_lem, all_marked_lem,
}
use my_enseirb_matmeca_proje.Life.Lazy.Skipping.{InTile, IsStill, sweep-marks}
use my_enseirb_matmeca_proje.Life.Lazy.Ready.{IsSettled, IsReady, sweep-everywhere}

-- A cell that does not turn keeps its colour.
pub quiet-colour :
    (img : ℕ → ℕ → ℕ) (y x : ℕ)
    → (img y x ≡ 0) ⊎ (img y x ≡ yellow)
    → turns img y x ≡ false
    → (if after img y x then yellow else 0) ≡ img y x
unfolding turns
quiet-colour img y x p h = elim (Bool-cases (after img y x)) [
  | inl a ↦ elim p [ inl z ↦ absurd (ground (arith, a, z)) | inr c ↦ rw a (sym c) ]
  | inr a ↦ elim p [ inl z ↦ rw a (sym z) | inr c ↦ absurd (ground (arith, a, c)) ]
]

-- What is the same around a cell gives it the same state.
pub after-same :
    (f g : ℕ → ℕ → ℕ) (y x : ℕ)
    → 0 < y
    → 0 < x
    → ((u v : ℕ) → y ≤ u + 1 → u ≤ y + 1 → x ≤ v + 1 → v ≤ x + 1 → f u v ≡ g u v)
    → after f y x ≡ after g y x
unfolding after
after-same f g y x py px h =
    ap₂ (λ c n. rule (not (c == 0)) n)
      (h y x (omega arith) (omega arith) (omega arith) (omega arith))
      (living_around-same f g y x py px h)

module _ (dim grain : ℕ) (positive : 0 < grain) (fits : dim ≤ grain * (dim / grain) + 2) (l : Lazy)
    (r : IsReady dim grain l) where
  still_lem :
      (i j : ℕ)
      → i < grain
      → j < grain
      → (sweep dim grain l).marks i j ≡ false
      → IsStill dim grain l.images.cur i j
  still_lem i j a b m = elim (Bool-cases (has_changed_tuilee_opti grain l.before i j)) [
    | inl c ↦ (sweep-marks dim grain l i j a b (λ e. (r.skipped i j a b e).0)).0 c m
    | inr c ↦ λ y x t h. ((r.skipped i j a b c).1 y x t h).quiet
  ]

  -- The next image, where nothing changes and on the border.
  kept_cell :
      (y x : ℕ)
      → (interior dim y x ≡ true → turns l.images.cur y x ≡ false)
      → (sweep dim grain l).images.next y x ≡ l.images.cur y x
  kept_cell y x h =
      let c = sweep-everywhere dim grain positive fits l r in
      elim (Bool-cases (interior dim y x)) [
        | inl i ↦ c.next y x ∙ rw i (quiet-colour l.images.cur y x (r.painted y x i) (h i))
        | inr o ↦ c.next y x ∙ rw o (sym (r.border y x o))
      ]

  module _ (i j y x : ℕ) (a : i < grain) (b : j < grain) (t : InTile dim grain i j y x)
      (h : interior dim y x ≡ true)
      (skip : has_changed_tuilee_opti grain (sweep dim grain l).marks i j ≡ false) where
    near_cell :
        (u v : ℕ)
        → y ≤ u + 1
        → u ≤ y + 1
        → x ≤ v + 1
        → v ≤ x + 1
        → (sweep dim grain l).images.next u v ≡ l.images.cur u v
    near_cell u v yu uy xv vx = kept_cell u v (λ inside.
        let (p, lp, rp, top, bottom) =
          beside (dim / grain) grain i y u a t.top t.bottom yu uy (ground arith) in
        let (q, lq, rq, left, right) =
          beside (dim / grain) grain j x v b t.left t.right xv vx (ground arith) in
        still_lem (i + p - 1) (j + q - 1) (ground arith) (ground arith)
          (unmarked_lem grain (sweep dim grain l).marks i j p q lp lq rp rq skip) u v
          (record { top = top; bottom = bottom; left = left; right = right }) inside)

    own_tile : (sweep dim grain l).marks i j ≡ false
    own_tile =
        let ei : i + 1 - 1 ≡ i = omega arith in
        let ej : j + 1 - 1 ≡ j = omega arith in
        ap₂ (sweep dim grain l).marks (sym ei) (sym ej)
        ∙ unmarked_lem grain (sweep dim grain l).marks i j 1 1 (omega arith) (omega arith)
            (ground arith) (ground arith) skip

    swap_images-IsSettled : IsSettled (swap_images (sweep dim grain l).images) y x
    unfolding turns
    swap_images-IsSettled =
        let c = sweep-everywhere dim grain positive fits l r in
        let same = near_cell y x (omega arith) (omega arith) (omega arith) (omega arith) in
        let state = after-same _ _ y x (ground arith) (ground arith) near_cell in
        record {
          next =
              ap (λ f. f y x) c.cur
              ∙ sym same
              ∙ c.next y x
              ∙ rw h (ap (λ b. if b then yellow else 0) (sym state));
          quiet =
              ap₂ (λ b n. if b then n == 0 else not (n == 0)) state same
              ∙ still_lem i j a b own_tile y x t h;
        }

  -- After an iteration and the refresh of the image.
  pub refresh-IsReady : IsReady dim grain (
      vie_refresh_img (record l {
        images = swap_images (sweep dim grain l).images;
        after = (sweep dim grain l).marks;
      }))
  refresh-IsReady =
      let c = sweep-everywhere dim grain positive fits l r in
      record {
        painted = λ y x h. elim (Bool-cases (after l.images.cur y x)) [
          | inl e ↦ inr (c.next y x ∙ rw (h, e) refl)
          | inr e ↦ inl (c.next y x ∙ rw (h, e) refl)
        ];
        border = λ y x h. c.next y x ∙ rw h (sym (r.border y x h) ∙ sym (ap (λ f. f y x) c.cur));
        skipped = λ i j a b skip. (refl, λ y x t h. swap_images-IsSettled i j y x a b t h skip);
      }

pub init-IsReady :
    (dim grain : ℕ) (s : Images)
    → ((y x : ℕ) → interior dim y x ≡ true → (s.cur y x ≡ 0) ⊎ (s.cur y x ≡ yellow))
    → ((y x : ℕ) → interior dim y x ≡ false → s.cur y x ≡ s.next y x)
    → IsReady dim grain (vie_init s)
init-IsReady dim grain s p b = record {
  painted = p;
  border = b;
  skipped = λ i j a c skip. absurd (true-false (sym (all_marked_lem grain i j a c) ∙ skip));
}
