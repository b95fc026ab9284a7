-- ===== src/Life/Lazy/Parallel/Commuting.antt =====
-- Two lazy tiles of vie.c may be looked at in either order.
use mathlib.Core.Path.{fun_ext}
use my_enseirb_matmeca_proje.Base.{
  ℕ, ◌≡◌, ap, ap₂, subst, refl, sym, ◌∙◌, inl, inr, Bool, true, ◌&&◌, ◌||◌, ◌==◌, if◌then◌else◌,
  Bool-cases, arith,
}
use my_enseirb_matmeca_proje.Life.{Images}
use my_enseirb_matmeca_proje.Life.Region.{Turns, Computes, Computes-then, Computes-eq, true_iff-eq}
use my_enseirb_matmeca_proje.Life.Lazy.{Marks, Sweep, has_changed_tuilee_opti, visit}
use my_enseirb_matmeca_proje.Life.Lazy.Skipping.{
  tile_at, compute_tile, compute_tile-Computes, visited, visit_images, visit_images-Computes,
  visit-visit_images, of_sweep,
}

abbrev images_change : Sweep → Images × Bool
images_change w = (w.images, w.change)

Sweep-eq : (v w : Sweep) → images_change v ≡ images_change w → v.marks ≡ w.marks → v ≡ w
Sweep-eq v w e f = ap₂ (λ p m. record { images = p.0; marks = m; change = p.1 }) e f

module _ (dim grain : ℕ) where
  -- Whether a tile changes depends on the current image alone.
  change_of :
      (i j : ℕ) (s t : Images)
      → t.cur ≡ s.cur
      → (compute_tile dim grain i j s).1 ≡ true
      → (compute_tile dim grain i j t).1 ≡ true
  change_of i j s t e h = elim ((compute_tile-Computes dim grain i j s).change.0 h) [
    | inl c ↦ absurd cc
    | inr w ↦
        (compute_tile-Computes dim grain i j t).change.1
          (inr (subst (Turns dim (tile_at dim grain i j)) (sym e) w))
  ]

  change_same :
      (i j : ℕ) (s t : Images)
      → t.cur ≡ s.cur
      → (compute_tile dim grain i j t).1 ≡ (compute_tile dim grain i j s).1
  change_same i j s t e = true_iff-eq _ _ (change_of i j t s (sym e)) (change_of i j s t e)

  module _ (before : Marks) where
    abbrev go : ℕ → ℕ → Sweep → Sweep
    go = visit dim grain before

    -- Whether the mark of row `a` and column `b` is written.
    abbrev writes : ℕ → ℕ → ℕ → ℕ → Bool
    writes i j a b = has_changed_tuilee_opti grain before i j && (a == i && b == j)

    visit-mark :
        (i j a b : ℕ) (w : Sweep)
        → (go i j w).marks a b
          ≡ (if writes i j a b then (compute_tile dim grain i j w.images).1 else w.marks a b)
    unfolding visit
    visit-mark i j a b w = elim (Bool-cases (has_changed_tuilee_opti grain before i j)) [
      | inl h ↦ rw (visit, h) refl
      | inr h ↦ rw (visit, h) refl
    ]

    visit-cur : (i j : ℕ) (w : Sweep) → (go i j w).images.cur ≡ w.images.cur
    visit-cur i j w =
        ap (λ t. t.0.cur) (visit-visit_images dim grain before i j w)
        ∙ (visit_images-Computes dim grain before i j (w.images, w.change)).cur

    images-commute :
        (i j k l : ℕ) (w : Sweep)
        → of_sweep dim grain before (go k l (go i j w))
          ≡ of_sweep dim grain before (go i j (go k l w))
    images-commute i j k l w =
        twice i j k l
        ∙ Computes-eq (steps i j k l) (steps k l i j) (λ y x h. ground arith)
        ∙ sym (twice k l i j)
      where
        s : Images × Bool
        s = (w.images, w.change)

        twice :
            (i j k l : ℕ)
            → of_sweep dim grain before (go k l (go i j w))
              ≡ visit_images dim grain before k l (visit_images dim grain before i j s)
        twice i j k l =
            visit-visit_images dim grain before k l (go i j w)
            ∙ ap (visit_images dim grain before k l) (visit-visit_images dim grain before i j w)

        steps :
            (i j k l : ℕ)
            → Computes dim
                (λ y x. visited dim grain before i j y x || visited dim grain before k l y x)
                s
                (visit_images dim grain before k l (visit_images dim grain before i j s))
        steps i j k l =
            Computes-then (visit_images-Computes dim grain before i j s)
              (visit_images-Computes dim grain before k l (visit_images dim grain before i j s))

    mark-twice :
        (i j k l a b : ℕ) (w : Sweep)
        → (go k l (go i j w)).marks a b ≡ (
            if writes k l a b
            then (compute_tile dim grain k l w.images).1
            else if writes i j a b
            then (compute_tile dim grain i j w.images).1
            else w.marks a b)
    mark-twice i j k l a b w =
        visit-mark k l a b (go i j w)
        ∙ ap₂ (λ c m. if writes k l a b then c else m)
            (change_same k l w.images (go i j w).images (visit-cur i j w)) (visit-mark i j a b w)

    marks-commute :
        (i j k l a b : ℕ) (w : Sweep)
        → (go k l (go i j w)).marks a b ≡ (go i j (go k l w)).marks a b
    marks-commute i j k l a b w = mark-twice i j k l a b w ∙ either ∙ sym (mark-twice k l i j a b w)
      where
        c : ℕ → ℕ → Bool
        c i j = (compute_tile dim grain i j w.images).1

        either :
            (if writes k l a b then c k l else if writes i j a b then c i j else w.marks a b)
            ≡ (if writes i j a b then c i j else if writes k l a b then c k l else w.marks a b)
        either = elim (Bool-cases (writes i j a b)) [
          | inl e ↦ elim (Bool-cases (writes k l a b)) [
            | inl f ↦
                let same_row : k ≡ i = ground arith in
                let same_column : l ≡ j = ground arith in rw (e, f) (ap₂ c same_row same_column)
            | inr f ↦ rw (e, f) refl
          ]
          | inr e ↦ rw e refl
        ]

    pub visit-commute : (i j k l : ℕ) (w : Sweep) → go k l (go i j w) ≡ go i j (go k l w)
    visit-commute i j k l w =
        Sweep-eq _ _ (images-commute i j k l w)
          (fun_ext (λ a. fun_ext (λ b. marks-commute i j k l a b w)))
