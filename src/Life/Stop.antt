-- ===== src/Life/Stop.antt =====
-- When the loop over the iterations stops, and what it returns.
use my_enseirb_matmeca_proje.Base.{
  ℕ, zero, suc, ◌+◌, ◌-◌, ◌<◌, ◌≡◌, ◌⊎◌, inl, inr, refl, ap, ◌∙◌, Bool, true, false, Bool-cases,
  arith,
}
use my_enseirb_matmeca_proje.Life.{
  Images, traiter_tuile_basic, swap_images, iterate, vie_compute_seq_basic,
}

-- The images after `n` iterations.
pub run : (Images → Images × Bool) → ℕ → Images → Images
run generation zero s = s
run generation (suc n) s = run generation n (swap_images (generation s).0)

module _ (generation : Images → Images × Bool) where
  -- The first `n` iterations all report a change.
  abbrev pub Busy : ℕ → Images → Type 0
  Busy n s = (i : ℕ) → i < n → (generation (run generation i s)).1 ≡ true

  -- The result of a loop of `k` iterations from iteration `it` on.
  abbrev pub Stops : ℕ → ℕ → Images → Images × ℕ → Type 0
  Stops k it s r =
      ((r ≡ (run generation k s, 0)) × Busy k s)
      ⊎ ((j : ℕ) × (j < k)
          × (r ≡ (run generation (suc j) s, it + j))
          × ((generation (run generation j s)).1 ≡ false)
          × Busy j s)

  Busy-suc :
      (n : ℕ) (s : Images)
      → (generation s).1 ≡ true
      → Busy n (swap_images (generation s).0)
      → Busy (suc n) s
  unfolding run
  Busy-suc n s h b zero lt = h
  Busy-suc n s h b (suc i) lt = b i (omega arith)

  iterate-Stops : (k it : ℕ) (s : Images) → Stops k it s (iterate generation k it s)
  unfolding iterate run
  iterate-Stops zero it s = inl (refl, λ i h. absurd (omega arith))
  iterate-Stops (suc k) it s = elim (Bool-cases (generation s).1) [
    | inl c ↦ rw c (elim (iterate-Stops k (it + 1) (swap_images (generation s).0)) [
      | inl (e, b) ↦ inl (e, Busy-suc k s c b)
      | inr (j, lt, e, f, b) ↦ inr (
        suc j,
        omega arith,
        e ∙ ap (λ n. (run generation (suc j) (swap_images (generation s).0), n)) (omega arith),
        f,
        Busy-suc j s c b,
      )
    ])
    | inr c ↦ rw c (
        inr (
          0,
          omega arith,
          ap (λ n. (swap_images (generation s).0, n)) (omega arith),
          c,
          λ i h. absurd (omega arith),
        ))
  ]

-- The basic version returns 0 when each of its `nb_iter` iterations changed a cell, with the images
-- after all of them. Otherwise it stops after the first iteration that changes none, with the images
-- after that iteration, and returns its number, counted from 1.
pub vie_compute_seq_basic_lem :
    (dim nb_iter : ℕ) (s : Images)
    → Stops
        (traiter_tuile_basic dim 0 0 (dim - 1) (dim - 1))
        nb_iter
        1
        s
        (vie_compute_seq_basic dim nb_iter s)
unfolding vie_compute_seq_basic
vie_compute_seq_basic_lem dim nb_iter s =
    iterate-Stops (traiter_tuile_basic dim 0 0 (dim - 1) (dim - 1)) nb_iter 1 s
