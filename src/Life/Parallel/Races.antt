-- ===== src/Life/Parallel/Races.antt =====
-- The loop over the iterations of vie.c when threads race for the variable `change`.
use my_enseirb_matmeca_proje.Base.{
  ℕ, zero, suc, ◌+◌, ◌≤◌, ◌<◌, ◌≡◌, ◌⊎◌, inl, inr, refl, ap, ◌∙◌, Bool, true, ◌&&◌, ◌==◌,
  if◌then◌else◌, Bool-cases, arith,
}
use my_enseirb_matmeca_proje.Life.{Images, swap_images, iterate}
use my_enseirb_matmeca_proje.Life.Parallel.{race_loop}

abbrev pub always : ℕ → Bool
always it = true

-- What the sequential loop does.
pub iterate-race_loop :
    (generation : Images → Images × Bool) (k it : ℕ) (s : Images)
    → iterate generation k it s
      ≡ race_loop (λ n t. (swap_images (generation t).0, (generation t).1)) always k it s
unfolding iterate race_loop
iterate-race_loop generation zero it s = refl
iterate-race_loop generation (suc k) it s = elim (Bool-cases (generation s).1) [
  | inl c ↦
      rw (iterate, race_loop, c)
        (iterate-race_loop generation k (it + 1) (swap_images (generation s).0))
  | inr c ↦ rw (iterate, race_loop, c) refl
]

module _ {ℓ} {S : Type ℓ} (body : S → S × Bool) (kept : ℕ → Bool) where
  -- After `n` iterations of `k`, from iteration `it` on.
  record Stopped (k it : ℕ) (s : S) (r : S × ℕ) : Type ℓ where
    after : ℕ
    same : r.0 ≡ (race_loop (λ n. body) always after it s).0
    number : ((r.1 ≡ 0) × (after ≡ k)) ⊎ ((suc r.1 ≡ it + after) × (0 < after))
    within : after ≤ k

  race_loop-Stopped : (k it : ℕ) (s : S) → Stopped k it s (race_loop (λ n. body) kept k it s)
  unfolding race_loop
  race_loop-Stopped zero it s = record {
    after = 0;
    same = refl;
    number = inl (refl, refl);
    within = omega arith;
  }
  race_loop-Stopped (suc k) it s = elim (Bool-cases ((body s).1 && kept it)) [
    | inl h ↦
        let c : (body s).1 ≡ true = ground arith in
        let rest = race_loop-Stopped k (it + 1) (body s).0 in
        rw (race_loop, h)
          record {
            after = suc rest.after;
            same = rw (race_loop, c) rest.same;
            number = ground (arith, rest.number);
            within = omega (arith, rest.within);
          }
    | inr h ↦
        rw (race_loop, h)
          record {
            after = 1;
            same = elim (Bool-cases (body s).1) [
              | inl c ↦ rw (race_loop, c) refl
              | inr c ↦ rw (race_loop, c) refl
            ];
            number = inr (omega arith, omega arith);
            within = omega arith;
          }
  ]

  -- The iterations that a result reports.
  abbrev pub reported : ℕ → ℕ → ℕ
  reported nb_iter n = if n == 0 then nb_iter else n

  -- Whatever is lost, the result is that of the sequential loop for as many iterations as are
  -- reported.
  pub race_loop-reported :
      (nb_iter : ℕ) (s : S)
      → let r = race_loop (λ n. body) kept nb_iter 1 s in
        (reported nb_iter r.1 ≤ nb_iter)
        × (r.0 ≡ (race_loop (λ n. body) always (reported nb_iter r.1) 1 s).0)
  race_loop-reported nb_iter s =
      let r : S × ℕ = race_loop (λ n. body) kept nb_iter 1 s in
      let t = race_loop-Stopped nb_iter 1 s in
      let e : t.after ≡ reported nb_iter r.1 = ground (arith, t.number) in
      (omega (arith, e, t.within), t.same ∙ ap (λ n. (race_loop (λ m. body) always n 1 s).0) e)

  pub race_loop-always :
      ((it : ℕ) → kept it ≡ true)
      → (k it : ℕ) (s : S) → race_loop (λ n. body) kept k it s ≡ race_loop (λ n. body) always k it s
  unfolding race_loop
  race_loop-always h zero it s = refl
  race_loop-always h (suc k) it s = elim (Bool-cases (body s).1) [
    | inl c ↦ rw (race_loop, c, h it) (race_loop-always h k (it + 1) (body s).0)
    | inr c ↦ rw (race_loop, c) refl
  ]
