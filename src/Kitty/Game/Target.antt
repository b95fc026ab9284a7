-- ===== src/Kitty/Game/Target.antt =====
-- The loop by which `apply_card` of game.c draws a target.
use my_enseirb_matmeca_proje.Base.{
  ℕ, zero, suc, ◌+◌, ◌%◌, ◌<◌, ◌≡◌, ◌≢◌, ◌∙◌, ap, inl, inr, some, ◌==◌, arith, Bool-cases, subst,
}
use my_enseirb_matmeca_proje.Kitty.Random.{Rng, randint}
use my_enseirb_matmeca_proje.Kitty.Entity.{Game, size}
use my_enseirb_matmeca_proje.Kitty.Game.{pick_target}

-- A draw that hits another entity within the fuel.
data Hits (e : ℕ) (g : Game) : ℕ → Rng → Type 0 where
  now : {fuel : ℕ} {r : Rng} → g.entities (randint 0 (size g) r).0 ≢ e → Hits e g (suc fuel) r
  later : {fuel : ℕ} {r : Rng} → Hits e g fuel (randint 0 (size g) r).1 → Hits e g (suc fuel) r

pick_target-total :
    (fuel e : ℕ) (g : Game) (r : Rng)
    → Hits e g fuel r
    → (t : ℕ) × (r' : Rng) × (pick_target fuel e g r ≡ some (t, r')) × (t ≢ e)
unfolding pick_target
pick_target-total zero e g r h = elim h [ ]
pick_target-total (suc fuel) e g r (now ne) =
    (g.entities (randint 0 (size g) r).0, (randint 0 (size g) r).1, ground arith, ne)
pick_target-total (suc fuel) e g r (later h) =
    let (t, r', e', ne) = pick_target-total fuel e g (randint 0 (size g) r).1 h in
    elim (Bool-cases (g.entities (randint 0 (size g) r).0 == e)) [
      | inl same ↦ (t, r', rw same e', ne)
      | inr other ↦
          (g.entities (randint 0 (size g) r).0, (randint 0 (size g) r).1, rw other, ground arith)
    ]

Hits-at :
    (n fuel e : ℕ) (g : Game) (r : Rng)
    → n < fuel
    → g.entities (r.draw (r.used + n) % size g) ≢ e
    → Hits e g fuel r
unfolding randint
Hits-at n zero e g r lt ne = absurd (omega arith)
Hits-at zero (suc fuel) e g r lt ne =
    let here : r.draw (r.used + 0) % size g ≡ (randint 0 (size g) r).0 = ground arith in
    now (λ same. ne (ap g.entities here ∙ same))
Hits-at (suc n) (suc fuel) e g r lt ne =
    let next : r.used + suc n ≡ r.used + 1 + n = omega arith in
    later (
      Hits-at n fuel e g (randint 0 (size g) r).1 (omega arith)
        (subst (λ k. g.entities (r.draw k % size g) ≢ e) next ne))

-- A number is drawn, in time, at whose place another entity stands.
pub pick_target-returns :
    (n fuel e : ℕ) (g : Game) (r : Rng)
    → n < fuel
    → g.entities (r.draw (r.used + n) % size g) ≢ e
    → (t : ℕ) × (r' : Rng) × (pick_target fuel e g r ≡ some (t, r')) × (t ≢ e)
pick_target-returns n fuel e g r lt ne = pick_target-total fuel e g r (Hits-at n fuel e g r lt ne)
