-- ===== src/Life/Lazy/Loops.antt =====
-- What holds after a loop `for`.
use my_enseirb_matmeca_proje.Base.{
  ℕ, zero, suc, ◌+◌, ◌≤◌, ◌<◌, ◌≡◌, refl, ap, ◌∙◌, arith, ℕ_discrete,
}
use my_enseirb_matmeca_proje.Life.{for_from}

-- What every round keeps.
pub for_from-keeps {ℓ κ} :
    {S : Type ℓ} (P : S → Type κ) (body : ℕ → S → S)
    → ((i : ℕ) (s : S) → P s → P (body i s))
    → (k i : ℕ) (s : S) → P s
    → P (for_from body k i s)
unfolding for_from
for_from-keeps P body h zero i s p = p
for_from-keeps P body h (suc k) i s p = for_from-keeps P body h k (i + 1) (body i s) (h i s p)

-- What one round brings about, and the others keep.
pub for_from-reaches {ℓ κ μ} :
    {S : Type ℓ} (P : S → Type κ) (Q : S → Type μ) (body : ℕ → S → S) (a : ℕ)
    → ((i : ℕ) (s : S) → P s → P (body i s))
    → ((s : S) → P s → Q (body a s))
    → ((i : ℕ) (s : S) → Q s → Q (body i s))
    → (k i : ℕ) (s : S) → i ≤ a
    → a < i + k
    → P s
    → Q (for_from body k i s)
unfolding for_from
for_from-reaches P Q body a h r g zero i s lo hi p = absurd (omega arith)
for_from-reaches P Q body a h r g (suc k) i s lo hi p = elim (ℕ_discrete i a) [
  | yes e ↦ for_from-keeps Q body g k (i + 1) (body i s) (rw e (r s p))
  | no ne ↦
      for_from-reaches P Q body a h r g k (i + 1) (body i s) (omega arith) (omega arith) (h i s p)
]

-- A part of the state goes through the same loop.
pub for_from-map {ℓ κ} :
    {S : Type ℓ} {T : Type κ} (f : S → T) (body : ℕ → S → S) (part : ℕ → T → T)
    → ((i : ℕ) (s : S) → f (body i s) ≡ part i (f s))
    → (k i : ℕ) (s : S) → f (for_from body k i s) ≡ for_from part k i (f s)
unfolding for_from
for_from-map f body part h zero i s = refl
for_from-map f body part h (suc k) i s =
    for_from-map f body part h k (i + 1) (body i s) ∙ ap (for_from part k (i + 1)) (h i s)

pub for_from-same {ℓ} :
    {S : Type ℓ} (body other : ℕ → S → S) (k i : ℕ) (s : S)
    → ((j : ℕ) (t : S) → i ≤ j → j < i + k → body j t ≡ other j t)
    → for_from body k i s ≡ for_from other k i s
unfolding for_from
for_from-same body other zero i s h = refl
for_from-same body other (suc k) i s h =
    ap (for_from body k (i + 1)) (h i s (omega arith) (omega arith))
    ∙ for_from-same body other k (i + 1) (other i s)
        (λ j t lo hi. h j t (omega arith) (omega arith))
