-- ===== src/Kitty/Random/Shuffle.antt =====
-- The loop of `shuffle_deck` and `shuffle_hand`: what an array holds before and after.
use my_enseirb_matmeca_proje.Base.{
  ℕ, zero, suc, ◌+◌, ◌≤◌, ◌<◌, ◌≡◌, refl, Bool, List, length, length-set, count_if, count_if-set,
  get_or, set, get_or-set_self, get_or-set_ne, if◌then◌else◌, arith, ℕ_discrete, ◌∙◌,
}
use my_enseirb_matmeca_proje.Kitty.Random.{Rng, randint, randint_range, swap, shuffle_from}

module _ {ℓ} {A : Type ℓ} (d : A) where
  pub length-swap : (i j : ℕ) (t : List A) → length (swap d i j t) ≡ length t
  length-swap i j t =
      length-set (set t i (get_or t j d)) j (get_or t i d) ∙ length-set t i (get_or t j d)

  get_or-set :
      (xs : List A) (i j : ℕ)
      → i < length xs
      → get_or (set xs i (get_or xs j d)) j d ≡ get_or xs j d
  get_or-set xs i j h = elim (ℕ_discrete i j) [
    | yes e ↦ rw (← e) (get_or-set_self xs i (get_or xs i d) d h)
    | no ne ↦ get_or-set_ne xs i j (get_or xs j d) d ne
  ]

  pub count_if-swap :
      (p : A → Bool) (i j : ℕ) (t : List A)
      → i < length t
      → j < length t
      → count_if p (swap d i j t) ≡ count_if p t
  count_if-swap p i j t hi hj = omega (arith, first, second)
    where
      first :
          count_if p (set t i (get_or t j d)) + (if p (get_or t i d) then 1 else 0)
          ≡ count_if p t + (if p (get_or t j d) then 1 else 0)
      first = count_if-set p t i (get_or t j d) d hi

      second :
          count_if p (swap d i j t) + (if p (get_or t j d) then 1 else 0)
          ≡ count_if p (set t i (get_or t j d)) + (if p (get_or t i d) then 1 else 0)
      second = rw (get_or-set t i j hi) at (
          count_if-set p (set t i (get_or t j d)) j (get_or t i d) d
            (omega (arith, length-set t i (get_or t j d))))

  pub length-shuffle_from :
      (size k i : ℕ) (t : List A) (r : Rng) → length (shuffle_from d size k i t r).0 ≡ length t
  unfolding shuffle_from
  length-shuffle_from size zero i t r = refl
  length-shuffle_from size (suc k) i t r =
      length-shuffle_from size k (i + 1) (swap d i (randint 0 size r).0 t) (randint 0 size r).1
      ∙ length-swap i (randint 0 size r).0 t

  -- However the random numbers fall, a shuffle of a whole array only permutes it: of every kind
  -- there are as many elements after it as before.
  pub count_if-shuffle_from :
      (p : A → Bool) (size k i : ℕ) (t : List A) (r : Rng)
      → length t ≡ size
      → i + k ≤ size
      → count_if p (shuffle_from d size k i t r).0 ≡ count_if p t
  unfolding shuffle_from
  count_if-shuffle_from p size zero i t r e h = refl
  count_if-shuffle_from p size (suc k) i t r e h =
      count_if-shuffle_from p size k (i + 1) (swap d i j t) (randint 0 size r).1
        (length-swap i j t ∙ e) (omega arith)
      ∙ count_if-swap p i j t (omega arith) (omega (arith, randint_range 0 size r (omega arith)))
    where
      j : ℕ
      j = (randint 0 size r).0
