-- ===== src/Kitty/Random.antt =====
-- utils.c of KittyWonderland: `randint` over the stream of what `rand` returns, and the loop by
-- which `shuffle_deck` and `shuffle_hand` shuffle an array.
pub mod Shuffle
use my_enseirb_matmeca_proje.Base.{
  ℕ, zero, suc, ◌+◌, ◌-◌, ◌%◌, ◌≤◌, ◌<◌, ◌≡◌, List, get_or, set, arith,
}

-- The n-th call of `rand` after `srand` returns `draw n`; `used` calls were made.
pub record Rng : Type 0 where
  pub draw : ℕ → ℕ
  pub used : ℕ

pub rand : Rng → ℕ × Rng
rand r = (r.draw r.used, record r { used = r.used + 1 })

-- The calls have `a < b`: at `b - a = 0` the C program would divide by zero.
unfoldable pub randint : ℕ → ℕ → Rng → ℕ × Rng
unfolding rand
randint a b r = let (n, r') = rand r in (n % (b - a) + a, r')

pub randint_range : (a b : ℕ) (r : Rng) → a < b → (a ≤ (randint a b r).0) × ((randint a b r).0 < b)
unfolding randint
randint_range a b r h = grind arith

module _ {ℓ} {A : Type ℓ} (d : A) where
  -- `tmp = t[i]; t[i] = t[j]; t[j] = tmp`. The default `d` is what a read out of range gives.
  abbrev pub swap : ℕ → ℕ → List A → List A
  swap i j t = set (set t i (get_or t j d)) j (get_or t i d)

  -- The last `k` of the `size` rounds of a shuffle, from the round for index `i` on.
  unfoldable pub shuffle_from : ℕ → ℕ → ℕ → List A → Rng → List A × Rng
  shuffle_from size zero i t r = (t, r)
  shuffle_from size (suc k) i t r =
      let (j, r') = randint 0 size r in shuffle_from size k (i + 1) (swap i j t) r'
