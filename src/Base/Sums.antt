-- ===== src/Base/Sums.antt =====
-- Sums over the first places of an array, and a sum when the last place is moved to another.
use Prim.Native.Nat.{ℕ, zero, suc, ◌+◌, ◌≤◌, ◌<◌}
use mathlib.Core.Path.{◌≡◌, refl}
use native.Mathlib.Omega.{arith}
use native.Mathlib.Decide.{dec_lt}
use my_enseirb_matmeca_proje.Base.Lists.{update}

unfoldable pub total : (ℕ → ℕ) → ℕ → ℕ
total w zero = 0
total w (suc n) = total w n + w n

pub total-ext : (w v : ℕ → ℕ) (n : ℕ) → ((i : ℕ) → i < n → w i ≡ v i) → total w n ≡ total v n
unfolding total
total-ext w v zero h = refl
total-ext w v (suc n) h =
    omega (arith, total-ext w v n (λ i lt. h i (omega arith)), h n (omega arith))

total-update_of_le : (w : ℕ → ℕ) (n i a : ℕ) → n ≤ i → total (update w i a) n ≡ total w n
unfolding total
total-update_of_le w zero i a h = refl
total-update_of_le w (suc n) i a h = ground (arith, total-update_of_le w n i a)

pub total-update : (w : ℕ → ℕ) (n i a : ℕ) → i < n → total (update w i a) n + w i ≡ total w n + a
unfolding total
total-update w zero i a h = absurd (omega arith)
total-update w (suc n) i a h = elim (dec_lt i n) [
  | yes below ↦ ground (arith, total-update w n i a below)
  | no last ↦ ground (arith, total-update_of_le w n i a)
]

pub le-total : (w : ℕ → ℕ) (n i : ℕ) → i < n → w i ≤ total w n
unfolding total
le-total w zero i h = absurd (omega arith)
le-total w (suc n) i h = elim (dec_lt i n) [
  | yes below ↦ omega (arith, le-total w n i below)
  | no last ↦ let e : i ≡ n = omega arith in rw e (omega arith)
]

-- The last place is moved to place `i`, and dropped.
pub total-drop : (w : ℕ → ℕ) (n i : ℕ) → i ≤ n → total (update w i (w n)) n + w i ≡ total w (suc n)
unfolding total
total-drop w n i h = elim (dec_lt i n) [
  | yes below ↦ omega (arith, total-update w n i (w n) below)
  | no last ↦ let e : i ≡ n = omega arith in rw e (omega (arith, total-update_of_le w n n (w n)))
]
