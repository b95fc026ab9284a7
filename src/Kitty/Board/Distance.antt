-- ===== src/Kitty/Board/Distance.antt =====
-- `distance` of board.c, on the torus.
use my_enseirb_matmeca_proje.Base.{ℕ, ◌+◌, ◌-◌, ◌<◌, ◌≡◌, ap₂, refl, ◌↔◌, arith, min, subst}
use my_enseirb_matmeca_proje.Base.Int.{ℤ, pos, negsuc, ◌+ℤ◌, ◌-ℤ◌, ◌≤ℤ◌, ◌<ℤ◌, int_laws}
use my_enseirb_matmeca_proje.Kitty.Board.{Cell, one_axe_distance, distance, board_size}
use my_enseirb_matmeca_proje.Kitty.Board.Cells.{InBoard, IsOnBoard, cell_path}

-- The number of steps from one index of the board to another round the circle, the shorter way.
abbrev pub steps_round : ℕ → ℕ → ℕ
steps_round m n = min (m - n + (n - m)) (board_size - (m - n + (n - m)))

one_axe_lem :
    (m n : ℕ)
    → m < board_size
    → n < board_size
    → one_axe_distance (pos m) (pos n) ≡ pos (steps_round m n)
unfolding one_axe_distance ◌+ℤ◌ ◌-ℤ◌
one_axe_lem m n hm hn = ground arith

one_axe_bounds :
    (a b : ℤ)
    → InBoard a
    → InBoard b
    → (pos 0 ≤ℤ one_axe_distance a b) × (one_axe_distance a b ≤ℤ pos 25)
one_axe_bounds (pos m) (pos n) ha hb =
    rw (one_axe_lem m n (omega arith) (omega arith)) (omega arith, omega arith)
one_axe_bounds (pos m) (negsuc n) ha hb = absurd (omega arith)
one_axe_bounds (negsuc m) b ha hb = absurd (omega arith)

one_axe_comm : (a b : ℤ) → one_axe_distance a b ≡ one_axe_distance b a
unfolding one_axe_distance ◌+ℤ◌ ◌-ℤ◌
one_axe_comm a b = ground arith

one_axe_zero : (a b : ℤ) → InBoard a → InBoard b → one_axe_distance a b ≤ℤ pos 0 → a ≡ b
unfolding one_axe_distance ◌+ℤ◌ ◌-ℤ◌
one_axe_zero a b ha hb h = ground arith

one_axe_self : (a : ℤ) → InBoard a → one_axe_distance a a ≡ pos 0
unfolding one_axe_distance ◌+ℤ◌ ◌-ℤ◌
one_axe_self a h = ground arith

one_axe_triangle :
    (a b c : ℤ)
    → InBoard a
    → InBoard b
    → InBoard c
    → one_axe_distance a c ≤ℤ one_axe_distance a b +ℤ one_axe_distance b c
one_axe_triangle (pos m) (pos n) (pos o) ha hb hc =
    rw
      (
        one_axe_lem m n (omega arith) (omega arith),
        one_axe_lem n o (omega arith) (omega arith),
        one_axe_lem m o (omega arith) (omega arith),
      )
      (triangle m n o (omega arith) (omega arith) (omega arith))
  where
    triangle :
        (m n o : ℕ)
        → m < board_size
        → n < board_size
        → o < board_size
        → pos (steps_round m o) ≤ℤ pos (steps_round m n) +ℤ pos (steps_round n o)
    triangle m n o hm hn ho = omega int_laws
one_axe_triangle (negsuc m) b c ha hb hc = absurd (omega arith)
one_axe_triangle (pos m) (negsuc n) c ha hb hc = absurd (omega arith)
one_axe_triangle (pos m) (pos n) (negsuc o) ha hb hc = absurd (omega arith)

-- Between cells of the board `distance` is a metric, and at most 50: no cell is at distance
-- BOARD_SIZE + 1, with which the search for the nearest cell starts.
pub distance-metric :
    (c d e : Cell)
    → IsOnBoard c
    → IsOnBoard d
    → IsOnBoard e
    → (distance c d ≡ distance d c)
      × ((distance c d ≡ pos 0) ↔ (c ≡ d))
      × (distance c e ≤ℤ distance c d +ℤ distance d e)
      × (distance c d <ℤ pos (board_size + 1))
unfolding distance
distance-metric c d e hc hd he = (
  ap₂ ◌+ℤ◌ (one_axe_comm c.x d.x) (one_axe_comm c.y d.y),
  (
    λ h.
        cell_path c d (one_axe_zero c.x d.x hc.x_in hd.x_in (omega (int_laws, bx, by, sum h)))
          (one_axe_zero c.y d.y hc.y_in hd.y_in (omega (int_laws, bx, by, sum h))),
    λ h. subst (λ k. one_axe_distance c.x k.x +ℤ one_axe_distance c.y k.y ≡ pos 0) h self,
  ),
  omega (
    int_laws,
    one_axe_triangle c.x d.x e.x hc.x_in hd.x_in he.x_in,
    one_axe_triangle c.y d.y e.y hc.y_in hd.y_in he.y_in,
  ),
  omega (int_laws, bx, by),
)
  where
    bx : (pos 0 ≤ℤ one_axe_distance c.x d.x) × (one_axe_distance c.x d.x ≤ℤ pos 25)
    bx = one_axe_bounds c.x d.x hc.x_in hd.x_in

    by : (pos 0 ≤ℤ one_axe_distance c.y d.y) × (one_axe_distance c.y d.y ≤ℤ pos 25)
    by = one_axe_bounds c.y d.y hc.y_in hd.y_in

    sum :
        one_axe_distance c.x d.x +ℤ one_axe_distance c.y d.y ≡ pos 0
        → one_axe_distance c.x d.x +ℤ one_axe_distance c.y d.y ≤ℤ pos 0
    sum h = rw h (omega arith)

    self : one_axe_distance c.x c.x +ℤ one_axe_distance c.y c.y ≡ pos 0
    self = rw (one_axe_self c.x hc.x_in, one_axe_self c.y hc.y_in) (unfold ◌+ℤ◌ in refl)
