-- ===== src/Kitty/Board/Cells.antt =====
-- Cells of the board of board.c: their equality, `mod`, and neighbours.
use my_enseirb_matmeca_proje.Base.{
  ℕ, ◌+◌, ◌-◌, ◌%◌, ◌<◌, ◌≡◌, refl, true, false, List, [], ◌∷◌, ◌++◌, ◌||◌, arith,
}
use my_enseirb_matmeca_proje.Base.Int.{
  ℤ, pos, negsuc, ◌+ℤ◌, ◌-ℤ◌, ◌≤ℤ◌, ◌<ℤ◌, eq_of_parts, +ℤ_parts,
}
use my_enseirb_matmeca_proje.Kitty.Board.{Cell, board_size, mod_into, cell_eq, in_cells, neighbours}

infix 40 ◌∈◌ ◌∉◌
abbrev pub ◌∈◌ : Cell → List Cell → Type 0
c ∈ cells = in_cells c cells ≡ true

abbrev pub ◌∉◌ : Cell → List Cell → Type 0
c ∉ cells = in_cells c cells ≡ false

pub cell_path : (c d : Cell) → c.x ≡ d.x → c.y ≡ d.y → c ≡ d
cell_path c d p q = λ i. record { x = p i; y = q i }

pub cell_eq→eq : (c d : Cell) → cell_eq c d ≡ true → c ≡ d
cell_eq→eq c d h =
    cell_path c d (eq_of_parts c.x d.x (ground arith)) (eq_of_parts c.y d.y (ground arith))

pub cell_eq_refl : (c : Cell) → cell_eq c c ≡ true
cell_eq_refl c = ground arith

pub mem-append :
    (c : Cell) (xs ys : List Cell) → in_cells c (xs ++ ys) ≡ (in_cells c xs || in_cells c ys)
unfolding in_cells
mem-append c [] ys = refl
mem-append c (x ∷ xs) ys = ground (arith, mem-append c xs ys)

pub mem-snoc :
    (c d : Cell) (xs : List Cell) → in_cells c (xs ++ d ∷ []) ≡ (in_cells c xs || cell_eq d c)
unfolding in_cells
mem-snoc c d [] = ground arith
mem-snoc c d (x ∷ xs) = ground (arith, mem-snoc c d xs)

-- An index of the board.
abbrev pub InBoard : ℤ → Type 0
InBoard a = (pos 0 ≤ℤ a) × (a <ℤ pos board_size)

-- After a step of one in either direction, `mod` brings an index back into the board, and leaves
-- one that is still inside it alone.
pub mod_into-InBoard :
    (a : ℤ) → negsuc 0 ≤ℤ a → a ≤ℤ pos board_size → InBoard (mod_into a board_size)
unfolding mod_into ◌+ℤ◌ ◌-ℤ◌
mod_into-InBoard a lo hi = ground arith

pub mod_into-inside : (a : ℤ) → InBoard a → mod_into a board_size ≡ a
unfolding mod_into ◌+ℤ◌ ◌-ℤ◌
mod_into-inside a h = ground arith

pub record IsOnBoard (c : Cell) : Type 0 where
  pub x_in : InBoard c.x
  pub y_in : InBoard c.y

abbrev pub AllOnBoard : List Cell → Type 0
AllOnBoard [] = Unit
AllOnBoard (c ∷ cs) = IsOnBoard c × AllOnBoard cs

shift-InBoard :
    (a : ℤ)
    → InBoard a
    → InBoard (mod_into (a +ℤ negsuc 0) board_size) × InBoard (mod_into (a +ℤ pos 1) board_size)
shift-InBoard a h = (
  mod_into-InBoard (a +ℤ negsuc 0) (omega (arith, +ℤ_parts a (negsuc 0)))
      (omega (arith, +ℤ_parts a (negsuc 0))),
  mod_into-InBoard (a +ℤ pos 1) (omega (arith, +ℤ_parts a (pos 1)))
      (omega (arith, +ℤ_parts a (pos 1))),
)

pub neighbours-AllOnBoard : (c : Cell) → IsOnBoard c → AllOnBoard (neighbours c)
unfolding neighbours
neighbours-AllOnBoard c h =
    let (xm, xp) = shift-InBoard c.x h.x_in in
    let (ym, yp) = shift-InBoard c.y h.y_in in
    (
      record { x_in = xm; y_in = h.y_in },
      (
        record { x_in = h.x_in; y_in = ym },
        (record { x_in = xp; y_in = h.y_in }, (record { x_in = h.x_in; y_in = yp }, tt)),
      ),
    )

-- One step in either direction from an index of the board, then `mod`, is a step round a circle of
-- 50 places.
pub mod_into-torus :
    (a : ℕ)
    → a < board_size
    → (mod_into (pos a +ℤ pos 1) board_size ≡ pos ((a + 1) % board_size))
      × (mod_into (pos a +ℤ negsuc 0) board_size ≡ pos ((a + (board_size - 1)) % board_size))
unfolding mod_into ◌+ℤ◌ ◌-ℤ◌
mod_into-torus a h = ground arith
