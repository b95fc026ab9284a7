-- ===== src/Kitty/Board/Nearest.antt =====
-- The choice of a friend's move in `choose_friend_move` of board.c.
use my_enseirb_matmeca_proje.Base.{ℕ, ◌+◌, ◌<◌, ◌≡◌, ◌⊎◌, Option, some, List, length, get_or}
use my_enseirb_matmeca_proje.Base.Int.{ℤ, ◌≤ℤ◌, ◌<ℤ◌}
use my_enseirb_matmeca_proje.Kitty.Board.{Cell, Board, distance, nowhere}
use my_enseirb_matmeca_proje.Kitty.Board.Cells.{IsOnBoard, ◌∈◌}

module _ (target : Cell) where
  -- What the loop over the cells from index `i` on comes to, from a best so far.
  record Best (cells : List Cell) (i : ℕ) (least : ℤ) (best out : Option ℕ) : Type 0 where
    bound : ℤ
    below : bound ≤ℤ least
    least_of : (j : ℕ) → j < length cells → bound ≤ℤ distance (get_or cells j nowhere) target
    reached :
        ((out ≡ best) × (bound ≡ least))
        ⊎ ((j : ℕ) × (out ≡ some (i + j))
            × (j < length cells)
            × (distance (get_or cells j nowhere) target ≡ bound)
            × (bound <ℤ least))

-- What is to be shown of the cell that is picked.
abbrev pub Nearest : Cell → List Cell → Cell → Type 0
Nearest target cells move =
    (move ∈ cells)
    × IsOnBoard move
    × ((c : Cell) → c ∈ cells → distance move target ≤ℤ distance c target)
