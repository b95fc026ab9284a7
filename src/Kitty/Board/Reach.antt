-- ===== src/Kitty/Board/Reach.antt =====
-- `find_reachable_cells` of board.c against walks over free cells.
use my_enseirb_matmeca_proje.Base.{
  ℕ, zero, suc, ◌<◌, ◌≡◌, List, [], ◌||◌, inl, inr, ◌⊎◌, arith, Bool-cases,
}
use my_enseirb_matmeca_proje.Kitty.Board.{
  Cell, Board, in_cells, neighbours, scan, find_reachable_cells,
}
use my_enseirb_matmeca_proje.Kitty.Board.Cells.{◌∈◌, mem-append}
use my_enseirb_matmeca_proje.Kitty.Board.Search.{
  IsFree, Scanned, scan-Scanned, all_neighbours, mem-all_neighbours,
}

-- `n` moves from a cell to `e`, each to a neighbour that is free.
pub data Walk (board : Board) (e : Cell) : ℕ → Cell → Type 0 where
  stop : Walk board e zero e
  move :
      {n : ℕ} (c d : Cell)
      → d ∈ neighbours c
      → IsFree board d
      → Walk board e n d
      → Walk board e (suc n) c

module _ (board : Board) where
  -- The result of a round.
  round :
      (starting cells : List Cell)
      → Scanned board (all_neighbours starting) ([], cells) (scan board starting ([], cells))
  round starting cells = scan-Scanned board starting ([], cells)

  mem-round :
      (e : Cell) (starting cells : List Cell)
      → let (ending, cells') = scan board starting ([], cells) in
        in_cells e cells' ≡ (in_cells e cells || in_cells e ending)
  mem-round e starting cells =
      let s = round starting cells in rw (s.cells, s.ending) (mem-append e cells s.new)

  grows :
      (range : ℕ) (starting cells : List Cell) (e : Cell)
      → e ∈ cells
      → e ∈ find_reachable_cells range starting cells board
  unfolding find_reachable_cells
  grows zero starting cells e h = h
  grows (suc range) starting cells e h =
      let (ending, cells') = scan board starting ([], cells) in
      grows range ending cells' e (rw (mem-round e starting cells, h))

  -- The cells found before the last round have all their free neighbours among those found.
  abbrev Closed : List Cell → List Cell → Type 0
  Closed starting cells =
      (c : Cell)
      → c ∈ cells
      → (c ∈ starting) ⊎ ((d : Cell) → d ∈ neighbours c → IsFree board d → d ∈ cells)

  round_complete :
      (starting cells : List Cell) (c d : Cell)
      → Closed starting cells
      → (c ∈ starting) ⊎ (c ∈ cells)
      → d ∈ neighbours c
      → IsFree board d
      → d ∈ (scan board starting ([], cells)).1
  round_complete starting cells c d closed (inl at) near free =
      (round starting cells).complete d (mem-all_neighbours d c starting at near) free
  round_complete starting cells c d closed (inr at) near free = elim (closed c at) [
    | inl first ↦
        (round starting cells).complete d (mem-all_neighbours d c starting first near) free
    | inr all ↦ rw (mem-round d starting cells, all d near free)
  ]

  round-Closed :
      (starting cells : List Cell)
      → Closed starting cells
      → let (ending, cells') = scan board starting ([], cells) in Closed ending cells'
  round-Closed starting cells closed c at = elim (Bool-cases (in_cells c cells)) [
    | inl old ↦ inr (λ d near free. round_complete starting cells c d closed (inr old) near free)
    | inr young ↦ inl (ground (arith, mem-round c starting cells))
  ]

  complete :
      (range n : ℕ) (starting cells : List Cell) (c e : Cell)
      → Closed starting cells
      → (c ∈ starting) ⊎ (c ∈ cells)
      → n < range
      → Walk board e (suc n) c
      → e ∈ find_reachable_cells range starting cells board
  unfolding find_reachable_cells
  complete zero n starting cells c e closed at lt w = absurd (omega arith)
  complete (suc range) zero starting cells _ e closed at lt (move c d near free stop) =
      let (ending, cells') = scan board starting ([], cells) in
      grows range ending cells' d (round_complete starting cells c d closed at near free)
  complete (suc range) (suc n) starting cells _ e closed at lt (move c d near free w) =
      let (ending, cells') = scan board starting ([], cells) in
      complete range n ending cells' d e (round-Closed starting cells closed)
        (inr (round_complete starting cells c d closed at near free)) (omega arith) w
