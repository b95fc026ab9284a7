-- ===== src/Kitty/Tests.antt =====
-- The theorems on the card game at small games, boards and decks.
use my_enseirb_matmeca_proje.Base.{
  ℕ, ◌+◌, ◌-◌, ◌%◌, ◌<◌, ◌≡◌, refl, true, take, drop, ◌==◌, if◌then◌else◌, arith,
}
use my_enseirb_matmeca_proje.Base.Int.{pos, negsuc, ◌+ℤ◌}
use my_enseirb_matmeca_proje.Kitty.Samples.{seven, beside, far, game, game-IsValid}
use my_enseirb_matmeca_proje.Kitty.Deck.{deal_deck}
use my_enseirb_matmeca_proje.Kitty.Deck.Draws.{deal_deck_lem, draws, draws-take}
use my_enseirb_matmeca_proje.Kitty.Board.{Cell, board_size, mod_into}
use my_enseirb_matmeca_proje.Kitty.Board.Cells.{mod_into-torus}
use my_enseirb_matmeca_proje.Kitty.Board.Nearest.{Nearest}
use my_enseirb_matmeca_proje.Kitty.Entity.{size, at}
use my_enseirb_matmeca_proje.Kitty.Round.{purge_the_dead}
use my_enseirb_matmeca_proje.Kitty.Round.Purge.{Purged, purge_the_dead-Purged}
use my_enseirb_matmeca_proje.Kitty.Round.Death
use my_enseirb_matmeca_proje.Kitty.Move.Planning.{IsChosen, plan_from-total}
use my_enseirb_matmeca_proje.Kitty.Move.{Plan, plan_from, move_all}
use my_enseirb_matmeca_proje.Kitty.Move.Conflict.{end_cell, differs, move_all_lem, move_collision}

draws-take_example :
    draws 50 (deal_deck seven).0 seven
    ≡ take 50 (drop (deal_deck seven).0.index (deal_deck seven).0.cards)
draws-take_example =
    draws-take 50 (deal_deck seven).0 seven (deal_deck_lem seven).0
      (omega (arith, (deal_deck_lem seven).1))

mod_into-torus_example :
    (mod_into (pos 49 +ℤ pos 1) board_size ≡ pos ((49 + 1) % board_size))
    × (mod_into (pos 49 +ℤ negsuc 0) board_size ≡ pos ((49 + (board_size - 1)) % board_size))
mod_into-torus_example = mod_into-torus 49 (omega arith)

purge_the_dead-Purged_example : Purged game (purge_the_dead game)
purge_the_dead-Purged_example = purge_the_dead-Purged game game-IsValid

-- The choices of three entities, two of which choose `beside`.
abbrev choices : ℕ → Cell
choices i = if i == 2 then far else beside

move_all_lem_example :
    let g' = move_all choices game in
    ((g'.heap 0).cell ≡ end_cell choices game 0)
    × (g'.entities ≡ game.entities)
    × (size g' ≡ size game)
move_all_lem_example = move_all_lem choices game 0 game-IsValid (omega arith)

third_differs : differs choices (choices 0) (size game) 0 ≡ true
unfolding differs
third_differs = refl

move_collision_example :
    let g' = move_all choices game in ((at g' 0).cell ≡ beside) × ((at g' 1).cell ≡ beside)
move_collision_example =
    move_collision choices game 0 1 game-IsValid (omega arith) (omega arith) refl third_differs

all_placed : (i : ℕ) → i < size game → IsChosen (at game i).cell
all_placed i h = ground arith

plan_from-total_example :
    let begin : Plan = record { cells = choices; game = game; rng = seven; place = 0 } in
    let p = plan_from 3 begin in
    Death.IsValid p.game
    × ((j : ℕ) → j < size p.game → IsChosen (p.cells j))
    × (plan_from 4 begin ≡ p)
plan_from-total_example = plan_from-total choices game seven 1 game-IsValid all_placed
