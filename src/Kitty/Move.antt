-- ===== src/Kitty/Move.antt =====
-- `move_entities` of board.c: every entity chooses a cell, then all move at once.
pub mod Conflict
pub mod Planning
pub mod Kept
use my_enseirb_matmeca_proje.Base.{
  update, ℕ, zero, suc, ◌+◌, Bool, true, false, ◌==◌, ◌&&◌, ◌||◌, if◌then◌else◌, ltb,
}
use my_enseirb_matmeca_proje.Base.Int.{pos, negsuc, leb_ℤ, eqb_ℤ}
use my_enseirb_matmeca_proje.Kitty.Random.{Rng}
use my_enseirb_matmeca_proje.Kitty.Cards.{cost}
use my_enseirb_matmeca_proje.Kitty.Board.{Cell, cell_eq, choose_random_move, choose_friend_move}
use my_enseirb_matmeca_proje.Kitty.Entity.{
  Kind, player, friend, is_friend, Entity, Game, size, at, put,
}
use my_enseirb_matmeca_proje.Kitty.Game.{set_board}
use my_enseirb_matmeca_proje.Kitty.Round.{die}

-- The array `cells` (what stands at a place that was not written is what the stack held), the
-- game, and the next place to look at.
pub record Plan : Type 0 where
  pub cells : ℕ → Cell
  pub game : Game
  pub rng : Rng
  pub place : ℕ

-- A friend that will play its card, or whose target is dead.
abbrev pub skips : Entity → Bool
skips e = is_friend e.kind && (leb_ℤ (pos (cost e.card)) e.mana || eqb_ℤ e.mana_regen (pos 0))

pub choose_move : Kind → Entity → Game → Rng → Cell × Rng
choose_move player e g r = choose_random_move e.cell g.board r
choose_move friend e g r = (choose_friend_move e.cell (g.heap e.target).cell g.board, r)

-- What follows the choice: an entity that cannot move dies, and its place is looked at again.
pub settle_move : Cell → Rng → Plan → Plan
settle_move c r p =
    let cells = update p.cells p.place c in
    if eqb_ℤ c.x (negsuc 0)
    then (let g = die p.place p.game in
        record p { cells = update cells p.place (cells (size g)); game = g; rng = r })
    else record p { cells = cells; rng = r; place = p.place + 1 }

pub plan_round : Plan → Plan
unfolding settle_move choose_move
plan_round p =
    let e = at p.game p.place in
    let (c, r) = choose_move e.kind e p.game p.rng in
    if skips e
    then record p { cells = update p.cells p.place e.cell; place = p.place + 1 }
    else settle_move c r p

pub plan_from : ℕ → Plan → Plan
unfolding plan_round
plan_from zero p = p
plan_from (suc fuel) p =
    let rest = plan_from fuel (plan_round p) in if ltb p.place (size p.game) then rest else p

-- `entities[i]` goes to a cell.
pub go_to : ℕ → Cell → Game → Game
unfolding set_board
go_to i c g =
    let g' = set_board c true (set_board (at g i).cell false g) in
    put (g.entities i) (record (at g i) { cell = c }) g'

-- Round `j` of the inner loop for `i`.
pub move_round : (ℕ → Cell) → ℕ → ℕ → Game → Game
unfolding go_to
move_round cells i j g = if i == j || cell_eq (cells j) (cells i) then g else go_to i (cells i) g

pub move_inner : (ℕ → Cell) → ℕ → ℕ → ℕ → Game → Game
unfolding move_round
move_inner cells i zero j g = g
move_inner cells i (suc k) j g = move_inner cells i k (j + 1) (move_round cells i j g)

pub move_outer : (ℕ → Cell) → ℕ → ℕ → Game → Game
unfolding move_inner
move_outer cells zero i g = g
move_outer cells (suc k) i g = move_outer cells k (i + 1) (move_inner cells i (size g) 0 g)

-- The second half of `move_entities`.
pub move_all : (ℕ → Cell) → Game → Game
unfolding move_outer
move_all cells g = move_outer cells (size g) 0 g

-- `stack` is what the array holds at first.
unfoldable pub move_entities : (ℕ → Cell) → Game → Rng → Game × Rng
unfolding plan_from move_all
move_entities stack g r =
    let p = plan_from (size g) (record { cells = stack; game = g; rng = r; place = 0 }) in
    (move_all p.cells p.game, p.rng)
