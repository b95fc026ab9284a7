-- ===== src/Kitty/Move/Kept.antt =====
-- `move_entities` of board.c keeps a game.
use my_enseirb_matmeca_proje.Base.{
  ℕ, zero, suc, ◌+◌, ◌<◌, refl, inl, inr, ◌==◌, ◌||◌, ltb, Bool-cases, arith,
}
use my_enseirb_matmeca_proje.Base.Int.{negsuc, eqb_ℤ}
use my_enseirb_matmeca_proje.Kitty.Random.{Rng}
use my_enseirb_matmeca_proje.Kitty.Board.{Cell, cell_eq}
use my_enseirb_matmeca_proje.Kitty.Entity.{Game, size, at}
use my_enseirb_matmeca_proje.Kitty.Game.{set_board}
use my_enseirb_matmeca_proje.Kitty.Move.{
  Plan, skips, choose_move, settle_move, plan_round, plan_from, go_to, move_round, move_inner,
  move_outer, move_all, move_entities,
}
use my_enseirb_matmeca_proje.Kitty.Round.Same.{
  IsGame, Same, Same-refl, Same-trans, put-Same, board-Same, Same-IsGame,
}
use my_enseirb_matmeca_proje.Kitty.Round.Kept.{die-IsGame}

settle_move-IsGame :
    (c : Cell) (r : Rng) (p : Plan)
    → IsGame p.game
    → p.place < size p.game
    → IsGame (settle_move c r p).game
unfolding settle_move
settle_move-IsGame c r p v lt = elim (Bool-cases (eqb_ℤ c.x (negsuc 0))) [
  | inl h ↦ rw (settle_move, h) (die-IsGame p.place p.game v lt)
  | inr h ↦ rw (settle_move, h) v
]

plan_round-IsGame : (p : Plan) → IsGame p.game → p.place < size p.game → IsGame (plan_round p).game
unfolding plan_round
plan_round-IsGame p v lt = elim (Bool-cases (skips (at p.game p.place))) [
  | inl h ↦ rw (plan_round, h) v
  | inr h ↦
      let e = at p.game p.place in
      let chosen = choose_move e.kind e p.game p.rng in
      rw (plan_round, h) (settle_move-IsGame chosen.0 chosen.1 p v lt)
]

plan_from-IsGame : (fuel : ℕ) (p : Plan) → IsGame p.game → IsGame (plan_from fuel p).game
unfolding plan_from
plan_from-IsGame zero p v = v
plan_from-IsGame (suc fuel) p v = elim (Bool-cases (ltb p.place (size p.game))) [
  | inl h ↦
      rw (plan_from, h)
        (plan_from-IsGame fuel (plan_round p) (plan_round-IsGame p v (ground arith)))
  | inr h ↦ rw (plan_from, h) v
]

go_to-Same : (i : ℕ) (c : Cell) (g : Game) → Same g (go_to i c g)
unfolding go_to set_board
go_to-Same i c g =
    Same-trans (board-Same _ g) (put-Same (g.entities i) (record (at g i) { cell = c }) _ refl)

move_round-Same : (cells : ℕ → Cell) (i j : ℕ) (g : Game) → Same g (move_round cells i j g)
unfolding move_round
move_round-Same cells i j g = elim (Bool-cases (i == j || cell_eq (cells j) (cells i))) [
  | inl h ↦ rw (move_round, h) (Same-refl g)
  | inr h ↦ rw (move_round, h) (go_to-Same i (cells i) g)
]

move_inner-Same : (cells : ℕ → Cell) (i k j : ℕ) (g : Game) → Same g (move_inner cells i k j g)
unfolding move_inner
move_inner-Same cells i zero j g = Same-refl g
move_inner-Same cells i (suc k) j g =
    Same-trans (move_round-Same cells i j g)
      (move_inner-Same cells i k (j + 1) (move_round cells i j g))

move_outer-Same : (cells : ℕ → Cell) (k i : ℕ) (g : Game) → Same g (move_outer cells k i g)
unfolding move_outer
move_outer-Same cells zero i g = Same-refl g
move_outer-Same cells (suc k) i g =
    Same-trans (move_inner-Same cells i (size g) 0 g)
      (move_outer-Same cells k (i + 1) (move_inner cells i (size g) 0 g))

pub move_entities-IsGame :
    (stack : ℕ → Cell) (g : Game) (r : Rng) → IsGame g → IsGame (move_entities stack g r).0
unfolding move_entities move_all
move_entities-IsGame stack g r v =
    let p = plan_from (size g) (record { cells = stack; game = g; rng = r; place = 0 }) in
    Same-IsGame (move_outer-Same p.cells (size p.game) 0 p.game) (plan_from-IsGame (size g) _ v)
