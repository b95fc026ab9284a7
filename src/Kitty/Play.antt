-- ===== src/Kitty/Play.antt =====
-- `play_game` of game.c, `init_board` of board.c: the set-up of a game, and its steps up to the end.
-- What the program prints is left aside.
pub mod Setup
pub mod Course
mod Tests
use my_enseirb_matmeca_proje.Base.{
  update, ℕ, zero, suc, ◌+◌, ◌/◌, ◌≡◌, Bool, true, false, Option, none, some, ◌>>=◌, if◌then◌else◌,
  ltb,
}
use my_enseirb_matmeca_proje.Base.Int.{pos}
use my_enseirb_matmeca_proje.Kitty.Random.{Rng, randint}
use my_enseirb_matmeca_proje.Kitty.Deck.{Deck, deal_deck}
use my_enseirb_matmeca_proje.Kitty.Board.{Cell, Board, board_size}
use my_enseirb_matmeca_proje.Kitty.Entity.{Kind, player, Entity, Game, size, at, put, deal_hand}
use my_enseirb_matmeca_proje.Kitty.Game.{set_board, play_turn}
use my_enseirb_matmeca_proje.Kitty.Round.{generate_mana, decay_friends, purge_the_dead}
use my_enseirb_matmeca_proje.Kitty.Move.{move_entities}

-- The length of a number in decimal, at most `fuel + 1`.
abbrev pub decimal_length : ℕ → ℕ → ℕ
decimal_length zero n = 1
decimal_length (suc fuel) n =
    let rest = decimal_length fuel (n / 10) in if ltb n 10 then 1 else 1 + rest

-- Player `i` before its deck is dealt. The fields that are not set are what `malloc` found.
abbrev pub new_player : Entity → ℕ → Entity
new_player garbage i = record garbage {
  kind = player;
  life = pos 50;
  mana = pos 0;
  mana_regen = pos 1;
  name_length = 6 + decimal_length i i;
}

-- A round of the first loop of `play_game`.
unfoldable pub add_player : ℕ → Game → Rng → Game × Rng
add_player i g r =
    let (d, r') = deal_deck r in
    let (p, r'') = deal_hand (record (new_player (g.heap g.next) i) { deck = d }) r' in
    (
      record g {
        heap = update g.heap g.next p;
        entities = update g.entities i g.next;
        next = g.next + 1;
      },
      r'',
    )

-- The last `k` rounds, from player `i` on.
unfoldable pub add_players : ℕ → ℕ → Game → Rng → Game × Rng
unfolding add_player
add_players zero i g r = (g, r)
add_players (suc k) i g r = let (g', r') = add_player i g r in add_players k (i + 1) g' r'

-- The inner loop of `init_board`. On a full board it does not end: `none` is that the fuel is used
-- up.
unfoldable pub free_cell : ℕ → Board → Rng → Option (Cell × Rng)
free_cell zero b r = none
free_cell (suc fuel) b r =
    let (x, r') = randint 0 board_size r in
    let (y, r'') = randint 0 board_size r' in
    let again = free_cell fuel b r'' in
    if b (pos x) (pos y) then again else some (record { x = pos x; y = pos y }, r'')

unfoldable pub place_player : ℕ → Cell → Game → Game
unfolding set_board
place_player i c g = set_board c true (put (g.entities i) (record (at g i) { cell = c }) g)

-- The last `k` rounds of the loop over the players, from place `i` on.
unfoldable pub place_players : ℕ → ℕ → ℕ → Game → Rng → Option (Game × Rng)
unfolding free_cell place_player
place_players fuel zero i g r = some (g, r)
place_players fuel (suc k) i g r = do
  (c, r') ← free_cell fuel g.board r
  place_players fuel k (i + 1) (place_player i c g) r'

unfoldable pub init_board : ℕ → Game → Rng → Option (Game × Rng)
unfolding place_players
init_board fuel g r = place_players fuel g.n_players 0 (record g { board = λ x y. false }) r

-- `play_game` up to its main loop. `memory` is what the memory holds at first.
unfoldable pub start_game : ℕ → ℕ → Game → Rng → Option (Game × Rng)
unfolding add_players init_board
start_game fuel n memory r =
    let (g, r') = add_players n 0 (record memory { n_players = n; n_friends = 0 }) r in
    init_board fuel g r'

-- Where the main loop is: at its test, in the loop over the entities before place `i`, or left.
pub data Phase : Type 0 where
  tests : Phase
  plays : ℕ → Phase
  over : Phase

pub record State : Type 0 where
  pub phase : Phase
  pub game : Game
  pub rng : Rng

-- The first lines of a turn.
unfoldable pub move_phase : (ℕ → Cell) → Game → Rng → State
unfolding move_entities
move_phase stack g r =
    let (g', r') = move_entities stack g r in
    record { phase = (if ltb 1 g'.n_players then plays 0 else tests); game = g'; rng = r' }

-- The last lines of a turn.
unfoldable pub end_turn : Game → Game
unfolding generate_mana decay_friends purge_the_dead
end_turn g = purge_the_dead (decay_friends (generate_mana g))

unfoldable pub played : ℕ → Option (Game × Rng) → Option State
played i none = none
played i (some (g, r)) = some (record { phase = plays (i + 1); game = g; rng = r })

-- One step; `stack` is what the array of `move_entities` holds at first.
unfoldable pub game_step_in : Phase → (ℕ → Cell) → ℕ → Game → Rng → Option State
unfolding move_phase end_turn played play_turn
game_step_in tests stack fuel g r =
    if ltb 1 g.n_players
    then some (move_phase stack g r)
    else some (record { phase = over; game = g; rng = r })
game_step_in (plays i) stack fuel g r =
    if ltb i (size g)
    then played i (play_turn fuel (g.entities i) g r)
    else some (record { phase = tests; game = end_turn g; rng = r })
game_step_in over stack fuel g r = some (record { phase = over; game = g; rng = r })

unfoldable pub game_step : (ℕ → Cell) → ℕ → State → Option State
unfolding game_step_in
game_step stack fuel s = game_step_in s.phase stack fuel s.game s.rng

-- The states of a game of `n` players.
pub data Reached (n : ℕ) (memory : Game) (seed : Rng) : State → Type 0 where
  started :
      (fuel : ℕ) (g : Game) (r : Rng)
      → start_game fuel n memory seed ≡ some (g, r)
      → Reached n memory seed (record { phase = tests; game = g; rng = r })
  goes_on :
      (stack : ℕ → Cell) (fuel : ℕ) (s t : State)
      → Reached n memory seed s
      → game_step stack fuel s ≡ some t
      → Reached n memory seed t
