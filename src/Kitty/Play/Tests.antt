-- ===== src/Kitty/Play/Tests.antt =====
-- `play_game` on small games.
use my_enseirb_matmeca_proje.Kitty.Game.{pick_target}
use my_enseirb_matmeca_proje.Base.{ℕ, ◌≡◌, ◌<◌, ◌≢◌, refl, arith, Option, some, none, ◌%◌, ◌+◌}
use my_enseirb_matmeca_proje.Kitty.Random.{Rng, randint, shuffle_from}
use my_enseirb_matmeca_proje.Kitty.Cards.{draw_random_card}
use my_enseirb_matmeca_proje.Kitty.Deck.{draw_card, deal_deck, shuffle_deck, random_cards}
use my_enseirb_matmeca_proje.Kitty.Board.{choose_random_move, find_reachable_cells}
use my_enseirb_matmeca_proje.Kitty.Entity.{Game, size, deal_hand}
use my_enseirb_matmeca_proje.Kitty.Samples.{game, seven, corner}
use my_enseirb_matmeca_proje.Kitty.Play.{
  decimal_length, State, tests, plays, over, start_game, move_phase, game_step, Reached, started,
  goes_on, game_step_in,
}
use my_enseirb_matmeca_proje.Kitty.Play.Course.{IsRun, Reached-IsRun, Reached-target}
use my_enseirb_matmeca_proje.Base.Int.{◌+ℤ◌, ◌-ℤ◌}

abbrev is_started : Option (Game × Rng) → Game × Rng
is_started none = (game, seven)
is_started (some p) = p

abbrev first : Game × Rng
first = is_started (start_game 3 2 game seven)

two_digits : decimal_length 12 12 ≡ 2
two_digits = refl

start : start_game 3 2 game seven ≡ some first
unfolding start_game randint deal_hand draw_card deal_deck shuffle_deck shuffle_from random_cards
    draw_random_card
start = refl

start_players : first.0.n_players ≡ 2
unfolding start_game randint deal_hand draw_card deal_deck shuffle_deck shuffle_from random_cards
    draw_random_card
start_players = refl

abbrev moved : State
moved = move_phase (λ n. corner) first.0 first.1

moved-plays : moved.phase ≡ plays 0
unfolding move_phase start_game randint deal_hand draw_card deal_deck shuffle_deck shuffle_from
    random_cards draw_random_card choose_random_move find_reachable_cells ◌+ℤ◌ ◌-ℤ◌
moved-plays = refl

moved-size : size moved.game ≡ 2
unfolding move_phase start_game randint deal_hand draw_card deal_deck shuffle_deck shuffle_from
    random_cards draw_random_card choose_random_move find_reachable_cells ◌+ℤ◌ ◌-ℤ◌
moved-size = refl

moves :
    game_step (λ n. corner) 0 (record { phase = tests; game = first.0; rng = first.1 }) ≡ some moved
unfolding game_step game_step_in
moves = rw start_players refl

moved-Reached : Reached 2 game seven moved
moved-Reached = goes_on (λ n. corner) 0 _ moved (started 3 first.0 first.1 start) moves

Reached-IsRun_example : IsRun moved
Reached-IsRun_example = Reached-IsRun 2 game seven moved moved-Reached

Reached-target_example :
    (j : ℕ) × ((j < size moved.game)
      × (moved.game.entities j ≢ moved.game.entities 0)
      × ((k fuel : ℕ) (r : Rng)
          → k < fuel
          → r.draw (r.used + k) % size moved.game ≡ j
          → (t : ℕ) × (r' : Rng) × (pick_target fuel (moved.game.entities 0) moved.game r
              ≡ some (t, r'))
            × (t ≢ moved.game.entities 0)))
Reached-target_example =
    Reached-target 2 game seven moved 0 moved-Reached moved-plays (omega (arith, moved-size))

-- With one player the game is over at once.
abbrev alone : Game × Rng
alone = is_started (start_game 1 1 game seven)

alone-over :
    game_step (λ n. corner) 0 (record { phase = tests; game = alone.0; rng = alone.1 })
    ≡ some (record { phase = over; game = alone.0; rng = alone.1 })
unfolding game_step game_step_in start_game randint deal_hand draw_card deal_deck shuffle_deck
    shuffle_from random_cards draw_random_card
alone-over = refl
