-- ===== src/Kitty/Play/Course.antt =====
-- The states that `play_game` runs through.
use my_enseirb_matmeca_proje.Kitty.Game.Target.{pick_target-returns}
use my_enseirb_matmeca_proje.Kitty.Game.{pick_target}
use my_enseirb_matmeca_proje.Base.{
  ℕ, ◌<◌, ◌≤◌, ◌≡◌, refl, sym, true, inl, inr, Option, none, some, ltb, Bool-cases, if_some,
  if_both, subst, dec_lt, arith, ◌≢◌, ◌%◌, ◌+◌,
}
use my_enseirb_matmeca_proje.Kitty.Random.{Rng}
use my_enseirb_matmeca_proje.Kitty.Board.{Cell}
use my_enseirb_matmeca_proje.Kitty.Entity.{Game, size}
use my_enseirb_matmeca_proje.Kitty.Game.Kept.{Leaves, play_turn-Leaves}
use my_enseirb_matmeca_proje.Kitty.Move.{move_entities}
use my_enseirb_matmeca_proje.Kitty.Move.Kept.{move_entities-IsGame}
use my_enseirb_matmeca_proje.Kitty.Round.Same.{IsGame}
use my_enseirb_matmeca_proje.Kitty.Round.Kept.{upkeep-IsGame, purge_the_dead-IsGame}
use my_enseirb_matmeca_proje.Kitty.Play.{
  Phase, tests, plays, over, State, move_phase, end_turn, played, game_step_in, game_step, Reached,
  started, goes_on,
}
use my_enseirb_matmeca_proje.Kitty.Play.Setup.{start_game-Leaves}

-- How many players there are where the main loop is.
abbrev pub Counted : Phase → Game → Type 0
Counted tests g = Unit
Counted (plays i) g = 1 < g.n_players
Counted over g = g.n_players ≤ 1

pub record IsRun (s : State) : Type 0 where
  pub is_game : IsGame s.game
  pub counted : Counted s.phase s.game

abbrev Keeps : Option State → Type 0
Keeps o = (t : State) → o ≡ some t → IsRun t

some-Keeps : (s : State) → IsRun s → Keeps (some s)
some-Keeps s v t e = subst IsRun (sym (if_some true s t e).1) v

none-Keeps : Keeps none
none-Keeps t e = absurd cc

move_phase-IsRun : (stack : ℕ → Cell) (g : Game) (r : Rng) → IsGame g → IsRun (move_phase stack g r)
unfolding move_phase
move_phase-IsRun stack g r v =
    let moved : Game = (move_entities stack g r).0 in
    record {
      is_game = move_entities-IsGame stack g r v;
      counted = elim (Bool-cases (ltb 1 moved.n_players)) [
        | inl h ↦ rw h (ground arith)
        | inr h ↦ rw h tt
      ];
    }

played-Keeps : {n : ℕ} (i : ℕ) (o : Option (Game × Rng)) → 1 < n → Leaves n o → Keeps (played i o)
unfolding played
played-Keeps i none more l = none-Keeps
played-Keeps i (some (g, r)) more l =
    let v = l g r refl in
    some-Keeps _ (record { is_game = v.is_game; counted = omega (arith, v.count, more) })

game_step_in-Keeps :
    (p : Phase) (stack : ℕ → Cell) (fuel : ℕ) (g : Game) (r : Rng)
    → IsGame g
    → Counted p g
    → Keeps (game_step_in p stack fuel g r)
unfolding game_step_in end_turn
game_step_in-Keeps tests stack fuel g r v c = elim (Bool-cases (ltb 1 g.n_players)) [
  | inl h ↦ rw (game_step_in, h) (some-Keeps _ (move_phase-IsRun stack g r v))
  | inr h ↦ rw (game_step_in, h) (some-Keeps _ (record { is_game = v; counted = ground arith }))
]
game_step_in-Keeps (plays i) stack fuel g r v c =
    if_both Keeps (ltb i (size g)) _ _
      (played-Keeps i _ c
        (play_turn-Leaves fuel (g.entities i) g r (record { is_game = v; count = refl })))
      (some-Keeps _
        (record { is_game = purge_the_dead-IsGame _ (upkeep-IsGame g v); counted = tt }))
game_step_in-Keeps over stack fuel g r v c = some-Keeps _ (record { is_game = v; counted = c })

-- Whatever `rand` returns and the memory holds at first, in every state that a game of `n` players
-- reaches from its set-up on, the entities of the array are distinct and allocated, `n_players` and
-- `n_friends` are the numbers of players and of friends among them, there are two players at least
-- while the entities play, and one at most once the main loop is left.
pub Reached-IsRun :
    (n : ℕ) (memory : Game) (seed : Rng) (s : State) → Reached n memory seed s → IsRun s
unfolding game_step
Reached-IsRun n memory seed s (started fuel g r e) = record {
  is_game = (start_game-Leaves fuel n memory seed g r e).is_game;
  counted = tt;
}
Reached-IsRun n memory seed _ (goes_on stack fuel s t before e) =
    let v = Reached-IsRun n memory seed s before in
    game_step_in-Keeps s.phase stack fuel s.game s.rng v.is_game v.counted t e

another_place :
    (g : Game) (i : ℕ)
    → IsGame g
    → 1 < g.n_players
    → i < size g
    → (j : ℕ) × ((j < size g) × (g.entities j ≢ g.entities i))
another_place g i v more lt =
    let two : 1 < size g = omega arith in
    elim (dec_lt 0 i) [
      | yes later ↦ (
        0,
        (omega arith, λ same. omega (arith, v.valid.distinct 0 i (omega arith) lt same, later)),
      )
      | no first ↦ (1, (two, λ same. omega (arith, v.valid.distinct 1 i two lt same, first)))
    ]

-- In a state that a game reaches in which the entity at place `i` is to play, another entity stands at
-- a place `j` of the array, and the loop by which `apply_card` draws a target ends, with a target
-- other than the entity, whenever one of the numbers that `rand` returns in the rounds that are
-- allowed is `j` modulo the number of entities.
pub Reached-target :
    (n : ℕ) (memory : Game) (seed : Rng) (s : State) (i : ℕ)
    → Reached n memory seed s
    → s.phase ≡ plays i
    → i < size s.game
    → (j : ℕ) × ((j < size s.game)
        × (s.game.entities j ≢ s.game.entities i)
        × ((k fuel : ℕ) (r : Rng)
            → k < fuel
            → r.draw (r.used + k) % size s.game ≡ j
            → (t : ℕ) × (r' : Rng) × (pick_target fuel (s.game.entities i) s.game r ≡ some (t, r'))
              × (t ≢ s.game.entities i)))
Reached-target n memory seed s i reached e lt =
    let v = Reached-IsRun n memory seed s reached in
    let more : 1 < s.game.n_players = subst (λ p. Counted p s.game) e v.counted in
    let (j, (inside, other)) = another_place s.game i v.is_game more lt in
    (
      j,
      (
        inside,
        other,
        λ k fuel r in_time drawn.
            pick_target-returns k fuel (s.game.entities i) s.game r in_time
              (subst (λ m. s.game.entities m ≢ s.game.entities i) (sym drawn) other),
      ),
    )
