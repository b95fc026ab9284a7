-- ===== src/Kitty/Cards.antt =====
-- cards.c: the cards as constructors, what each costs, and how one is drawn at random. What each
-- does to the game is in Kitty/Game.antt, since it needs the entities and the board.
use my_enseirb_matmeca_proje.Base.{ℕ, Bool, true, false, leb, ◌==◌, if◌then◌else◌}
use my_enseirb_matmeca_proje.Kitty.Random.{Rng, randint}

-- The `struct card` constants.
pub data Card : Type 0 where
  think steal panacea razor hell stone puppy : Card

-- The field `cost`.
abbrev pub cost : Card → ℕ
cost think = 5
cost steal = 10
cost panacea = 2
cost razor = 2
cost hell = 100
cost stone = 10
cost puppy = 5

abbrev pub is_hell : Card → Bool
is_hell hell = true
is_hell think = false
is_hell steal = false
is_hell panacea = false
is_hell razor = false
is_hell stone = false
is_hell puppy = false

-- The card that the number drawn stands for.
abbrev pub card_of : ℕ → Card
card_of i =
    if i == 0
    then hell
    else if leb i 10
    then steal
    else if leb i 30
    then think
    else if leb i 80
    then panacea
    else if leb i 130
    then razor
    else if leb i 140
    then stone
    else puppy

unfoldable pub draw_random_card : Rng → Card × Rng
draw_random_card r = let (i, r') = randint 0 161 r in (card_of i, r')
