-- ===== src/Kitty/Samples.antt =====
-- A small game for the tests: two players and a friend whose lifespan has ended.
use my_enseirb_matmeca_proje.Base.{◌*◌, refl, false, [], ◌∷◌, ◌==◌, if◌then◌else◌}
use my_enseirb_matmeca_proje.Base.Int.{pos}
use my_enseirb_matmeca_proje.Kitty.Random.{Rng}
use my_enseirb_matmeca_proje.Kitty.Cards.{think, panacea, hell}
use my_enseirb_matmeca_proje.Kitty.Deck.{Deck}
use my_enseirb_matmeca_proje.Kitty.Board.{Cell, Board}
use my_enseirb_matmeca_proje.Kitty.Entity.{Kind, Entity, Game}
use my_enseirb_matmeca_proje.Base.Sums.{total}
use my_enseirb_matmeca_proje.Kitty.Round.Death.{IsValid}

abbrev pub seven : Rng
seven = record { draw = λ n. 7 * n; used = 0 }

abbrev pub corner : Cell
corner = record { x = pos 0; y = pos 0 }

abbrev pub beside : Cell
beside = record { x = pos 49; y = pos 0 }

abbrev pub far : Cell
far = record { x = pos 10; y = pos 3 }

abbrev pub free_board : Board
free_board x y = false

abbrev pub short_deck : Deck
short_deck = record { cards = think ∷ panacea ∷ []; index = 0 }

abbrev pub alice : Entity
alice = record {
  kind = Kind.player;
  life = pos 20;
  mana = pos 6;
  mana_regen = pos 2;
  name_length = 5;
  cell = corner;
  hand = hell ∷ think ∷ panacea ∷ [];
  deck = short_deck;
  target = 0;
  card = think;
  lifespan = pos 0;
}

abbrev pub bob : Entity
bob = record alice { life = pos 3; cell = far }

abbrev pub pet : Entity
pet = record alice { kind = Kind.friend; cell = beside; target = 1 }

abbrev pub game : Game
game = record {
  heap = λ a. if a == 0 then alice else if a == 1 then bob else pet;
  entities = λ i. i;
  n_players = 2;
  n_friends = 1;
  board = free_board;
  next = 3;
}

pub game-IsValid : IsValid game
unfolding total
game-IsValid = record { distinct = λ i j a b e. e; players = refl; friends = refl }
