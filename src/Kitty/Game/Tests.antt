-- ===== src/Kitty/Game/Tests.antt =====
-- The turn of a friend that has the mana for its card.
use my_enseirb_matmeca_proje.Base.{◌≡◌, refl, some, arith}
use my_enseirb_matmeca_proje.Base.Int.{pos, ◌≤ℤ◌}
use my_enseirb_matmeca_proje.Kitty.Cards.{think}
use my_enseirb_matmeca_proje.Kitty.Samples.{seven, game}
use my_enseirb_matmeca_proje.Kitty.Game.{apply, apply_card, apply_card_as, play_turn, play_turn_as}
use my_enseirb_matmeca_proje.Kitty.Game.Mana.{play_turn-solvent}

pet_plays : play_turn 0 2 game seven ≡ some (apply think 2 1 game seven)
unfolding play_turn play_turn_as apply_card apply_card_as
pet_plays = refl

play_turn-solvent_example : pos 0 ≤ℤ ((apply think 2 1 game seven).0.heap 2).mana
play_turn-solvent_example =
    play_turn-solvent 0 2 2 game (apply think 2 1 game seven).0 seven (apply think 2 1 game seven).1
      (omega arith) (omega arith) pet_plays
