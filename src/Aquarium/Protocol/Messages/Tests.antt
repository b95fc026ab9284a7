-- ===== src/Aquarium/Protocol/Messages/Tests.antt =====
-- Messages of clients.
use my_enseirb_matmeca_proje.Base.{◌≡◌, refl, [], ◌∷◌, none, some}
use my_enseirb_matmeca_proje.Base.Int.{pos}
use my_enseirb_matmeca_proje.Aquarium.{init_aquarium, str_eq, init}
use my_enseirb_matmeca_proje.Aquarium.Commands.{verb_of}
use my_enseirb_matmeca_proje.Aquarium.Protocol.{pong}
use my_enseirb_matmeca_proje.Aquarium.Protocol.Messages.{
  Expressions, answers, unknown_command, dispatch_message, protocol_execute,
}
use my_enseirb_matmeca_proje.Aquarium.Protocol.Messages.Requests.{Request, deletes}

abbrev nothing : Expressions
nothing = record {
  view = λ s. none;
  fish = λ s. none;
  fish_name = λ s. some (s ∷ []);
  atoi = λ s. pos 0;
}

-- "delFish Nemo".
abbrev request : Request
request = deletes (78 ∷ 101 ∷ 109 ∷ 111 ∷ [])

-- "pi" is not a command.
pi :
    (protocol_execute nothing (pos 9) (pos 4) 1 112 (105 ∷ 10 ∷ []) (init_aquarium 9 9) []).reply
    ≡ unknown_command
unfolding protocol_execute dispatch_message verb_of init str_eq
pi = refl

ping_pong :
    (protocol_execute nothing
      (pos 9)
      (pos 4)
      1
      112
      (105 ∷ 110 ∷ 103 ∷ 10 ∷ [])
      (init_aquarium 9 9)
      []).reply
    ≡ answers pong
unfolding protocol_execute dispatch_message verb_of init str_eq
ping_pong = refl
