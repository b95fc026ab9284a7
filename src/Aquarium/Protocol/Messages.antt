-- ===== src/Aquarium/Protocol/Messages.antt =====
-- `protocol_execute` of protocol.c: what is done for a message of a client. What the three regular
-- expressions match is an argument.
pub mod Requests
mod Tests
use my_enseirb_matmeca_proje.Base.{
  ℕ, suc, ◌+◌, Bool, true, false, if◌then◌else◌, List, [], ◌∷◌, ◌++◌, length, drop, Option, none,
  some,
}
use my_enseirb_matmeca_proje.Base.Int.{ℤ}
use my_enseirb_matmeca_proje.Aquarium.{String, str_eq, init, Aquarium}
use my_enseirb_matmeca_proje.Aquarium.Commands.{verb_of}
use my_enseirb_matmeca_proje.Aquarium.Protocol.{
  Response, bye, protocol_hello, protocol_hello_extended, protocol_ping, protocol_add_fish,
  protocol_del_fish, protocol_start_fish, protocol_status, protocol_get_fishes,
  protocol_get_fishes_continously,
}

-- The parameters that `regex_match` finds, for each expression.
pub record Expressions : Type 0 where
  pub view : String → Option (List String)
  pub fish : String → Option (List String)
  pub fish_name : String → Option (List String)
  pub atoi : String → ℤ

-- The aquarium, the observers, and what is answered.
pub data Reply : Type 0 where
  answers : Response → Reply
  fishes_will_be_sent unknown_command : Reply

pub record Done : Type 0 where
  pub aquarium : Aquarium
  pub observers : List ℕ
  pub reply : Reply

abbrev pub answered : Aquarium × Response → List ℕ → Done
answered p observers = record { aquarium = p.0; observers = observers; reply = answers p.1 }

-- "hello".
abbrev pub hello_word : String
hello_word = 104 ∷ 101 ∷ 108 ∷ 108 ∷ 111 ∷ []

-- "addFish".
abbrev pub add_fish_word : String
add_fish_word = 97 ∷ 100 ∷ 100 ∷ 70 ∷ 105 ∷ 115 ∷ 104 ∷ []

-- "delFish".
abbrev pub del_fish_word : String
del_fish_word = 100 ∷ 101 ∷ 108 ∷ 70 ∷ 105 ∷ 115 ∷ 104 ∷ []

-- "startFish".
abbrev pub start_fish_word : String
start_fish_word = 115 ∷ 116 ∷ 97 ∷ 114 ∷ 116 ∷ 70 ∷ 105 ∷ 115 ∷ 104 ∷ []

-- "status".
abbrev pub status_word : String
status_word = 115 ∷ 116 ∷ 97 ∷ 116 ∷ 117 ∷ 115 ∷ []

-- "log".
abbrev pub log_word : String
log_word = 108 ∷ 111 ∷ 103 ∷ []

-- "getFishes".
abbrev pub get_fishes_word : String
get_fishes_word = 103 ∷ 101 ∷ 116 ∷ 70 ∷ 105 ∷ 115 ∷ 104 ∷ 101 ∷ 115 ∷ []

-- "getFishesContinously".
abbrev pub continously_word : String
continously_word =
    103 ∷ 101 ∷ 116 ∷ 70 ∷ 105 ∷ 115 ∷ 104 ∷ 101 ∷ 115 ∷ 67 ∷ 111 ∷ 110 ∷ 116 ∷ 105 ∷ 110 ∷ 111
    ∷ 117 ∷ 115 ∷ 108 ∷ 121 ∷ []

-- "ping".
abbrev pub ping_word : String
ping_word = 112 ∷ 105 ∷ 110 ∷ 103 ∷ []

-- `now` is the time, `fd` the socket of the client and `ind_socket` its place in the array. The verb
-- and what follows it are those of the message.
pub dispatch_message : Expressions → ℤ → ℤ → ℕ → String → String → String → Aquarium → List ℕ → Done
unfolding str_eq protocol_hello protocol_hello_extended protocol_ping protocol_add_fish
    protocol_del_fish protocol_start_fish protocol_status protocol_get_fishes
    protocol_get_fishes_continously
dispatch_message x now fd ind_socket message verb rest q observers =
    if str_eq message hello_word
    then answered (protocol_hello now fd q) observers
    else if str_eq verb hello_word
    then answered (protocol_hello_extended now fd (x.view rest) q) observers
    else if str_eq verb add_fish_word
    then answered (protocol_add_fish x.atoi (x.fish rest) q) observers
    else if str_eq verb del_fish_word
    then answered (protocol_del_fish (x.fish_name rest) q) observers
    else if str_eq verb start_fish_word
    then answered (protocol_start_fish rest q) observers
    else if str_eq message status_word
    then answered (q, protocol_status q) observers
    else if str_eq verb log_word
    then answered (q, bye) observers
    else if str_eq message get_fishes_word
    then answered (q, protocol_get_fishes fd q) observers
    else if str_eq message continously_word
    then (record {
      aquarium = q;
      observers = protocol_get_fishes_continously ind_socket observers;
      reply = fishes_will_be_sent;
    })
    else if str_eq message ping_word
    then answered (protocol_ping now fd q) observers
    else record { aquarium = q; observers = observers; reply = unknown_command }

-- The message is `c ∷ s`, whose last character is the newline.
pub protocol_execute : Expressions → ℤ → ℤ → ℕ → ℕ → String → Aquarium → List ℕ → Done
unfolding verb_of init dispatch_message
protocol_execute x now fd ind_socket c s q observers =
    let message = init c s in
    let verb = verb_of true message in
    dispatch_message x now fd ind_socket message verb (drop (length verb + 1) message) q observers
