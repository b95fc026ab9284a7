-- ===== src/Aquarium/Protocol/Messages/Requests.antt =====
-- The messages that clients know, and what is to be done for each.
use my_enseirb_matmeca_proje.Base.{
  ℕ, ◌+◌, ◌≡◌, true, List, [], ◌∷◌, ◌++◌, length, drop, Option, none, some,
}
use my_enseirb_matmeca_proje.Base.Int.{ℤ}
use my_enseirb_matmeca_proje.Aquarium.{String, Aquarium}
use my_enseirb_matmeca_proje.Aquarium.Commands.{verb_of}
use my_enseirb_matmeca_proje.Aquarium.Protocol.{
  bye, protocol_hello, protocol_hello_extended, protocol_ping, protocol_add_fish, protocol_del_fish,
  protocol_start_fish, protocol_status, protocol_get_fishes,
}
use my_enseirb_matmeca_proje.Aquarium.Protocol.Clients.{
  Event, hello, hello_as, ping, new_fish, old_fish, wake, run,
}
use my_enseirb_matmeca_proje.Aquarium.Protocol.Messages.{
  Expressions, Reply, answers, fishes_will_be_sent, Done, dispatch_message, hello_word,
  add_fish_word, del_fish_word, start_fish_word, status_word, log_word, get_fishes_word,
  continously_word, ping_word,
}

pub data Request : Type 0 where
  greets asks_status asks_fishes asks_continously pings : Request
  greets_as adds deletes starts leaves : String → Request

-- Without the newline.
abbrev pub request_text : Request → String
request_text greets = hello_word
request_text asks_status = status_word
request_text asks_fishes = get_fishes_word
request_text asks_continously = continously_word
request_text pings = ping_word
request_text (greets_as s) = hello_word ++ (32 ∷ s)
request_text (adds s) = add_fish_word ++ (32 ∷ s)
request_text (deletes s) = del_fish_word ++ (32 ∷ s)
request_text (starts s) = start_fish_word ++ (32 ∷ s)
request_text (leaves s) = log_word ++ (32 ∷ s)

abbrev pub first : String → ℕ
first [] = 0
first (c ∷ s) = c

abbrev pub others : String → String
others [] = []
others (c ∷ s) = s

module _ (x : Expressions) (fd : ℤ) where
  -- What a request of the client `fd` does to the aquarium.
  abbrev pub event : Request → Option Event
  event greets = some (hello fd)
  event (greets_as s) = some (hello_as fd (x.view s))
  event (adds s) = some (new_fish (x.fish s))
  event (deletes s) = some (old_fish (x.fish_name s))
  event (starts s) = some (wake s)
  event pings = some (ping fd)
  event asks_status = none
  event asks_fishes = none
  event asks_continously = none
  event (leaves s) = none

abbrev pub after_event : (String → ℤ) → ℤ → Option Event → Aquarium → Aquarium
after_event atoi now none q = q
after_event atoi now (some e) q = run atoi now e q

abbrev pub observers_after : ℕ → Request → List ℕ → List ℕ
observers_after ind_socket asks_continously os = os ++ (ind_socket ∷ [])
observers_after ind_socket _ os = os

-- What the handler of the request answers.
abbrev pub reply_to : Expressions → ℤ → ℤ → Aquarium → Request → Reply
reply_to x now fd q greets = answers (protocol_hello now fd q).1
reply_to x now fd q (greets_as s) = answers (protocol_hello_extended now fd (x.view s) q).1
reply_to x now fd q (adds s) = answers (protocol_add_fish x.atoi (x.fish s) q).1
reply_to x now fd q (deletes s) = answers (protocol_del_fish (x.fish_name s) q).1
reply_to x now fd q (starts s) = answers (protocol_start_fish s q).1
reply_to x now fd q pings = answers (protocol_ping now fd q).1
reply_to x now fd q asks_status = answers (protocol_status q)
reply_to x now fd q asks_fishes = answers (protocol_get_fishes fd q)
reply_to x now fd q asks_continously = fishes_will_be_sent
reply_to x now fd q (leaves s) = answers bye

module _ (x : Expressions) (now fd : ℤ) (ind_socket : ℕ) (q : Aquarium) (observers : List ℕ) where
  abbrev on_message : String → Done
  on_message message =
      let verb = verb_of true message in
      dispatch_message x now fd ind_socket message verb (drop (length verb + 1) message) q observers

  pub record IsAnswered (k : Request) (d : Done) : Type 0 where
    pub aquarium : d.aquarium ≡ after_event x.atoi now (event x fd k) q
    pub listed : d.observers ≡ observers_after ind_socket k observers
    pub reply : d.reply ≡ reply_to x now fd q k
