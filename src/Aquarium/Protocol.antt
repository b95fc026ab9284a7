-- ===== src/Aquarium/Protocol.antt =====
-- protocol.c of the controller: the answers to the clients' commands, and the observers, the
-- clients that the fishes are sent to. What the regular expressions of the C library match, and
-- `atoi`, are parameters; what is printed on the console is left out.
pub mod Clients
pub mod Observers
pub mod Messages
pub mod Timeout
use my_enseirb_matmeca_proje.Base.{
  ℕ, zero, suc, ◌+◌, Bool, true, false, ◌==◌, if◌then◌else◌, List, [], ◌∷◌, ◌++◌, length, get_or,
  Option, none, some,
}
use my_enseirb_matmeca_proje.Base.Int.{ℤ, pos, negsuc}
use my_enseirb_matmeca_proje.Aquarium.{String, View, Fish, Aquarium, modify_first}
use my_enseirb_matmeca_proje.Aquarium.Views.{
  has_socket, has_view_by_socket, allocate_view, allocate_view_extended, free_view,
}
use my_enseirb_matmeca_proje.Aquarium.Fishes.{
  add_fish, remove_fish, start_fish, get_fishes_by_socket,
}

-- The text of an answer.
pub data Response : Type 0 where
  already_connected no_greeting nok ok pong bye fish_exists no_strategy no_fish unknown_fish
        no_view :
      Response
  greeting : String → Response
  status : ℕ → List Fish → Response
  fish_list : List Fish → Response

abbrev greet : Option String → Response
greet (some id) = greeting id
greet none = no_greeting

unfoldable pub protocol_hello : ℤ → ℤ → Aquarium → Aquarium × Response
unfolding has_view_by_socket allocate_view
protocol_hello now fd q =
    let (q', result) = allocate_view now fd q in
    if has_view_by_socket fd q then (q, already_connected) else (q', greet result)

-- `params` is what the expression matches in the message.
unfoldable pub protocol_hello_extended :
    ℤ → ℤ → Option (List String) → Aquarium → Aquarium × Response
unfolding has_view_by_socket allocate_view_extended
protocol_hello_extended now fd params q =
    if has_view_by_socket fd q then (q, already_connected) else elim params [
      | none ↦ (q, nok)
      | some ps ↦
          let (q', result) = allocate_view_extended now fd (get_or ps 2 []) q in (q', greet result)
    ]

abbrev pub touch : ℤ → View → View
touch now v = record v { last_ping_timestamp = now }

unfoldable pub protocol_ping : ℤ → ℤ → Aquarium → Aquarium × Response
unfolding modify_first
protocol_ping now fd q =
    (record q { views = modify_first (has_socket fd) (touch now) q.views }, pong)

abbrev added : ℤ → Response
added (pos zero) = fish_exists
added (pos (suc n)) = ok
added (negsuc n) = no_strategy

unfoldable pub protocol_add_fish :
    (String → ℤ) → Option (List String) → Aquarium → Aquarium × Response
unfolding add_fish
protocol_add_fish atoi params q = elim params [
  | none ↦ (q, nok)
  | some ps ↦
      let (q', result) =
        add_fish (get_or ps 0 []) (atoi (get_or ps 2 [])) (atoi (get_or ps 3 []))
          (atoi (get_or ps 4 [])) (atoi (get_or ps 5 [])) (get_or ps 6 []) q in
      (q', added result)
]

unfoldable pub protocol_del_fish : Option (List String) → Aquarium → Aquarium × Response
unfolding remove_fish
protocol_del_fish params q = elim params [
  | none ↦ (q, nok)
  | some ps ↦
      let (q', removed) = remove_fish (get_or ps 0 []) q in (q', if removed then ok else no_fish)
]

unfoldable pub protocol_start_fish : String → Aquarium → Aquarium × Response
unfolding start_fish
protocol_start_fish message q =
    let (q', started) = start_fish message q in (q', if started then ok else unknown_fish)

unfoldable pub protocol_status : Aquarium → Response
protocol_status q = status (length q.fishes) q.fishes

unfoldable pub protocol_get_fishes : ℤ → Aquarium → Response
unfolding has_view_by_socket get_fishes_by_socket
protocol_get_fishes fd q =
    if has_view_by_socket fd q
    then elim (get_fishes_by_socket fd q) [ none ↦ no_view | some fs ↦ fish_list fs ]
    else no_view

-- The array `observers` up to its mark -1, without the mark.
unfoldable pub protocol_get_fishes_continously : ℕ → List ℕ → List ℕ
protocol_get_fishes_continously ind_socket observers = observers ++ (ind_socket ∷ [])

-- `ind_sock`: the last place, from `i` on, of `ind_socket`, or what was found before.
unfoldable pub last_place : ℕ → List ℕ → ℕ → ℕ → ℕ
last_place ind_socket [] i found = found
last_place ind_socket (o ∷ os) i found =
    last_place ind_socket os (i + 1) (if o == ind_socket then i else found)

-- The shift to the left from a place on.
unfoldable pub shift_left : ℕ → List ℕ → List ℕ
shift_left i [] = []
shift_left zero (o ∷ os) = os
shift_left (suc i) (o ∷ os) = o ∷ shift_left i os

unfoldable pub close_socket : ℕ → List ℕ → List ℕ
unfolding last_place shift_left
close_socket ind_socket observers = shift_left (last_place ind_socket observers 0 0) observers
