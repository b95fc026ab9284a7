-- ===== src/Aquarium/Protocol/Timeout/Tests.antt =====
-- A client that has not sent a ping for long.
use my_enseirb_matmeca_proje.Base.{
  ◌≡◌, refl, false, [], ◌∷◌, ◌==◌, if◌then◌else◌, arith, some, none, ◌≢◌, ℕ,
}
use my_enseirb_matmeca_proje.Base.Int.{ℤ, pos, negsuc, eqb_ℤ, ◌-ℤ◌, ◌+ℤ◌, ◌≤ℤ◌, ◌<ℤ◌}
use my_enseirb_matmeca_proje.Aquarium.{View, init_aquarium, find_first, modify_all}
use my_enseirb_matmeca_proje.Aquarium.Views.{no_socket, get_view_by_socket, free_view}
use my_enseirb_matmeca_proje.Aquarium.Protocol.{close_socket, last_place, shift_left}
use my_enseirb_matmeca_proje.Aquarium.Protocol.Timeout.{
  Connections, is_late, timeout_one, timeout_from, timeout_round,
}
use my_enseirb_matmeca_proje.Aquarium.Protocol.Timeout.Round.{timeout_round_lem}

abbrev seen_at : ℤ → ℤ → View
seen_at fd now = record {
  id = 78 ∷ [];
  x = pos 0;
  y = pos 0;
  width = pos 10;
  height = pos 10;
  fd_socket = fd;
  last_ping_timestamp = now;
}

-- The clients 7 and 8 stand at the places 2 and 3.
abbrev two_clients : Connections
two_clients = record {
  fds = λ i. if i == 2 then pos 7 else if i == 3 then pos 8 else negsuc 0;
  aquarium = record (init_aquarium 100 100) {
    views = seen_at (pos 7) (pos 10) ∷ seen_at (pos 8) (pos 90) ∷ [];
  };
  observers = 2 ∷ 3 ∷ [];
}

seven_alone : (k : ℕ) → k ≢ 2 → eqb_ℤ (two_clients.fds 2) (two_clients.fds k) ≡ false
seven_alone k ne = ground (arith, ne)

timeout_round_lem_example :
    let s' = timeout_round (pos 60) (λ i. pos 100) 4 two_clients in
    ((v : View)
      → get_view_by_socket (pos 7) two_clients.aquarium ≡ some v
      → pos 60 +ℤ v.last_ping_timestamp <ℤ pos 100
      → (s'.fds 2 ≡ no_socket) × (get_view_by_socket (pos 7) s'.aquarium ≡ none))
    × (((v : View)
          → get_view_by_socket (pos 7) two_clients.aquarium ≡ some v
          → pos 100 ≤ℤ pos 60 +ℤ v.last_ping_timestamp)
        → (s'.fds 2 ≡ pos 7)
          × (get_view_by_socket (pos 7) s'.aquarium
              ≡ get_view_by_socket (pos 7) two_clients.aquarium))
timeout_round_lem_example =
    timeout_round_lem (pos 60) (λ i. pos 100) 4 2 two_clients (omega arith) (omega arith) refl
      seven_alone

first_leaves : (timeout_round (pos 60) (λ i. pos 100) 4 two_clients).fds 2 ≡ no_socket
unfolding timeout_round timeout_from timeout_one is_late get_view_by_socket find_first ◌-ℤ◌ ◌+ℤ◌
first_leaves = refl

second_observes : (timeout_round (pos 60) (λ i. pos 100) 4 two_clients).observers ≡ 3 ∷ []
unfolding timeout_round timeout_from timeout_one is_late get_view_by_socket find_first free_view
    modify_all close_socket last_place shift_left ◌-ℤ◌ ◌+ℤ◌
second_observes = refl
