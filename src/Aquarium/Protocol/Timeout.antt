-- ===== src/Aquarium/Protocol/Timeout.antt =====
-- `routine_timeout_thread` of protocol.c: one round of its loop. What is written to the sockets and
-- to the console is left out; the time is an argument, as it is read anew for each client.
pub mod Round
mod Tests
use my_enseirb_matmeca_proje.Base.{
  update, ℕ, zero, suc, ◌+◌, ◌-◌, Bool, true, false, ◌==◌, if◌then◌else◌, List, Option, none, some,
}
use my_enseirb_matmeca_proje.Base.Int.{ℤ, ltb_ℤ, eqb_ℤ, ◌-ℤ◌}
use my_enseirb_matmeca_proje.Aquarium.{View, Aquarium}
use my_enseirb_matmeca_proje.Aquarium.Views.{no_socket, get_view_by_socket, free_view}
use my_enseirb_matmeca_proje.Aquarium.Protocol.{close_socket}

-- The field `fd` of the cells of the array, the aquarium, and the observers.
pub record Connections : Type 0 where
  pub fds : ℕ → ℤ
  pub aquarium : Aquarium
  pub observers : List ℕ

-- Whether the client has a view, and its last message was more than `limit` seconds ago.
abbrev pub late_view : ℤ → ℤ → Option View → Bool
late_view limit now none = false
late_view limit now (some v) = ltb_ℤ limit (now -ℤ v.last_ping_timestamp)

unfoldable pub is_late : ℤ → ℤ → ℤ → Aquarium → Bool
unfolding get_view_by_socket
is_late limit now fd q = late_view limit now (get_view_by_socket fd q)

-- The body of the loop at place `i`.
pub timeout_one : ℤ → ℤ → ℕ → Connections → Connections
unfolding is_late free_view close_socket
timeout_one limit now i s =
    let fd = s.fds i in
    if eqb_ℤ fd no_socket
    then s
    else if is_late limit now fd s.aquarium
    then (record {
      fds = update s.fds i no_socket;
      aquarium = free_view fd s.aquarium;
      observers = close_socket i s.observers;
    })
    else s

-- The last `k` rounds, from place `i` on.
pub timeout_from : ℤ → (ℕ → ℤ) → ℕ → ℕ → Connections → Connections
unfolding timeout_one
timeout_from limit clock zero i s = s
timeout_from limit clock (suc k) i s =
    timeout_from limit clock k (i + 1) (timeout_one limit (clock i) i s)

-- `clock i` is the time when place `i` is looked at.
pub timeout_round : ℤ → (ℕ → ℤ) → ℕ → Connections → Connections
unfolding timeout_from
timeout_round limit clock pollsize s = timeout_from limit clock (pollsize - 2) 2 s
