-- ===== src/Aquarium/Protocol/Clients.antt =====
-- A run of the controller of state.c and protocol.c as a sequence of events.
use my_enseirb_matmeca_proje.Aquarium.Commands.Execute.{
  HasShortNumbers, command_execute-IsSound, IsSound,
}
use my_enseirb_matmeca_proje.Aquarium.Commands.{Files, command_execute}
use my_enseirb_matmeca_proje.Base.{
  ℕ, ◌≡◌, ◌≤◌, ◌<◌, length, refl, Bool, false, List, Option, none, some, inl, inr, Bool-cases, ◌&&◌,
  Option-cases, count_if, get_or, [], arith, ◌∷◌,
}
use my_enseirb_matmeca_proje.Base.Int.{ℤ, eqb_ℤ}
use my_enseirb_matmeca_proje.Kitty.Random.{Rng}
use my_enseirb_matmeca_proje.Aquarium.{
  String, str_eq, View, Aquarium, find_first, init_aquarium, modify_first,
}
use my_enseirb_matmeca_proje.Aquarium.Views.{
  add_view, remove_view, free_view, has_id, has_socket, no_socket, link_first, has_view_by_socket,
  allocate_view, allocate_view_extended,
}
use my_enseirb_matmeca_proje.Aquarium.Fishes.{has_name, refresh, add_fish, remove_fish, start_fish}
use my_enseirb_matmeca_proje.Aquarium.Views.Validity.{
  IsValid, init-IsValid, add_view-IsValid, remove_view-IsValid, allocate_view_extended-IsValid,
  allocate_view-IsValid, free_view-keeps,
}
use my_enseirb_matmeca_proje.Aquarium.Fishes.Names.{
  IsStocked, init-IsStocked, add_fish-IsStocked, remove_fish-IsStocked, start_fish-IsStocked,
  refresh-IsStocked,
}
use my_enseirb_matmeca_proje.Aquarium.Tables.{count_if-modify_first, length-modify_first}
use my_enseirb_matmeca_proje.Aquarium.Protocol.{
  protocol_hello, protocol_hello_extended, protocol_ping, touch, protocol_add_fish,
  protocol_del_fish, protocol_start_fish,
}

-- One event: a line that the administrator types, a view that is added or taken away, a command of a
-- client, a client that leaves, or the refresh of the broadcast thread. `fd` is the socket of the
-- client.
pub data Event : Type 0 where
  typed : Files → ℕ → ℕ → String → Event
  new_view : String → ℤ → ℤ → ℤ → ℤ → Event
  old_view : String → Event
  hello : ℤ → Event
  hello_as : ℤ → Option (List String) → Event
  ping : ℤ → Event
  new_fish : Option (List String) → Event
  old_fish : Option (List String) → Event
  wake : String → Event
  leave : ℤ → Event
  tick : Rng → Event

-- At the time `now`.
unfoldable pub run : (String → ℤ) → ℤ → Event → Aquarium → Aquarium
run atoi now (typed files garbage c s) q = (command_execute files now garbage c s q).aquarium
run atoi now (new_view id x y w h) q = (add_view now id x y w h q).0
run atoi now (old_view id) q = (remove_view id q).0
run atoi now (hello fd) q = (protocol_hello now fd q).0
run atoi now (hello_as fd params) q = (protocol_hello_extended now fd params q).0
run atoi now (ping fd) q = (protocol_ping now fd q).0
run atoi now (new_fish params) q = (protocol_add_fish atoi params q).0
run atoi now (old_fish params) q = (protocol_del_fish params q).0
run atoi now (wake name) q = (protocol_start_fish name q).0
run atoi now (leave fd) q = free_view fd q
run atoi now (tick r) q = (refresh q r).0

-- The parameters that `regex_match` copies fit in 50 bytes.
abbrev pub Fits : Option (List String) → Type 0
Fits none = Unit
Fits (some ps) = (i : ℕ) → length (get_or ps i []) < 50

-- What is typed, and what is in the files then, has only numbers of nine digits or less, and the
-- parameters of a client's command fit.
abbrev pub Allowed : Event → Type 0
Allowed (typed files garbage c s) = HasShortNumbers files (c ∷ s)
Allowed (hello_as fd params) = Fits params
Allowed (new_fish params) = Fits params
Allowed (old_fish params) = Fits params
Allowed e = Unit

ping-keeps :
    (now fd : ℤ) (q : Aquarium)
    → IsValid q
    → IsValid (record q { views = modify_first (has_socket fd) (touch now) q.views })
ping-keeps now fd q v = record {
  room = omega (arith, length-modify_first (has_socket fd) (touch now) q.views, v.room);
  ids = λ i. omega (
    arith,
    count_if-modify_first (has_socket fd) (touch now) (has_id i) (λ w. refl) q.views,
    v.ids i,
  );
  sockets = λ g e. omega (
    arith,
    count_if-modify_first (has_socket fd) (touch now) (has_socket g) (λ w. refl) q.views,
    v.sockets g e,
  );
}

module _ (atoi : String → ℤ) (width height : ℕ) where
  -- What the aquarium may be after any events, each at any time.
  pub data Reach : Aquarium → Type 0 where
    start : Reach (init_aquarium width height)
    next : {q : Aquarium} (now : ℤ) (e : Event) → Allowed e → Reach q → Reach (run atoi now e q)

abbrev SameViews : Aquarium → Aquarium → Type 0
SameViews q q' = (q'.views ≡ q.views) × (q'.views_size ≡ q.views_size)

abbrev SameFishes : Aquarium → Aquarium → Type 0
SameFishes q q' = (q'.fishes ≡ q.fishes) × (q'.fishes_size ≡ q.fishes_size)

IsValid-same : (q q' : Aquarium) → SameViews q q' → IsValid q → IsValid q'
IsValid-same q q' (e, f) v = record {
  room = rw (e, f) v.room;
  ids = rw e v.ids;
  sockets = rw e v.sockets;
}

IsStocked-same : (q q' : Aquarium) → SameFishes q q' → IsStocked q → IsStocked q'
IsStocked-same q q' (e, f) v = record { room = rw (e, f) v.room; names = rw e v.names }

add_fish-views :
    (name : String) (x y w h : ℤ) (strategy : String) (q : Aquarium)
    → SameViews q (add_fish name x y w h strategy q).0
unfolding add_fish
add_fish-views name x y w h strategy q = (ground arith, ground arith)

remove_fish-views : (name : String) (q : Aquarium) → SameViews q (remove_fish name q).0
unfolding remove_fish
remove_fish-views name q = (ground arith, ground arith)

start_fish-views : (name : String) (q : Aquarium) → SameViews q (start_fish name q).0
unfolding start_fish
start_fish-views name q = (ground arith, ground arith)

link_first-fishes :
    (now fd : ℤ) (test : View → Bool) (q : Aquarium) → SameFishes q (link_first now fd test q).0
link_first-fishes now fd test q = elim (Option-cases (find_first test q.views)) [
  | inl e ↦ rw (e, link_first) (refl, refl)
  | inr (a, e) ↦ rw (e, link_first) (refl, refl)
]

allocate_view_extended-fishes :
    (now fd : ℤ) (id : String) (q : Aquarium) → SameFishes q (allocate_view_extended now fd id q).0
unfolding allocate_view_extended allocate_view
allocate_view_extended-fishes now fd id q =
    elim (Option-cases (find_first (λ v. str_eq v.id id && has_socket no_socket v) q.views)) [
      | inl e ↦
          rw (e, allocate_view_extended, link_first)
            (link_first-fishes now fd (has_socket no_socket) q)
      | inr (a, e) ↦
          rw (e, allocate_view_extended, link_first)
            (link_first-fishes now fd (λ v. str_eq v.id id && has_socket no_socket v) q)
    ]

hello-fishes : (now fd : ℤ) (q : Aquarium) → SameFishes q (protocol_hello now fd q).0
unfolding protocol_hello allocate_view
hello-fishes now fd q = elim (Bool-cases (has_view_by_socket fd q)) [
  | inl h ↦ rw h (refl, refl)
  | inr h ↦ rw h (link_first-fishes now fd (has_socket no_socket) q)
]

hello_as-fishes :
    (now fd : ℤ) (params : Option (List String)) (q : Aquarium)
    → SameFishes q (protocol_hello_extended now fd params q).0
unfolding protocol_hello_extended
hello_as-fishes now fd none q = (ground arith, ground arith)
hello_as-fishes now fd (some ps) q = elim (Bool-cases (has_view_by_socket fd q)) [
  | inl h ↦ rw h (refl, refl)
  | inr h ↦ rw h (allocate_view_extended-fishes now fd (get_or ps 2 []) q)
]

hello-IsValid : (now fd : ℤ) (q : Aquarium) → IsValid q → IsValid (protocol_hello now fd q).0
unfolding protocol_hello
hello-IsValid now fd q v = elim (Bool-cases (has_view_by_socket fd q)) [
  | inl h ↦ rw h v
  | inr h ↦ rw h (allocate_view-IsValid now fd q v h).0
]

hello_as-IsValid :
    (now fd : ℤ) (params : Option (List String)) (q : Aquarium)
    → IsValid q
    → IsValid (protocol_hello_extended now fd params q).0
unfolding protocol_hello_extended
hello_as-IsValid now fd none q v = elim (Bool-cases (has_view_by_socket fd q)) [
  | inl h ↦ rw h v
  | inr h ↦ rw h v
]
hello_as-IsValid now fd (some ps) q v = elim (Bool-cases (has_view_by_socket fd q)) [
  | inl h ↦ rw h v
  | inr h ↦ rw h (allocate_view_extended-IsValid now fd (get_or ps 2 []) q v h).0
]

views-run :
    (atoi : String → ℤ) (now : ℤ) (e : Event) (q : Aquarium)
    → Allowed e
    → IsSound q
    → IsValid (run atoi now e q)
unfolding run protocol_hello protocol_hello_extended protocol_ping protocol_add_fish
    protocol_del_fish protocol_start_fish refresh
views-run atoi now (typed files garbage c s) q ok v =
    (command_execute-IsSound files now garbage c s q ok v).0
views-run atoi now (new_view id x y w h) q ok (v, k) = (add_view-IsValid now id x y w h q v).0
views-run atoi now (old_view id) q ok (v, k) = (remove_view-IsValid id q v).0
views-run atoi now (hello fd) q ok (v, k) = hello-IsValid now fd q v
views-run atoi now (hello_as fd params) q ok (v, k) = hello_as-IsValid now fd params q v
views-run atoi now (ping fd) q ok (v, k) = ping-keeps now fd q v
views-run atoi now (new_fish none) q ok (v, k) = v
views-run atoi now (new_fish (some ps)) q ok (v, k) =
    IsValid-same q _
      (add_fish-views (get_or ps 0 []) (atoi (get_or ps 2 [])) (atoi (get_or ps 3 []))
        (atoi (get_or ps 4 [])) (atoi (get_or ps 5 [])) (get_or ps 6 []) q)
      v
views-run atoi now (old_fish none) q ok (v, k) = v
views-run atoi now (old_fish (some ps)) q ok (v, k) =
    IsValid-same q _ (remove_fish-views (get_or ps 0 []) q) v
views-run atoi now (wake name) q ok (v, k) = IsValid-same q _ (start_fish-views name q) v
views-run atoi now (leave fd) q ok (v, k) = free_view-keeps fd q v
views-run atoi now (tick r) q ok (v, k) = IsValid-same q _ (refl, refl) v

fishes-run :
    (atoi : String → ℤ) (now : ℤ) (e : Event) (q : Aquarium)
    → Allowed e
    → IsSound q
    → IsStocked (run atoi now e q)
unfolding run add_view remove_view protocol_hello_extended allocate_view_extended allocate_view
    protocol_ping protocol_add_fish protocol_del_fish protocol_start_fish free_view
fishes-run atoi now (typed files garbage c s) q ok v =
    (command_execute-IsSound files now garbage c s q ok v).1
fishes-run atoi now (new_view id x y w h) q ok (k, v) =
    IsStocked-same q _ (ground arith, ground arith) v
fishes-run atoi now (old_view id) q ok (k, v) = IsStocked-same q _ (ground arith, ground arith) v
fishes-run atoi now (hello fd) q ok (k, v) = IsStocked-same q _ (hello-fishes now fd q) v
fishes-run atoi now (hello_as fd params) q ok (k, v) =
    IsStocked-same q _ (hello_as-fishes now fd params q) v
fishes-run atoi now (ping fd) q ok (k, v) = IsStocked-same q _ (refl, refl) v
fishes-run atoi now (new_fish none) q ok (k, v) = v
fishes-run atoi now (new_fish (some ps)) q ok (k, v) =
    (add_fish-IsStocked (get_or ps 0 []) (atoi (get_or ps 2 [])) (atoi (get_or ps 3 []))
      (atoi (get_or ps 4 [])) (atoi (get_or ps 5 [])) (get_or ps 6 []) q v).0
fishes-run atoi now (old_fish none) q ok (k, v) = v
fishes-run atoi now (old_fish (some ps)) q ok (k, v) =
    (remove_fish-IsStocked (get_or ps 0 []) q v).0
fishes-run atoi now (wake name) q ok (k, v) = start_fish-IsStocked name q v
fishes-run atoi now (leave fd) q ok (k, v) = IsStocked-same q _ (refl, refl) v
fishes-run atoi now (tick r) q ok (k, v) = refresh-IsStocked q r v

module _ (atoi : String → ℤ) (width height : ℕ) where
  Reach-IsValid : {q : Aquarium} → Reach atoi width height q → IsValid q × IsStocked q
  Reach-IsValid start = (init-IsValid width height, init-IsStocked width height)
  Reach-IsValid (next {q} now e ok r) =
      let (v, f) = Reach-IsValid r in
      (views-run atoi now e q ok (v, f), fishes-run atoi now e q ok (v, f))

-- Whatever the administrator types, `load` included, and the clients send, in any order and at any
-- times, and whatever the files and the random numbers, as long as no number in a line that is typed
-- or in a file has ten digits or more and no parameter of a client's command has 50 characters or
-- more: no two views have one id, no client (a socket other than -1) has two views, no
-- two fishes have one name, and the next view and the next fish have room in the arrays.
pub reach_lem :
    (atoi : String → ℤ) (width height : ℕ) (q : Aquarium)
    → Reach atoi width height q
    → ((id : String) → count_if (has_id id) q.views ≤ 1)
      × ((fd : ℤ) → eqb_ℤ no_socket fd ≡ false → count_if (has_socket fd) q.views ≤ 1)
      × ((name : String) → count_if (has_name name) q.fishes ≤ 1)
      × (length q.views < q.views_size)
      × (length q.fishes < q.fishes_size)
reach_lem atoi width height q r =
    let (v, f) = Reach-IsValid atoi width height r in
    (v.ids, v.sockets, f.names, omega (arith, v.room), omega (arith, f.room))
