-- ===== src/Aquarium/Tests.antt =====
-- The theorems on the controller at a small aquarium.
use my_enseirb_matmeca_proje.Base.{
  ◌-◌, ◌<◌, ◌≤◌, ◌≡◌, ◌↔◌, refl, true, false, not, ◌&&◌, ◌||◌, ◌==◌, if◌then◌else◌, [], ◌∷◌, length,
  count, count_if, none, some, arith,
}
use my_enseirb_matmeca_proje.Base.Int.{ℤ, pos, negsuc, eqb_ℤ}
use my_enseirb_matmeca_proje.Aquarium.{String, str_eq, Aquarium, init_aquarium, any}
use my_enseirb_matmeca_proje.Aquarium.Views.{
  has_id, has_socket, no_socket, has_view_by_id, has_view_by_socket, add_view,
  allocate_view_extended,
}
use my_enseirb_matmeca_proje.Aquarium.Views.Allocation.{Given, allocate_view_extended_lem}
use my_enseirb_matmeca_proje.Aquarium.Views.Validity.{IsValid, init-IsValid, add_view-IsValid}
use my_enseirb_matmeca_proje.Aquarium.Fishes.{
  has_name, has_fish, random_way_point, add_fish, remove_fish,
}
use my_enseirb_matmeca_proje.Aquarium.Fishes.Names.{
  IsStocked, init-IsStocked, add_fish-IsStocked, remove_fish-IsStocked,
}
use my_enseirb_matmeca_proje.Aquarium.Protocol.{close_socket}
use my_enseirb_matmeca_proje.Aquarium.Protocol.Observers.{close_socket_lem, close_socket_stranger}
use my_enseirb_matmeca_proje.Aquarium.Protocol.Clients.{Event, run, start, next, reach_lem}

-- "N1", and "Nemo".
abbrev n1 : String
n1 = 78 ∷ 49 ∷ []

abbrev nemo : String
nemo = 78 ∷ 101 ∷ 109 ∷ 111 ∷ []

abbrev empty : Aquarium
empty = init_aquarium 1000 1000

empty-IsValid : IsValid empty
empty-IsValid = init-IsValid 1000 1000

empty-IsStocked : IsStocked empty
empty-IsStocked = init-IsStocked 1000 1000

abbrev zero_coordinate : String → ℤ
zero_coordinate s = pos 0

-- One view, at the origin.
abbrev one_view : Aquarium
one_view = (add_view (pos 5) n1 (pos 0) (pos 0) (pos 500) (pos 500) empty).0

one_view-IsValid : IsValid one_view
one_view-IsValid =
    (add_view-IsValid (pos 5) n1 (pos 0) (pos 0) (pos 500) (pos 500) empty empty-IsValid).0

add_view-IsValid_example :
    let (q', failed) = add_view (pos 6) n1 (pos 0) (pos 0) (pos 9) (pos 9) one_view in
    IsValid q'
    × (failed ≡ (if has_view_by_id n1 one_view then 1 else 0))
    × ((other : String)
        → has_view_by_id other q' ≡ has_view_by_id other one_view || str_eq n1 other)
add_view-IsValid_example =
    add_view-IsValid (pos 6) n1 (pos 0) (pos 0) (pos 9) (pos 9) one_view one_view-IsValid

nobody_yet : has_view_by_socket (pos 4) one_view ≡ false
unfolding has_view_by_socket any add_view has_view_by_id init_aquarium
nobody_yet = refl

allocate_view_extended_lem_example :
    let r = allocate_view_extended (pos 7) (pos 4) n1 one_view in
    IsValid r.0
    × ((r.1 ≡ none) ↔ (any (has_socket no_socket) one_view.views ≡ false))
    × (any (λ v. str_eq v.id n1 && has_socket no_socket v) one_view.views ≡ true → r.1 ≡ some n1)
    × Given (pos 7) (pos 4) one_view r
allocate_view_extended_lem_example =
    allocate_view_extended_lem (pos 7) (pos 4) n1 one_view one_view-IsValid nobody_yet

add_fish-IsStocked_example :
    let (q', answer) = add_fish nemo (pos 1) (pos 2) (pos 3) (pos 4) random_way_point empty in
    IsStocked q'
    × (answer ≡ (
        if has_fish nemo empty
        then pos 0
        else if str_eq random_way_point random_way_point
        then pos 1
        else negsuc 0))
    × ((other : String)
        → has_fish other q'
          ≡ has_fish other empty || (str_eq nemo other && str_eq random_way_point random_way_point))
add_fish-IsStocked_example =
    add_fish-IsStocked nemo (pos 1) (pos 2) (pos 3) (pos 4) random_way_point empty empty-IsStocked

abbrev one_fish : Aquarium
one_fish = (add_fish nemo (pos 1) (pos 2) (pos 3) (pos 4) random_way_point empty).0

one_fish-IsStocked : IsStocked one_fish
one_fish-IsStocked =
    (add_fish-IsStocked nemo (pos 1) (pos 2) (pos 3) (pos 4) random_way_point empty
      empty-IsStocked).0

remove_fish-IsStocked_example :
    let (q', removed) = remove_fish nemo one_fish in
    IsStocked q'
    × (removed ≡ has_fish nemo one_fish)
    × ((other : String) → has_fish other q' ≡ has_fish other one_fish && not (str_eq nemo other))
remove_fish-IsStocked_example = remove_fish-IsStocked nemo one_fish one_fish-IsStocked

close_socket_lem_example :
    count 7 (close_socket 3 (7 ∷ 3 ∷ 7 ∷ [])) ≡ count 7 (7 ∷ 3 ∷ 7 ∷ []) - (if 3 == 7 then 1 else 0)
close_socket_lem_example = close_socket_lem 3 (7 ∷ 3 ∷ 7 ∷ []) (omega arith) 7

close_socket_stranger_example : close_socket 3 (7 ∷ 8 ∷ []) ≡ 8 ∷ []
close_socket_stranger_example = close_socket_stranger 3 7 (8 ∷ []) refl

abbrev opening : Event
opening = Event.new_view n1 (pos 0) (pos 0) (pos 500) (pos 500)

reach_lem_example :
    let q =
      run zero_coordinate
        (pos 2)
        (Event.hello (pos 4))
        (run zero_coordinate (pos 1) opening empty) in
    ((id : String) → count_if (has_id id) q.views ≤ 1)
    × ((fd : ℤ) → eqb_ℤ no_socket fd ≡ false → count_if (has_socket fd) q.views ≤ 1)
    × ((name : String) → count_if (has_name name) q.fishes ≤ 1)
    × (length q.views < q.views_size)
    × (length q.fishes < q.fishes_size)
reach_lem_example =
    reach_lem zero_coordinate 1000 1000 _
      (next (pos 2) (Event.hello (pos 4)) tt (next (pos 1) opening tt start))
