-- ===== src/Aquarium/Views.antt =====
-- The views of state.c: the screens through which clients see the aquarium.
pub mod Validity
pub mod Allocation
use my_enseirb_matmeca_proje.Base.{
  ℕ, zero, suc, ◌+◌, ◌*◌, Bool, true, false, ◌&&◌, ◌==◌, if◌then◌else◌, List, [], ◌∷◌, length,
  Option, none, some, ◌++◌,
}
use my_enseirb_matmeca_proje.Base.Int.{ℤ, pos, negsuc, eqb_ℤ}
use my_enseirb_matmeca_proje.Aquarium.{
  String, str_eq, View, Aquarium, find_first, any, modify_first, modify_all, remove_first, grow,
}

abbrev pub has_id : String → View → Bool
has_id id v = str_eq v.id id

abbrev pub has_socket : ℤ → View → Bool
has_socket fd v = eqb_ℤ v.fd_socket fd

-- -1: no client has the view.
abbrev pub no_socket : ℤ
no_socket = negsuc 0

unfoldable pub get_view_by_id : String → Aquarium → Option View
unfolding find_first
get_view_by_id id q = find_first (has_id id) q.views

unfoldable pub get_view_by_socket : ℤ → Aquarium → Option View
unfolding find_first
get_view_by_socket fd q = find_first (has_socket fd) q.views

unfoldable pub has_view_by_id : String → Aquarium → Bool
unfolding any
has_view_by_id id q = any (has_id id) q.views

unfoldable pub has_view_by_socket : ℤ → Aquarium → Bool
unfolding any
has_view_by_socket fd q = any (has_socket fd) q.views

-- `now` is the time in seconds. The result is 1 if the view exists.
unfoldable pub add_view : ℤ → String → ℤ → ℤ → ℤ → ℤ → Aquarium → Aquarium × ℕ
unfolding has_view_by_id
add_view now id x y width height q =
    let new : View = record {
      id = id;
      x = x;
      y = y;
      width = width;
      height = height;
      fd_socket = no_socket;
      last_ping_timestamp = now;
    } in
    if has_view_by_id id q then (q, 1) else (
      record q { views_size = grow (length q.views) q.views_size; views = q.views ++ (new ∷ []) },
      0,
    )

unfoldable pub remove_view : String → Aquarium → Aquarium × ℕ
unfolding any remove_first
remove_view id q =
    if any (has_id id) q.views
    then (record q { views = remove_first (has_id id) q.views }, 0)
    else (q, 1)

-- `views[i].last_ping_timestamp = time(NULL); views[i].fd_socket = fd_socket`.
abbrev pub link : ℤ → ℤ → View → View
link now fd v = record v { last_ping_timestamp = now; fd_socket = fd }

-- A view is given to a client, and its id is the result.
abbrev pub link_first : ℤ → ℤ → (View → Bool) → Aquarium → Aquarium × Option String
link_first now fd test q = elim (find_first test q.views) [
  | none ↦ (q, none)
  | some v ↦ (record q { views = modify_first test (link now fd) q.views }, some v.id)
]

unfoldable pub allocate_view : ℤ → ℤ → Aquarium → Aquarium × Option String
unfolding find_first modify_first
allocate_view now fd q = link_first now fd (has_socket no_socket) q

-- INT_MAX.
abbrev pub int_max : ℤ
int_max = pos 2147483647

abbrev pub unlink : View → View
unlink v = record v { last_ping_timestamp = int_max; fd_socket = no_socket }

unfoldable pub free_view : ℤ → Aquarium → Aquarium
unfolding modify_all
free_view fd q = record q { views = modify_all (has_socket fd) unlink q.views }

unfoldable pub allocate_view_extended : ℤ → ℤ → String → Aquarium → Aquarium × Option String
unfolding allocate_view
allocate_view_extended now fd id q =
    let (q', result) = link_first now fd (λ v. str_eq v.id id && has_socket no_socket v) q in
    elim result [ some name ↦ (q', some name) | none ↦ allocate_view now fd q ]
