-- ===== src/Aquarium/Fishes.antt =====
-- The fishes of state.c, and what a client sees of them.
pub mod Names
use my_enseirb_matmeca_proje.Base.{
  ℕ, zero, suc, ◌+◌, ◌*◌, ◌%◌, Bool, true, false, not, ◌&&◌, ◌||◌, ◌==◌, if◌then◌else◌, List, [],
  ◌∷◌, length, Option, none, some, ◌++◌,
}
use my_enseirb_matmeca_proje.Base.Int.{ℤ, pos, negsuc, leb_ℤ, eqb_ℤ, ◌+ℤ◌}
use my_enseirb_matmeca_proje.Kitty.Random.{Rng, rand}
use my_enseirb_matmeca_proje.Aquarium.{
  String, str_eq, View, Fish, Aquarium, find_first, any, modify_first, remove_first, grow,
}
use my_enseirb_matmeca_proje.Aquarium.Views.{get_view_by_socket}

abbrev pub has_name : String → Fish → Bool
has_name name f = str_eq f.name name

unfoldable pub has_fish : String → Aquarium → Bool
unfolding any
has_fish name q = any (has_name name) q.fishes

-- The bytes of "RandomWayPoint".
abbrev pub random_way_point : String
random_way_point = 82 ∷ 97 ∷ 110 ∷ 100 ∷ 111 ∷ 109 ∷ 87 ∷ 97 ∷ 121 ∷ 80 ∷ 111 ∷ 105 ∷ 110 ∷ 116 ∷ []

unfoldable pub add_fish : String → ℤ → ℤ → ℤ → ℤ → String → Aquarium → Aquarium × ℤ
unfolding has_fish str_eq
add_fish name x y width height strategy q =
    let new : Fish = record {
      name = name;
      old_x = x;
      old_y = y;
      x = x;
      y = y;
      width = width;
      height = height;
      strategy = strategy;
      started = false;
    } in
    if has_fish name q
    then (q, pos 0)
    else if str_eq strategy random_way_point
    then (
      record q {
        fishes_size = grow (length q.fishes) q.fishes_size;
        fishes = q.fishes ++ (new ∷ []);
      },
      pos 1,
    )
    else (q, negsuc 0)

unfoldable pub remove_fish : String → Aquarium → Aquarium × Bool
unfolding has_fish remove_first
remove_fish name q =
    if has_fish name q
    then (record q { fishes = remove_first (has_name name) q.fishes }, true)
    else (q, false)

unfoldable pub start_fish : String → Aquarium → Aquarium × Bool
unfolding has_fish modify_first
start_fish name q =
    if has_fish name q
    then (
      record q {
        fishes = modify_first (has_name name) (λ f. record f { started = true }) q.fishes;
      },
      true,
    )
    else (q, false)

-- `applyRandomWayPointStrategy`. `rand` is that of the C library.
unfoldable pub apply_random_way_point : ℕ → ℕ → Fish → Rng → Fish × Rng
apply_random_way_point width height f r =
    let (m, r') = rand r in
    let (n, r'') = rand r' in
    if f.started
    then (record f { old_x = f.x; old_y = f.y; x = pos (m % width); y = pos (n % height) }, r'')
    else (f, r)

unfoldable pub refresh_from : ℕ → ℕ → List Fish → Rng → List Fish × Rng
unfolding apply_random_way_point str_eq
refresh_from width height [] r = ([], r)
refresh_from width height (f ∷ fs) r =
    let (f', r') =
      if str_eq f.strategy random_way_point
      then apply_random_way_point width height f r
      else (f, r) in
    let (fs', r'') = refresh_from width height fs r' in (f' ∷ fs', r'')

unfoldable pub refresh : Aquarium → Rng → Aquarium × Rng
unfolding refresh_from
refresh q r =
    let (fs, r') = refresh_from q.width q.height q.fishes r in (record q { fishes = fs }, r')

abbrev between : ℤ → ℤ → ℤ → Bool
between a b length = leb_ℤ b a && leb_ℤ a (b +ℤ length)

-- The fish is, or was before the last refresh, within the view.
abbrev pub is_seen : View → Fish → Bool
is_seen v f =
    between f.x v.x v.width && between f.y v.y v.height
    || between f.old_x v.x v.width && between f.old_y v.y v.height

unfoldable pub seen : View → List Fish → List Fish
seen v [] = []
seen v (f ∷ fs) = if is_seen v f then f ∷ seen v fs else seen v fs

-- The fishes that `get_fishes_by_socket` prints. Without a view the C code goes on with a null
-- pointer: `none`.
unfoldable pub get_fishes_by_socket : ℤ → Aquarium → Option (List Fish)
unfolding seen get_view_by_socket
get_fishes_by_socket fd q = elim (get_view_by_socket fd q) [
  | none ↦ none
  | some v ↦ some (seen v q.fishes)
]
