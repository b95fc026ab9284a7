-- ===== src/Aquarium/Fishes/Names.antt =====
-- The operations on the fishes of state.c: the names, and the room in the array.
use my_enseirb_matmeca_proje.Base.{
  ℕ, suc, ◌+◌, ◌≤◌, ◌≡◌, refl, ap, ◌∙◌, inl, inr, true, false, not, ◌&&◌, ◌||◌, if◌then◌else◌, List,
  [], ◌∷◌, length, length-append, count_if, Bool-cases, arith,
}
use my_enseirb_matmeca_proje.Base.Int.{ℤ, pos, negsuc}
use my_enseirb_matmeca_proje.Kitty.Random.{Rng}
use my_enseirb_matmeca_proje.Aquarium.{String, str_eq, Fish, Aquarium, init_aquarium, any}
use my_enseirb_matmeca_proje.Aquarium.Tables.{remove_first_lem, modify_first_lem}
use my_enseirb_matmeca_proje.Aquarium.Tables.Keys.{
  grow-room, Unique, any-append, any-there, any-absent, any-remove, Unique-append, Unique-remove,
  Unique-modify,
}
use my_enseirb_matmeca_proje.Aquarium.Fishes.{
  has_name, has_fish, random_way_point, add_fish, remove_fish, start_fish, apply_random_way_point,
  refresh_from, refresh,
}

pub record IsStocked (q : Aquarium) : Type 0 where
  pub room : length q.fishes + 1 ≤ q.fishes_size
  pub names : Unique (λ f. f.name) q.fishes

pub init-IsStocked : (width height : ℕ) → IsStocked (init_aquarium width height)
unfolding init_aquarium
init-IsStocked width height = record { room = omega arith; names = λ n. omega arith }

-- Adding a fish keeps the array within its bounds and the names unique. It answers 0 if the name is
-- in use, -1 if the strategy is not "RandomWayPoint", and 1 otherwise; only then is there one more
-- fish, and it has the name.
pub add_fish-IsStocked :
    (name : String) (x y width height : ℤ) (strategy : String) (q : Aquarium)
    → IsStocked q
    → let (q', answer) = add_fish name x y width height strategy q in
      IsStocked q'
      × (answer ≡ (
          if has_fish name q
          then pos 0
          else if str_eq strategy random_way_point
          then pos 1
          else negsuc 0))
      × ((other : String)
          → has_fish other q'
            ≡ has_fish other q || (str_eq name other && str_eq strategy random_way_point))
unfolding add_fish has_fish
add_fish-IsStocked name x y width height strategy q v =
    elim (Bool-cases (any (has_name name) q.fishes)) [
      | inl there ↦
          rw there
            (v, refl, λ other. ground (arith, any-there (λ f. f.name) q.fishes name other there))
      | inr new ↦ elim (Bool-cases (str_eq strategy random_way_point)) [
        | inl known ↦
            rw (new, known)
              (
                record {
                  room = omega (
                    arith,
                    length-append q.fishes (new_fish ∷ []),
                    grow-room (length q.fishes) q.fishes_size v.room,
                  );
                  names = Unique-append (λ f. f.name) q.fishes new_fish v.names new;
                },
                refl,
                λ other. any-append (λ f. f.name) q.fishes new_fish other ∙ ground arith,
              )
        | inr unknown ↦ rw (new, unknown) (v, refl, λ other. ground arith)
      ]
    ]
  where
    new_fish : Fish
    new_fish = record {
      name = name;
      old_x = x;
      old_y = y;
      x = x;
      y = y;
      width = width;
      height = height;
      strategy = strategy;
      started = false;
    }

-- Removing a fish keeps the array within its bounds and the names unique. It succeeds exactly when a
-- fish has the name; afterwards the fishes are those before without this one.
pub remove_fish-IsStocked :
    (name : String) (q : Aquarium)
    → IsStocked q
    → let (q', removed) = remove_fish name q in
      IsStocked q'
      × (removed ≡ has_fish name q)
      × ((other : String) → has_fish other q' ≡ has_fish other q && not (str_eq name other))
unfolding remove_fish has_fish
remove_fish-IsStocked name q v = elim (Bool-cases (any (has_name name) q.fishes)) [
  | inl there ↦
      let (a, t, l, c) = remove_first_lem (has_name name) q.fishes there in
      rw there (
        record {
          room = omega (arith, l, v.room);
          names = Unique-remove (λ f. f.name) q.fishes (has_name name) v.names there;
        },
        refl,
        λ other. any-remove (λ f. f.name) q.fishes name other v.names there,
      )
  | inr nowhere ↦
      rw nowhere (v, refl, λ other. any-absent (λ f. f.name) q.fishes name other nowhere)
]

pub start_fish-IsStocked :
    (name : String) (q : Aquarium) → IsStocked q → IsStocked (start_fish name q).0
unfolding start_fish has_fish
start_fish-IsStocked name q v = elim (Bool-cases (any (has_name name) q.fishes)) [
  | inl there ↦
      let (a, t, s, l, c) =
        modify_first_lem (has_name name) (λ f. record f { started = true }) q.fishes there in
      rw there (record {
        room = omega (arith, l, v.room);
        names = Unique-modify (λ f. f.name) q.fishes (has_name name) _ v.names (λ f. refl) there;
      })
  | inr nowhere ↦ rw nowhere v
]

apply-name :
    (width height : ℕ) (f : Fish) (r : Rng)
    → (apply_random_way_point width height f r).0.name ≡ f.name
unfolding apply_random_way_point
apply-name width height f r = ground arith

refresh_from-keeps :
    (width height : ℕ) (fs : List Fish) (r : Rng)
    → let fs' = (refresh_from width height fs r).0 in
      (length fs' ≡ length fs)
      × ((n : String) → count_if (has_name n) fs' ≡ count_if (has_name n) fs)
unfolding refresh_from
refresh_from-keeps width height [] r = (refl, λ n. refl)
refresh_from-keeps width height (f ∷ fs) r =
    elim (Bool-cases (str_eq f.strategy random_way_point)) [
      | inl h ↦
          let (l, c) =
            refresh_from-keeps width height fs (apply_random_way_point width height f r).1 in
          rw h (ap suc l, λ n. rw (apply-name width height f r, c n) refl)
      | inr h ↦
          let (l, c) = refresh_from-keeps width height fs r in rw h (ap suc l, λ n. rw (c n) refl)
    ]

pub refresh-IsStocked : (q : Aquarium) (r : Rng) → IsStocked q → IsStocked (refresh q r).0
unfolding refresh
refresh-IsStocked q r v =
    let (l, c) = refresh_from-keeps q.width q.height q.fishes r in
    record { room = omega (arith, l, v.room); names = λ n. omega (arith, c n, v.names n) }
