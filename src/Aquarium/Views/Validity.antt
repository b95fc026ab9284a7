-- ===== src/Aquarium/Views/Validity.antt =====
-- The operations on the views of state.c: the ids, the clients, and the room in the array.
use my_enseirb_matmeca_proje.Base.{
  ℕ, ◌+◌, ◌≤◌, ◌≡◌, refl, sym, ap, subst, ◌⊎◌, ◌↔◌, inl, inr, Bool, true, false, not, ◌&&◌, ◌||◌,
  if◌then◌else◌, [], ◌∷◌, length, length-append, count_if, count_if-append, none, some, Bool-cases,
  arith,
}
use my_enseirb_matmeca_proje.Base.Int.{ℤ, eqb_ℤ, eq_of_parts}
use my_enseirb_matmeca_proje.Aquarium.{
  String, str_eq, View, Aquarium, init_aquarium, any, modify_first,
}
use my_enseirb_matmeca_proje.Aquarium.Tables.{
  str_eq-eq, any-count_if, remove_first_lem, modify_first_lem, find_first-cases, any-imp,
  length-modify_all, count_if-modify_all, count_if-modify_all_eq, any-modify_all,
}
use my_enseirb_matmeca_proje.Aquarium.Tables.Keys.{
  grow-room, Unique, any-append, any-there, any-absent, any-remove, Unique-append, Unique-modify,
}
use my_enseirb_matmeca_proje.Aquarium.Views.{
  has_id, has_socket, no_socket, has_view_by_id, has_view_by_socket, add_view, remove_view, link,
  link_first, allocate_view, allocate_view_extended, free_view, unlink,
}

pub record IsValid (q : Aquarium) : Type 0 where
  pub room : length q.views + 1 ≤ q.views_size
  pub ids : Unique (λ w. w.id) q.views
  pub sockets : (fd : ℤ) → eqb_ℤ no_socket fd ≡ false → count_if (has_socket fd) q.views ≤ 1

pub init-IsValid : (width height : ℕ) → IsValid (init_aquarium width height)
unfolding init_aquarium
init-IsValid width height = record {
  room = omega arith;
  ids = λ id. omega arith;
  sockets = λ fd h. omega arith;
}

-- Adding a view keeps an aquarium valid, with the next cell of the array allocated. It is refused
-- exactly when a view has the id; afterwards the views that exist are those before and the new one.
pub add_view-IsValid :
    (now : ℤ) (id : String) (x y width height : ℤ) (q : Aquarium)
    → IsValid q
    → let (q', failed) = add_view now id x y width height q in
      IsValid q'
      × (failed ≡ (if has_view_by_id id q then 1 else 0))
      × ((other : String) → has_view_by_id other q' ≡ has_view_by_id other q || str_eq id other)
unfolding add_view
add_view-IsValid now id x y width height q v = elim (Bool-cases (any (has_id id) q.views)) [
  | inl there ↦ rw there (v, refl, λ other. any-there (λ w. w.id) q.views id other there)
  | inr new ↦ rw new (
    record {
      room = omega (
        arith,
        length-append q.views (new_view ∷ []),
        grow-room (length q.views) q.views_size v.room,
      );
      ids = Unique-append (λ w. w.id) q.views new_view v.ids new;
      sockets = λ fd h.
          ground
            (arith, count_if-append (has_socket fd) q.views (new_view ∷ []), v.sockets fd h, h);
    },
    refl,
    λ other. any-append (λ w. w.id) q.views _ other,
  )
]
  where
    new_view : View
    new_view = record {
      id = id;
      x = x;
      y = y;
      width = width;
      height = height;
      fd_socket = no_socket;
      last_ping_timestamp = now;
    }

-- Removing a view keeps an aquarium valid. It fails exactly when no view has the id; afterwards the
-- views that exist are those before without this one.
pub remove_view-IsValid :
    (id : String) (q : Aquarium)
    → IsValid q
    → let (q', failed) = remove_view id q in
      IsValid q'
      × (failed ≡ (if has_view_by_id id q then 0 else 1))
      × ((other : String)
          → has_view_by_id other q' ≡ has_view_by_id other q && not (str_eq id other))
unfolding remove_view has_view_by_id
remove_view-IsValid id q v = elim (Bool-cases (any (has_id id) q.views)) [
  | inl there ↦
      let (a, t, l, c) = remove_first_lem (has_id id) q.views there in
      rw there (
        record {
          room = omega (arith, l, v.room);
          ids = λ i. omega (arith, c (has_id i), v.ids i);
          sockets = λ fd h. omega (arith, c (has_socket fd), v.sockets fd h);
        },
        refl,
        λ other. any-remove (λ w. w.id) q.views id other v.ids there,
      )
  | inr nowhere ↦ rw nowhere (v, refl, λ other. any-absent (λ w. w.id) q.views id other nowhere)
]

link_first-IsValid :
    (now fd : ℤ) (test : View → Bool) (q : Aquarium)
    → IsValid q
    → has_view_by_socket fd q ≡ false
    → any test q.views ≡ true
    → IsValid (record q { views = modify_first test (link now fd) q.views })
unfolding has_view_by_socket
link_first-IsValid now fd test q v new h =
    let (a, t, s, l, c) = modify_first_lem test (link now fd) q.views h in
    record {
      room = omega (arith, l, v.room);
      ids = Unique-modify (λ w. w.id) q.views test (link now fd) v.ids (λ w. refl) h;
      sockets = λ g e.
          ground
            (arith, c (has_socket g), v.sockets g e, any-count_if (has_socket fd) q.views, same g);
    }
  where
    same :
        (g : ℤ)
        → eqb_ℤ fd g ≡ true
        → count_if (has_socket g) q.views ≡ count_if (has_socket fd) q.views
    same g e = ap (λ i. count_if (has_socket i) q.views) (sym (eq_of_parts fd g (ground arith)))

-- The two results of `link_first`.
link_first-cases :
    (now fd : ℤ) (test : View → Bool) (q : Aquarium)
    → ((link_first now fd test q ≡ (q, none)) × (any test q.views ≡ false))
      ⊎ ((a : View) × (link_first now fd test q
            ≡ (record q { views = modify_first test (link now fd) q.views }, some a.id))
          × (test a ≡ true)
          × (any test q.views ≡ true))
link_first-cases now fd test q = elim (find_first-cases test q.views) [
  | inr (a, f, t, k) ↦ inr (a, rw (f, link_first) refl, t, k)
  | inl (f, k) ↦ inl (rw (f, link_first) refl, k)
]

pub allocate_view-IsValid :
    (now fd : ℤ) (q : Aquarium)
    → IsValid q
    → has_view_by_socket fd q ≡ false
    → let (q', result) = allocate_view now fd q in
      IsValid q' × ((result ≡ none) ↔ (any (has_socket no_socket) q.views ≡ false))
unfolding allocate_view
allocate_view-IsValid now fd q v new = elim (link_first-cases now fd (has_socket no_socket) q) [
  | inr (a, f, t, k) ↦
      rw (f, k, allocate_view)
        (
          link_first-IsValid now fd (has_socket no_socket) q v new k,
          (λ d. absurd cc, λ d. absurd cc),
        )
  | inl (f, k) ↦ rw (f, k, allocate_view) (v, (λ d. refl, λ d. refl))
]

-- A client that has no view is given one, with or without the id it asks for: the aquarium
-- stays valid. A client that asks for the id of a free view gets a view of that id; a client is
-- refused exactly when no view is free.
pub allocate_view_extended-IsValid :
    (now fd : ℤ) (id : String) (q : Aquarium)
    → IsValid q
    → has_view_by_socket fd q ≡ false
    → let (q', result) = allocate_view_extended now fd id q in
      IsValid q'
      × ((result ≡ none) ↔ (any (has_socket no_socket) q.views ≡ false))
      × (any (λ v. str_eq v.id id && has_socket no_socket v) q.views ≡ true → result ≡ some id)
unfolding allocate_view_extended allocate_view
allocate_view_extended-IsValid now fd id q v new = elim (link_first-cases now fd asked q) [
  | inr (a, e, t, h) ↦
      rw (e, allocate_view_extended)
        (
          subst IsValid (ap (λ p. p.0) (sym e)) (link_first-IsValid now fd asked q v new h),
          (
            λ d. absurd cc,
            λ d. absurd (
                ground
                  (arith, any-imp asked (has_socket no_socket) q.views (λ w k. ground arith) h)),
          ),
          λ d. ap (λ s. some s) (str_eq-eq a.id id (ground arith)),
        )
  | inl (e, h) ↦
      let (valid, refused) = allocate_view-IsValid now fd q v new in
      rw (e, h, allocate_view_extended) (valid, refused, λ d. absurd cc)
]
  where
    asked : View → Bool
    asked w = str_eq w.id id && has_socket no_socket w

freed-socket :
    (fd other : ℤ) (w : View)
    → eqb_ℤ no_socket other ≡ false
    → (if has_socket other (if has_socket fd w then unlink w else w) then 1 else 0)
      ≤ (if has_socket other w then 1 else 0)
freed-socket fd other w h = ground arith

pub free_view-keeps : (fd : ℤ) (q : Aquarium) → IsValid q → IsValid (free_view fd q)
unfolding free_view
free_view-keeps fd q v = record {
  room = omega (arith, length-modify_all (has_socket fd) unlink q.views, v.room);
  ids = λ i. omega (
    arith,
    count_if-modify_all_eq (has_socket fd) unlink (has_id i) (λ w. ground arith) q.views,
    v.ids i,
  );
  sockets = λ g e. omega (
    arith,
    count_if-modify_all (has_socket fd) unlink (has_socket g) (has_socket g)
        (λ w. freed-socket fd g w e) q.views,
    v.sockets g e,
  );
}

-- When a client, a socket other than -1, leaves, the aquarium stays valid, and the client has no
-- view any more; every other socket than -1 has as many views as before.
free_view-IsValid :
    (fd : ℤ) (q : Aquarium)
    → IsValid q
    → eqb_ℤ no_socket fd ≡ false
    → let q' = free_view fd q in
      IsValid q'
      × (has_view_by_socket fd q' ≡ false)
      × ((other : ℤ)
          → eqb_ℤ no_socket other ≡ false
          → eqb_ℤ fd other ≡ false
          → count_if (has_socket other) q'.views ≡ count_if (has_socket other) q.views)
unfolding free_view has_view_by_socket
free_view-IsValid fd q v h = (
  free_view-keeps fd q v,
  any-modify_all (has_socket fd) unlink (has_socket fd) (λ w. ground arith) q.views,
  λ other e d.
      count_if-modify_all_eq (has_socket fd) unlink (has_socket other) (λ w. ground arith) q.views,
)
