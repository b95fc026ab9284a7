-- ===== src/Aquarium/Views/Allocation.antt =====
-- What a client gets from `allocate_view_extended` of state.c.
use my_enseirb_matmeca_proje.Base.{
  ◌≡◌, refl, sym, ap, ◌∙◌, subst, ◌↔◌, inl, inr, Bool, true, false, ◌&&◌, if◌then◌else◌, List, [],
  ◌∷◌, Option, none, some, Bool-cases, Option-cases, if_some, arith,
}
use my_enseirb_matmeca_proje.Base.Int.{ℤ, eqb_ℤ}
use my_enseirb_matmeca_proje.Aquarium.{
  String, str_eq, View, Aquarium, find_first, any, modify_first,
}
use my_enseirb_matmeca_proje.Aquarium.Views.{
  has_socket, no_socket, has_view_by_socket, get_view_by_socket, link, link_first, allocate_view,
  allocate_view_extended,
}
use my_enseirb_matmeca_proje.Aquarium.Views.Validity.{IsValid, allocate_view_extended-IsValid}

module _ (now fd : ℤ) (test : View → Bool)
    (free : (v : View) → test v ≡ true → has_socket no_socket v ≡ true) where
  -- The view that is found is the client's.
  find_linked :
      (vs : List View) (a : View)
      → any (has_socket fd) vs ≡ false
      → find_first test vs ≡ some a
      → find_first (has_socket fd) (modify_first test (link now fd) vs) ≡ some (link now fd a)
  unfolding find_first modify_first any
  find_linked [] a new e = absurd cc
  find_linked (v ∷ vs) a new e =
      let self : eqb_ℤ fd fd ≡ true = ground arith in
      elim (Bool-cases (test v)) [
        | inl t ↦
            let found : some v ≡ some a = rw t at e in
            rw (t, self) (ap (λ w. some (link now fd w)) (if_some true a v (sym found)).1)
        | inr f ↦
            let other : has_socket fd v ≡ false = ground arith in
            rw (f, other) (find_linked vs a (rw other at new) (rw f at e))
      ]

  -- The others keep theirs.
  find_unlinked :
      (gd : ℤ) (vs : List View)
      → eqb_ℤ gd no_socket ≡ false
      → eqb_ℤ fd gd ≡ false
      → find_first (has_socket gd) (modify_first test (link now fd) vs)
        ≡ find_first (has_socket gd) vs
  unfolding find_first modify_first
  find_unlinked gd [] up ne = refl
  find_unlinked gd (v ∷ vs) up ne = elim (Bool-cases (test v)) [
    | inl t ↦ let was : has_socket gd v ≡ false = ground (arith, free v t) in rw (t, ne, was) refl
    | inr f ↦ rw f (ap (λ o. if has_socket gd v then some v else o) (find_unlinked gd vs up ne))
  ]

-- The client `fd` has the view that was free and whose id it is told, since `now`; every other client
-- has the view that it had.
pub record Given (now fd : ℤ) (q : Aquarium) (r : Aquarium × Option String) : Type 0 where
  pub told :
      (name : String)
      → r.1 ≡ some name
      → (v : View) × (get_view_by_socket fd r.0 ≡ some (link now fd v))
        × (v.id ≡ name)
        × (has_socket no_socket v ≡ true)
  pub others :
      (gd : ℤ)
      → eqb_ℤ gd no_socket ≡ false
      → eqb_ℤ fd gd ≡ false
      → get_view_by_socket gd r.0 ≡ get_view_by_socket gd q

find_first-test :
    (test : View → Bool) (vs : List View) (a : View) → find_first test vs ≡ some a → test a ≡ true
unfolding find_first
find_first-test test [] a e = absurd cc
find_first-test test (v ∷ vs) a e = elim (Bool-cases (test v)) [
  | inl t ↦
      let found : some v ≡ some a = rw t at e in
      subst (λ w. test w ≡ true) (if_some true a v (sym found)).1 t
  | inr f ↦ find_first-test test vs a (rw f at e)
]

link_first-Given :
    (now fd : ℤ) (test : View → Bool) (q : Aquarium)
    → ((v : View) → test v ≡ true → has_socket no_socket v ≡ true)
    → has_view_by_socket fd q ≡ false
    → Given now fd q (link_first now fd test q)
unfolding has_view_by_socket get_view_by_socket
link_first-Given now fd test q free new = elim (Option-cases (find_first test q.views)) [
  | inl e ↦ rw (e, link_first) record { told = λ name h. absurd cc; others = λ gd up ne. refl }
  | inr (a, e) ↦
      rw (e, link_first)
        record {
          told = λ name h. (
            a,
            find_linked now fd test free q.views a new e,
            sym (if_some true a.id name h).1,
            free a (find_first-test test q.views a e),
          );
          others = λ gd up ne. find_unlinked now fd test free gd q.views up ne;
        }
]

-- A client that has no view asks for one by its id. The aquarium stays valid; the client is refused
-- exactly when no view is free; if the view of that id is free it is told that id. The client then
-- has, since `now`, the view of the id that it is told, which was free, and every other client has
-- the view that it had.
pub allocate_view_extended_lem :
    (now fd : ℤ) (id : String) (q : Aquarium)
    → IsValid q
    → has_view_by_socket fd q ≡ false
    → let r = allocate_view_extended now fd id q in
      IsValid r.0
      × ((r.1 ≡ none) ↔ (any (has_socket no_socket) q.views ≡ false))
      × (any (λ v. str_eq v.id id && has_socket no_socket v) q.views ≡ true → r.1 ≡ some id)
      × Given now fd q r
unfolding allocate_view_extended allocate_view
allocate_view_extended_lem now fd id q v new =
    let (valid, refused, named) = allocate_view_extended-IsValid now fd id q v new in
    (valid, refused, named, given)
  where
    asked : View → Bool
    asked w = str_eq w.id id && has_socket no_socket w

    or_any : Aquarium × Option String → Aquarium × Option String
    or_any p = elim p.1 [ some name ↦ (p.0, some name) | none ↦ allocate_view now fd q ]

    given : Given now fd q (allocate_view_extended now fd id q)
    given = elim (Option-cases (find_first asked q.views)) [
      | inl e ↦
          rw (e, allocate_view_extended, link_first)
            (link_first-Given now fd (has_socket no_socket) q (λ w t. t) new)
      | inr (a, e) ↦
          let linked : Aquarium × Option String =
            (record q { views = modify_first asked (link now fd) q.views }, some a.id) in
          let first : link_first now fd asked q ≡ linked = rw (link_first, e) refl in
          let whole : allocate_view_extended now fd id q ≡ linked = ap or_any first in
          subst (Given now fd q) (first ∙ sym whole)
            (link_first-Given now fd asked q (λ w t. ground arith) new)
    ]
