-- ===== src/Aquarium/Protocol/Observers.antt =====
-- The observers: who is left when a client's connection is closed.
use my_enseirb_matmeca_proje.Base.{
  ℕ, zero, suc, ◌+◌, ◌-◌, ◌<◌, ◌≡◌, refl, sym, subst, Bool-cases, ◌∙◌, ◌⊎◌, inl, inr, ◌==◌,
  if◌then◌else◌, List, [], ◌∷◌, length, count, get_or, arith,
}
use my_enseirb_matmeca_proje.Aquarium.Protocol.{last_place, shift_left, close_socket}

last_place-cases :
    (a : ℕ) (os : List ℕ) (i found : ℕ)
    → ((count a os ≡ 0) × (last_place a os i found ≡ found))
      ⊎ ((j : ℕ) × (j < length os) × (last_place a os i found ≡ j + i) × (get_or os j (a + 1) ≡ a))
unfolding last_place
last_place-cases a [] i found = inl (refl, refl)
last_place-cases a (o ∷ os) i found =
    elim (last_place-cases a os (i + 1) (if o == a then i else found)) [
      | inr (j, lt, e, g) ↦ inr (suc j, omega arith, omega (arith, e), g)
      | inl (none_there, e) ↦ elim (Bool-cases (o == a)) [
        | inl t ↦ inr (0, omega arith, e ∙ rw t (omega arith), ground arith)
        | inr f ↦ inl (ground arith, e ∙ rw f refl)
      ]
    ]

count-shift_left :
    (b : ℕ) (os : List ℕ) (j : ℕ) (d : ℕ)
    → j < length os
    → count b (shift_left j os) + (if get_or os j d == b then 1 else 0) ≡ count b os
unfolding shift_left
count-shift_left b [] j d h = absurd (omega arith)
count-shift_left b (o ∷ os) zero d h = omega arith
count-shift_left b (o ∷ os) (suc j) d h = omega (arith, count-shift_left b os j d (omega arith))

-- When an observer's connection is closed, it is taken out of the observers once, and no other
-- observer is; a client that receives the fishes twice stays an observer.
pub close_socket_lem :
    (a : ℕ) (os : List ℕ)
    → 0 < count a os
    → (b : ℕ) → count b (close_socket a os) ≡ count b os - (if a == b then 1 else 0)
unfolding close_socket
close_socket_lem a os h b = elim (last_place-cases a os 0 0) [
  | inl (z, e) ↦ absurd (omega arith)
  | inr (j, lt, e, g) ↦
      subst (λ k. count b (shift_left k os) ≡ count b os - (if a == b then 1 else 0)) (sym e)
        (ground (arith, count-shift_left b os j (a + 1) lt, g))
]

-- When the connection of a client that is no observer is closed, the first observer is taken out
-- instead, and gets no fishes any more.
pub close_socket_stranger :
    (a first : ℕ) (os : List ℕ) → count a (first ∷ os) ≡ 0 → close_socket a (first ∷ os) ≡ os
unfolding close_socket
close_socket_stranger a first os h = elim (last_place-cases a (first ∷ os) 0 0) [
  | inl (z, e) ↦ rw (e, shift_left) refl
  | inr (j, lt, e, g) ↦ absurd (ground (arith, count-shift_left a (first ∷ os) j (a + 1) lt, g))
]
