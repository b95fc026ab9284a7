-- ===== src/Aquarium/Protocol/Timeout/Round.antt =====
-- Which clients a round of the timeout thread disconnects.
use my_enseirb_matmeca_proje.Base.{
  ℕ, zero, suc, ◌+◌, ◌-◌, ◌≤◌, ◌<◌, ◌≡◌, inl, inr, refl, sym, ap, ◌∙◌, true, false, ◌==◌, subst,
  Bool-cases, ℕ_discrete, List, [], ◌∷◌, none, arith, ◌≢◌, Option, some,
}
use my_enseirb_matmeca_proje.Base.Int.{
  ℤ, eqb_ℤ, eq_of_parts, ltb_ℤ, ◌+ℤ◌, ◌-ℤ◌, ◌≤ℤ◌, ◌<ℤ◌, +ℤ_parts, -ℤ_parts,
}
use my_enseirb_matmeca_proje.Aquarium.{View, find_first, modify_all}
use my_enseirb_matmeca_proje.Aquarium.Views.{
  has_socket, no_socket, unlink, get_view_by_socket, free_view,
}
use my_enseirb_matmeca_proje.Aquarium.Protocol.Timeout.{
  Connections, late_view, is_late, timeout_one, timeout_from, timeout_round,
}

find_freed :
    (fd : ℤ) (vs : List View)
    → eqb_ℤ fd no_socket ≡ false
    → find_first (has_socket fd) (modify_all (has_socket fd) unlink vs) ≡ none
unfolding find_first modify_all
find_freed fd [] up = refl
find_freed fd (v ∷ vs) up = ground (arith, find_freed fd vs up)

find_other :
    (fd gd : ℤ) (vs : List View)
    → eqb_ℤ fd no_socket ≡ false
    → eqb_ℤ fd gd ≡ false
    → find_first (has_socket fd) (modify_all (has_socket gd) unlink vs)
      ≡ find_first (has_socket fd) vs
unfolding find_first modify_all
find_other fd gd [] up ne = refl
find_other fd gd (v ∷ vs) up ne = ground (arith, find_other fd gd vs up ne)

late_view-true : (limit now p : ℤ) → limit +ℤ p <ℤ now → ltb_ℤ limit (now -ℤ p) ≡ true
late_view-true limit now p h = ground (arith, +ℤ_parts limit p, -ℤ_parts now p, h)

late_view-false : (limit now p : ℤ) → now ≤ℤ limit +ℤ p → ltb_ℤ limit (now -ℤ p) ≡ false
late_view-false limit now p h = ground (arith, +ℤ_parts limit p, -ℤ_parts now p, h)

module _ (limit : ℤ) (clock : ℕ → ℤ) where
  abbrev one : ℕ → Connections → Connections
  one i s = timeout_one limit (clock i) i s

  -- What place `j` has while it is not looked at: its client, whose view is `o`.
  record Waits (fd : ℤ) (j : ℕ) (o : Option View) (s : Connections) : Type 0 where
    client : s.fds j ≡ fd
    view : get_view_by_socket fd s.aquarium ≡ o
    alone : (k : ℕ) → k ≢ j → eqb_ℤ fd (s.fds k) ≡ false

  -- What it has when its client was late.
  record Gone (fd : ℤ) (j : ℕ) (s : Connections) : Type 0 where
    client : s.fds j ≡ no_socket
    view : get_view_by_socket fd s.aquarium ≡ none

  one-Waits :
      (i j : ℕ) (fd : ℤ) (o : Option View) (s : Connections)
      → eqb_ℤ fd no_socket ≡ false
      → i ≢ j
      → Waits fd j o s
      → Waits fd j o (one i s)
  unfolding timeout_one get_view_by_socket free_view
  one-Waits i j fd o s up ne h = elim (Bool-cases (eqb_ℤ (s.fds i) no_socket)) [
    | inl e ↦ rw (timeout_one, e) h
    | inr other ↦ elim (Bool-cases (is_late limit (clock i) (s.fds i) s.aquarium)) [
      | inr l ↦ rw (timeout_one, other, l) h
      | inl l ↦
          let apart : (i == j) ≡ false = ground (arith, ne) in
          rw (timeout_one, other, l)
            record {
              client = rw apart h.client;
              view = find_other fd (s.fds i) s.aquarium.views up (h.alone i ne) ∙ h.view;
              alone = λ k kj. elim (Bool-cases (i == k)) [
                | inl e ↦ rw e up
                | inr e ↦ rw e (h.alone k kj)
              ];
            }
    ]
  ]

  one-Waits_on_time :
      (j : ℕ) (fd : ℤ) (o : Option View) (s : Connections)
      → late_view limit (clock j) o ≡ false
      → Waits fd j o s
      → Waits fd j o (one j s)
  unfolding timeout_one is_late
  one-Waits_on_time j fd o s ok h = elim (Bool-cases (eqb_ℤ (s.fds j) no_socket)) [
    | inl e ↦ rw (timeout_one, e) h
    | inr other ↦
        let l : is_late limit (clock j) (s.fds j) s.aquarium ≡ false =
          ap (λ g. late_view limit (clock j) (get_view_by_socket g s.aquarium)) h.client
          ∙ ap (late_view limit (clock j)) h.view
          ∙ ok in
        rw (timeout_one, other, l) h
  ]

  one-Gone :
      (j : ℕ) (fd : ℤ) (o : Option View) (s : Connections)
      → eqb_ℤ fd no_socket ≡ false
      → late_view limit (clock j) o ≡ true
      → Waits fd j o s
      → Gone fd j (one j s)
  unfolding timeout_one is_late get_view_by_socket free_view
  one-Gone j fd o s up late h =
      let other : eqb_ℤ (s.fds j) no_socket ≡ false = ap (λ g. eqb_ℤ g no_socket) h.client ∙ up in
      let l : is_late limit (clock j) (s.fds j) s.aquarium ≡ true =
        ap (λ g. late_view limit (clock j) (get_view_by_socket g s.aquarium)) h.client
        ∙ ap (late_view limit (clock j)) h.view
        ∙ late in
      let self : (j == j) ≡ true = ground arith in
      rw (timeout_one, other, l)
        record {
          client = rw self refl;
          view =
              ap
                (λ g.
                  find_first (has_socket fd) (modify_all (has_socket g) unlink s.aquarium.views))
                h.client
              ∙ find_freed fd s.aquarium.views up;
        }

  one-Gone_still :
      (i j : ℕ) (fd : ℤ) (s : Connections)
      → eqb_ℤ fd no_socket ≡ false
      → Gone fd j s
      → Gone fd j (one i s)
  unfolding timeout_one get_view_by_socket free_view
  one-Gone_still i j fd s up h = elim (Bool-cases (eqb_ℤ (s.fds i) no_socket)) [
    | inl e ↦ rw (timeout_one, e) h
    | inr other ↦ elim (Bool-cases (is_late limit (clock i) (s.fds i) s.aquarium)) [
      | inr l ↦ rw (timeout_one, other, l) h
      | inl l ↦
          rw (timeout_one, other, l)
            record {
              client = elim (Bool-cases (i == j)) [ inl e ↦ rw e refl | inr e ↦ rw e h.client ];
              view = elim (Bool-cases (eqb_ℤ fd (s.fds i))) [
                | inl e ↦
                    let same : fd ≡ s.fds i = eq_of_parts fd (s.fds i) (ground arith) in
                    rw (sym same) (find_freed fd s.aquarium.views up)
                | inr ne ↦ find_other fd (s.fds i) s.aquarium.views up ne ∙ h.view
              ];
            }
    ]
  ]

  from-Gone_still :
      (k i j : ℕ) (fd : ℤ) (s : Connections)
      → eqb_ℤ fd no_socket ≡ false
      → Gone fd j s
      → Gone fd j (timeout_from limit clock k i s)
  unfolding timeout_from
  from-Gone_still zero i j fd s up h = h
  from-Gone_still (suc k) i j fd s up h =
      from-Gone_still k (i + 1) j fd (one i s) up (one-Gone_still i j fd s up h)

  from-Gone :
      (k i j : ℕ) (fd : ℤ) (o : Option View) (s : Connections)
      → eqb_ℤ fd no_socket ≡ false
      → late_view limit (clock j) o ≡ true
      → i ≤ j
      → j < i + k
      → Waits fd j o s
      → Gone fd j (timeout_from limit clock k i s)
  unfolding timeout_from
  from-Gone zero i j fd o s up late lo hi h = absurd (omega arith)
  from-Gone (suc k) i j fd o s up late lo hi h = elim (ℕ_discrete i j) [
    | yes e ↦
        from-Gone_still k (i + 1) j fd (one i s) up
          (subst (λ a. Gone fd j (one a s)) (sym e) (one-Gone j fd o s up late h))
    | no ne ↦
        from-Gone k (i + 1) j fd o (one i s) up late (omega arith) (omega arith)
          (one-Waits i j fd o s up ne h)
  ]

  from-Waits :
      (k i j : ℕ) (fd : ℤ) (o : Option View) (s : Connections)
      → eqb_ℤ fd no_socket ≡ false
      → late_view limit (clock j) o ≡ false
      → Waits fd j o s
      → Waits fd j o (timeout_from limit clock k i s)
  unfolding timeout_from
  from-Waits zero i j fd o s up ok h = h
  from-Waits (suc k) i j fd o s up ok h =
      from-Waits k (i + 1) j fd o (one i s) up ok (elim (ℕ_discrete i j) [
        | yes e ↦ subst (λ a. Waits fd j o (one a s)) (sym e) (one-Waits_on_time j fd o s ok h)
        | no ne ↦ one-Waits i j fd o s up ne h
      ])

-- A round of the timeout thread, for a client at a place of the array from 2 on whose socket is at no
-- other place. When the client has a view and its last ping is more than `limit` seconds before the
-- place is looked at, the place is -1 after the round and no view is the client's; when it has no
-- view, or the last ping is at most `limit` seconds before, the place and its view are as before.
pub timeout_round_lem :
    (limit : ℤ) (clock : ℕ → ℤ) (pollsize j : ℕ) (s : Connections)
    → 2 ≤ j
    → j < pollsize
    → eqb_ℤ (s.fds j) no_socket ≡ false
    → ((k : ℕ) → k ≢ j → eqb_ℤ (s.fds j) (s.fds k) ≡ false)
    → let fd = s.fds j in
      let s' = timeout_round limit clock pollsize s in
      ((v : View)
        → get_view_by_socket fd s.aquarium ≡ some v
        → limit +ℤ v.last_ping_timestamp <ℤ clock j
        → (s'.fds j ≡ no_socket) × (get_view_by_socket fd s'.aquarium ≡ none))
      × (((v : View)
            → get_view_by_socket fd s.aquarium ≡ some v
            → clock j ≤ℤ limit +ℤ v.last_ping_timestamp)
          → (s'.fds j ≡ fd)
            × (get_view_by_socket fd s'.aquarium ≡ get_view_by_socket fd s.aquarium))
unfolding timeout_round
timeout_round_lem limit clock pollsize j s lo hi up alone = (
  λ v e late.
      let g =
        from-Gone limit clock (pollsize - 2) 2 j (s.fds j) (some v) s up
          (late_view-true limit (clock j) v.last_ping_timestamp late) lo (omega arith)
          record { client = refl; view = e; alone = alone } in
      (g.client, g.view),
  λ on_time.
      let w =
        from-Waits limit clock (pollsize - 2) 2 j (s.fds j)
          (get_view_by_socket (s.fds j) s.aquarium) s up
          (in_time (get_view_by_socket (s.fds j) s.aquarium) on_time)
          record { client = refl; view = refl; alone = alone } in
      (w.client, w.view),
)
  where
    in_time :
        (o : Option View)
        → ((v : View) → o ≡ some v → clock j ≤ℤ limit +ℤ v.last_ping_timestamp)
        → late_view limit (clock j) o ≡ false
    in_time none h = refl
    in_time (some v) h = late_view-false limit (clock j) v.last_ping_timestamp (h v refl)
