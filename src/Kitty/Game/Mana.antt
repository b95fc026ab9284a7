-- ===== src/Kitty/Game/Mana.antt =====
-- cards.c and game.c: what cards and turns do to the mana of the entities.
use my_enseirb_matmeca_proje.Base.{
  update, ℕ, ◌≡◌, ◌≢◌, refl, ap, inl, inr, true, List, [], ◌∷◌, Option, none, some, ◌==◌,
  if◌then◌else◌, arith, Bool-cases, get_or, ◌∙◌, subst,
}
use my_enseirb_matmeca_proje.Base.Int.{ℤ, pos, ◌-ℤ◌, ◌≤ℤ◌, leb_ℤ, int_laws}
use my_enseirb_matmeca_proje.Kitty.Random.{Rng}
use my_enseirb_matmeca_proje.Kitty.Cards.{
  Card, think, steal, panacea, razor, hell, stone, puppy, cost,
}
use my_enseirb_matmeca_proje.Kitty.Entity.{
  Kind, player, friend, Entity, Game, put, shuffle_hand, select_card,
}
use my_enseirb_matmeca_proje.Kitty.Entity.Select.{Selected, nothing, found, select_card-Selected}
use my_enseirb_matmeca_proje.Kitty.Board.{Cell}
use my_enseirb_matmeca_proje.Kitty.Game.{
  spend, place_stone, place_friend, apply, cells_around, aim, pick_target, apply_card_as,
  apply_card, then_refill, play_selected, play_turn_as, play_turn,
}

heap-place_stone : (cs : List Cell) (g : Game) (r : Rng) → (place_stone cs g r).0.heap ≡ g.heap
unfolding place_stone
heap-place_stone [] g r = refl
heap-place_stone (c ∷ cs) g r = refl

heap-place_friend :
    (cs : List Cell) (e t u : ℕ) (g : Game) (r : Rng)
    → u ≢ g.next
    → (place_friend cs e t g r).0.heap u ≡ g.heap u
unfolding place_friend
heap-place_friend [] e t u g r ne = refl
heap-place_friend (c ∷ cs) e t u g r ne = ground arith

-- What `u` has to pay for a card that `e` casts.
abbrev pub price : Card → ℕ → ℕ → ℤ
price c e u = if e == u then pos (cost c) else pos 0

minus_zero : (a : ℤ) → a -ℤ pos 0 ≡ a
minus_zero a = omega int_laws

-- Whatever the target, casting a card takes exactly its cost from the mana of the caster, and
-- changes the mana of no other entity, the one at the address that is allocated next excepted.
mana-apply :
    (c : Card) (e t u : ℕ) (g : Game) (r : Rng)
    → u ≢ g.next
    → ((apply c e t g r).0.heap u).mana ≡ (g.heap u).mana -ℤ price c e u
unfolding apply
mana-apply think e t u g r ne = ground (arith, minus_zero (g.heap u).mana)
mana-apply steal e t u g r ne = ground (arith, minus_zero (g.heap u).mana)
mana-apply panacea e t u g r ne = ground (arith, minus_zero (g.heap u).mana)
mana-apply razor e t u g r ne = ground (arith, minus_zero (g.heap u).mana)
mana-apply hell e t u g r ne = ground (arith, minus_zero (g.heap u).mana)
mana-apply stone e t u g r ne =
    ap (λ h. (h u).mana)
      (heap-place_stone (cells_around t (spend e (pos 10) g)) (spend e (pos 10) g) r)
    ∙ ground (arith, minus_zero (g.heap u).mana)
mana-apply puppy e t u g r ne =
    ap (λ (n : Entity). n.mana)
      (heap-place_friend (cells_around e (spend e (pos 5) g)) e t u (spend e (pos 5) g) r ne)
    ∙ ground (arith, minus_zero (g.heap u).mana)

-- The entity that acts can pay for the card.
afford :
    (c : Card) (e t u : ℕ) (g : Game) (r : Rng)
    → u ≢ g.next
    → pos 0 ≤ℤ (g.heap u).mana
    → pos (cost c) ≤ℤ (g.heap e).mana
    → pos 0 ≤ℤ ((apply c e t g r).0.heap u).mana
afford c e t u g r ne rich ok = rw (mana-apply c e t u g r ne) (elim (Bool-cases (e == u)) [
  | inl same ↦
      rw same (omega (int_laws, subst (λ k. pos (cost c) ≤ℤ (g.heap k).mana) (eq e u same) ok))
  | inr other ↦ rw other (omega int_laws)
])
  where
    eq : (e u : ℕ) → (e == u) ≡ true → e ≡ u
    eq e u h = ground arith

-- What a turn comes to: no mana below zero, if it comes to an end.
abbrev Solvent : ℕ → Option (Game × Rng) → Type 0
Solvent u none = Unit
Solvent u (some (g, r)) = pos 0 ≤ℤ (g.heap u).mana

affordable :
    {hand : List Card} {mana : ℤ} {o : Option ℕ} (i : ℕ)
    → Selected hand mana 0 o
    → o ≡ some i
    → pos (cost (get_or hand i hell)) ≤ℤ mana
affordable i (nothing all) h = absurd (cc h)
affordable {hand} {mana} i (found j lt ok before) h =
    subst (λ k. pos (cost (get_or hand k hell)) ≤ℤ mana) (ground arith) ok

update_self : (f : ℕ → Entity) (i : ℕ) (a : Entity) → update f i a i ≡ a
update_self f i a = ground arith

shuffle_hand-keeps :
    (p : Entity) (r : Rng)
    → ((shuffle_hand p r).0.mana ≡ p.mana) × ((shuffle_hand p r).0.kind ≡ p.kind)
unfolding shuffle_hand
shuffle_hand-keeps p r = (refl, refl)

module _ (u : ℕ) where
  aim-Solvent :
      (o : Option (ℕ × Rng)) (c : Card) (e : ℕ) (g : Game)
      → u ≢ g.next
      → pos 0 ≤ℤ (g.heap u).mana
      → pos (cost c) ≤ℤ (g.heap e).mana
      → Solvent u (aim o c e g)
  unfolding aim
  aim-Solvent none c e g ne rich ok = tt
  aim-Solvent (some (t, r)) c e g ne rich ok = afford c e t u g r ne rich ok

  refill-Solvent : (o : Option (Game × Rng)) (e i : ℕ) → Solvent u o → Solvent u (then_refill o e i)
  unfolding then_refill
  refill-Solvent none e i h = tt
  refill-Solvent (some (g, r)) e i h = ground arith

  -- The card that an entity of each kind casts.
  abbrev cast_card : Kind → ℕ → ℕ → Game → Card
  cast_card friend e i g = (g.heap e).card
  cast_card player e i g = get_or (g.heap e).hand i hell

  apply_card-Solvent :
      (k : Kind) (fuel e i : ℕ) (g : Game) (r : Rng)
      → u ≢ g.next
      → pos 0 ≤ℤ (g.heap u).mana
      → pos (cost (cast_card k e i g)) ≤ℤ (g.heap e).mana
      → Solvent u (apply_card_as k fuel e i g r)
  unfolding apply_card_as
  apply_card-Solvent friend fuel e i g r ne rich ok =
      afford (g.heap e).card e (g.heap e).target u g r ne rich ok
  apply_card-Solvent player fuel e i g r ne rich ok =
      aim-Solvent (pick_target fuel e g r) (get_or (g.heap e).hand i hell) e g ne rich ok

  play_selected-Solvent :
      (o : Option ℕ) (fuel e : ℕ) (g : Game) (r : Rng)
      → (g.heap e).kind ≡ player
      → u ≢ g.next
      → pos 0 ≤ℤ (g.heap u).mana
      → Selected (g.heap e).hand (g.heap e).mana 0 o
      → Solvent u (play_selected fuel e o g r)
  unfolding play_selected
  play_selected-Solvent none fuel e g r k ne rich s = rich
  play_selected-Solvent (some i) fuel e g r k ne rich s =
      refill-Solvent (apply_card fuel e i g r) e i (
        unfold apply_card in
        rw k (apply_card-Solvent player fuel e i g r ne rich (affordable i s refl)))

  play_turn-Solvent :
      (k : Kind) (fuel e : ℕ) (g : Game) (r : Rng)
      → (g.heap e).kind ≡ k
      → u ≢ g.next
      → pos 0 ≤ℤ (g.heap u).mana
      → Solvent u (play_turn_as k fuel e g r)
  unfolding play_turn_as
  play_turn-Solvent player fuel e g r ke ne rich =
      let (p, r') = shuffle_hand (g.heap e) r in
      let same = shuffle_hand-keeps (g.heap e) r in
      play_selected-Solvent (select_card p) fuel e (put e p g) r' (ground (arith, same)) ne
        (ground (arith, same)) (rw (update_self g.heap e p) (select_card-Selected p))
  play_turn-Solvent friend fuel e g r ke ne rich =
      elim (Bool-cases (leb_ℤ (pos (cost (g.heap e).card)) (g.heap e).mana)) [
        | inl ok ↦ rw ok (
            unfold apply_card in
            rw ke (apply_card-Solvent friend fuel e 0 g r ne rich (ground arith)))
        | inr poor ↦ rw poor rich
      ]

-- Mana never falls below zero: a turn that ends, of a player or of a friend, leaves every entity
-- that had no debt with no debt, whatever the cards and the random numbers are. The entity is not
-- the one at the address that is allocated next.
pub play_turn-solvent :
    (fuel e u : ℕ) (g g' : Game) (r r' : Rng)
    → u ≢ g.next
    → pos 0 ≤ℤ (g.heap u).mana
    → play_turn fuel e g r ≡ some (g', r')
    → pos 0 ≤ℤ (g'.heap u).mana
unfolding play_turn
play_turn-solvent fuel e u g g' r r' ne rich h =
    subst (Solvent u) h (play_turn-Solvent u (g.heap e).kind fuel e g r refl ne rich)
