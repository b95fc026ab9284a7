-- ===== src/Kitty/Round/Upkeep.antt =====
-- `generate_mana` and `decay_friends` of game.c, entity by entity.
use my_enseirb_matmeca_proje.Base.{
  ℕ, zero, suc, ◌+◌, ◌≤◌, ◌<◌, ◌≡◌, ◌≢◌, refl, ap, ◌∙◌, arith, if◌then◌else◌, ℕ_discrete,
}
use my_enseirb_matmeca_proje.Base.Int.{pos, ◌+ℤ◌, ◌-ℤ◌}
use my_enseirb_matmeca_proje.Kitty.Entity.{Entity, Game, size, at, put, is_friend}
use my_enseirb_matmeca_proje.Kitty.Round.{each_from, gain_mana, decay, generate_mana, decay_friends}
use my_enseirb_matmeca_proje.Kitty.Round.Death.{IsValid}

module _ (f : Entity → Entity) where
  each_from-keeps :
      (k i : ℕ) (g : Game)
      → let g' = each_from f k i g in
        (g'.entities ≡ g.entities) × (size g' ≡ size g) × (g'.board ≡ g.board)
  unfolding each_from
  each_from-keeps zero i g = (refl, refl, refl)
  each_from-keeps (suc k) i g = each_from-keeps k (i + 1) (put (g.entities i) (f (at g i)) g)

  each_from-other :
      (k i u : ℕ) (g : Game)
      → ((j : ℕ) → i ≤ j → j < i + k → g.entities j ≢ u)
      → (each_from f k i g).heap u ≡ g.heap u
  unfolding each_from
  each_from-other zero i u g h = refl
  each_from-other (suc k) i u g h =
      each_from-other k (i + 1) u (put (g.entities i) (f (at g i)) g)
        (λ j lo hi. h j (omega arith) (omega arith))
      ∙ ground (arith, h i (omega arith) (omega arith))

  each_from-at :
      (k i : ℕ) (g : Game)
      → ((a b : ℕ) → a < i + k → b < i + k → g.entities a ≡ g.entities b → a ≡ b)
      → (j : ℕ) → i ≤ j
      → j < i + k
      → (each_from f k i g).heap (g.entities j) ≡ f (at g j)
  unfolding each_from
  each_from-at zero i g d j lo hi = absurd (omega arith)
  each_from-at (suc k) i g d j lo hi = elim (ℕ_discrete i j) [
    | yes e ↦ rw (← e) (
        each_from-other k (i + 1) (g.entities i) (put (g.entities i) (f (at g i)) g)
          (λ a la ha q. absurd (omega (arith, d a i (omega arith) (omega arith) q)))
        ∙ ground arith)
    | no ne ↦
        each_from-at k (i + 1) (put (g.entities i) (f (at g i)) g)
          (λ a b ha hb q. d a b (omega arith) (omega arith) q) j (omega arith) (omega arith)
        ∙ ap f (ground (arith, d i j (omega arith) (omega arith)))
  ]

-- At the end of a turn each entity of the game gains its regeneration once, and each friend is one
-- turn nearer to its end; nothing else of an entity changes, and no entity enters or leaves.
upkeep_lem :
    (g : Game) (j : ℕ)
    → IsValid g
    → j < size g
    → let g' = generate_mana g in
      let g'' = decay_friends g in
      (g'.heap (g.entities j) ≡ record (at g j) { mana = (at g j).mana +ℤ (at g j).mana_regen })
      × (g''.heap (g.entities j) ≡ (
          if is_friend (at g j).kind
          then record (at g j) { lifespan = (at g j).lifespan -ℤ pos 1 }
          else at g j))
      × (g'.entities ≡ g.entities)
      × (g''.entities ≡ g.entities)
      × (size g' ≡ size g)
      × (size g'' ≡ size g)
unfolding generate_mana decay_friends
upkeep_lem g j v lt = (
  each_from-at gain_mana (size g) 0 g (λ a b ha hb. v.distinct a b (omega arith) (omega arith)) j
      (omega arith) (omega arith),
  each_from-at decay (size g) 0 g (λ a b ha hb. v.distinct a b (omega arith) (omega arith)) j
      (omega arith) (omega arith),
  (each_from-keeps gain_mana (size g) 0 g).0,
  (each_from-keeps decay (size g) 0 g).0,
  (each_from-keeps gain_mana (size g) 0 g).1,
  (each_from-keeps decay (size g) 0 g).1,
)
