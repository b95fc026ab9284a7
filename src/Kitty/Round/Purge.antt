-- ===== src/Kitty/Round/Purge.antt =====
-- `purge_the_dead` of game.c: who is in the game before and after.
use my_enseirb_matmeca_proje.Base.{
  ℕ, zero, suc, ◌+◌, ◌≤◌, ◌<◌, ◌≡◌, ◌≢◌, refl, sym, ◌∙◌, subst, inl, inr, true, false, arith, ◌==◌,
  Bool-cases, dec_lt, ltb,
}
use my_enseirb_matmeca_proje.Kitty.Board.{Board}
use my_enseirb_matmeca_proje.Kitty.Entity.{Entity, Game, size, at}
use my_enseirb_matmeca_proje.Kitty.Round.{
  lifespan_ended, die, is_dead, leave_board, purge_round, purge_from, purge_the_dead,
}
use my_enseirb_matmeca_proje.Kitty.Round.Death.{Marked, IsValid, Dies, die-Dies, Dies-IsValid}

-- An entity is in the game.
abbrev pub Holds : Game → ℕ → Type 0
Holds g u = (j : ℕ) × (j < size g) × (g.entities j ≡ u)

-- The entities at the places before `i` are not dead.
abbrev Settled : Game → ℕ → Type 0
Settled g i = (j : ℕ) → j < i → j < size g → is_dead (at g j) ≡ false

-- What the loop does from `g` on.
pub record Purged (g g' : Game) : Type 0 where
  pub valid : IsValid g'
  pub alive : (u : ℕ) → Holds g' u → is_dead (g'.heap u) ≡ false
  pub spared : (u : ℕ) → Holds g u → is_dead (g.heap u) ≡ false → Holds g' u
  pub none_new : (u : ℕ) → Holds g' u → Holds g u
  pub same_life : (u : ℕ) → (g'.heap u).life ≡ (g.heap u).life

leave_board-eq :
    (e : Entity) (g : Game) → leave_board e g ≡ record g { board = (leave_board e g).board }
unfolding leave_board
leave_board-eq e g = elim (Bool-cases (lifespan_ended e)) [ inl h ↦ rw h | inr h ↦ rw h ]

board-IsValid : (g : Game) (b : Board) → IsValid g → IsValid (record g { board = b })
board-IsValid g b v = record { distinct = v.distinct; players = v.players; friends = v.friends }

not_dead_Marked : (a b : Entity) → Marked a b → is_dead a ≡ false → is_dead b ≡ false
not_dead_Marked a b m h = ground arith

life_Marked : (a b : Entity) → Marked a b → b.life ≡ a.life
life_Marked a b m = ground arith

unchanged : (i : ℕ) (g : Game) → IsValid g → Settled g i → size g ≤ i → Purged g g
unchanged i g v before enough = record {
  valid = v;
  alive = λ u (j, lt, e). subst (λ a. is_dead (g.heap a) ≡ false) e (before j (omega arith) lt);
  spared = λ u h ok. h;
  none_new = λ u h. h;
  same_life = λ u. refl;
}

-- A round at a dead entity.
dead_round :
    {i : ℕ} {g g' r : Game}
    → IsValid g
    → i < size g
    → is_dead (at g i) ≡ true
    → Dies i g g'
    → Purged g' r
    → Purged g r
dead_round {i} {g} {g'} {r} v lt dead d p = record {
  valid = p.valid;
  alive = p.alive;
  spared = λ u (j, ltj, e) ok.
      p.spared u (stays j ltj e ok) (not_dead_Marked (g.heap u) (g'.heap u) (d.heap u) ok);
  none_new = λ u h. let (j, ltj, e) = p.none_new u h in was_there j ltj e;
  same_life = λ u. p.same_life u ∙ life_Marked (g.heap u) (g'.heap u) (d.heap u);
}
  where
    stays :
        {u : ℕ} (j : ℕ) → j < size g → g.entities j ≡ u → is_dead (g.heap u) ≡ false → Holds g' u
    stays {u} j ltj e ok = elim (dec_lt j (size g')) [
      | yes before ↦ (j, before, ground (arith, d.moved j, differ))
      | no last ↦ (i, omega (arith, d.shrinks, differ), ground (arith, d.moved i, d.shrinks))
    ]
      where
        differ : i ≢ j
        differ q =
            let here : g.entities i ≡ u = subst (λ k. g.entities k ≡ u) (sym q) e in
            let h : is_dead (g.heap u) ≡ true = subst (λ a. is_dead (g.heap a) ≡ true) here dead in
            let contradiction : false ≡ true = sym ok ∙ h in cc

    was_there : {u : ℕ} (j : ℕ) → j < size g' → g'.entities j ≡ u → Holds g u
    was_there {u} j ltj e = elim (Bool-cases (i == j)) [
      | inl h ↦ (size g', omega (arith, d.shrinks), ground (arith, d.moved j))
      | inr h ↦ (j, omega (arith, d.shrinks), ground (arith, d.moved j))
    ]

Purged-board : {g r : Game} (b : Board) → Purged (record g { board = b }) r → Purged g r
Purged-board b p = record {
  valid = p.valid;
  alive = p.alive;
  spared = p.spared;
  none_new = p.none_new;
  same_life = p.same_life;
}

Settled-die : {i : ℕ} {g g' : Game} → Dies i g g' → Settled g i → Settled g' i
Settled-die {i} {g} {g'} d before j lt lt' =
    rw (at, d.moved j, other)
      (not_dead_Marked (g.heap (g.entities j)) (g'.heap (g.entities j)) (d.heap (g.entities j))
        (before j lt (omega (arith, d.shrinks))))
  where
    other : (i == j) ≡ false
    other = ground arith

Settled-next : (i : ℕ) (g : Game) → is_dead (at g i) ≡ false → Settled g i → Settled g (i + 1)
Settled-next i g ok before j lt lt' = elim (dec_lt j i) [
  | yes old ↦ before j old lt'
  | no new ↦ subst (λ k. is_dead (at g k) ≡ false) (omega arith) ok
]

-- The induction over the loop, for the rest of the loop after one round.
purge_round-Purged :
    (i : ℕ) (g : Game) (rest : Game × ℕ → Game)
    → IsValid g
    → Settled g i
    → i < size g
    → ((j : ℕ) (h : Game)
        → IsValid h
        → Settled h j
        → size h + i + 1 ≤ size g + j
        → Purged h (rest (h, j)))
    → Purged g (rest (purge_round i g))
unfolding purge_round
purge_round-Purged i g rest v before lt go = elim (Bool-cases (is_dead (at g i))) [
  | inl dead ↦
      rw (dead, leave_board-eq (at g i) g)
        (Purged-board b (
          dead_round (board-IsValid g b v) lt dead d (
            go i (die i cleared) (Dies-IsValid (board-IsValid g b v) d lt) (Settled-die d before)
              (omega (arith, d.shrinks)))))
  | inr ok ↦
      rw (ok, leave_board-eq (at g i) g)
        (Purged-board b
          (go (i + 1) cleared (board-IsValid g b v) (Settled-next i g ok before) (omega arith)))
]
  where
    b : Board
    b = (leave_board (at g i) g).board

    cleared : Game
    cleared = record g { board = b }

    d : Dies i cleared (die i cleared)
    d = die-Dies i cleared (board-IsValid g b v) lt

purge_from-Purged :
    (fuel i : ℕ) (g : Game)
    → IsValid g
    → Settled g i
    → size g ≤ i + fuel
    → Purged g (purge_from fuel i g)
unfolding purge_from
purge_from-Purged zero i g v before enough = unchanged i g v before (omega arith)
purge_from-Purged (suc fuel) i g v before enough = elim (Bool-cases (ltb i (size g))) [
  | inl inside ↦ rw inside (
      purge_round-Purged i g (λ p. purge_from fuel p.1 p.0) v before (ground arith)
        (λ j h vh sh lt. purge_from-Purged fuel j h vh sh (omega arith)))
  | inr past ↦ rw past (unchanged i g v before (ground arith))
]

-- On a valid game `purge_the_dead` ends with a valid game in which no entity is dead: neither a
-- friend at the end of its lifespan nor anyone without life. Every entity that was not dead is still
-- in the game, none is new, and nobody's life is changed.
pub purge_the_dead-Purged : (g : Game) → IsValid g → Purged g (purge_the_dead g)
unfolding purge_the_dead
purge_the_dead-Purged g v =
    purge_from-Purged (size g) 0 g v (λ j lt lt'. absurd (omega arith)) (omega arith)
