-- ===== src/Kitty/Round/Kept.antt =====
-- Death, and the end of a turn, of game.c keep a game.
use my_enseirb_matmeca_proje.Base.{
  ℕ, zero, suc, ◌+◌, ◌<◌, ◌≡◌, refl, ◌∙◌, inl, inr, ◌==◌, ltb, if_both, Bool-cases, arith,
}
use my_enseirb_matmeca_proje.Kitty.Entity.{Kind, player, friend, Entity, Game, size, at}
use my_enseirb_matmeca_proje.Kitty.Game.{set_board}
use my_enseirb_matmeca_proje.Kitty.Round.{
  mark_one, mark_from, uncount, die, is_dead, lifespan_ended, leave_board, purge_round, purge_from,
  purge_the_dead, each_from, gain_mana, decay, generate_mana, decay_friends,
}
use my_enseirb_matmeca_proje.Kitty.Round.Death.{die-Dies, Dies-IsValid}
use my_enseirb_matmeca_proje.Kitty.Round.Same.{
  IsGame, Same, Same-refl, Same-trans, put-Same, board-Same, Same-IsGame,
}

mark_from-next : (dead k i : ℕ) (g : Game) → (mark_from dead k i g).next ≡ g.next
unfolding mark_from mark_one
mark_from-next dead zero i g = refl
mark_from-next dead (suc k) i g = mark_from-next dead k (i + 1) (mark_one dead i g) ∙ ground arith

uncount-next : (k : Kind) (g : Game) → (uncount k g).next ≡ g.next
unfolding uncount
uncount-next player g = refl
uncount-next friend g = refl

die-next : (index : ℕ) (g : Game) → (die index g).next ≡ g.next
unfolding die
die-next index g = uncount-next _ _ ∙ mark_from-next (g.entities index) (size g) 0 g

pub die-IsGame : (index : ℕ) (g : Game) → IsGame g → index < size g → IsGame (die index g)
die-IsGame index g v lt =
    let d = die-Dies index g v.valid lt in
    record {
      valid = Dies-IsValid v.valid d lt;
      below = λ i h.
          rw (die-next index g, d.moved i)
            (if_both (λ a. a < g.next) (index == i) _ _
              (v.below (size (die index g)) (omega (arith, d.shrinks)))
              (v.below i (omega (arith, d.shrinks))));
    }

leave_board-Same : (e : Entity) (g : Game) → Same g (leave_board e g)
unfolding leave_board set_board
leave_board-Same e g = elim (Bool-cases (lifespan_ended e)) [
  | inl h ↦ rw (leave_board, h) (board-Same _ g)
  | inr h ↦ rw (leave_board, h) (Same-refl g)
]

purge_round-IsGame : (i : ℕ) (g : Game) → IsGame g → i < size g → IsGame (purge_round i g).0
unfolding purge_round
purge_round-IsGame i g v lt =
    let same = leave_board-Same (at g i) g in
    let cleared = Same-IsGame same v in
    elim (Bool-cases (is_dead (at g i))) [
      | inl h ↦
          rw (purge_round, h)
            (die-IsGame i (leave_board (at g i) g) cleared
              (omega (arith, same.n_players, same.n_friends)))
      | inr h ↦ rw (purge_round, h) cleared
    ]

purge_from-IsGame : (fuel i : ℕ) (g : Game) → IsGame g → IsGame (purge_from fuel i g)
unfolding purge_from
purge_from-IsGame zero i g v = v
purge_from-IsGame (suc fuel) i g v = elim (Bool-cases (ltb i (size g))) [
  | inl h ↦
      rw (purge_from, h) (purge_from-IsGame fuel _ _ (purge_round-IsGame i g v (ground arith)))
  | inr h ↦ rw (purge_from, h) v
]

pub purge_the_dead-IsGame : (g : Game) → IsGame g → IsGame (purge_the_dead g)
unfolding purge_the_dead
purge_the_dead-IsGame g v = purge_from-IsGame (size g) 0 g v

each_from-Same :
    (f : Entity → Entity)
    → ((e : Entity) → (f e).kind ≡ e.kind)
    → (k i : ℕ) (g : Game) → Same g (each_from f k i g)
unfolding each_from
each_from-Same f h zero i g = Same-refl g
each_from-Same f h (suc k) i g =
    Same-trans (put-Same (g.entities i) (f (at g i)) g (h (at g i)))
      (each_from-Same f h k (i + 1) _)

generate_mana-Same : (g : Game) → Same g (generate_mana g)
unfolding generate_mana
generate_mana-Same g = each_from-Same gain_mana (λ e. refl) (size g) 0 g

decay_friends-Same : (g : Game) → Same g (decay_friends g)
unfolding decay_friends
decay_friends-Same g = each_from-Same decay (λ e. ground arith) (size g) 0 g

pub upkeep-IsGame : (g : Game) → IsGame g → IsGame (decay_friends (generate_mana g))
upkeep-IsGame g v =
    Same-IsGame (Same-trans (generate_mana-Same g) (decay_friends-Same (generate_mana g))) v
