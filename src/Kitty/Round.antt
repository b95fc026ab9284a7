-- ===== src/Kitty/Round.antt =====
-- game.c: the death of an entity, and what happens to all entities at the end of a turn. A place of
-- the array from `n_players + n_friends` on is not looked at. `free` leaves the heap as it is.
pub mod Death
pub mod Purge
pub mod Upkeep
pub mod Same
pub mod Kept
use my_enseirb_matmeca_proje.Base.{
  update, ℕ, zero, suc, ◌+◌, ◌-◌, Bool, true, false, ◌==◌, ◌&&◌, ◌||◌, if◌then◌else◌, ltb,
}
use my_enseirb_matmeca_proje.Base.Int.{ℤ, pos, leb_ℤ, eqb_ℤ, ◌+ℤ◌, ◌-ℤ◌}
use my_enseirb_matmeca_proje.Kitty.Entity.{
  Kind, player, friend, is_friend, Entity, Game, size, at, put,
}
use my_enseirb_matmeca_proje.Kitty.Game.{set_board}

-- A friend whose target dies: it has one turn left, and no mana.
abbrev pub doomed : Entity → Entity
doomed e = record e { lifespan = pos 1; mana = pos 0; mana_regen = pos 0 }

pub mark_one : ℕ → ℕ → Game → Game
mark_one dead i g =
    if is_friend (at g i).kind && (at g i).target == dead
    then put (g.entities i) (doomed (at g i)) g
    else g

-- The first loop of `die`: the last `k` rounds, from place `i` on.
pub mark_from : ℕ → ℕ → ℕ → Game → Game
unfolding mark_one
mark_from dead zero i g = g
mark_from dead (suc k) i g = mark_from dead k (i + 1) (mark_one dead i g)

pub uncount : Kind → Game → Game
uncount player g = record g { n_players = g.n_players - 1 }
uncount friend g = record g { n_friends = g.n_friends - 1 }

pub die : ℕ → Game → Game
unfolding mark_from uncount
die index g =
    let dead = g.entities index in
    let g' = mark_from dead (size g) 0 g in
    let g'' = uncount (g'.heap dead).kind g' in
    record g'' { entities = update g''.entities index (g''.entities (size g'')) }

abbrev pub lifespan_ended : Entity → Bool
lifespan_ended e = is_friend e.kind && eqb_ℤ e.lifespan (pos 0)

abbrev pub is_dead : Entity → Bool
is_dead e = lifespan_ended e || leb_ℤ e.life (pos 0)

pub leave_board : Entity → Game → Game
unfolding set_board
leave_board e g = if lifespan_ended e then set_board e.cell false g else g

-- One round of the loop of `purge_the_dead` at place `i`: the game, and the next place.
pub purge_round : ℕ → Game → Game × ℕ
unfolding leave_board die
purge_round i g =
    if is_dead (at g i)
    then (die i (leave_board (at g i) g), i)
    else (leave_board (at g i) g, i + 1)

-- The loop from place `i` on. Each round leaves one place less to look at.
pub purge_from : ℕ → ℕ → Game → Game
unfolding purge_round
purge_from zero i g = g
purge_from (suc fuel) i g =
    let (g', i') = purge_round i g in
    let rest = purge_from fuel i' g' in if ltb i (size g) then rest else g

unfoldable pub purge_the_dead : Game → Game
unfolding purge_from
purge_the_dead g = purge_from (size g) 0 g

-- The last `k` rounds of a loop that changes each entity, from place `i` on.
pub each_from : (Entity → Entity) → ℕ → ℕ → Game → Game
each_from f zero i g = g
each_from f (suc k) i g = each_from f k (i + 1) (put (g.entities i) (f (at g i)) g)

abbrev pub gain_mana : Entity → Entity
gain_mana e = record e { mana = e.mana +ℤ e.mana_regen }

abbrev pub decay : Entity → Entity
decay e = if is_friend e.kind then record e { lifespan = e.lifespan -ℤ pos 1 } else e

unfoldable pub generate_mana : Game → Game
unfolding each_from
generate_mana g = each_from gain_mana (size g) 0 g

unfoldable pub decay_friends : Game → Game
unfolding each_from
decay_friends g = each_from decay (size g) 0 g
