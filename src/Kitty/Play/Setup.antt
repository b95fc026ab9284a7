-- ===== src/Kitty/Play/Setup.antt =====
-- The set-up of `play_game` makes a game.
use my_enseirb_matmeca_proje.Base.{
  ℕ, zero, suc, ◌+◌, ◌<◌, ◌≡◌, refl, sym, ap, ◌∙◌, inl, inr, ◌==◌, Bool-cases, Option-cases, subst,
  arith,
}
use my_enseirb_matmeca_proje.Base.Sums.{total, total-ext}
use my_enseirb_matmeca_proje.Kitty.Random.{Rng}
use my_enseirb_matmeca_proje.Kitty.Board.{Cell}
use my_enseirb_matmeca_proje.Kitty.Entity.{player, friend, Game, size, at, deal_hand}
use my_enseirb_matmeca_proje.Kitty.Game.{set_board}
use my_enseirb_matmeca_proje.Kitty.Round.Death.{weight}
use my_enseirb_matmeca_proje.Kitty.Round.Same.{
  HasPlayers, Same-HasPlayers, Same, Same-trans, put-Same, board-Same,
}
use my_enseirb_matmeca_proje.Kitty.Game.Kept.{Leaves, some-Leaves, none-Leaves}
use my_enseirb_matmeca_proje.Kitty.Play.{
  add_player, add_players, free_cell, place_player, place_players, init_board, start_game,
}

-- The first `i` players of `n` are allocated, from address `base` on.
record Added (n base i : ℕ) (g : Game) : Type 0 where
  count : g.n_players ≡ n
  alone : g.n_friends ≡ 0
  next : g.next ≡ base + i
  place : (j : ℕ) → j < i → g.entities j ≡ base + j
  kind : (j : ℕ) → j < i → (g.heap (base + j)).kind ≡ player

add_player-Added :
    {n base : ℕ} (i : ℕ) (g : Game) (r : Rng)
    → Added n base i g
    → Added n base (i + 1) (add_player i g r).0
unfolding add_player deal_hand
add_player-Added {n} {base} i g r v = record {
  count = v.count;
  alone = v.alone;
  next = omega (arith, v.next);
  place = λ j h. ground (arith, v.place j, v.next);
  kind = λ j h. elim (Bool-cases (g.next == base + j)) [
    | inl here ↦ rw here refl
    | inr other ↦ rw other (v.kind j (ground (arith, v.next)))
  ];
}

add_players-Added :
    {n base : ℕ} (k i : ℕ) (g : Game) (r : Rng)
    → Added n base i g
    → Added n base (i + k) (add_players k i g r).0
unfolding add_players
add_players-Added {n} {base} zero i g r v =
    let same : i ≡ i + 0 = omega arith in subst (λ m. Added n base m g) same v
add_players-Added {n} {base} (suc k) i g r v =
    let later : (i + 1) + k ≡ i + suc k = omega arith in
    let rest = add_players-Added k (i + 1) _ _ (add_player-Added i g r v) in
    subst (λ m. Added n base m (add_players (suc k) i g r).0) later rest

total-one : (n : ℕ) → total (λ i. 1) n ≡ n
unfolding total
total-one zero = refl
total-one (suc n) = omega (arith, total-one n)

total-none : (n : ℕ) → total (λ i. 0) n ≡ 0
unfolding total
total-none zero = refl
total-none (suc n) = omega (arith, total-none n)

Added-HasPlayers : {n base : ℕ} (g : Game) → Added n base n g → HasPlayers n g
Added-HasPlayers {n} {base} g v =
    let sizes : size g ≡ n = omega (arith, v.count, v.alone) in
    let kinds : (i : ℕ) → i < n → (at g i).kind ≡ player =
      λ i h. ap (λ a. (g.heap a).kind) (v.place i h) ∙ v.kind i h in
    let players : total (λ i. weight player (at g i)) n ≡ n =
      total-ext _ (λ i. 1) n (λ i h. rw (kinds i h) refl) ∙ total-one n in
    let friends : total (λ i. weight friend (at g i)) n ≡ 0 =
      total-ext _ (λ i. 0) n (λ i h. rw (kinds i h) refl) ∙ total-none n in
    record {
      is_game = record {
        valid = record {
          distinct = λ i j hi hj e. ground (arith, v.place i, v.place j, sizes, e);
          players = ap (total (λ i. weight player (at g i))) sizes ∙ players ∙ sym v.count;
          friends = ap (total (λ i. weight friend (at g i))) sizes ∙ friends ∙ sym v.alone;
        };
        below = λ i h. ground (arith, v.place i, v.next, sizes);
      };
      count = v.count;
    }

place_player-Same : (i : ℕ) (c : Cell) (g : Game) → Same g (place_player i c g)
unfolding place_player set_board
place_player-Same i c g =
    Same-trans (put-Same (g.entities i) (record (at g i) { cell = c }) g refl) (board-Same _ _)

place_players-Leaves :
    {n : ℕ} (fuel k i : ℕ) (g : Game) (r : Rng)
    → HasPlayers n g
    → Leaves n (place_players fuel k i g r)
unfolding place_players
place_players-Leaves fuel zero i g r v = some-Leaves g r v
place_players-Leaves fuel (suc k) i g r v = elim (Option-cases (free_cell fuel g.board r)) [
  | inl h ↦ rw (place_players, h) none-Leaves
  | inr ((c, r'), h) ↦
      rw (place_players, h)
        (place_players-Leaves fuel k (i + 1) (place_player i c g) r'
          (Same-HasPlayers (place_player-Same i c g) v))
]

pub start_game-Leaves :
    (fuel n : ℕ) (memory : Game) (seed : Rng) → Leaves n (start_game fuel n memory seed)
unfolding start_game init_board
start_game-Leaves fuel n memory seed =
    let blank : Game = record memory { n_players = n; n_friends = 0 } in
    let none_added : Added n memory.next 0 blank = record {
      count = refl;
      alone = refl;
      next = omega arith;
      place = λ j h. absurd (omega arith);
      kind = λ j h. absurd (omega arith);
    } in
    let g : Game = (add_players n 0 blank seed).0 in
    let all : 0 + n ≡ n = omega arith in
    let added : Added n memory.next n g =
      subst (λ m. Added n memory.next m g) all (add_players-Added n 0 blank seed none_added) in
    place_players-Leaves fuel _ 0 _ _ (Same-HasPlayers (board-Same _ g) (Added-HasPlayers g added))
