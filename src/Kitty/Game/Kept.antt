-- ===== src/Kitty/Game/Kept.antt =====
-- The cards and a turn of game.c keep a game.
use my_enseirb_matmeca_proje.Base.{
  update, ℕ, suc, ◌+◌, ◌<◌, ◌≡◌, refl, sym, ap, true, false, inl, inr, List, [], ◌∷◌, get_or,
  Option, none, some, ◌==◌, if_both, if_some, subst, Bool-cases, arith,
}
use my_enseirb_matmeca_proje.Base.Int.{ℤ, pos, negsuc, ltb_ℤ, leb_ℤ, ◌+ℤ◌, ◌-ℤ◌}
use my_enseirb_matmeca_proje.Base.Sums.{total, total-ext}
use my_enseirb_matmeca_proje.Kitty.Random.{Rng}
use my_enseirb_matmeca_proje.Kitty.Cards.{
  Card, think, steal, panacea, razor, hell, stone, puppy, cost,
}
use my_enseirb_matmeca_proje.Kitty.Board.{Cell, Board}
use my_enseirb_matmeca_proje.Kitty.Entity.{
  Kind, player, friend, Entity, Game, size, at, put, shuffle_hand, select_card,
}
use my_enseirb_matmeca_proje.Kitty.Game.{
  spend, regain, weaken, set_life, set_board, cells_around, place_stone, new_friend, place_friend,
  apply, pick_target, aim, apply_card_as, apply_card, refill_hand, then_refill, play_selected,
  play_turn_as, play_turn,
}
use my_enseirb_matmeca_proje.Kitty.Round.Death.{weight}
use my_enseirb_matmeca_proje.Kitty.Round.Same.{
  IsGame, HasPlayers, Same-HasPlayers, Same, Same-refl, Same-trans, put-Same, board-Same,
}

spend-Same : (e : ℕ) (n : ℤ) (g : Game) → Same g (spend e n g)
unfolding spend
spend-Same e n g = put-Same e _ g refl

regain-Same : (e : ℕ) (g : Game) → Same g (regain e g)
unfolding regain
regain-Same e g = put-Same e _ g refl

weaken-Same : (t : ℕ) (g : Game) → Same g (weaken t g)
unfolding weaken
weaken-Same t g = elim (Bool-cases (ltb_ℤ (pos 1) (g.heap t).mana_regen)) [
  | inl h ↦ rw (weaken, h) (put-Same t _ g refl)
  | inr h ↦ rw (weaken, h) (Same-refl g)
]

set_life-Same : (e : ℕ) (n : ℤ) (g : Game) → Same g (set_life e n g)
unfolding set_life
set_life-Same e n g = put-Same e _ g refl

place_stone-Same : (cells : List Cell) (g : Game) (r : Rng) → Same g (place_stone cells g r).0
unfolding place_stone set_board
place_stone-Same [] g r = Same-refl g
place_stone-Same (c ∷ cells) g r = board-Same _ g

-- A friend is added at the end of the array, at an address that was not in use.
abbrev with_friend : Entity → Board → Game → Game
with_friend new b g = record g {
  heap = update g.heap g.next new;
  entities = update g.entities (size g) g.next;
  n_friends = g.n_friends + 1;
  next = g.next + 1;
  board = b;
}

at-with_friend :
    (new : Entity) (b : Board) (g : Game) (i : ℕ)
    → IsGame g
    → i < size g
    → at (with_friend new b g) i ≡ at g i
at-with_friend new b g i v h =
    let place : (size g == i) ≡ false = ground arith in
    let address : (g.next == g.entities i) ≡ false = ground (arith, v.below i h) in
    rw (place, address) refl

at-with_friend_last :
    (new : Entity) (b : Board) (g : Game) → at (with_friend new b g) (size g) ≡ new
at-with_friend_last new b g =
    let place : (size g == size g) ≡ true = ground arith in
    let address : (g.next == g.next) ≡ true = ground arith in rw (place, address) refl

-- How many of a kind there are then.
total-with_friend :
    (k : Kind) (new : Entity) (b : Board) (g : Game)
    → IsGame g
    → total (λ i. weight k (at (with_friend new b g) i)) (suc (size g))
      ≡ total (λ i. weight k (at g i)) (size g) + weight k new
unfolding total
total-with_friend k new b g v =
    let g' = with_friend new b g in
    let old =
      total-ext (λ i. weight k (at g' i)) (λ i. weight k (at g i)) (size g)
        (λ i h. ap (weight k) (at-with_friend new b g i v h)) in
    omega (arith, old, ap (weight k) (at-with_friend_last new b g))

with_friend-IsGame :
    (new : Entity) (b : Board) (g : Game)
    → new.kind ≡ friend
    → IsGame g
    → IsGame (with_friend new b g)
with_friend-IsGame new b g k v =
    let more : size (with_friend new b g) ≡ suc (size g) = omega arith in
    let none : weight player new ≡ 0 = rw k refl in
    let one : weight friend new ≡ 1 = rw k refl in
    record {
      valid = record {
        distinct = λ i j hi hj e. ground (arith, v.valid.distinct i j, v.below i, v.below j, e);
        players =
            rw more (omega (arith, total-with_friend player new b g v, none, v.valid.players));
        friends = rw more (omega (arith, total-with_friend friend new b g v, one, v.valid.friends));
      };
      below = λ i h. ground (arith, v.below i);
    }

place_friend-HasPlayers :
    {n : ℕ} (cells : List Cell) (e t : ℕ) (g : Game) (r : Rng)
    → HasPlayers n g
    → HasPlayers n (place_friend cells e t g r).0
unfolding place_friend set_board new_friend
place_friend-HasPlayers [] e t g r v = v
place_friend-HasPlayers (c ∷ cells) e t g r v = record {
  is_game = with_friend-IsGame _ _ g refl v.is_game;
  count = v.count;
}

-- Whatever card an entity plays.
apply-HasPlayers :
    {n : ℕ} (c : Card) (e t : ℕ) (g : Game) (r : Rng)
    → HasPlayers n g
    → HasPlayers n (apply c e t g r).0
unfolding apply
apply-HasPlayers think e t g r v =
    Same-HasPlayers (Same-trans (regain-Same e g) (spend-Same e (pos 5) (regain e g))) v
apply-HasPlayers steal e t g r v =
    Same-HasPlayers
      (Same-trans (Same-trans (weaken-Same t g) (regain-Same e (weaken t g)))
        (spend-Same e (pos 10) (regain e (weaken t g))))
      v
apply-HasPlayers panacea e t g r v =
    let n = (g.heap e).life +ℤ pos 10 in
    Same-HasPlayers (Same-trans (set_life-Same e n g) (spend-Same e (pos 2) (set_life e n g))) v
apply-HasPlayers razor e t g r v =
    let n = (g.heap t).life -ℤ pos 10 in
    Same-HasPlayers (Same-trans (set_life-Same t n g) (spend-Same e (pos 2) (set_life t n g))) v
apply-HasPlayers hell e t g r v =
    let n = negsuc 49 in
    Same-HasPlayers (Same-trans (set_life-Same t n g) (spend-Same e (pos 100) (set_life t n g))) v
apply-HasPlayers stone e t g r v =
    let g' = spend e (pos 10) g in
    Same-HasPlayers
      (Same-trans (spend-Same e (pos 10) g) (place_stone-Same (cells_around t g') g' r)) v
apply-HasPlayers puppy e t g r v =
    let g' = spend e (pos 5) g in
    place_friend-HasPlayers (cells_around e g') e t g' r
      (Same-HasPlayers (spend-Same e (pos 5) g) v)

-- What a step that may not end leaves.
abbrev pub Leaves : ℕ → Option (Game × Rng) → Type 0
Leaves n o = (g : Game) (r : Rng) → o ≡ some (g, r) → HasPlayers n g

pub some-Leaves : {n : ℕ} (g : Game) (r : Rng) → HasPlayers n g → Leaves n (some (g, r))
some-Leaves {n} g r v h s e =
    subst (HasPlayers n) (sym (ap (λ p. p.0) (if_some true (g, r) (h, s) e).1)) v

pub none-Leaves : {n : ℕ} → Leaves n none
none-Leaves g r e = absurd cc

aim-Leaves :
    {n : ℕ} (o : Option (ℕ × Rng)) (c : Card) (e : ℕ) (g : Game)
    → HasPlayers n g
    → Leaves n (aim o c e g)
unfolding aim
aim-Leaves none c e g v = none-Leaves
aim-Leaves (some (t, r)) c e g v = some-Leaves _ _ (apply-HasPlayers c e t g r v)

apply_card_as-Leaves :
    {n : ℕ} (k : Kind) (fuel e i : ℕ) (g : Game) (r : Rng)
    → HasPlayers n g
    → Leaves n (apply_card_as k fuel e i g r)
unfolding apply_card_as
apply_card_as-Leaves friend fuel e i g r v =
    some-Leaves _ _ (apply-HasPlayers (g.heap e).card e (g.heap e).target g r v)
apply_card_as-Leaves player fuel e i g r v =
    aim-Leaves (pick_target fuel e g r) (get_or (g.heap e).hand i hell) e g v

refill_hand-HasPlayers :
    {n : ℕ} (e i : ℕ) (g : Game) (r : Rng) → HasPlayers n g → HasPlayers n (refill_hand e i g r).0
unfolding refill_hand
refill_hand-HasPlayers e i g r v = Same-HasPlayers (put-Same e _ g refl) v

then_refill-Leaves :
    {n : ℕ} (o : Option (Game × Rng)) (e i : ℕ) → Leaves n o → Leaves n (then_refill o e i)
unfolding then_refill
then_refill-Leaves none e i l = none-Leaves
then_refill-Leaves (some (g, r)) e i l =
    some-Leaves _ _ (refill_hand-HasPlayers e i g r (l g r refl))

play_selected-Leaves :
    {n : ℕ} (fuel e : ℕ) (o : Option ℕ) (g : Game) (r : Rng)
    → HasPlayers n g
    → Leaves n (play_selected fuel e o g r)
unfolding play_selected apply_card
play_selected-Leaves fuel e none g r v = some-Leaves g r v
play_selected-Leaves fuel e (some i) g r v =
    then_refill-Leaves (apply_card fuel e i g r) e i
      (apply_card_as-Leaves (g.heap e).kind fuel e i g r v)

play_turn_as-Leaves :
    {n : ℕ} (k : Kind) (fuel e : ℕ) (g : Game) (r : Rng)
    → HasPlayers n g
    → Leaves n (play_turn_as k fuel e g r)
unfolding play_turn_as apply_card shuffle_hand
play_turn_as-Leaves player fuel e g r v =
    let p = (shuffle_hand (g.heap e) r).0 in
    play_selected-Leaves fuel e (select_card p) (put e p g) _
      (Same-HasPlayers (put-Same e p g refl) v)
play_turn_as-Leaves friend fuel e g r v =
    if_both (Leaves _) (leb_ℤ (pos (cost (g.heap e).card)) (g.heap e).mana) _ _
      (apply_card_as-Leaves (g.heap e).kind fuel e 0 g r v) (some-Leaves g r v)

pub play_turn-Leaves :
    {n : ℕ} (fuel e : ℕ) (g : Game) (r : Rng) → HasPlayers n g → Leaves n (play_turn fuel e g r)
unfolding play_turn
play_turn-Leaves fuel e g r v = play_turn_as-Leaves (g.heap e).kind fuel e g r v
