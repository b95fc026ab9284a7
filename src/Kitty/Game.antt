-- ===== src/Kitty/Game.antt =====
-- cards.c and game.c: what each card does, a turn, and the end of a turn. Entities that change are
-- written to the heap in the order of the assignments, so that a caster may be its own target.
pub mod Mana
pub mod Target
pub mod Kept
mod Tests
use my_enseirb_matmeca_proje.Base.{
  update, ℕ, zero, suc, ◌+◌, ◌-◌, Bool, true, false, List, [], ◌∷◌, length, get_or, set, Option,
  none, some, ◌==◌, ◌&&◌, ◌||◌, if◌then◌else◌, ltb, leb,
}
use my_enseirb_matmeca_proje.Base.Int.{ℤ, pos, negsuc, ltb_ℤ, leb_ℤ, eqb_ℤ, ◌+ℤ◌, ◌-ℤ◌}
use my_enseirb_matmeca_proje.Kitty.Random.{Rng, randint}
use my_enseirb_matmeca_proje.Kitty.Cards.{
  Card, think, steal, panacea, razor, hell, stone, puppy, cost, draw_random_card,
}
use my_enseirb_matmeca_proje.Kitty.Deck.{Deck, draw_card}
use my_enseirb_matmeca_proje.Kitty.Board.{Cell, Board, find_reachable_cells, nowhere}
use my_enseirb_matmeca_proje.Kitty.Entity.{
  Kind, player, friend, Entity, Game, size, at, put, shuffle_hand, select_card,
}

-- `caster->mana -= n`.
pub spend : ℕ → ℤ → Game → Game
spend e n g = put e (record (g.heap e) { mana = (g.heap e).mana -ℤ n }) g

-- `caster->mana_regen++`.
pub regain : ℕ → Game → Game
regain e g = put e (record (g.heap e) { mana_regen = (g.heap e).mana_regen +ℤ pos 1 }) g

pub weaken : ℕ → Game → Game
weaken t g =
    if ltb_ℤ (pos 1) (g.heap t).mana_regen
    then put t (record (g.heap t) { mana_regen = (g.heap t).mana_regen -ℤ pos 1 }) g
    else g

pub set_life : ℕ → ℤ → Game → Game
set_life e n g = put e (record (g.heap e) { life = n }) g

unfoldable pub set_board : Cell → Bool → Game → Game
set_board c b g = record g { board = λ x y. if eqb_ℤ c.x x && eqb_ℤ c.y y then b else g.board x y }

-- The cells next to an entity that are free.
pub cells_around : ℕ → Game → List Cell
cells_around e g = find_reachable_cells 1 ((g.heap e).cell ∷ []) [] g.board

-- `stone` after the mana is spent, and the cells are found.
pub place_stone : List Cell → Game → Rng → Game × Rng
unfolding set_board
place_stone [] g r = (g, r)
place_stone (c ∷ cells) g r =
    let (i, r') = randint 0 (length (c ∷ cells)) r in
    (set_board (get_or (c ∷ cells) i nowhere) true g, r')

-- The entity that `puppy` allocates; a hand and a deck are not set.
pub new_friend : Entity → Entity → ℕ → Card → Cell → Entity
new_friend garbage caster target card cell = record garbage {
  kind = friend;
  name_length = 7 + caster.name_length;
  life = pos 1;
  mana = pos 0;
  mana_regen = pos 1;
  target = target;
  card = card;
  lifespan = pos 20;
  cell = cell;
}

pub place_friend : List Cell → ℕ → ℕ → Game → Rng → Game × Rng
unfolding set_board new_friend
place_friend [] e t g r = (g, r)
place_friend (c ∷ cells) e t g r =
    let (card, r') = draw_random_card r in
    let (i, r'') = randint 0 (length (c ∷ cells)) r' in
    let cell = get_or (c ∷ cells) i nowhere in
    let g' = set_board cell true g in
    (
      record g' {
        heap = update g.heap g.next (new_friend (g.heap g.next) (g.heap e) t card cell);
        entities = update g.entities (size g) g.next;
        n_friends = g.n_friends + 1;
        next = g.next + 1;
      },
      r'',
    )

-- The field `apply` of a card: the caster, the target, the game.
pub apply : Card → ℕ → ℕ → Game → Rng → Game × Rng
unfolding spend regain weaken set_life cells_around place_stone place_friend
apply think e t g r = (spend e (pos 5) (regain e g), r)
apply steal e t g r = (spend e (pos 10) (regain e (weaken t g)), r)
apply panacea e t g r = (spend e (pos 2) (set_life e ((g.heap e).life +ℤ pos 10) g), r)
apply razor e t g r = (spend e (pos 2) (set_life t ((g.heap t).life -ℤ pos 10) g), r)
apply hell e t g r = (spend e (pos 100) (set_life t (negsuc 49) g), r)
apply stone e t g r = let g' = spend e (pos 10) g in place_stone (cells_around t g') g' r
apply puppy e t g r = let g' = spend e (pos 5) g in place_friend (cells_around e g') e t g' r

-- The loop of `apply_card`: a place of the array drawn at random until it does not hold `e`. With
-- no other entity it does not end: `none` is that the fuel is used up.
pub pick_target : ℕ → ℕ → Game → Rng → Option (ℕ × Rng)
pick_target zero e g r = none
pick_target (suc fuel) e g r =
    let (i, r') = randint 0 (size g) r in
    let again = pick_target fuel e g r' in
    if g.entities i == e then again else some (g.entities i, r')

pub aim : Option (ℕ × Rng) → Card → ℕ → Game → Option (Game × Rng)
unfolding apply
aim none c e g = none
aim (some (t, r)) c e g = some (apply c e t g r)

-- `apply_card` by an entity of each kind. `index_card` is read for a player alone.
pub apply_card_as : Kind → ℕ → ℕ → ℕ → Game → Rng → Option (Game × Rng)
unfolding aim pick_target
apply_card_as friend fuel e index_card g r = some (apply (g.heap e).card e (g.heap e).target g r)
apply_card_as player fuel e index_card g r =
    aim (pick_target fuel e g r) (get_or (g.heap e).hand index_card hell) e g

pub apply_card : ℕ → ℕ → ℕ → Game → Rng → Option (Game × Rng)
unfolding apply_card_as
apply_card fuel e index_card g r = apply_card_as (g.heap e).kind fuel e index_card g r

-- `entity->hand[index_card] = draw_card(entity->deck)`.
pub refill_hand : ℕ → ℕ → Game → Rng → Game × Rng
refill_hand e i g r =
    let (c, d, r') = draw_card (g.heap e).deck r in
    (put e (record (g.heap e) { hand = set (g.heap e).hand i c; deck = d }) g, r')

pub then_refill : Option (Game × Rng) → ℕ → ℕ → Option (Game × Rng)
unfolding refill_hand
then_refill none e i = none
then_refill (some (g, r)) e i = some (refill_hand e i g r)

-- The turn of a player whose hand is shuffled, with the place of the card selected.
pub play_selected : ℕ → ℕ → Option ℕ → Game → Rng → Option (Game × Rng)
unfolding apply_card then_refill
play_selected fuel e none g r = some (g, r)
play_selected fuel e (some i) g r = then_refill (apply_card fuel e i g r) e i

pub play_turn_as : Kind → ℕ → ℕ → Game → Rng → Option (Game × Rng)
unfolding play_selected
play_turn_as player fuel e g r =
    let (p, r') = shuffle_hand (g.heap e) r in play_selected fuel e (select_card p) (put e p g) r'
play_turn_as friend fuel e g r =
    if leb_ℤ (pos (cost (g.heap e).card)) (g.heap e).mana
    then apply_card fuel e 0 g r
    else some (g, r)

unfoldable pub play_turn : ℕ → ℕ → Game → Rng → Option (Game × Rng)
unfolding play_turn_as
play_turn fuel e g r = play_turn_as (g.heap e).kind fuel e g r
