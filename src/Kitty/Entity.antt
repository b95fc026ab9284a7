-- ===== src/Kitty/Entity.antt =====
-- entity.c and the types of entity.h and game.h: players and friends, their hands, and the data of
-- a game. The heap maps an address to the entity there; a name is known by its length.
pub mod Select
use my_enseirb_matmeca_proje.Base.{
  update, ℕ, zero, suc, ◌+◌, ◌≤◌, ◌<◌, ◌≡◌, refl, ◌⊎◌, inl, inr, ap, Bool, true, false, List, [],
  ◌∷◌, length, get_or, Option, none, some, ◌==◌, if◌then◌else◌, arith, Bool-cases, subst,
}
use my_enseirb_matmeca_proje.Base.Int.{ℤ, pos, leb_ℤ, ◌≤ℤ◌, ◌<ℤ◌}
use my_enseirb_matmeca_proje.Kitty.Random.{Rng, shuffle_from}
use my_enseirb_matmeca_proje.Kitty.Cards.{Card, hell, cost}
use my_enseirb_matmeca_proje.Kitty.Deck.{Deck, draw_card}
use my_enseirb_matmeca_proje.Kitty.Board.{Cell, Board}

abbrev pub hand_size : ℕ
hand_size = 5

-- The field `type`.
pub data Kind : Type 0 where
  player friend : Kind

abbrev pub is_friend : Kind → Bool
is_friend friend = true
is_friend player = false

-- `struct entity`. `cell` is the fields `x` and `y`; `target` is an address.
pub record Entity : Type 0 where
  pub kind : Kind
  pub life : ℤ
  pub mana : ℤ
  pub mana_regen : ℤ
  pub name_length : ℕ
  pub cell : Cell
  pub hand : List Card
  pub deck : Deck
  pub target : ℕ
  pub card : Card
  pub lifespan : ℤ

-- `struct game_data`, and the heap: `next` is the address that `malloc` gives next. The entities
-- of the game are at the first `n_players + n_friends` places of `entities`.
pub record Game : Type 0 where
  pub heap : ℕ → Entity
  pub entities : ℕ → ℕ
  pub n_players : ℕ
  pub n_friends : ℕ
  pub board : Board
  pub next : ℕ

abbrev pub size : Game → ℕ
size g = g.n_players + g.n_friends

-- The entity at a place of the array.
abbrev pub at : Game → ℕ → Entity
at g i = g.heap (g.entities i)

abbrev pub put : ℕ → Entity → Game → Game
put e new g = record g { heap = update g.heap e new }

pub deal_cards : ℕ → Deck → Rng → List Card × Deck × Rng
deal_cards zero d r = ([], d, r)
deal_cards (suc k) d r =
    let (c, d', r') = draw_card d r in let (cs, d'', r'') = deal_cards k d' r' in (c ∷ cs, d'', r'')

unfoldable pub deal_hand : Entity → Rng → Entity × Rng
unfolding deal_cards
deal_hand p r =
    let (cs, d, r') = deal_cards hand_size p.deck r in (record p { hand = cs; deck = d }, r')

unfoldable pub shuffle_hand : Entity → Rng → Entity × Rng
shuffle_hand p r =
    let (h, r') = shuffle_from hell hand_size hand_size 0 p.hand r in (record p { hand = h }, r')

-- The loop of `select_card` over the cards from index `i` on.
pub first_playable : List Card → ℤ → ℕ → Option ℕ
first_playable [] mana i = none
first_playable (c ∷ hand) mana i =
    if leb_ℤ (pos (cost c)) mana then some i else first_playable hand mana (i + 1)

-- `none` is the result -1.
unfoldable pub select_card : Entity → Option ℕ
unfolding first_playable
select_card p = first_playable p.hand p.mana 0
