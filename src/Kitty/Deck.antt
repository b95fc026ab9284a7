-- ===== src/Kitty/Deck.antt =====
-- deck.c: a deck of 50 cards, dealt and drawn from round and round.
pub mod Draws
use my_enseirb_matmeca_proje.Base.{
  ℕ, zero, suc, ◌+◌, ◌-◌, List, [], ◌∷◌, get_or, ◌==◌, if◌then◌else◌,
}
use my_enseirb_matmeca_proje.Kitty.Random.{Rng, shuffle_from}
use my_enseirb_matmeca_proje.Kitty.Cards.{Card, hell, draw_random_card}

abbrev pub deck_size : ℕ
deck_size = 50

-- `struct deck`.
pub record Deck : Type 0 where
  pub cards : List Card
  pub index : ℕ

unfoldable pub shuffle_deck : Deck → Rng → Deck × Rng
shuffle_deck d r =
    let (t, r') = shuffle_from hell deck_size deck_size 0 d.cards r in (record d { cards = t }, r')

-- The cards of the indices that the loop of `deal_deck` has left, `k` of them.
unfoldable pub random_cards : ℕ → Rng → List Card × Rng
random_cards zero r = ([], r)
random_cards (suc k) r =
    let (c, r') = draw_random_card r in let (cs, r'') = random_cards k r' in (c ∷ cs, r'')

unfoldable pub deal_deck : Rng → Deck × Rng
deal_deck r =
    let (cs, r') = random_cards (deck_size - 1) r in
    shuffle_deck (record { cards = hell ∷ cs; index = 0 }) r'

-- At the end of the deck it is shuffled, and drawn from the start again.
unfoldable pub refill : Deck → Rng → Deck × Rng
refill d r =
    if d.index == deck_size
    then (let (d', r') = shuffle_deck d r in (record d' { index = 0 }, r'))
    else (d, r)

unfoldable pub draw_card : Deck → Rng → Card × Deck × Rng
unfolding refill
draw_card d r =
    let (d', r') = refill d r in
    (get_or d'.cards d'.index hell, record d' { index = d'.index + 1 }, r')
