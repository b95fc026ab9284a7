-- ===== src/Kitty/Deck/Draws.antt =====
-- deck.c: the cards that a sequence of draws from a deck gives.
use my_enseirb_matmeca_proje.Base.{
  ℕ, zero, suc, ◌+◌, ◌-◌, ◌≤◌, ◌<◌, ◌≡◌, refl, ap, ◌∙◌, inl, inr, Bool, List, [], ◌∷◌, length,
  get_or, take, drop, count_if, arith, ◌==◌, Bool-cases,
}
use my_enseirb_matmeca_proje.Kitty.Random.{Rng}
use my_enseirb_matmeca_proje.Kitty.Random.Shuffle.{length-shuffle_from, count_if-shuffle_from}
use my_enseirb_matmeca_proje.Kitty.Cards.{Card, hell, is_hell, draw_random_card}
use my_enseirb_matmeca_proje.Kitty.Deck.{
  Deck, deck_size, shuffle_deck, random_cards, deal_deck, draw_card,
}

pub record IsValid (d : Deck) : Type 0 where
  pub full : length d.cards ≡ deck_size
  pub in_deck : d.index ≤ deck_size

pub count-shuffle_deck :
    (p : Card → Bool) (d : Deck) (r : Rng)
    → IsValid d
    → (count_if p (shuffle_deck d r).0.cards ≡ count_if p d.cards)
      × (length (shuffle_deck d r).0.cards ≡ deck_size)
      × ((shuffle_deck d r).0.index ≡ d.index)
unfolding shuffle_deck
count-shuffle_deck p d r v = (
  count_if-shuffle_from hell p deck_size deck_size 0 d.cards r v.full (omega arith),
  length-shuffle_from hell deck_size deck_size 0 d.cards r ∙ v.full,
  refl,
)

length-random_cards : (k : ℕ) (r : Rng) → length (random_cards k r).0 ≡ k
unfolding random_cards
length-random_cards zero r = refl
length-random_cards (suc k) r = ap suc (length-random_cards k (draw_random_card r).1)

-- Drawing a card from a valid deck leaves a valid one, of every kind of card as many as before,
-- whether or not the deck was shuffled anew; the card is the one before the new index, which is
-- positive.
pub draw_card-IsValid :
    (p : Card → Bool) (d : Deck) (r : Rng)
    → IsValid d
    → let (c, d', r') = draw_card d r in
      IsValid d'
      × (count_if p d'.cards ≡ count_if p d.cards)
      × (0 < d'.index)
      × (c ≡ get_or d'.cards (d'.index - 1) hell)
unfolding draw_card
draw_card-IsValid p d r v = ground (arith, count-shuffle_deck p d r v)

-- `n` cards drawn one after the other, in order.
pub draws : ℕ → Deck → Rng → List Card
draws zero d r = []
draws (suc n) d r = let (c, d', r') = draw_card d r in c ∷ draws n d' r'

drop-cons : (i : ℕ) (t : List Card) → i < length t → drop i t ≡ get_or t i hell ∷ drop (i + 1) t
drop-cons i [] h = absurd (omega arith)
drop-cons zero (x ∷ xs) h = refl
drop-cons (suc i) (x ∷ xs) h =
    let e : suc i + 1 ≡ suc (i + 1) = omega arith in rw e (drop-cons i xs (omega arith))

draw_card-inside :
    (d : Deck) (r : Rng)
    → d.index < deck_size
    → draw_card d r ≡ (get_or d.cards d.index hell, record d { index = d.index + 1 }, r)
unfolding draw_card
draw_card-inside d r h = elim (Bool-cases (d.index == deck_size)) [
  | inl e ↦ absurd (ground arith)
  | inr e ↦ ground arith
]

-- Until the end of a valid deck, one of 50 cards with its index inside, the cards come in its
-- order, from its index on: `n` draws give the next `n` cards.
pub draws-take :
    (n : ℕ) (d : Deck) (r : Rng)
    → IsValid d
    → d.index + n ≤ deck_size
    → draws n d r ≡ take n (drop d.index d.cards)
unfolding draws
draws-take zero d r v h = refl
draws-take (suc n) d r v h =
    rw (draw_card-inside d r (omega arith), drop-cons d.index d.cards (omega (arith, v.full)))
      (ap (λ l. get_or d.cards d.index hell ∷ l)
        (draws-take n (record d { index = d.index + 1 }) r
          (record { full = v.full; in_deck = omega arith }) (omega arith)))

take-all : (n : ℕ) (t : List Card) → length t ≡ n → take n t ≡ t
take-all zero [] h = refl
take-all zero (x ∷ xs) h = absurd (omega arith)
take-all (suc n) [] h = refl
take-all (suc n) (x ∷ xs) h = ap (λ l. x ∷ l) (take-all n xs (omega arith))

-- `deal_deck` makes a deck of 50 cards from whose start nothing is drawn, with HELL IS OTHERS among
-- its cards.
pub deal_deck_lem :
    (r : Rng)
    → let (d, r') = deal_deck r in IsValid d × (d.index ≡ 0) × (0 < count_if is_hell d.cards)
unfolding deal_deck
deal_deck_lem r = (record { full = s.1; in_deck = omega (arith, s.2) }, s.2, omega (arith, s.0))
  where
    start : Deck
    start = record { cards = hell ∷ (random_cards (deck_size - 1) r).0; index = 0 }

    start-IsValid : IsValid start
    start-IsValid = record {
      full = omega (arith, length-random_cards (deck_size - 1) r);
      in_deck = omega arith;
    }

    s :
        (count_if is_hell (shuffle_deck start (random_cards (deck_size - 1) r).1).0.cards
          ≡ count_if is_hell start.cards)
        × (length (shuffle_deck start (random_cards (deck_size - 1) r).1).0.cards ≡ deck_size)
        × ((shuffle_deck start (random_cards (deck_size - 1) r).1).0.index ≡ 0)
    s = count-shuffle_deck is_hell start (random_cards (deck_size - 1) r).1 start-IsValid

-- Games are not endless for want of the card: among the first 50 cards drawn from a dealt deck is
-- HELL IS OTHERS, however the random numbers fall.
draws-deal_deck :
    (r : Rng) → let (d, r') = deal_deck r in 0 < count_if is_hell (draws deck_size d r')
draws-deal_deck r =
    rw
      (
        draws-take deck_size (deal_deck r).0 (deal_deck r).1 l.0 (omega (arith, l.1)),
        l.1,
        take-all deck_size (deal_deck r).0.cards l.0.full,
      )
      l.2
  where
    l :
        IsValid (deal_deck r).0
        × ((deal_deck r).0.index ≡ 0)
        × (0 < count_if is_hell (deal_deck r).0.cards)
    l = deal_deck_lem r
