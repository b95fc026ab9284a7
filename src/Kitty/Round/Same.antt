-- ===== src/Kitty/Round/Same.antt =====
-- What most steps of a game keep: the array, the counts, the heap's use, and who is a friend.
use my_enseirb_matmeca_proje.Base.{
  ℕ, ◌<◌, ◌≡◌, refl, sym, ap, ◌∙◌, inl, inr, ◌==◌, Bool-cases, arith,
}
use my_enseirb_matmeca_proje.Base.Sums.{total, total-ext}
use my_enseirb_matmeca_proje.Kitty.Board.{Board}
use my_enseirb_matmeca_proje.Kitty.Entity.{Kind, player, friend, Entity, Game, size, at, put}
use my_enseirb_matmeca_proje.Kitty.Round.Death.{IsValid, weight}

-- A game whose entities were allocated.
pub record IsGame (g : Game) : Type 0 where
  pub valid : IsValid g
  pub below : (i : ℕ) → i < size g → g.entities i < g.next

pub record Same (g g' : Game) : Type 0 where
  pub entities : g'.entities ≡ g.entities
  pub n_players : g'.n_players ≡ g.n_players
  pub n_friends : g'.n_friends ≡ g.n_friends
  pub next : g'.next ≡ g.next
  pub kind : (u : ℕ) → (g'.heap u).kind ≡ (g.heap u).kind

pub Same-refl : (g : Game) → Same g g
Same-refl g = record {
  entities = refl;
  n_players = refl;
  n_friends = refl;
  next = refl;
  kind = λ u. refl;
}

pub Same-trans : {g h k : Game} → Same g h → Same h k → Same g k
Same-trans {g} {h} {k} a b = record {
  entities = b.entities ∙ a.entities;
  n_players = b.n_players ∙ a.n_players;
  n_friends = b.n_friends ∙ a.n_friends;
  next = b.next ∙ a.next;
  kind = λ u. b.kind u ∙ a.kind u;
}

pub put-Same : (e : ℕ) (new : Entity) (g : Game) → new.kind ≡ (g.heap e).kind → Same g (put e new g)
put-Same e new g h = record {
  entities = refl;
  n_players = refl;
  n_friends = refl;
  next = refl;
  kind = λ u. elim (Bool-cases (e == u)) [
    | inl here ↦ let same : e ≡ u = ground arith in rw here (h ∙ ap (λ a. (g.heap a).kind) same)
    | inr other ↦ rw other refl
  ];
}

pub board-Same : (b : Board) (g : Game) → Same g (record g { board = b })
board-Same b g = record {
  entities = refl;
  n_players = refl;
  n_friends = refl;
  next = refl;
  kind = λ u. refl;
}

weight-kind : (k : Kind) (a b : Entity) → b.kind ≡ a.kind → weight k b ≡ weight k a
weight-kind player a b h = rw h refl
weight-kind friend a b h = rw h refl

pub Same-IsGame : {g g' : Game} → Same g g' → IsGame g → IsGame g'
Same-IsGame {g} {g'} s v =
    let sizes : size g' ≡ size g = omega (arith, s.n_players, s.n_friends) in
    record {
      valid = record {
        distinct = λ i j hi hj e.
            v.valid.distinct i j (omega (arith, sizes)) (omega (arith, sizes))
              (sym (ap (λ f. f i) s.entities) ∙ e ∙ ap (λ f. f j) s.entities);
        players = weights player sizes ∙ v.valid.players ∙ sym s.n_players;
        friends = weights friend sizes ∙ v.valid.friends ∙ sym s.n_friends;
      };
      below = λ i h.
          let e : g'.entities i ≡ g.entities i = ap (λ f. f i) s.entities in
          rw (e, s.next) (v.below i (omega (arith, sizes)));
    }
  where
    weights :
        (k : Kind)
        → size g' ≡ size g
        → total (λ i. weight k (at g' i)) (size g') ≡ total (λ i. weight k (at g i)) (size g)
    weights k sizes =
        total-ext _ _ (size g') (λ i h.
          ap (λ u. weight k (g'.heap u)) (ap (λ f. f i) s.entities)
          ∙ weight-kind k _ _ (s.kind (g.entities i)))
        ∙ ap (total (λ i. weight k (at g i))) sizes

-- A game with `n` players.
pub record HasPlayers (n : ℕ) (g : Game) : Type 0 where
  pub is_game : IsGame g
  pub count : g.n_players ≡ n

pub Same-HasPlayers : {n : ℕ} {g g' : Game} → Same g g' → HasPlayers n g → HasPlayers n g'
Same-HasPlayers s v = record { is_game = Same-IsGame s v.is_game; count = s.n_players ∙ v.count }
