-- ===== src/Kitty/Round/Death.antt =====
-- `die` of game.c: the array and the counts before and after.
use my_enseirb_matmeca_proje.Base.{
  update, ℕ, zero, suc, ◌+◌, ◌-◌, ◌≤◌, ◌<◌, ◌≡◌, refl, sym, ◌∙◌, subst, ◌⊎◌, inl, inr, true, arith,
  ◌==◌, if◌then◌else◌, Bool-cases,
}
use my_enseirb_matmeca_proje.Kitty.Entity.{Kind, player, friend, is_friend, Entity, Game, size, at}
use my_enseirb_matmeca_proje.Kitty.Round.{doomed, mark_one, mark_from, uncount, die}
use my_enseirb_matmeca_proje.Base.Sums.{total, total-ext, le-total, total-drop}

-- What `die` may do to an entity.
abbrev pub Marked : Entity → Entity → Type 0
Marked a b = (b ≡ a) ⊎ ((is_friend a.kind ≡ true) × (b ≡ doomed a))

-- All but the heap is as before, and on the heap friends at most are marked.
pub record Marks (g g' : Game) : Type 0 where
  pub entities : g'.entities ≡ g.entities
  pub n_players : g'.n_players ≡ g.n_players
  pub n_friends : g'.n_friends ≡ g.n_friends
  pub board : g'.board ≡ g.board
  pub heap : (u : ℕ) → Marked (g.heap u) (g'.heap u)

Marked-trans : (a b c : Entity) → Marked a b → Marked b c → Marked a c
Marked-trans a b c m n = ground arith

mark_one-Marks : (dead i : ℕ) (g : Game) → Marks g (mark_one dead i g)
unfolding mark_one
mark_one-Marks dead i g = record {
  entities = ground arith;
  n_players = ground arith;
  n_friends = ground arith;
  board = ground arith;
  heap = λ u. ground arith;
}

Marks-trans : {g h k : Game} → Marks g h → Marks h k → Marks g k
Marks-trans {g} {h} {k} m n = record {
  entities = n.entities ∙ m.entities;
  n_players = n.n_players ∙ m.n_players;
  n_friends = n.n_friends ∙ m.n_friends;
  board = n.board ∙ m.board;
  heap = λ u. Marked-trans (g.heap u) (h.heap u) (k.heap u) (m.heap u) (n.heap u);
}

pub mark_from-Marks : (dead k i : ℕ) (g : Game) → Marks g (mark_from dead k i g)
unfolding mark_from
mark_from-Marks dead zero i g = record {
  entities = refl;
  n_players = refl;
  n_friends = refl;
  board = refl;
  heap = λ u. inl refl;
}
mark_from-Marks dead (suc k) i g =
    Marks-trans (mark_one-Marks dead i g) (mark_from-Marks dead k (i + 1) (mark_one dead i g))

-- How many players and friends stand at the first places.
abbrev pub weight : Kind → Entity → ℕ
weight player e = if is_friend e.kind then 0 else 1
weight friend e = if is_friend e.kind then 1 else 0

pub record IsValid (g : Game) : Type 0 where
  pub distinct : (i j : ℕ) → i < size g → j < size g → g.entities i ≡ g.entities j → i ≡ j
  pub players : total (λ i. weight player (at g i)) (size g) ≡ g.n_players
  pub friends : total (λ i. weight friend (at g i)) (size g) ≡ g.n_friends

-- What `die` does at a place of the array.
pub record Dies (index : ℕ) (g g' : Game) : Type 0 where
  pub shrinks : size g' + 1 ≡ size g
  pub moved : (j : ℕ) → g'.entities j ≡ (if index == j then g.entities (size g') else g.entities j)
  pub board : g'.board ≡ g.board
  pub heap : (u : ℕ) → Marked (g.heap u) (g'.heap u)
  pub player_left : g'.n_players + weight player (at g index) ≡ g.n_players
  pub friend_left : g'.n_friends + weight friend (at g index) ≡ g.n_friends

counted :
    (g : Game) (i : ℕ)
    → IsValid g
    → i < size g
    → (weight player (at g i) ≤ g.n_players) × (weight friend (at g i) ≤ g.n_friends)
counted g i v lt = (
  omega (arith, v.players, le-total (λ j. weight player (at g j)) (size g) i lt),
  omega (arith, v.friends, le-total (λ j. weight friend (at g j)) (size g) i lt),
)

-- The counts after the death of an entity of a kind.
uncounted :
    (k : Kind) (g : Game)
    → ((uncount k g).entities ≡ g.entities)
      × ((uncount k g).heap ≡ g.heap)
      × ((uncount k g).board ≡ g.board)
      × ((uncount k g).n_players ≡ g.n_players - (if is_friend k then 0 else 1))
      × ((uncount k g).n_friends ≡ g.n_friends - (if is_friend k then 1 else 0))
unfolding uncount
uncounted player g = (refl, refl, refl, refl, omega arith)
uncounted friend g = (refl, refl, refl, omega arith, refl)

Marked-kind : (a b : Entity) → Marked a b → b.kind ≡ a.kind
Marked-kind a b m = ground arith

pub die-Dies : (index : ℕ) (g : Game) → IsValid g → index < size g → Dies index g (die index g)
unfolding die
die-Dies index g v lt = record {
  shrinks = shrinks;
  moved = λ j. ground (arith, u, m.entities);
  board = u.2 ∙ m.board;
  player_left = ground (arith, u, m.n_players, counted g index v lt, kind_kept);
  friend_left = ground (arith, u, m.n_friends, counted g index v lt, kind_kept);
  heap = λ a. subst (λ (h : ℕ → Entity). Marked (g.heap a) (h a)) (sym u.1) (m.heap a);
}
  where
    g' : Game
    g' = mark_from (g.entities index) (size g) 0 g

    m : Marks g g'
    m = mark_from-Marks (g.entities index) (size g) 0 g

    u :
        ((uncount (g'.heap (g.entities index)).kind g').entities ≡ g'.entities)
        × ((uncount (g'.heap (g.entities index)).kind g').heap ≡ g'.heap)
        × ((uncount (g'.heap (g.entities index)).kind g').board ≡ g'.board)
        × ((uncount (g'.heap (g.entities index)).kind g').n_players
            ≡ g'.n_players - (if is_friend (g'.heap (g.entities index)).kind then 0 else 1))
        × ((uncount (g'.heap (g.entities index)).kind g').n_friends
            ≡ g'.n_friends - (if is_friend (g'.heap (g.entities index)).kind then 1 else 0))
    u = uncounted (g'.heap (g.entities index)).kind g'

    kind_kept : (g'.heap (g.entities index)).kind ≡ (at g index).kind
    kind_kept = Marked-kind (at g index) (g'.heap (g.entities index)) (m.heap (g.entities index))

    shrinks : size (uncount (g'.heap (g.entities index)).kind g') + 1 ≡ size g
    shrinks = ground (arith, u, m.n_players, m.n_friends, counted g index v lt, kind_kept)

weight_kept : (k : Kind) (a b : Entity) → Marked a b → weight k b ≡ weight k a
weight_kept player a b m = ground arith
weight_kept friend a b m = ground arith

module _ {index : ℕ} {g g' : Game} (v : IsValid g) (d : Dies index g g') (lt : index < size g) where
  -- Which kinds stand at the places after the death.
  weights :
      (k : Kind) (j : ℕ)
      → weight k (at g' j) ≡ update (λ i. weight k (at g i)) index (weight k (at g (size g'))) j
  weights k j = elim (Bool-cases (index == j)) [
    | inl e ↦ rw e (lem (size g') (d.moved j ∙ rw e))
    | inr e ↦ rw e (lem j (d.moved j ∙ rw e))
  ]
    where
      lem : (i : ℕ) → g'.entities j ≡ g.entities i → weight k (at g' j) ≡ weight k (at g i)
      lem i e =
          rw (e, at)
            (weight_kept k (g.heap (g.entities i)) (g'.heap (g.entities i)) (d.heap (g.entities i)))

  left :
      (k : Kind)
      → total (λ i. weight k (at g' i)) (size g') + weight k (at g index)
        ≡ total (λ i. weight k (at g i)) (size g)
  left k =
      let n = size g' in
      let w = λ (i : ℕ). weight k (at g i) in
      let e : suc n ≡ size g = omega (arith, d.shrinks) in
      rw (total-ext (λ i. weight k (at g' i)) (update w index (w n)) n (λ i h. weights k i), ← e)
        (total-drop w n index (omega (arith, d.shrinks)))

  pub Dies-IsValid : IsValid g'
  Dies-IsValid = record {
    distinct = λ i j hi hj e. ground (
      arith,
      d.shrinks,
      d.moved i,
      d.moved j,
      v.distinct i j,
      v.distinct (size g') j,
      v.distinct i (size g'),
    );
    players = omega (arith, left player, v.players, d.player_left);
    friends = omega (arith, left friend, v.friends, d.friend_left);
  }
