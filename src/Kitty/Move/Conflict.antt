-- ===== src/Kitty/Move/Conflict.antt =====
-- The second half of `move_entities` of board.c: which entities move when all have chosen a
-- cell.
use my_enseirb_matmeca_proje.Base.{
  ℕ, zero, suc, ◌+◌, ◌≤◌, ◌<◌, ◌≡◌, ◌≢◌, refl, sym, ◌∙◌, ap, ap₂, subst, inl, inr, Bool, true,
  false, not, ◌||◌, ◌==◌, if◌then◌else◌, Bool-cases, arith, ℕ_discrete,
}
use my_enseirb_matmeca_proje.Kitty.Board.{Cell, cell_eq}
use my_enseirb_matmeca_proje.Kitty.Board.Cells.{cell_eq_refl}
use my_enseirb_matmeca_proje.Kitty.Entity.{Entity, Game, size, at}
use my_enseirb_matmeca_proje.Kitty.Move.{go_to, move_round, move_inner, move_outer, move_all}
use my_enseirb_matmeca_proje.Kitty.Round.Death.{IsValid}

-- One of the `k` choices from place `j` on is not the cell `c`.
unfoldable pub differs : (ℕ → Cell) → Cell → ℕ → ℕ → Bool
differs cells c zero j = false
differs cells c (suc k) j = not (cell_eq (cells j) c) || differs cells c k (j + 1)

-- The places, and the entities at other places than `i`.
record SameBut (i : ℕ) (g g' : Game) : Type 0 where
  entities : g'.entities ≡ g.entities
  size : size g' ≡ size g
  others : (u : ℕ) → g.entities i ≢ u → g'.heap u ≡ g.heap u

move_round-SameBut : (cells : ℕ → Cell) (i j : ℕ) (g : Game) → SameBut i g (move_round cells i j g)
unfolding move_round go_to
move_round-SameBut cells i j g = elim (Bool-cases (i == j || cell_eq (cells j) (cells i))) [
  | inl stay ↦ rw stay (record { entities = refl; size = refl; others = λ u h. refl })
  | inr go ↦ rw go (record { entities = refl; size = refl; others = λ u h. ground arith })
]

move_inner-SameBut :
    (cells : ℕ → Cell) (i k j : ℕ) (g : Game) → SameBut i g (move_inner cells i k j g)
unfolding move_inner
move_inner-SameBut cells i zero j g = record { entities = refl; size = refl; others = λ u h. refl }
move_inner-SameBut cells i (suc k) j g =
    let a = move_round-SameBut cells i j g in
    let b = move_inner-SameBut cells i k (j + 1) (move_round cells i j g) in
    record {
      entities = b.entities ∙ a.entities;
      size = b.size ∙ a.size;
      others = λ u h. b.others u (λ q. h (sym (ap (λ f. f i) a.entities) ∙ q)) ∙ a.others u h;
    }

move_round-at :
    (cells : ℕ → Cell) (i j : ℕ) (g : Game)
    → (at (move_round cells i j g) i).cell
      ≡ (if not (cell_eq (cells j) (cells i)) then cells i else (at g i).cell)
unfolding move_round go_to
move_round-at cells i j g = elim (ℕ_discrete i j) [
  | yes same ↦
      subst
        (λ k.
          (at (move_round cells i k g) i).cell
          ≡ (if not (cell_eq (cells k) (cells i)) then cells i else (at g i).cell))
        same (ground (arith, cell_eq_refl (cells i)))
  | no other ↦ ground arith
]

move_inner-at :
    (cells : ℕ → Cell) (i k j : ℕ) (g : Game)
    → (at (move_inner cells i k j g) i).cell
      ≡ (if differs cells (cells i) k j then cells i else (at g i).cell)
unfolding move_inner differs
move_inner-at cells i zero j g = refl
move_inner-at cells i (suc k) j g =
    move_inner-at cells i k (j + 1) (move_round cells i j g)
    ∙ ground (arith, move_round-at cells i j g)

move_outer-keeps :
    (cells : ℕ → Cell) (k i : ℕ) (g : Game)
    → ((move_outer cells k i g).entities ≡ g.entities) × (size (move_outer cells k i g) ≡ size g)
unfolding move_outer
move_outer-keeps cells zero i g = (refl, refl)
move_outer-keeps cells (suc k) i g =
    let a = move_inner-SameBut cells i (size g) 0 g in
    let b = move_outer-keeps cells k (i + 1) (move_inner cells i (size g) 0 g) in
    (b.0 ∙ a.entities, b.1 ∙ a.size)

move_outer-other :
    (cells : ℕ → Cell) (k i u : ℕ) (g : Game)
    → ((j : ℕ) → i ≤ j → j < i + k → g.entities j ≢ u)
    → (move_outer cells k i g).heap u ≡ g.heap u
unfolding move_outer
move_outer-other cells zero i u g h = refl
move_outer-other cells (suc k) i u g h =
    let a = move_inner-SameBut cells i (size g) 0 g in
    move_outer-other cells k (i + 1) u (move_inner cells i (size g) 0 g)
      (λ j lo hi q. h j (omega arith) (omega arith) (sym (ap (λ f. f j) a.entities) ∙ q))
    ∙ a.others u (h i (omega arith) (omega arith))

-- The array of pointers is `s`, of `n` places.
move_outer-at :
    (cells : ℕ → Cell) (s : ℕ → ℕ) (n k i : ℕ) (g : Game)
    → ((a b : ℕ) → a < i + k → b < i + k → s a ≡ s b → a ≡ b)
    → g.entities ≡ s
    → size g ≡ n
    → (t : ℕ) → i ≤ t
    → t < i + k
    → ((move_outer cells k i g).heap (s t)).cell
      ≡ (if differs cells (cells t) n 0 then cells t else (g.heap (s t)).cell)
unfolding move_outer
move_outer-at cells s n zero i g d es en t lo hi = absurd (omega arith)
move_outer-at cells s n (suc k) i g d es en t lo hi =
    let a = move_inner-SameBut cells i (size g) 0 g in
    let same : (j : ℕ) → (move_inner cells i (size g) 0 g).entities j ≡ s j =
      λ j. ap (λ f. f j) (a.entities ∙ es) in
    elim (ℕ_discrete i t) [
      | yes e ↦ rw (← e) (
          ap (λ x. x.cell)
            (move_outer-other cells k (i + 1) (s i) (move_inner cells i (size g) 0 g)
              (λ j lo' hi' q.
                absurd (omega (arith, d j i (omega arith) (omega arith) (sym (same j) ∙ q)))))
          ∙ ap (λ j. ((move_inner cells i (size g) 0 g).heap j).cell) (sym (same i))
          ∙ move_inner-at cells i (size g) 0 g
          ∙ ap₂ (λ m j. if differs cells (cells i) m 0 then cells i else (g.heap j).cell) en
              (ap (λ f. f i) es))
      | no ne ↦
          move_outer-at cells s n k (i + 1) (move_inner cells i (size g) 0 g)
            (λ a' b' ha hb q. d a' b' (omega arith) (omega arith) q) (a.entities ∙ es) (a.size ∙ en)
            t (omega arith) (omega arith)
          ∙ ap (λ e. if differs cells (cells t) n 0 then cells t else Entity.cell e)
              (a.others (s t)
                (λ q. ne (d i t (omega arith) (omega arith) (sym (ap (λ f. f i) es) ∙ q))))
    ]

-- Where the entity at place `t` stands in the end.
abbrev pub end_cell : (ℕ → Cell) → Game → ℕ → Cell
end_cell cells g t = if differs cells (cells t) (size g) 0 then cells t else (at g t).cell

-- When the entities of a valid game have chosen their cells, each of them stands in the end on the
-- cell it chose if at least one entity chose another cell, and stays where it was if all chose the
-- same; no entity enters or leaves.
pub move_all_lem :
    (cells : ℕ → Cell) (g : Game) (t : ℕ)
    → IsValid g
    → t < size g
    → let g' = move_all cells g in
      ((g'.heap (g.entities t)).cell ≡ end_cell cells g t)
      × (g'.entities ≡ g.entities)
      × (size g' ≡ size g)
unfolding move_all
move_all_lem cells g t v lt = (
  move_outer-at cells g.entities (size g) (size g) 0 g
      (λ a b ha hb q. v.distinct a b (omega arith) (omega arith) q) refl refl t (omega arith)
      (omega arith),
  (move_outer-keeps cells (size g) 0 g).0,
  (move_outer-keeps cells (size g) 0 g).1,
)

-- In a valid game two entities that chose the same cell both end on it as soon as any entity chose
-- another one: the loop that looks for a conflict does not stop either of them.
pub move_collision :
    (cells : ℕ → Cell) (g : Game) (a b : ℕ)
    → IsValid g
    → a < size g
    → b < size g
    → cells a ≡ cells b
    → differs cells (cells a) (size g) 0 ≡ true
    → let g' = move_all cells g in ((at g' a).cell ≡ cells a) × ((at g' b).cell ≡ cells a)
move_collision cells g a b v la lb same third =
    let (ha, ea, x) = move_all_lem cells g a v la in
    let (hb, eb, y) = move_all_lem cells g b v lb in
    (
      ap (λ e. ((move_all cells g).heap (e a)).cell) ea ∙ ha ∙ rw third refl,
      ap (λ e. ((move_all cells g).heap (e b)).cell) eb ∙ hb ∙ rw (← same, third) refl,
    )
