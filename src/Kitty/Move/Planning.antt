-- ===== src/Kitty/Move/Planning.antt =====
-- The first half of `move_entities` of board.c: the choices, and the deaths of those that have
-- none.
use my_enseirb_matmeca_proje.Base.{
  update, ℕ, zero, suc, ◌+◌, ◌≤◌, ◌<◌, ◌≡◌, refl, ap, sym, subst, ◌∙◌, inl, inr, true, false, ◌==◌,
  ltb, Bool-cases, dec_lt, arith, if_both,
}
use my_enseirb_matmeca_proje.Base.Int.{negsuc, eqb_ℤ}
use my_enseirb_matmeca_proje.Kitty.Random.{Rng}
use my_enseirb_matmeca_proje.Kitty.Board.{Cell}
use my_enseirb_matmeca_proje.Kitty.Entity.{Entity, Game, size, at}
use my_enseirb_matmeca_proje.Kitty.Round.{die}
use my_enseirb_matmeca_proje.Kitty.Round.Death.{Marked, IsValid, die-Dies, Dies-IsValid}
use my_enseirb_matmeca_proje.Kitty.Move.{
  Plan, skips, choose_move, settle_move, plan_round, plan_from,
}

-- A cell that is not -1, which stands for no move.
abbrev pub IsChosen : Cell → Type 0
IsChosen c = eqb_ℤ c.x (negsuc 0) ≡ false

pub record IsPlanned (p : Plan) : Type 0 where
  pub valid : IsValid p.game
  pub placed : (i : ℕ) → i < size p.game → IsChosen (at p.game i).cell
  pub chosen : (j : ℕ) → j < p.place → IsChosen (p.cells j)

-- A round is at the next place, or leaves one entity less.
abbrev Advances : Plan → Plan → Type 0
Advances p q = size q.game + p.place + 1 ≡ size p.game + q.place

abbrev Ended : Plan → Type 0
Ended q = size q.game ≤ q.place

Marked-cell : (a b : Entity) → Marked a b → b.cell ≡ a.cell
Marked-cell a b m = ground arith

-- What is written at the place of the loop, when it goes on.
write_choice :
    (cells : ℕ → Cell) (i : ℕ) (c : Cell)
    → ((j : ℕ) → j < i → IsChosen (cells j))
    → IsChosen c
    → (j : ℕ) → j < i + 1
    → IsChosen (update cells i c j)
write_choice cells i c h hc j lt = elim (Bool-cases (i == j)) [
  | inl e ↦ rw e hc
  | inr e ↦ rw e (h j (ground arith))
]

update_below :
    (cells : ℕ → Cell) (i j : ℕ) (c : Cell) (n : ℕ)
    → j < i
    → update (update cells i c) i (update cells i c n) j ≡ cells j
update_below cells i j c n h = let e : (i == j) ≡ false = ground arith in rw e refl

settle-IsPlanned :
    (c : Cell) (r : Rng) (p : Plan)
    → IsPlanned p
    → p.place < size p.game
    → IsPlanned (settle_move c r p) × Advances p (settle_move c r p)
unfolding settle_move
settle-IsPlanned c r p v lt = elim (Bool-cases (eqb_ℤ c.x (negsuc 0))) [
  | inr go ↦ rw go (
    record {
      valid = v.valid;
      placed = v.placed;
      chosen = write_choice p.cells p.place c v.chosen go;
    },
    omega arith,
  )
  | inl stuck ↦
      let d = die-Dies p.place p.game v.valid lt in
      let g' : Game = die p.place p.game in
      let kept : (i : ℕ) → i < size p.game → IsChosen (g'.heap (p.game.entities i)).cell =
        λ i h. subst IsChosen (sym (Marked-cell _ _ (d.heap (p.game.entities i)))) (v.placed i h) in
      rw stuck (
        record {
          valid = Dies-IsValid v.valid d lt;
          placed = λ j h.
              subst (λ u. IsChosen (g'.heap u).cell) (sym (d.moved j))
                (if_both (λ u. IsChosen (g'.heap u).cell) (p.place == j) _ _
                  (kept (size g') (omega (arith, d.shrinks))) (kept j (omega (arith, d.shrinks))));
          chosen = λ j h.
              subst IsChosen (sym (update_below p.cells p.place j c (size (die p.place p.game)) h))
                (v.chosen j h);
        },
        omega (arith, d.shrinks),
      )
]

plan_round-IsPlanned :
    (p : Plan)
    → IsPlanned p
    → p.place < size p.game
    → IsPlanned (plan_round p) × Advances p (plan_round p)
unfolding plan_round
plan_round-IsPlanned p v lt = elim (Bool-cases (skips (at p.game p.place))) [
  | inl s ↦ rw s (
    record {
      valid = v.valid;
      placed = v.placed;
      chosen = write_choice p.cells p.place (at p.game p.place).cell v.chosen (v.placed p.place lt);
    },
    omega arith,
  )
  | inr s ↦ rw s (settle-IsPlanned choice.0 choice.1 p v lt)
]
  where
    choice : Cell × Rng
    choice = choose_move (at p.game p.place).kind (at p.game p.place) p.game p.rng

plan_from-done : (fuel : ℕ) (p : Plan) → size p.game ≤ p.place → plan_from fuel p ≡ p
unfolding plan_from
plan_from-done zero p h = refl
plan_from-done (suc fuel) p h =
    let e : ltb p.place (size p.game) ≡ false = ground arith in rw e refl

plan_from-suc :
    (fuel : ℕ) (p : Plan)
    → p.place < size p.game
    → plan_from (suc fuel) p ≡ plan_from fuel (plan_round p)
unfolding plan_from
plan_from-suc fuel p h = let e : ltb p.place (size p.game) ≡ true = ground arith in rw e refl

-- With fuel for the places that are left the loop ends, and more fuel changes nothing.
plan_from-IsPlanned :
    (fuel more : ℕ) (p : Plan)
    → IsPlanned p
    → size p.game ≤ p.place + fuel
    → let q = plan_from fuel p in IsPlanned q × Ended q × (plan_from (fuel + more) p ≡ q)
plan_from-IsPlanned zero more p v enough =
    let done : (k : ℕ) → plan_from k p ≡ p = λ k. plan_from-done k p (omega arith) in
    (
      subst IsPlanned (sym (done 0)) v,
      subst Ended (sym (done 0)) (omega arith),
      done (0 + more) ∙ sym (done 0),
    )
plan_from-IsPlanned (suc fuel) more p v enough = elim (dec_lt p.place (size p.game)) [
  | yes inside ↦
      let (w, a) = plan_round-IsPlanned p v inside in
      let (x, y, z) = plan_from-IsPlanned fuel more (plan_round p) w (omega arith) in
      let e = plan_from-suc fuel p inside in
      (
        subst IsPlanned (sym e) x,
        subst Ended (sym e) y,
        ap (λ k. plan_from k p) (omega arith) ∙ plan_from-suc (fuel + more) p inside ∙ z ∙ sym e,
      )
  | no past ↦
      let done : (k : ℕ) → plan_from k p ≡ p = λ k. plan_from-done k p (omega arith) in
      (
        subst IsPlanned (sym (done (suc fuel))) v,
        subst Ended (sym (done (suc fuel))) (omega arith),
        done (suc fuel + more) ∙ sym (done (suc fuel)),
      )
]

-- From a valid game whose entities stand on cells other than -1, the first half of `move_entities`
-- ends, in as many rounds as there are entities at most: more fuel changes nothing. The game is valid
-- after it, and every entity that is left has a choice, which is not -1.
pub plan_from-total :
    (stack : ℕ → Cell) (g : Game) (r : Rng) (more : ℕ)
    → IsValid g
    → ((i : ℕ) → i < size g → IsChosen (at g i).cell)
    → let begin : Plan = record { cells = stack; game = g; rng = r; place = 0 } in
      let p = plan_from (size g) begin in
      IsValid p.game
      × ((j : ℕ) → j < size p.game → IsChosen (p.cells j))
      × (plan_from (size g + more) begin ≡ p)
plan_from-total stack g r more v placed =
    let begin : Plan = record { cells = stack; game = g; rng = r; place = 0 } in
    let start : IsPlanned begin = record {
      valid = v;
      placed = placed;
      chosen = λ j h. absurd (omega arith);
    } in
    let (q, ended, same) = plan_from-IsPlanned (size g) more begin start (omega arith) in
    (q.valid, λ j h. q.chosen j (omega arith), same)
