-- ===== src/Kitty/Entity/Select.antt =====
-- What `select_card` of entity.c selects.
use my_enseirb_matmeca_proje.Base.{
  ℕ, zero, suc, ◌+◌, ◌<◌, ◌≡◌, inl, inr, List, [], ◌∷◌, length, get_or, Option, none, some, arith,
  Bool-cases, subst,
}
use my_enseirb_matmeca_proje.Base.Int.{ℤ, pos, leb_ℤ, ◌≤ℤ◌, ◌<ℤ◌}
use my_enseirb_matmeca_proje.Kitty.Cards.{Card, hell, cost}
use my_enseirb_matmeca_proje.Kitty.Entity.{Entity, first_playable, select_card}

-- What `first_playable` finds, from index `i` on.
pub data Selected (hand : List Card) (mana : ℤ) (i : ℕ) : Option ℕ → Type 0 where
  nothing :
      ((j : ℕ) → j < length hand → mana <ℤ pos (cost (get_or hand j hell)))
      → Selected hand mana i none
  found :
      (j : ℕ)
      → j < length hand
      → pos (cost (get_or hand j hell)) ≤ℤ mana
      → ((k : ℕ) → k < j → mana <ℤ pos (cost (get_or hand k hell)))
      → Selected hand mana i (some (i + j))

skip-Selected :
    {hand : List Card} {mana : ℤ} {i : ℕ} {o : Option ℕ} (c : Card)
    → mana <ℤ pos (cost c)
    → Selected hand mana (i + 1) o
    → Selected (c ∷ hand) mana i o
skip-Selected {hand} {mana} {i} c dear (nothing all) = nothing later
  where
    later : (j : ℕ) → j < length (c ∷ hand) → mana <ℤ pos (cost (get_or (c ∷ hand) j hell))
    later zero lt = dear
    later (suc j) lt = all j (omega arith)
skip-Selected {hand} {mana} {i} c dear (found j lt ok before) =
    let e : i + suc j ≡ i + 1 + j = omega arith in
    subst (λ n. Selected (c ∷ hand) mana i (some n)) e (found (suc j) (omega arith) ok later)
  where
    later : (k : ℕ) → k < suc j → mana <ℤ pos (cost (get_or (c ∷ hand) k hell))
    later zero lt' = dear
    later (suc k) lt' = before k (omega arith)

first_playable-Selected :
    (hand : List Card) (mana : ℤ) (i : ℕ) → Selected hand mana i (first_playable hand mana i)
unfolding first_playable
first_playable-Selected [] mana i = nothing (λ j lt. absurd (omega arith))
first_playable-Selected (c ∷ hand) mana i = elim (Bool-cases (leb_ℤ (pos (cost c)) mana)) [
  | inl ok ↦
      let e : i + 0 ≡ i = omega arith in
      rw ok (
        subst (λ n. Selected (c ∷ hand) mana i (some n)) e
          (found 0 (omega arith) (ground arith) (λ k lt. absurd (omega arith))))
  | inr dear ↦ rw dear (skip-Selected c (ground arith) (first_playable-Selected hand mana (i + 1)))
]

-- `select_card` returns the first place of the hand whose card costs no more than the player's
-- mana, and -1 exactly if every card costs more.
pub select_card-Selected : (p : Entity) → Selected p.hand p.mana 0 (select_card p)
unfolding select_card
select_card-Selected p = first_playable-Selected p.hand p.mana 0
